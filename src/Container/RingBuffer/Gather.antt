-- ===== src/Container/RingBuffer/Gather.antt =====
-- Lists given by their entries, and what `blit` and `slice` do to the entries.
use v2_engine.Common.{
  ℕ, zero, suc, ◌+◌, ◌≤◌, ◌<◌, ◌≡◌, refl, ap, ap₂, ◌∙◌, List, [], ◌∷◌, ◌++◌, length, get_or, set,
  take, drop, ◌==◌, if◌then◌else◌, arith, length-set, ◌⊎◌, inl,
}
use v2_engine.Container.RingBuffer.{blit, slice}

unfoldable pub gather : (ℕ → ℕ) → ℕ → List ℕ
gather f zero = []
gather f (suc n) = f 0 ∷ gather (λ i. f (suc i)) n

pub gather_ext : (n : ℕ) (f g : ℕ → ℕ) → ((i : ℕ) → i < n → f i ≡ g i) → gather f n ≡ gather g n
unfolding gather
gather_ext zero f g h = refl
gather_ext (suc n) f g h =
    ap₂ ◌∷◌ (h 0 (omega arith))
      (gather_ext n (λ i. f (suc i)) (λ i. g (suc i)) (λ i lt. h (suc i) (omega arith)))

pub gather-add : (m n : ℕ) (f : ℕ → ℕ) → gather f (m + n) ≡ gather f m ++ gather (λ i. f (m + i)) n
unfolding gather
gather-add zero n f =
    ap (gather f) (omega arith) ∙ gather_ext n f (λ i. f (0 + i)) (λ i lt. ap f (omega arith))
gather-add (suc m) n f =
    let step : gather f (suc m + n) ≡ gather f (suc (m + n)) =
      ap (gather f) {y = suc (m + n)} (omega arith) in
    step
    ∙ ap (◌∷◌ (f 0)) (
        gather-add m n (λ i. f (suc i))
        ∙ ap (◌++◌ (gather (λ i. f (suc i)) m))
            (gather_ext n (λ i. f (suc (m + i))) (λ i. f (suc m + i)) (λ i lt. ap f (omega arith))))

pub length-gather : (n : ℕ) (f : ℕ → ℕ) → length (gather f n) ≡ n
unfolding gather
length-gather zero f = refl
length-gather (suc n) f = ap suc (length-gather n (λ i. f (suc i)))

pub take-gather : (n : ℕ) (xs : List ℕ) → n ≤ length xs → take n xs ≡ gather (λ i. get_or xs i 0) n
unfolding gather
take-gather zero xs h = refl
take-gather (suc n) [] h = absurd (omega arith)
take-gather (suc n) (x ∷ xs) h = ap (◌∷◌ x) (take-gather n xs (omega arith))

pub get_or-drop : (n i : ℕ) (xs : List ℕ) → get_or (drop n xs) i 0 ≡ get_or xs (n + i) 0
get_or-drop zero i xs = ap (λ k. get_or xs k 0) (omega arith)
get_or-drop (suc n) i [] = refl
get_or-drop (suc n) i (x ∷ xs) =
    get_or-drop n i xs ∙ ap (λ k. get_or (x ∷ xs) k 0) {x = suc (n + i)} (omega arith)

pub get_or-take : (n i : ℕ) (xs : List ℕ) → i < n → get_or (take n xs) i 0 ≡ get_or xs i 0
get_or-take zero i xs h = absurd (omega arith)
get_or-take (suc n) i [] h = refl
get_or-take (suc n) zero (x ∷ xs) h = refl
get_or-take (suc n) (suc i) (x ∷ xs) h = get_or-take n i xs (omega arith)

pub slice-gather :
    (xs : List ℕ) (at n : ℕ)
    → at + n ≤ length xs
    → slice xs at n ≡ gather (λ i. get_or xs (at + i) 0) n
unfolding slice
slice-gather xs at n h =
    take-gather n (drop at xs) (length_drop_room at xs h)
    ∙ gather_ext n (λ i. get_or (drop at xs) i 0) (λ i. get_or xs (at + i) 0)
        (λ i lt. get_or-drop at i xs)
  where
    length_drop_room : (k : ℕ) (ys : List ℕ) → k + n ≤ length ys → n ≤ length (drop k ys)
    length_drop_room zero ys q = omega arith
    length_drop_room (suc k) [] q = absurd (omega arith)
    length_drop_room (suc k) (y ∷ ys) q = length_drop_room k ys (omega arith)

get_or-set :
    (xs : List ℕ) (i j v : ℕ)
    → i < length xs
    → get_or (set xs i v) j 0 ≡ (if j == i then v else get_or xs j 0)
get_or-set [] i j v h = absurd (omega arith)
get_or-set (x ∷ xs) zero zero v h = refl
get_or-set (x ∷ xs) zero (suc j) v h = ground arith
get_or-set (x ∷ xs) (suc i) zero v h = ground arith
get_or-set (x ∷ xs) (suc i) (suc j) v h = ground (arith, get_or-set xs i j v)

pub length-blit : (xs : List ℕ) (at : ℕ) (ys : List ℕ) → length (blit xs at ys) ≡ length xs
unfolding blit
length-blit xs at [] = refl
length-blit xs at (y ∷ ys) = length-blit (set xs at y) (suc at) ys ∙ length-set xs at y

pub get_or-blit_outside :
    (xs : List ℕ) (at : ℕ) (ys : List ℕ) (j : ℕ)
    → at + length ys ≤ length xs
    → (j < at) ⊎ (at + length ys ≤ j)
    → get_or (blit xs at ys) j 0 ≡ get_or xs j 0
unfolding blit
get_or-blit_outside xs at [] j h out = refl
get_or-blit_outside xs at (y ∷ ys) j h out =
    get_or-blit_outside (set xs at y) (suc at) ys j (omega (arith, length-set xs at y))
      (grind arith)
    ∙ ground (arith, get_or-set xs at j y)

pub get_or-blit_inside :
    (xs : List ℕ) (at : ℕ) (ys : List ℕ) (i : ℕ)
    → at + length ys ≤ length xs
    → i < length ys
    → get_or (blit xs at ys) (at + i) 0 ≡ get_or ys i 0
unfolding blit
get_or-blit_inside xs at [] i h lt = absurd (omega arith)
get_or-blit_inside xs at (y ∷ ys) zero h lt =
    get_or-blit_outside (set xs at y) (suc at) ys (at + 0) (omega (arith, length-set xs at y))
      (inl (omega arith))
    ∙ ground (arith, get_or-set xs at (at + 0) y)
get_or-blit_inside xs at (y ∷ ys) (suc i) h lt =
    ap (λ k. get_or (blit (set xs at y) (suc at) ys) k 0) (omega arith)
    ∙ get_or-blit_inside (set xs at y) (suc at) ys i (omega (arith, length-set xs at y))
        (omega arith)
