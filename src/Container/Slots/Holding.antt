-- ===== src/Container/Slots/Holding.antt =====
-- When a queue of slots holds a list of elements, and what claiming and vacating a slot do to it.
use v2_engine.Common.{
  ℕ, zero, suc, ◌+◌, ◌-◌, ◌%◌, ◌^◌, ◌≤◌, ◌<◌, ◌≡◌, ◌∙◌, sym, subst, none, some, List, [], ◌∷◌, ◌++◌,
  length, update, update_ne, arith,
}
use v2_engine.Common.Modular.{mod_ne}
use v2_engine.Container.Slots.{Slot, Slots, behind, level, ahead, diff}

-- For positions short of `2 ^ 63` the signed difference is that of the numbers.
pub diff_level : (seq pos : ℕ) → seq ≡ pos → diff seq pos ≡ level
unfolding diff
diff_level seq pos e = ground arith

pub diff_behind : (seq pos : ℕ) → seq < pos → pos < 2 ^ 63 → diff seq pos ≡ behind
unfolding diff
diff_behind seq pos h k = ground arith

pub diff_ahead : (seq pos : ℕ) → pos < seq → seq < 2 ^ 63 → diff seq pos ≡ ahead
unfolding diff
diff_ahead seq pos h k = ground arith

module _ {ℓ} {A : Type ℓ} where
  -- The slots from position `p` on hold the list, each with the sequence of a full slot.
  abbrev pub Filled : (ℕ → Slot A) → ℕ → ℕ → List A → Type ℓ
  Filled slot cap p [] = Unit
  Filled slot cap p (x ∷ xs) =
      (slot (p % cap) ≡ record { sequence = suc p; element = some x }) × Filled slot cap (suc p) xs

  -- The `n` slots from position `p` on wait for a producer.
  abbrev pub Vacant : (ℕ → Slot A) → ℕ → ℕ → ℕ → Type ℓ
  Vacant slot cap p zero = Unit
  Vacant slot cap p (suc n) =
      (slot (p % cap) ≡ record { sequence = p; element = none }) × Vacant slot cap (suc p) n

  -- No position reaches `2 ^ 63`, so no sequence wraps.
  pub record Holds (q : Slots A) (xs : List A) : Type ℓ where
    pub two : 2 ≤ q.capacity
    pub room : length xs ≤ q.capacity
    pub last : q.tail ≡ q.head + length xs
    pub small : q.tail + q.capacity < 2 ^ 63
    pub filled : Filled q.slot q.capacity q.head xs
    pub vacant : Vacant q.slot q.capacity q.tail (q.capacity - length xs)

  pub Filled-update :
      (slot : ℕ → Slot A) (cap p t : ℕ) (xs : List A) (s : Slot A)
      → (p + length xs ≤ t)
      → t < p + cap
      → Filled slot cap p xs
      → Filled (update slot (t % cap) s) cap p xs
  Filled-update slot cap p t [] s h k f = tt
  Filled-update slot cap p t (x ∷ xs) s h k f = (
    update_ne slot (t % cap) (p % cap) s (mod_ne p t cap (omega arith) k) ∙ f.0,
    Filled-update slot cap (suc p) t xs s (omega arith) (omega arith) f.1,
  )

  pub Filled-append :
      (slot : ℕ → Slot A) (cap p t : ℕ) (xs : List A) (x : A)
      → p + length xs ≡ t
      → Filled slot cap p xs
      → slot (t % cap) ≡ record { sequence = suc t; element = some x }
      → Filled slot cap p (xs ++ x ∷ [])
  Filled-append slot cap p t [] x e f h = (
    subst (λ k. slot (k % cap) ≡ record { sequence = suc k; element = some x }) (the_position) h,
    tt,
  )
    where
      the_position : t ≡ p
      the_position = omega arith
  Filled-append slot cap p t (y ∷ ys) x e f h =
      (f.0, Filled-append slot cap (suc p) t ys x (omega arith) f.1 h)

  pub Vacant-update :
      (slot : ℕ → Slot A) (cap p t n : ℕ) (s : Slot A)
      → t < p
      → p + n ≤ t + cap
      → Vacant slot cap p n
      → Vacant (update slot (t % cap) s) cap p n
  Vacant-update slot cap p t zero s h k v = tt
  Vacant-update slot cap p t (suc n) s h k v = (
    update_ne slot (t % cap) (p % cap) s (λ e. mod_ne t p cap h (omega arith) (sym e)) ∙ v.0,
    Vacant-update slot cap (suc p) t n s (omega arith) (omega arith) v.1,
  )

  pub Vacant-append :
      (slot : ℕ → Slot A) (cap p t n : ℕ)
      → p + n ≡ t
      → Vacant slot cap p n
      → slot (t % cap) ≡ record { sequence = t; element = none }
      → Vacant slot cap p (suc n)
  Vacant-append slot cap p t zero e v h =
      (subst (λ k. slot (k % cap) ≡ record { sequence = k; element = none }) the_position h, tt)
    where
      the_position : t ≡ p
      the_position = omega arith
  Vacant-append slot cap p t (suc n) e v h =
      (v.0, Vacant-append slot cap (suc p) t n (omega arith) v.1 h)

  pub Filled-update_before :
      (slot : ℕ → Slot A) (cap p t : ℕ) (xs : List A) (s : Slot A)
      → t < p
      → p + length xs ≤ t + cap
      → Filled slot cap p xs
      → Filled (update slot (t % cap) s) cap p xs
  Filled-update_before slot cap p t [] s h k f = tt
  Filled-update_before slot cap p t (x ∷ xs) s h k f = (
    update_ne slot (t % cap) (p % cap) s (λ e. mod_ne t p cap h (omega arith) (sym e)) ∙ f.0,
    Filled-update_before slot cap (suc p) t xs s (omega arith) (omega arith) f.1,
  )

  pub Vacant-length :
      (slot : ℕ → Slot A) (cap p m n : ℕ) → m ≡ n → Vacant slot cap p m → Vacant slot cap p n
  Vacant-length slot cap p m n e v = subst (Vacant slot cap p) e v
