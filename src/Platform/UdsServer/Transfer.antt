-- ===== src/Platform/UdsServer/Transfer.antt =====
-- What the loops of uds_server.cpp deliver.
use v2_engine.Common.{
  ℕ, zero, suc, ◌+◌, ◌≤◌, ◌≡◌, Bool, true, false, List, [], ◌∷◌, ◌++◌, arith, refl, sym, ap, ap₂,
  ◌∙◌, length, length-drop, take, drop,
}
use mathlib.Core.List.{append_assoc, append-nil}
use v2_engine.Platform.UdsServer.{ok, Answer, done, interrupted, refused, returned, send}

take-append-drop {ℓ} : {A : Type ℓ} (n : ℕ) (xs : List A) → take n xs ++ drop n xs ≡ xs
take-append-drop zero xs = refl
take-append-drop (suc n) [] = refl
take-append-drop (suc n) (x ∷ xs) = ap (λ t. x ∷ t) (take-append-drop n xs)

-- How many bytes the kernel takes at most, and whether it ever refuses.
abbrev pub room : List Answer → ℕ
room [] = 0
room (done n ∷ answers) = n + room answers
room (interrupted ∷ answers) = room answers
room (refused ∷ answers) = room answers

abbrev pub willing : List Answer → Bool
willing [] = true
willing (done n ∷ answers) = willing answers
willing (interrupted ∷ answers) = willing answers
willing (refused ∷ answers) = false

-- The bytes that are left when the loop stops.
left : List Answer → List ℕ → List ℕ
left answers [] = []
left [] (x ∷ xs) = x ∷ xs
left (done n ∷ answers) (x ∷ xs) = left answers (drop n (x ∷ xs))
left (interrupted ∷ answers) (x ∷ xs) = left answers (x ∷ xs)
left (refused ∷ answers) (x ∷ xs) = x ∷ xs

send-left : (answers : List Answer) (xs : List ℕ) → (send answers xs).1 ++ left answers xs ≡ xs
unfolding send left
send-left [] [] = refl
send-left (a ∷ answers) [] = refl
send-left [] (x ∷ xs) = refl
send-left (done n ∷ answers) (x ∷ xs) =
    append_assoc (take n (x ∷ xs)) (send answers (drop n (x ∷ xs))).1
      (left answers (drop n (x ∷ xs)))
    ∙ ap (λ t. take n (x ∷ xs) ++ t) (send-left answers (drop n (x ∷ xs)))
    ∙ take-append-drop n (x ∷ xs)
send-left (interrupted ∷ answers) (x ∷ xs) = send-left answers (x ∷ xs)
send-left (refused ∷ answers) (x ∷ xs) = refl

left-ok :
    (answers : List Answer) (xs : List ℕ) → (send answers xs).0 ≡ returned ok → left answers xs ≡ []
unfolding send left
left-ok [] [] e = refl
left-ok (a ∷ answers) [] e = refl
left-ok [] (x ∷ xs) e = cc
left-ok (done n ∷ answers) (x ∷ xs) e = left-ok answers (drop n (x ∷ xs)) e
left-ok (interrupted ∷ answers) (x ∷ xs) e = left-ok answers (x ∷ xs) e
left-ok (refused ∷ answers) (x ∷ xs) e = cc

send-ends :
    (answers : List Answer) (xs : List ℕ)
    → willing answers ≡ true
    → length xs ≤ room answers
    → (send answers xs).0 ≡ returned ok
unfolding send
send-ends [] [] w h = refl
send-ends (a ∷ answers) [] w h = refl
send-ends [] (x ∷ xs) w h = absurd (omega arith)
send-ends (done n ∷ answers) (x ∷ xs) w h =
    send-ends answers (drop n (x ∷ xs)) w (omega (arith, length-drop n (x ∷ xs)))
send-ends (interrupted ∷ answers) (x ∷ xs) w h = send-ends answers (x ∷ xs) w h
send-ends (refused ∷ answers) (x ∷ xs) w h = cc

-- If the kernel never refuses and takes, in pieces of any sizes and between any number of
-- interruptions, at least as many bytes as there are, then `send` answers `Ok` and the kernel has got
-- exactly the data, in order.
pub send-delivers :
    (answers : List Answer) (xs : List ℕ)
    → willing answers ≡ true
    → length xs ≤ room answers
    → send answers xs ≡ (returned ok, xs)
send-delivers answers xs w h =
    let e = send-ends answers xs w h in
    let all =
      sym (append-nil (send answers xs).1)
      ∙ ap (λ t. (send answers xs).1 ++ t) (sym (left-ok answers xs e))
      ∙ send-left answers xs in
    ap₂ (λ a b. (a, b)) e all
