-- ===== src/Common/Sets.antt =====
-- `std::unordered_set` as a list without repetitions. The code never depends on the order of
-- iteration.
use mathlib.Core.Path.{◌≡◌, refl}
use mathlib.Core.Bool.{Bool, true, false}
use mathlib.Core.List.{List, [], ◌∷◌}
use Prim.Native.Nat.{ℕ, ◌+◌}
use native.Mathlib.Omega.{arith}
use v2_engine.Common.Tests.{◌==◌, if◌then◌else◌}

unfoldable pub member : ℕ → List ℕ → Bool
member a [] = false
member a (x ∷ xs) = let rest = member a xs in if x == a then true else rest

unfoldable pub insert : ℕ → List ℕ → List ℕ
unfolding member
insert a xs = if member a xs then xs else a ∷ xs

unfoldable pub erase : ℕ → List ℕ → List ℕ
erase a [] = []
erase a (x ∷ xs) = let rest = erase a xs in if x == a then rest else x ∷ rest

-- How often a number stands in a list.
unfoldable pub count : ℕ → List ℕ → ℕ
count a [] = 0
count a (x ∷ xs) = let rest = count a xs in (if x == a then 1 else 0) + rest

pub member-erase :
    (a b : ℕ) (xs : List ℕ) → member b (erase a xs) ≡ (if a == b then false else member b xs)
unfolding member erase
member-erase a b [] = ground arith
member-erase a b (x ∷ xs) = ground (arith, member-erase a b xs)

pub member-insert :
    (a b : ℕ) (xs : List ℕ) → member b (insert a xs) ≡ (if a == b then true else member b xs)
unfolding member insert
member-insert a b xs = ground arith

pub count-erase :
    (a b : ℕ) (xs : List ℕ) → count b (erase a xs) ≡ (if a == b then 0 else count b xs)
unfolding count erase
count-erase a b [] = ground arith
count-erase a b (x ∷ xs) = ground (arith, count-erase a b xs)

pub count-absent : (a : ℕ) (xs : List ℕ) → member a xs ≡ false → count a xs ≡ 0
unfolding count member
count-absent a [] absent = refl
count-absent a (x ∷ xs) absent = ground (arith, count-absent a xs)
