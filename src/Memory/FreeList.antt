-- ===== src/Memory/FreeList.antt =====
-- src/core/common/memory/free_list.hpp. The list threads the free blocks through their own first
-- words; here it is the list of their addresses from `head_` on, with the count that the class keeps.
use v2_engine.Common.{
  ℕ, zero, suc, ◌+◌, ◌-◌, ◌≡◌, refl, ap, Bool, true, false, Option, none, some, List, [], ◌∷◌,
  length, arith, take, drop,
}

pub record FreeList : Type 0 where
  pub blocks : List ℕ
  pub count : ℕ

abbrev pub empty_list : FreeList
empty_list = record { blocks = []; count = 0 }

unfoldable pub push : ℕ → FreeList → FreeList
push block f = record { blocks = block ∷ f.blocks; count = suc f.count }

unfoldable pub push_batch : List ℕ → FreeList → FreeList
unfolding push
push_batch [] f = f
push_batch (b ∷ bs) f = push_batch bs (push b f)

-- `--count_` runs only where a block is there.
unfoldable pub pop : FreeList → Option ℕ × FreeList
pop f = elim f.blocks [
  | [] ↦ (none, f)
  | b ∷ bs ↦ (some b, record { blocks = bs; count = f.count - 1 })
]

unfoldable pub pop_batch : ℕ → FreeList → List ℕ × FreeList
unfolding pop
pop_batch zero f = ([], f)
pop_batch (suc n) f = elim (pop f).0 [
  | none ↦ ([], f)
  | some b ↦ let (bs, rest) = pop_batch n (pop f).1 in (b ∷ bs, rest)
]

unfoldable pub is_empty : FreeList → Bool
is_empty f = elim f.blocks [ [] ↦ true | b ∷ bs ↦ false ]

-- The count that is kept is the number of blocks.
abbrev pub Counted : FreeList → Type 0
Counted f = f.count ≡ length f.blocks

pub push-Counted : (b : ℕ) (f : FreeList) → Counted f → Counted (push b f)
unfolding push
push-Counted b f h = omega arith

pub push_batch-Counted : (bs : List ℕ) (f : FreeList) → Counted f → Counted (push_batch bs f)
unfolding push_batch
push_batch-Counted [] f h = h
push_batch-Counted (b ∷ bs) f h = push_batch-Counted bs (push b f) (push-Counted b f h)

pub length-push_batch :
    (bs : List ℕ) (f : FreeList) → length (push_batch bs f).blocks ≡ length bs + length f.blocks
unfolding push_batch
length-push_batch [] f = omega arith
length-push_batch (b ∷ bs) f = omega (arith, length-push_batch bs (push b f))

-- Where the kept count is the number of blocks, a batch is a prefix of the list, the rest stays, and
-- the count goes with it.
pub pop_batch-take :
    (n : ℕ) (bs : List ℕ) (c : ℕ)
    → c ≡ length bs
    → let (out, rest) = pop_batch n (record { blocks = bs; count = c }) in
      (out ≡ take n bs) × (rest.blocks ≡ drop n bs) × Counted rest
unfolding pop_batch
pop_batch-take zero bs c h = (refl, refl, h)
pop_batch-take (suc n) [] c h = (refl, refl, h)
pop_batch-take (suc n) (b ∷ bs) c h =
    let (out, rest, counted) = pop_batch-take n bs (c - 1) (omega arith) in
    (ap (◌∷◌ b) out, rest, counted)
