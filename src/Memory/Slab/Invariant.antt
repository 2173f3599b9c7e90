-- ===== src/Memory/Slab/Invariant.antt =====
-- The accounting of a slab: every block is either used or free, and the state says which are.
use v2_engine.Common.{
  ℕ, zero, suc, ◌+◌, ◌-◌, ◌/◌, ◌^◌, ◌<◌, ◌≡◌, refl, ap, ◌∙◌, ◌↔◌, some, List, [], ◌∷◌, length,
  length-take, length-drop, arith, min,
}
use v2_engine.Memory.FreeList.{
  empty_list, push, push_batch-Counted, length-push_batch, pop_batch, pop_batch-take,
}
use v2_engine.Memory.Slab.{
  Slab, empty, full, blocks_from, create, allocate, allocate_batch, deallocate, state,
}

pub record IsValid (s : Slab) : Type 0 where
  pub counted : s.free_list.count ≡ length s.free_list.blocks
  pub total : s.used_count + length s.free_list.blocks ≡ s.total_blocks
  pub small : s.total_blocks < 2 ^ 63

length-blocks_from : (m size i n : ℕ) → length (blocks_from m size i n) ≡ n
unfolding blocks_from
length-blocks_from m size i zero = refl
length-blocks_from m size i (suc n) = ap suc (length-blocks_from m size (suc i) n)

-- A new slab is valid: all its blocks are free.
pub create-IsValid :
    (m b z : ℕ) {s : Slab}
    → z / b < 2 ^ 63
    → create m b z ≡ some s
    → IsValid s × (s.used_count ≡ 0) × (s.total_blocks ≡ z / b) × (s.memory ≡ m)
unfolding create
create-IsValid m b z h e =
    let bs : List ℕ = blocks_from m b 0 (z / b) in
    ground (
      arith,
      push_batch-Counted bs empty_list refl,
      length-push_batch bs empty_list,
      length-blocks_from m b 0 (z / b),
    )

pub create-used : (m b z : ℕ) {s : Slab} → create m b z ≡ some s → s.used_count ≡ 0
unfolding create
create-used m b z e = ground arith

-- `allocate` keeps the slab valid; it takes one block, or fails on a slab with no free block.
pub allocate-IsValid : {s : Slab} → IsValid s → IsValid (allocate s).1
unfolding allocate
allocate-IsValid {s} v = ground arith

pub allocate-used :
    {s : Slab}
    → IsValid s
    → s.used_count < s.total_blocks
    → ((p : ℕ) × ((allocate s).0 ≡ some p)) × ((allocate s).1.used_count ≡ s.used_count + 1)
unfolding allocate
allocate-used {s} v h = go s.free_list.blocks refl
  where
    go :
        (bs : List ℕ)
        → s.free_list.blocks ≡ bs
        → ((p : ℕ) × ((allocate s).0 ≡ some p)) × ((allocate s).1.used_count ≡ s.used_count + 1)
    go [] e = absurd (omega (arith, v.total, ap length e))
    go (b ∷ bs) e = ((b, ground arith), ground arith)

-- A batch takes as many blocks as there are, at most the number asked for.
pub allocate_batch-IsValid :
    (n : ℕ) {s : Slab}
    → IsValid s
    → IsValid (allocate_batch n s).1
      × (length (allocate_batch n s).0 ≡ min n (length s.free_list.blocks))
      × ((allocate_batch n s).1.used_count ≡ s.used_count + length (allocate_batch n s).0)
      × ((allocate_batch n s).1.total_blocks ≡ s.total_blocks)
unfolding allocate_batch
allocate_batch-IsValid n {s} v =
    let (out, rest, counted) = pop_batch-take n s.free_list.blocks s.free_list.count v.counted in
    let taken : length (pop_batch n s.free_list).0 ≡ min n (length s.free_list.blocks) =
      ap length out ∙ length-take n s.free_list.blocks in
    let left : length (pop_batch n s.free_list).1.blocks ≡ length s.free_list.blocks - n =
      ap length rest ∙ length-drop n s.free_list.blocks in
    (
      record {
        counted = counted;
        total = omega (arith, taken, left, v.total, v.small);
        small = v.small;
      },
      taken,
      omega (arith, taken, v.total, v.small),
      refl,
    )

-- A block that is used goes back.
pub deallocate-IsValid :
    (p : ℕ) {s : Slab} → 0 < s.used_count → IsValid s → IsValid (deallocate p s)
unfolding deallocate push
deallocate-IsValid p {s} h v = omega arith

-- A slab with blocks is in the state `Full` exactly when no block is free, and `Empty` exactly when
-- all are.
pub state_lem :
    {s : Slab}
    → IsValid s
    → 0 < s.total_blocks
    → ((state s ≡ full) ↔ (s.free_list.blocks ≡ []))
      × ((state s ≡ empty) ↔ (length s.free_list.blocks ≡ s.total_blocks))
unfolding state
state_lem {s} v h = go s.free_list.blocks refl
  where
    go :
        (bs : List ℕ)
        → s.free_list.blocks ≡ bs
        → ((state s ≡ full) ↔ (s.free_list.blocks ≡ []))
          × ((state s ≡ empty) ↔ (length s.free_list.blocks ≡ s.total_blocks))
    go [] e = (
      (λ _. e, λ _. ground (arith, ap length e, v.total)),
      (λ q. ground (arith, ap length e, v.total), λ q. absurd (omega (arith, ap length e))),
    )
    go (b ∷ bs) e = (
      (λ q. ground (arith, ap length e, v.total), λ q. cc),
      (λ q. ground (arith, ap length e, v.total), λ q. ground (arith, ap length e, v.total)),
    )
