-- ===== src/Memory/ThreadLocalCache/Bounds.antt =====
-- A thread keeps at most a batch of free blocks of each class.
use v2_engine.Common.{
  ℕ, suc, ◌-◌, ◌≤◌, ◌<◌, ◌≡◌, refl, ap, ◌∙◌, true, Option, none, some, List, [], ◌∷◌, length,
  length-drop, ltb, arith, Bool-cases, inl, inr,
}
use v2_engine.Memory.FreeList.{
  push, push_batch, pop, pop_batch, pop_batch-take, push_batch-Counted, length-push_batch,
}
use v2_engine.Memory.CentralCache.{CentralCache, fetch_batch}
use v2_engine.Memory.Slab.{power_of_two}
use v2_engine.Memory.CentralCache.Invariant
use v2_engine.Memory.CentralCache.Returns.{fetch_batch-returns}
use v2_engine.Memory.ThreadLocalCache.{
  Line, fetch_from_central, return_to_central, allocate_line, deallocate_line,
}

-- The count that is kept is that of the blocks, and they are a batch at most.
pub record Bounded (batch : ℕ) (l : Line) : Type 0 where
  pub counted : l.free_list.count ≡ length l.free_list.blocks
  pub few : length l.free_list.blocks ≤ batch

-- Where a thread holds at most a batch of blocks of a class, `deallocate` leaves at most a batch: the
-- block that would be one too many sends a batch back.
deallocate_line-Bounded :
    (ptr batch : ℕ) (l : Line)
    → 0 < batch
    → Bounded batch l
    → Bounded batch (deallocate_line ptr batch l)
unfolding deallocate_line return_to_central push
deallocate_line-Bounded ptr batch l positive h =
    let bs : List ℕ = ptr ∷ l.free_list.blocks in
    let (out, rest, counted) =
      pop_batch-take batch bs (suc l.free_list.count) (omega (arith, h.counted)) in
    let left : length
          (pop_batch batch (record { blocks = bs; count = suc l.free_list.count })).1.blocks
        ≡ suc (length l.free_list.blocks) - batch =
      ap length rest ∙ length-drop batch bs in
    elim (Bool-cases (ltb batch (suc l.free_list.count))) [
      | inl over ↦ rw over (elim (Bool-cases (ltb (suc l.free_list.count) batch)) [
        | inl less ↦ absurd (ground (arith, over, less))
        | inr more ↦ rw more (record { counted = counted; few = omega (arith, left, h.few) })
      ])
      | inr fits ↦
          rw fits
            (record { counted = omega (arith, h.counted); few = ground (arith, fits, h.counted) })
    ]

-- What `allocate` comes to.
abbrev pub Allocated : (ℕ → ℕ) → ℕ → Line → Type 0
Allocated new batch l =
    (ptr : Option ℕ) × (l' : Line) × (allocate_line new batch l ≡ some (ptr, l'))
    × Bounded batch l'
    × Invariant.IsValid l'.central

-- Where the slabs' size is a power of two and the central cache keeps its invariant, `allocate` returns
-- and leaves at most a batch, from the thread's own list or with a batch fetched.
pub allocate_line-Bounded :
    (new : ℕ → ℕ) (batch : ℕ) (l : Line)
    → power_of_two l.central.slab_size ≡ true
    → Invariant.IsValid l.central
    → Bounded batch l
    → Allocated new batch l
unfolding allocate_line fetch_from_central pop
allocate_line-Bounded new batch l power valid h = go l.free_list.blocks refl
  where
    from_central :
        l.free_list.blocks ≡ []
        → (out : List ℕ) (c : CentralCache) → fetch_batch new batch l.central ≡ some (out, c)
        → length out ≤ batch
        → Invariant.IsValid c
        → Allocated new batch l
    from_central e [] c q few v = (
      none,
      record l { central = c },
      ground (arith, h.counted, ap length e, q),
      record { counted = h.counted; few = h.few },
      v,
    )
    from_central e (b ∷ bs) c q few v = (
      some b,
      record { free_list = push_batch bs l.free_list; central = c },
      ground (arith, h.counted, ap length e, q),
      record {
        counted = push_batch-Counted bs l.free_list h.counted;
        few = omega (arith, length-push_batch bs l.free_list, ap length e, few);
      },
      v,
    )

    go : (bs : List ℕ) → l.free_list.blocks ≡ bs → Allocated new batch l
    go [] e =
        let (out, c, q, few, v) = fetch_batch-returns new batch l.central power valid in
        from_central e out c q few v
    go (b ∷ bs) e = (
      some b,
      record l { free_list = record { blocks = bs; count = l.free_list.count - 1 } },
      ground (arith, h.counted, ap length e, e),
      record {
        counted = omega (arith, h.counted, ap length e);
        few = omega (arith, h.few, ap length e);
      },
      valid,
    )
