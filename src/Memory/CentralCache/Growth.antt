-- ===== src/Memory/CentralCache/Growth.antt =====
-- A slab that becomes empty leaves the list of partial slabs, and `allocate` looks nowhere else: while
-- no slab is partial, taking one block and giving it back adds a slab each time.
use v2_engine.Common.{
  ℕ, zero, suc, ◌+◌, ◌-◌, ◌*◌, ◌/◌, ◌%◌, ◌^◌, ◌≤◌, ◌<◌, ◌≡◌, refl, ap, ap₂, ◌∙◌, sym, true, Option,
  none, some, List, [], ◌∷◌, arith, update_self,
}
use native.Mathlib.Nat.{mod-add-mod, mod-eq_of_lt, div-add-mod'}
use v2_engine.Common.Maps.{lookup, lookup-insert, nat_key}
use v2_engine.Memory.FreeList.{FreeList, push, push_batch, empty_list}
use v2_engine.Memory.Slab.{
  Slab, SlabState, empty, partial, full, state, initial, create, power_of_two, blocks_from,
}
use v2_engine.Memory.Slab
use v2_engine.Memory.CentralCache.Invariant.{extended}
use v2_engine.Memory.CentralCache.{
  CentralCache, change, transition_state, relist, same_state, remove, deallocate, add_slab,
  choose_slab, allocate, find_slab, emplace,
}

-- The last block of the constructor's loop is the first of the free list.
push_batch-last :
    (m b i n : ℕ) (f : FreeList)
    → (rest : List ℕ) × ((push_batch (blocks_from m b i (suc n)) f).blocks
        ≡ (m + (i + n) * b) ∷ rest)
unfolding push_batch push blocks_from
push_batch-last m b i zero f =
    (f.blocks, ap (λ k. k ∷ f.blocks) (ap (λ k. m + k * b) {x = i} {y = i + zero} (omega arith)))
push_batch-last m b i (suc n) f =
    let (rest, e) = push_batch-last m b (suc i) n (push (m + i * b) f) in
    (rest, e ∙ ap (λ k. (m + k * b) ∷ rest) {x = suc i + n} {y = i + suc n} (omega arith))

last_inside : (z b : ℕ) → 2 ≤ z / b → (z / b - 1) * b < z
last_inside z zero h = absurd (omega arith)
last_inside z (suc b) h =
    let whole : z / suc b * suc b + z % suc b ≡ z = div-add-mod' z (suc b) in
    let split : suc (z / suc b - 1) * suc b ≡ z / suc b * suc b =
      ap (λ k. k * suc b) {x = suc (z / suc b - 1)} (omega arith) in
    omega (arith, whole, split)

-- A cache whose slabs are all empty or full. New memory is aligned, and its address is not one of
-- a slab that is there.
pub record Idle (new : ℕ → ℕ) (c : CentralCache) : Type 0 where
  pub none_partial : c.partial_slabs ≡ []
  pub power : power_of_two c.slab_size ≡ true
  pub two : 2 ≤ c.slab_size / c.block_size
  pub small : c.slab_size < 2 ^ 63
  pub aligned : (k : ℕ) → new k % c.slab_size ≡ 0
  pub apart : (j k : ℕ) → new j ≡ new k → j ≡ k
  pub fresh : (k : ℕ) → c.slabs ≤ k → lookup (new k) c.slab_map ≡ none

module _ (new : ℕ → ℕ) where
  -- Take one block and give it back; `none` is an exception or a failed assertion.
  pub cycle : CentralCache → Option CentralCache
  cycle c = elim (allocate new c) [
    | none ↦ none
    | some (none, c') ↦ none
    | some (some ptr, c') ↦ some (deallocate ptr c')
  ]

  module _ {c : CentralCache} (idle : Idle new c) where
    open idle use {none_partial, power, two, small, aligned, fresh}

    fresh_slab : Slab
    fresh_slab = initial (new c.slabs) c.block_size c.slab_size

    blocks :
        (rest : List ℕ) × (fresh_slab.free_list.blocks
          ≡ (new c.slabs + (c.slab_size / c.block_size - 1) * c.block_size) ∷ rest)
    unfolding fresh_slab initial
    blocks =
        let (rest, e) =
          push_batch-last (new c.slabs) c.block_size 0 (c.slab_size / c.block_size - 1)
            empty_list in
        (
          rest,
          ap (λ k. (push_batch (blocks_from (new c.slabs) c.block_size 0 k) empty_list).blocks)
                {x = c.slab_size / c.block_size} {y = suc (c.slab_size / c.block_size - 1)}
                (omega arith)
              ∙ e
              ∙ ap (λ k. (new c.slabs + k * c.block_size) ∷ rest)
                  {x = 0 + (c.slab_size / c.block_size - 1)} (omega arith),
        )

    ptr : ℕ
    ptr = new c.slabs + (c.slab_size / c.block_size - 1) * c.block_size

    -- The mask takes a block's address back to its slab.
    ptr-find : ptr - ptr % c.slab_size ≡ new c.slabs
    unfolding ptr
    ptr-find =
        let last : ℕ = (c.slab_size / c.block_size - 1) * c.block_size in
        let inside : last < c.slab_size = last_inside c.slab_size c.block_size two in
        let offset : (new c.slabs + last) % c.slab_size ≡ last =
          sym (mod-add-mod (new c.slabs) c.slab_size last)
          ∙ ap (λ k. (k + last) % c.slab_size) (aligned c.slabs)
          ∙ ap (λ k. k % c.slab_size) {x = 0 + last} {y = last} (omega arith)
          ∙ mod-eq_of_lt inside in
        omega (arith, offset)

    -- The cache with the slab added, after the allocation, and after the block is back.
    added : CentralCache
    added = extended c fresh_slab

    taken : CentralCache
    taken =
        change c.slabs (Slab.allocate (added.slab c.slabs)).1
          (record added { allocated_blocks = (added.allocated_blocks + 1) % 2 ^ 64 })

    added-slab : added.slab c.slabs ≡ fresh_slab
    unfolding added
    added-slab = update_self c.slab c.slabs fresh_slab

    state-fresh : state fresh_slab ≡ empty
    unfolding fresh_slab initial state
    state-fresh = refl

    allocated :
        ((Slab.allocate fresh_slab).0 ≡ some ptr)
        × ((Slab.allocate fresh_slab).1.used_count ≡ 1)
        × (state (Slab.allocate fresh_slab).1 ≡ partial)
    unfolding Slab.allocate fresh_slab state
    allocated =
        let used : fresh_slab.used_count ≡ 0 = unfold initial in refl in
        let total : fresh_slab.total_blocks ≡ c.slab_size / c.block_size = unfold initial in refl in
        (
          unfold ptr in ground (arith, blocks.1),
          ground (arith, blocks.1, used),
          ground (arith, blocks.1, used, total),
        )

    chosen : choose_slab new c.partial_slabs c ≡ some (c.slabs, added)
    unfolding choose_slab add_slab added fresh_slab create
    chosen = ap (λ raws. choose_slab new raws c) none_partial ∙ ground (arith, power)

    allocate-taken : allocate new c ≡ some (some ptr, taken)
    unfolding allocate
    allocate-taken =
        rw (chosen, allocate)
          (unfold taken in
            ap (λ p. some (p, taken)) (ap (λ s. (Slab.allocate s).0) added-slab ∙ allocated.0))

    taken-slab : taken.slab c.slabs ≡ (Slab.allocate fresh_slab).1
    unfolding taken change transition_state
    taken-slab = update_self added.slab c.slabs _ ∙ ap (λ s. (Slab.allocate s).1) added-slab

    relist_one : relist partial empty c.slabs (relist empty partial c.slabs c.partial_slabs) ≡ []
    unfolding relist same_state remove
    relist_one = rw none_partial (ground arith)

    -- Now the list holds the new slab alone.
    taken-partial : taken.partial_slabs ≡ relist empty partial c.slabs c.partial_slabs
    unfolding taken change transition_state added
    taken-partial =
        ap₂ (λ a b. relist a b c.slabs c.partial_slabs) (ap state added-slab ∙ state-fresh)
          (ap state (update_self added.slab c.slabs _ ∙ ap (λ s. (Slab.allocate s).1) added-slab)
            ∙ allocated.2)

    find-taken : find_slab ptr taken ≡ some c.slabs
    unfolding find_slab taken change transition_state added fresh_slab initial emplace
    find-taken = rw ptr-find (
        ground (arith, fresh c.slabs, lookup-insert (new c.slabs) (new c.slabs) c.slabs c.slab_map))

    state-back : state (Slab.deallocate ptr (taken.slab c.slabs)) ≡ empty
    unfolding Slab.deallocate state
    state-back = ground (arith, taken-slab, allocated)

    back-partial : (deallocate ptr taken).partial_slabs ≡ []
    unfolding deallocate change transition_state
    back-partial =
        rw (find-taken, deallocate)
          (ap₂ (λ a b. relist a b c.slabs taken.partial_slabs) (ap state taken-slab ∙ allocated.2)
              (ap state (update_self taken.slab c.slabs _) ∙ state-back)
            ∙ ap (relist partial empty c.slabs) taken-partial
            ∙ relist_one)

    back_fields :
        let d = deallocate ptr taken in
        (d.slabs ≡ suc c.slabs)
        × (d.slab_size ≡ c.slab_size)
        × (d.block_size ≡ c.block_size)
        × (d.slab_map ≡ emplace (new c.slabs) c.slabs c.slab_map)
    unfolding deallocate change transition_state taken added fresh_slab initial
    back_fields = rw (find-taken, deallocate) (refl, refl, refl, refl)

    cycle_one : cycle c ≡ some (deallocate ptr taken)
    unfolding cycle
    cycle_one = rw (allocate-taken, cycle)

    back-Idle : Idle new (deallocate ptr taken)
    unfolding emplace
    back-Idle =
        let (slabs, size, block, slab_map) = back_fields in
        record {
          none_partial = back-partial;
          power = rw size power;
          two = rw (size, block) two;
          small = rw size small;
          aligned = rw size aligned;
          apart = idle.apart;
          fresh = λ k h.
              ap (lookup (new k)) slab_map
              ∙ ground (
                arith,
                fresh c.slabs,
                fresh k,
                slabs,
                idle.apart c.slabs k,
                lookup-insert (new c.slabs) (new k) c.slabs c.slab_map,
              );
        }

  pub cycles : ℕ → CentralCache → Option CentralCache
  cycles zero c = some c
  cycles (suc n) c = elim (cycle c) [ none ↦ none | some c' ↦ cycles n c' ]

  -- However often a client of an idle cache takes one block and gives it back, each time adds a slab, and
  -- none of them is ever taken up again: `n` rounds leave `n` slabs more and an idle cache.
  pub cycles-slabs :
      (n : ℕ) {c : CentralCache}
      → Idle new c
      → (c' : CentralCache) × (cycles n c ≡ some c') × Idle new c' × (c'.slabs ≡ c.slabs + n)
  unfolding cycles
  cycles-slabs zero {c} idle = (c, refl, idle, omega arith)
  cycles-slabs (suc n) {c} idle =
      let (c', e, next, more) = cycles-slabs n (back-Idle idle) in
      (c', rw (cycle_one idle, cycles) e, next, omega (arith, more, (back_fields idle).0))
