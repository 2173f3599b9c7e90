-- ===== src/Memory/CentralCache.antt =====
-- src/core/common/memory/central_cache.hpp. A `Slab*` is the number of the slab in `slabs_`, which
-- only grows; the slabs themselves stand behind their numbers. The memory that the aligned
-- `operator new` returns for the slab with a number is a parameter of the operations that add one.
-- The mutex makes each operation one step.
pub mod Listed
pub mod Invariant
pub mod Returns
pub mod Growth
mod Tests
use v2_engine.Common.{
  ℕ, zero, suc, ◌+◌, ◌-◌, ◌%◌, ◌^◌, Bool, true, false, Option, none, some, List, [], ◌∷◌, ◌++◌,
  length, ltb, ◌==◌, if◌then◌else◌, update,
}
use v2_engine.Common.Maps.{AssocMap, lookup, insert, nat_key}
use v2_engine.Memory.Slab.{Slab, SlabState, empty, partial, full, state}
use v2_engine.Memory.Slab

pub record CentralCache : Type 0 where
  pub block_size : ℕ
  pub slab_size : ℕ
  pub partial_slabs : List ℕ
  pub slabs : ℕ
  pub slab : ℕ → Slab
  pub allocated_blocks : ℕ
  pub slab_map : AssocMap ℕ ℕ

-- `std::list::remove`.
unfoldable pub remove : ℕ → List ℕ → List ℕ
remove x [] = []
remove x (y ∷ ys) = if y == x then remove x ys else y ∷ remove x ys

unfoldable pub same_state : SlabState → SlabState → Bool
same_state empty empty = true
same_state partial partial = true
same_state full full = true
same_state a b = false

-- What `transitionState` makes of `partialSlabs_`: a slab enters the list when it becomes partial, and
-- leaves it when it no longer is.
unfoldable pub relist : SlabState → SlabState → ℕ → List ℕ → List ℕ
unfolding same_state remove
relist before after raw slabs =
    let left = if same_state before partial then remove raw slabs else slabs in
    if same_state before after
    then slabs
    else if same_state after partial
    then left ++ raw ∷ []
    else left

unfoldable pub transition_state : SlabState → ℕ → CentralCache → CentralCache
transition_state before raw c = record c {
  partial_slabs = relist before (state (c.slab raw)) raw c.partial_slabs;
}

-- The map keeps an entry that is there.
unfoldable pub emplace : ℕ → ℕ → AssocMap ℕ ℕ → AssocMap ℕ ℕ
unfolding lookup insert
emplace k v m = elim (lookup k m) [ none ↦ insert k v m | some w ↦ m ]

-- `findSlab`: `slabMask_` clears the bits below the slab size, a power of two.
pub find_slab : ℕ → CentralCache → Option ℕ
unfolding lookup
find_slab ptr c = lookup (ptr - ptr % c.slab_size) c.slab_map

-- A change of one slab, as the callers of `transitionState` make it.
unfoldable pub change : ℕ → Slab → CentralCache → CentralCache
unfolding transition_state
change raw s c = transition_state (state (c.slab raw)) raw (record c { slab = update c.slab raw s })

pub deallocate : ℕ → CentralCache → CentralCache
unfolding find_slab change
deallocate ptr c = elim (find_slab ptr c) [
  | none ↦ c
  | some raw ↦
      change raw (Slab.deallocate ptr (c.slab raw))
        (record c { allocated_blocks = (c.allocated_blocks + 2 ^ 64 - 1) % 2 ^ 64 })
]

-- The loop of `returnBatch`: the blocks that were returned, and the cache.
pub return_each : List ℕ → CentralCache → ℕ × CentralCache
unfolding find_slab change
return_each [] c = (0, c)
return_each (p ∷ ps) c = elim (find_slab p c) [
  | none ↦ return_each ps c
  | some raw ↦
      let (returned, c') = return_each ps (change raw (Slab.deallocate p (c.slab raw)) c) in
      (suc returned, c')
]

pub return_batch : List ℕ → CentralCache → ℕ × CentralCache
unfolding return_each
return_batch blocks c =
    let (returned, c') = return_each blocks c in
    (returned, record c' { allocated_blocks = (c'.allocated_blocks + 2 ^ 64 - returned) % 2 ^ 64 })

-- The first loop of `fetchBatch`, over the list as it stood: no slab enters it meanwhile.
pub fetch_partial : List ℕ → ℕ → CentralCache → List ℕ × CentralCache
unfolding change
fetch_partial [] wanted c = ([], c)
fetch_partial (raw ∷ raws) zero c = ([], c)
fetch_partial (raw ∷ raws) (suc n) c =
    let (out, s) = Slab.allocate_batch (suc n) (c.slab raw) in
    let (outs, c') = fetch_partial raws (suc n - length out) (change raw s c) in (out ++ outs, c')

module _ (new : ℕ → ℕ) where
  -- `none` is the exception of the constructor of `Slab`.
  unfoldable pub add_slab : CentralCache → Option (ℕ × CentralCache)
  unfolding emplace
  add_slab c = elim (Slab.create (new c.slabs) c.block_size c.slab_size) [
    | none ↦ none
    | some s ↦ some (
      c.slabs,
      record c {
        slabs = suc c.slabs;
        slab = update c.slab c.slabs s;
        slab_map = emplace s.memory c.slabs c.slab_map;
      },
    )
  ]

  choose_slab : List ℕ → CentralCache → Option (ℕ × CentralCache)
  unfolding add_slab
  choose_slab [] c = add_slab c
  choose_slab (raw ∷ raws) c = some (raw, c)

  -- The pointer is `none` where the assertion on it fails.
  pub allocate : CentralCache → Option (Option ℕ × CentralCache)
  unfolding choose_slab change
  allocate c = elim (choose_slab c.partial_slabs c) [
    | none ↦ none
    | some (raw, c') ↦
        let (ptr, s) = Slab.allocate (c'.slab raw) in
        some
          (ptr, change raw s (record c' { allocated_blocks = (c'.allocated_blocks + 1) % 2 ^ 64 }))
  ]

  -- The second loop of `fetchBatch`, with fuel for its rounds; `none` is an exception or too little
  -- fuel.
  pub fetch_new : ℕ → ℕ → CentralCache → Option (List ℕ × CentralCache)
  unfolding add_slab change
  fetch_new fuel zero c = some ([], c)
  fetch_new zero (suc n) c = none
  fetch_new (suc fuel) (suc n) c = elim (add_slab c) [
    | none ↦ none
    | some (raw, c') ↦
        let (out, s) = Slab.allocate_batch (suc n) (c'.slab raw) in
        let c'' = change raw s c' in
        elim (Slab.is_full s) [
          | true ↦ some (out, c'')
          | false ↦ elim (fetch_new fuel (suc n - length out) c'') [
            | none ↦ none
            | some (outs, rest) ↦ some (out ++ outs, rest)
          ]
        ]
  ]

  pub fetch_batch : ℕ → CentralCache → Option (List ℕ × CentralCache)
  unfolding fetch_partial fetch_new
  fetch_batch batch_size c =
      let (out, c') = fetch_partial c.partial_slabs batch_size c in
      elim (fetch_new (suc batch_size) (batch_size - length out) c') [
        | none ↦ none
        | some (outs, c'') ↦ some (
          out ++ outs,
          record c'' { allocated_blocks = (c''.allocated_blocks + length (out ++ outs)) % 2 ^ 64 },
        )
      ]
