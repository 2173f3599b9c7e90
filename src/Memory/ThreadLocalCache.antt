-- ===== src/Memory/ThreadLocalCache.antt =====
-- src/core/common/memory/thread_local_cache.hpp: one thread's free lists, one for each size class, in
-- front of the central caches of a pool. `none` is a failed assertion or an exception.
pub mod Bounds
use v2_engine.Common.{
  ℕ, zero, suc, ◌-◌, Bool, true, false, Option, none, some, List, [], ◌∷◌, ltb, ◌==◌, if◌then◌else◌,
  update, min,
}
use v2_engine.Memory.FreeList.{FreeList, empty_list}
use v2_engine.Memory.FreeList
use v2_engine.Memory.SizeClass
use v2_engine.Memory.CentralCache.{CentralCache, fetch_batch, return_batch}

-- The list of one size class, with the central cache behind it.
pub record Line : Type 0 where
  pub free_list : FreeList
  pub central : CentralCache

abbrev pub ThreadLocalCache : Type 0
ThreadLocalCache = ℕ → Line

-- `fetchFromCentral`; the pointer is `none` where no block was fetched.
unfoldable pub fetch_from_central : (ℕ → ℕ) → ℕ → Line → Option (Option ℕ × Line)
unfolding FreeList.push_batch
fetch_from_central new batch l = elim (fetch_batch new batch l.central) [
  | none ↦ none
  | some (fetched, c) ↦ elim fetched [
    | [] ↦ some (none, record l { central = c })
    | b ∷ bs ↦ some (some b, record { free_list = FreeList.push_batch bs l.free_list; central = c })
  ]
]

-- `returnToCentral`.
unfoldable pub return_to_central : ℕ → Line → Line
unfolding FreeList.pop_batch
return_to_central batch l =
    let return_count = if ltb l.free_list.count batch then l.free_list.count else batch in
    let (blocks, rest) = FreeList.pop_batch return_count l.free_list in
    record { free_list = rest; central = (return_batch blocks l.central).1 }

unfoldable pub allocate_line : (ℕ → ℕ) → ℕ → Line → Option (Option ℕ × Line)
unfolding fetch_from_central FreeList.pop
allocate_line new batch l =
    if ltb 0 l.free_list.count
    then (let (ptr, f) = FreeList.pop l.free_list in some (ptr, record l { free_list = f }))
    else fetch_from_central new batch l

unfoldable pub deallocate_line : ℕ → ℕ → Line → Line
unfolding return_to_central FreeList.push
deallocate_line ptr batch l =
    let pushed = record l { free_list = FreeList.push ptr l.free_list } in
    if ltb batch pushed.free_list.count then return_to_central batch pushed else pushed

-- `new` has the memory of the slabs of each class.
unfoldable pub allocate : (ℕ → ℕ → ℕ) → ℕ → ThreadLocalCache → Option (Option ℕ × ThreadLocalCache)
unfolding allocate_line
allocate new size t = elim (SizeClass.index size) [
  | none ↦ none
  | some idx ↦ elim (SizeClass.batch_size idx) [
    | none ↦ none
    | some batch ↦ elim (allocate_line (new idx) batch (t idx)) [
      | none ↦ none
      | some (ptr, l) ↦ some (ptr, update t idx l)
    ]
  ]
]

unfoldable pub deallocate : ℕ → ℕ → ThreadLocalCache → Option ThreadLocalCache
unfolding deallocate_line
deallocate ptr size t = elim (SizeClass.index size) [
  | none ↦ none
  | some idx ↦ elim (SizeClass.batch_size idx) [
    | none ↦ none
    | some batch ↦ some (update t idx (deallocate_line ptr batch (t idx)))
  ]
]

-- The loop of `drain` over the first `n` classes.
unfoldable pub drain : ℕ → ThreadLocalCache → Option ThreadLocalCache
unfolding return_to_central
drain zero t = some t
drain (suc n) t = elim (drain n t) [
  | none ↦ none
  | some t' ↦ elim (SizeClass.batch_size n) [
    | none ↦ none
    | some batch ↦
        some (
          if ltb 0 (t' n).free_list.count then update t' n (return_to_central batch (t' n)) else t')
  ]
]
