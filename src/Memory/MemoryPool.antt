-- ===== src/Memory/MemoryPool.antt =====
-- src/core/common/memory/memory_pool.hpp, for one thread: its cache has the central caches of the pool
-- behind it. `max_align` is `alignof(std::max_align_t)`; what `operator new` returns is outside.
use v2_engine.Common.{
  ℕ, zero, suc, ◌+◌, ◌*◌, ◌%◌, ◌^◌, Bool, true, false, ◌&&◌, Option, none, some, leb, ◌==◌,
  if◌then◌else◌, min, [],
}
use v2_engine.Memory.FreeList.{empty_list}
use v2_engine.Memory.SizeClass
use v2_engine.Memory.SizeClass.{max_alloc_size}
use v2_engine.Memory.CentralCache.{CentralCache}
use v2_engine.Memory.ThreadLocalCache.{ThreadLocalCache}
use v2_engine.Memory.ThreadLocalCache
use v2_engine.Memory.Slab.{initial, power_of_two}

pub record MemoryPool : Type 0 where
  pub max_size : ℕ
  pub cache : ThreadLocalCache

-- A central cache after `init`, whose exception is in `create`: it depends on the slab size alone.
unfoldable pub init_central : ℕ → ℕ → CentralCache
init_central block slab = record {
  block_size = block;
  slab_size = slab;
  partial_slabs = [];
  slabs = 0;
  slab = λ raw. record (initial 0 block slab) { free_list = empty_list };
  allocated_blocks = 0;
  slab_map = [];
}

-- The constructor; `none` is the exception of `init`.
unfoldable pub create : ℕ → ℕ → Option MemoryPool
unfolding init_central power_of_two
create slab max_size =
    if power_of_two slab
    then some (record {
      max_size = min max_size max_alloc_size;
      cache = λ idx. record {
        free_list = empty_list;
        central =
            init_central (elim (SizeClass.block_size idx) [ none ↦ 0 | some block ↦ block ]) slab;
      };
    })
    else none

-- Memory of the pool, or a call of `operator new` with the size and the alignment.
pub data Allocation : Type 0 where
  pooled : Option ℕ → Allocation
  large : ℕ → ℕ → Allocation

unfoldable pub at_least_one : ℕ → ℕ
at_least_one size = if size == 0 then 1 else size

-- A request that the pool serves.
unfoldable pub is_small : ℕ → ℕ → ℕ → MemoryPool → Bool
is_small max_align size alignment p = leb size p.max_size && leb alignment max_align

unfoldable pub allocate : (ℕ → ℕ → ℕ) → ℕ → ℕ → ℕ → MemoryPool → Option (Allocation × MemoryPool)
unfolding at_least_one is_small
allocate new max_align size alignment p =
    let asked = at_least_one size in
    if is_small max_align asked alignment p
    then elim (ThreadLocalCache.allocate new asked p.cache) [
      | none ↦ none
      | some (ptr, cache) ↦ some (pooled ptr, record p { cache = cache })
    ]
    else some (large asked alignment, p)

-- The flag says that `operator delete` is called.
unfoldable pub deallocate : ℕ → Option ℕ → ℕ → ℕ → MemoryPool → Option (Bool × MemoryPool)
unfolding at_least_one is_small
deallocate max_align none size alignment p = some (false, p)
deallocate max_align (some ptr) size alignment p =
    let asked = at_least_one size in
    if is_small max_align asked alignment p
    then elim (ThreadLocalCache.deallocate ptr asked p.cache) [
      | none ↦ none
      | some cache ↦ some (false, record p { cache = cache })
    ]
    else some (true, p)

-- The sums over the first `n` classes.
unfoldable pub allocated_blocks : ℕ → MemoryPool → ℕ
allocated_blocks zero p = 0
allocated_blocks (suc n) p = (allocated_blocks n p + (p.cache n).central.allocated_blocks) % 2 ^ 64

unfoldable pub allocated_bytes : ℕ → MemoryPool → ℕ
allocated_bytes zero p = 0
allocated_bytes (suc n) p =
    (allocated_bytes n p
      + (p.cache n).central.allocated_blocks
        * elim (SizeClass.block_size n) [ none ↦ 0 | some block ↦ block ])
    % 2 ^ 64
