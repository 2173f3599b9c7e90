-- ===== src/Memory/CentralCache/Tests.antt =====
-- An empty cache of 64-byte slabs with blocks of 8 bytes; the slab `k` is put at `64 * (k + 1)`.
use v2_engine.Common.{
  ℕ, ◌+◌, ◌*◌, ◌≡◌, ◌≤◌, refl, some, List, [], ◌∷◌, arith, length, if◌then◌else◌, ◌==◌,
}
use v2_engine.Common.Maps.{lookup}
use v2_engine.Memory.Slab.{state, power_of_two}
use v2_engine.Memory.CentralCache.{CentralCache, deallocate, fetch_batch}
use v2_engine.Memory.CentralCache.Listed.{occurs}
use v2_engine.Memory.CentralCache.Invariant.{IsValid, deallocate-IsValid}
use v2_engine.Memory.CentralCache.Returns.{fetch_batch-returns}
use v2_engine.Memory.CentralCache.Growth.{Idle, cycles, cycles-slabs}

abbrev at : ℕ → ℕ
at k = 64 * (k + 1)

abbrev cache : CentralCache
cache = record {
  block_size = 8;
  slab_size = 64;
  partial_slabs = [];
  slabs = 0;
  slab = λ k. record {
    slab_size = 64;
    block_size = 8;
    total_blocks = 8;
    memory = at k;
    used_count = 0;
    free_list = record { blocks = []; count = 0 };
  };
  allocated_blocks = 0;
  slab_map = [];
}

cache-IsValid : IsValid cache
unfolding occurs state lookup
cache-IsValid = record { listed = λ raw. refl; unused = λ raw h. refl; mapped = λ p raw e. cc }

-- Its slab has two blocks in use, at 112 and 120.
abbrev part_used : CentralCache
part_used = record {
  block_size = 8;
  slab_size = 64;
  partial_slabs = 0 ∷ [];
  slabs = 1;
  slab = λ k. record {
    slab_size = 64;
    block_size = 8;
    total_blocks = 8;
    memory = at k;
    used_count = if k == 0 then 2 else 0;
    free_list = record { blocks = 104 ∷ 96 ∷ 88 ∷ 80 ∷ 72 ∷ 64 ∷ []; count = 6 };
  };
  allocated_blocks = 2;
  slab_map = (64, 0) ∷ [];
}

part_used-IsValid : IsValid part_used
unfolding occurs state lookup
part_used-IsValid = record {
  listed = λ raw. ground arith;
  unused = λ raw h. ground arith;
  mapped = λ p raw e. ground (arith, e);
}

cache-Idle : Idle at cache
unfolding power_of_two lookup
cache-Idle = record {
  none_partial = refl;
  power = refl;
  two = omega arith;
  small = omega arith;
  aligned = λ k. omega arith;
  apart = λ j k e. omega (arith, e);
  fresh = λ k h. refl;
}

fetch_batch-returns_example :
    (out : List ℕ) × (c' : CentralCache) × (fetch_batch at 12 part_used ≡ some (out, c'))
    × (length out ≤ 12)
    × IsValid c'
fetch_batch-returns_example = fetch_batch-returns at 12 part_used cache-Idle.power part_used-IsValid

deallocate-IsValid_example : IsValid (deallocate 112 part_used)
deallocate-IsValid_example = deallocate-IsValid 112 part_used-IsValid

cycles-slabs_example :
    (c' : CentralCache) × (cycles at 3 cache ≡ some c') × Idle at c' × (c'.slabs ≡ 3)
cycles-slabs_example = cycles-slabs at 3 cache-Idle
