-- ===== src/Memory/Slab/Tests.antt =====
-- A slab of four blocks of 16 bytes at address 64, with one block taken.
use v2_engine.Common.{refl, [], ◌∷◌, arith}
use v2_engine.Memory.Slab.{Slab}
use v2_engine.Memory.Slab.Invariant.{IsValid}

abbrev slab : Slab
slab = record {
  slab_size = 64;
  block_size = 16;
  total_blocks = 4;
  memory = 64;
  used_count = 1;
  free_list = record { blocks = 96 ∷ 80 ∷ 64 ∷ []; count = 3 };
}

slab-IsValid : IsValid slab
slab-IsValid = record { counted = refl; total = refl; small = omega arith }
