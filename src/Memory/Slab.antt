-- ===== src/Memory/Slab.antt =====
-- src/core/common/memory/slab.hpp. The memory of a slab is the address that the aligned
-- `operator new` returned, a parameter; a pointer is its address.
pub mod Invariant
mod Tests
use Prim.Native.Nat.{bit_and}
use v2_engine.Common.{
  ℕ, zero, suc, ◌+◌, ◌-◌, ◌*◌, ◌/◌, ◌%◌, ◌^◌, Bool, true, false, ◌&&◌, Option, none, some, List, [],
  ◌∷◌, length, ◌==◌, leb, ltb, if◌then◌else◌,
}
use v2_engine.Memory.FreeList.{FreeList, empty_list}
use v2_engine.Memory.FreeList

pub data SlabState : Type 0 where
  empty partial full : SlabState

pub record Slab : Type 0 where
  pub slab_size : ℕ
  pub block_size : ℕ
  pub total_blocks : ℕ
  pub memory : ℕ
  pub used_count : ℕ
  pub free_list : FreeList

-- The addresses of `n` blocks in the order of the constructor's loop, from the block `i` on.
unfoldable pub blocks_from : ℕ → ℕ → ℕ → ℕ → List ℕ
blocks_from memory size i zero = []
blocks_from memory size i (suc n) = (memory + i * size) ∷ blocks_from memory size (suc i) n

unfoldable pub power_of_two : ℕ → Bool
power_of_two n = bit_and n (n - 1) == 0

-- What the constructor builds: every block is free.
unfoldable pub initial : ℕ → ℕ → ℕ → Slab
unfolding FreeList.push_batch blocks_from
initial memory block_size slab_size = record {
  slab_size = slab_size;
  block_size = block_size;
  total_blocks = slab_size / block_size;
  memory = memory;
  used_count = 0;
  free_list =
      FreeList.push_batch (blocks_from memory block_size 0 (slab_size / block_size)) empty_list;
}

-- The constructor; `none` is its exception. The assertions are preconditions of the theorems.
unfoldable pub create : ℕ → ℕ → ℕ → Option Slab
unfolding initial power_of_two
create memory block_size slab_size =
    if power_of_two slab_size then some (initial memory block_size slab_size) else none

unfoldable pub allocate : Slab → Option ℕ × Slab
unfolding FreeList.is_empty FreeList.pop
allocate s =
    if FreeList.is_empty s.free_list
    then (none, s)
    else (let (ptr, f) = FreeList.pop s.free_list in
        (ptr, record s { used_count = (s.used_count + 1) % 2 ^ 64; free_list = f }))

-- The loop stops at `max_count` blocks or at an empty list, as `pop_batch` does.
unfoldable pub allocate_batch : ℕ → Slab → List ℕ × Slab
unfolding FreeList.pop_batch
allocate_batch max_count s =
    let (out, f) = FreeList.pop_batch max_count s.free_list in
    (out, record s { used_count = (s.used_count + length out) % 2 ^ 64; free_list = f })

unfoldable pub deallocate : ℕ → Slab → Slab
unfolding FreeList.push
deallocate ptr s = record s {
  used_count = (s.used_count + 2 ^ 64 - 1) % 2 ^ 64;
  free_list = FreeList.push ptr s.free_list;
}

unfoldable pub deallocate_batch : List ℕ → Slab → Slab
unfolding FreeList.push_batch
deallocate_batch blocks s = record s {
  used_count = (s.used_count + 2 ^ 64 - length blocks) % 2 ^ 64;
  free_list = FreeList.push_batch blocks s.free_list;
}

pub owns : ℕ → Slab → Bool
owns ptr s = leb s.memory ptr && ltb ptr (s.memory + s.slab_size)

pub contains : ℕ → Slab → Bool
unfolding owns
contains ptr s = if owns ptr s then (ptr - s.memory) % s.block_size == 0 else false

unfoldable pub state : Slab → SlabState
state s =
    if s.used_count == 0 then empty else if s.used_count == s.total_blocks then full else partial

unfoldable pub is_full : Slab → Bool
unfolding FreeList.is_empty
is_full s = FreeList.is_empty s.free_list
