-- ===== src/Memory/SizeClass.antt =====
-- src/core/common/memory/size_class.hpp.
pub mod Search
use v2_engine.Common.{
  ℕ, zero, suc, ◌≤◌, Bool, Option, none, some, List, [], ◌∷◌, leb, ltb, ◌==◌, ◌||◌, if◌then◌else◌,
  get_elem?,
}
use mathlib.Core.Option

pub record Entry : Type 0 where
  pub block_size : ℕ
  pub batch_size : ℕ

abbrev entry : ℕ → ℕ → Entry
entry block batch = record { block_size = block; batch_size = batch }

abbrev pub max_alloc_size : ℕ
max_alloc_size = 2048

abbrev pub table : List Entry
table =
    entry 8 64
    ∷ entry 16 64
    ∷ entry 32 32
    ∷ entry 64 32
    ∷ entry 128 16
    ∷ entry 256 16
    ∷ entry 512 8
    ∷ entry 1024 4
    ∷ entry 2048 2
    ∷ []

-- The loop of `index`, from the class `i` on.
pub index_from : ℕ → List Entry → ℕ → Option ℕ
index_from i [] size = none
index_from i (e ∷ es) size = if leb size e.block_size then some i else index_from (suc i) es size

-- `none` is a failed assertion.
pub index : ℕ → Option ℕ
unfolding index_from
index size = if size == 0 || ltb max_alloc_size size then none else index_from 0 table size

pub block_size : ℕ → Option ℕ
block_size idx = Option.map Entry.block_size (get_elem? table idx)

pub batch_size : ℕ → Option ℕ
batch_size idx = Option.map Entry.batch_size (get_elem? table idx)
