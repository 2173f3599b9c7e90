-- ===== src/Container/MpmcQueue.antt =====
-- src/core/common/container/lock_free_mpmc_queue.hpp, one call after the other: `push` is the loop
-- of `Slots`, and consumers pop in a loop of the same kind.
pub mod Refine
pub mod Capacity
pub mod Threads
mod Tests
use v2_engine.Common.{
  ℕ, zero, suc, ◌+◌, ◌%◌, Bool, true, false, ◌&&◌, Option, none, some, List, [], ◌∷◌, if◌then◌else◌,
  ◌==◌,
}
use v2_engine.Container.Slots.{
  Slot, Slots, Diff, behind, level, ahead, diff, add_size, push_loop, vacate,
}
use v2_engine.Container.Slots

module _ {ℓ} {A : Type ℓ} where
  pub create : ℕ → Option (Slots A)
  unfolding Slots.create
  create capacity = Slots.create capacity

  unfoldable pub push : ℕ → (ℕ → Bool) → A → Slots A → Option (Bool × Slots A)
  push fuel weak msg q = push_loop fuel weak q.tail msg q

  -- The flag, what `out` receives, and the queue; `none` is a loop that has not returned.
  pub pop_loop : ℕ → (ℕ → Bool) → ℕ → Slots A → Option (Bool × Option A × Slots A)
  pop_loop zero weak pos q = none
  pop_loop (suc fuel) weak pos q =
      elim (diff (q.slot (pos % q.capacity)).sequence (add_size pos 1)) [
        | level ↦ elim (q.head == pos && weak fuel) [
          | true ↦ some (true, (q.slot (pos % q.capacity)).element, vacate q pos)
          | false ↦ pop_loop fuel weak q.head q
        ]
        | behind ↦ some (false, none, q)
        | ahead ↦ pop_loop fuel weak q.head q
      ]

  unfoldable pub pop : ℕ → (ℕ → Bool) → Slots A → Option (Bool × Option A × Slots A)
  pop fuel weak q = pop_loop fuel weak q.head q

  -- `while(count < maxCount && pop(out[count]))`.
  pub pop_while : ℕ → (ℕ → Bool) → ℕ → Slots A → Option (List (Option A) × Slots A)
  unfolding pop
  pop_while fuel weak zero q = some ([], q)
  pop_while fuel weak (suc left) q = elim (pop fuel weak q) [
    | none ↦ none
    | some (true, out, q') ↦ elim (pop_while fuel weak left q') [
      | none ↦ none
      | some (outs, rest) ↦ some (out ∷ outs, rest)
    ]
    | some (false, out, q') ↦ some ([], q')
  ]

  -- A null `out` stores nothing.
  pub pop_batch : ℕ → (ℕ → Bool) → Bool → ℕ → Slots A → Option (List (Option A) × Slots A)
  unfolding pop_while
  pop_batch fuel weak valid max_count q =
      if valid then pop_while fuel weak max_count q else some ([], q)

  unfoldable pub is_empty : Slots A → Bool
  unfolding Slots.is_empty
  is_empty q = Slots.is_empty q

  unfoldable pub count : Slots A → ℕ
  unfolding Slots.count
  count q = Slots.count q
