-- ===== src/Container/MpscQueue.antt =====
-- src/core/common/container/lock_free_mpsc_queue.hpp, one call after the other: `push` is the loop
-- of `Slots`, and the one consumer pops with no loop.
pub mod Refine
pub mod Capacity
mod Tests
use v2_engine.Common.{
  ℕ, zero, suc, ◌+◌, ◌%◌, Bool, true, false, Option, none, some, List, [], ◌∷◌, if◌then◌else◌, ◌==◌,
}
use v2_engine.Container.Slots.{
  Slot, Slots, Diff, behind, level, ahead, diff, add_size, push_loop, vacate,
}
use v2_engine.Container.Slots

module _ {ℓ} {A : Type ℓ} where
  pub create : ℕ → Option (Slots A)
  unfolding Slots.create
  create capacity = Slots.create capacity

  pub push : ℕ → (ℕ → Bool) → A → Slots A → Option (Bool × Slots A)
  push fuel weak msg q = push_loop fuel weak q.tail msg q

  -- The flag, what `out` receives, and the queue.
  unfoldable pub pop : Slots A → Bool × Option A × Slots A
  pop q =
      let pos = q.head in
      let slot = q.slot (pos % q.capacity) in
      elim (diff slot.sequence (add_size pos 1)) [
        | level ↦ (true, slot.element, vacate q pos)
        | behind ↦ (false, none, q)
        | ahead ↦ (false, none, q)
      ]

  -- `while(count < maxCount && pop(out[count]))`: what lies in `out`, and the queue.
  pub pop_while : ℕ → Slots A → List (Option A) × Slots A
  unfolding pop
  pop_while zero q = ([], q)
  pop_while (suc left) q =
      let (done, out, q') = pop q in
      let (outs, rest) = pop_while left q' in if done then (out ∷ outs, rest) else ([], q)

  -- A null `out` stores nothing.
  pub pop_batch : Bool → ℕ → Slots A → List (Option A) × Slots A
  unfolding pop_while
  pop_batch valid max_count q = if valid then pop_while max_count q else ([], q)

  pub is_empty : Slots A → Bool
  unfolding Slots.is_empty
  is_empty q = Slots.is_empty q

  pub count : Slots A → ℕ
  unfolding Slots.count
  count q = Slots.count q
