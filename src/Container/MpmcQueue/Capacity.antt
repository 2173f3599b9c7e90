-- ===== src/Container/MpmcQueue/Capacity.antt =====
-- Capacity 1: the second push overwrites the first element, and no pop returns any more.
use v2_engine.Common.{ℕ, zero, suc, ◌+◌, ◌%◌, ◌^◌, ◌<◌, ◌≡◌, refl, Bool, true, none, some}
use v2_engine.Container.Slots.{Slot, Slots, diff, add_size, ahead}
use v2_engine.Container.Slots.Single.{single, one, two, push_twice, diff-two}
use v2_engine.Container.MpmcQueue.{push, pop, pop_loop}

module _ {ℓ} {A : Type ℓ} where
  -- A slot that reads as ahead of the head sends the loop round for ever.
  pub pop_loop-ahead :
      (fuel : ℕ) (weak : ℕ → Bool) (q : Slots A)
      → diff (q.slot (q.head % q.capacity)).sequence (add_size q.head 1) ≡ ahead
      → pop_loop fuel weak q.head q ≡ none
  unfolding pop_loop
  pop_loop-ahead zero weak q e = refl
  pop_loop-ahead (suc fuel) weak q e = rw (e, pop_loop) (pop_loop-ahead fuel weak q e)

  -- An empty queue of capacity 1 accepts two pushes in a row, the second over the first; after that a
  -- pop does not return, however many rounds it takes and however its compare-exchanges end.
  pub single_spins :
      (slot : ℕ → Slot A) (p fuel : ℕ) (weak : ℕ → Bool) (x y : A)
      → (slot 0).sequence ≡ p
      → p + 2 < 2 ^ 63
      → weak fuel ≡ true
      → let first = one slot p x in
        let second = two slot p x y in
        (push (suc fuel) weak x (single slot p) ≡ some (true, first))
        × (push (suc fuel) weak y first ≡ some (true, second))
        × ((rounds : ℕ) (other : ℕ → Bool) → pop rounds other second ≡ none)
  unfolding push pop
  single_spins slot p fuel weak x y e small pass =
      let (first, second) = push_twice slot p x y e small fuel weak pass in
      (
        first,
        second,
        λ rounds other. pop_loop-ahead rounds other (two slot p x y) (diff-two slot p x y e small),
      )
