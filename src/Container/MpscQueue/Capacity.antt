-- ===== src/Container/MpscQueue/Capacity.antt =====
-- Capacity 1, which the constructor accepts and a queue of this kind cannot serve.
use v2_engine.Common.{ℕ, suc, ◌+◌, ◌%◌, ◌^◌, ◌<◌, ◌≡◌, Bool, true, false, none, some, arith}
use v2_engine.Container.Slots.{Slot, Slots, diff, add_size, ahead}
use v2_engine.Container.Slots.Single.{single, one, two, push_twice, diff-two}
use v2_engine.Container.MpscQueue.{push, pop}

module _ {ℓ} {A : Type ℓ} where
  -- A slot that reads as ahead of the head lets nothing out.
  pub pop-ahead :
      (q : Slots A)
      → diff (q.slot (q.head % q.capacity)).sequence (add_size q.head 1) ≡ ahead
      → pop q ≡ (false, none, q)
  unfolding pop
  pop-ahead q e = ground (arith, e)

  -- An empty queue of capacity 1 accepts two pushes in a row, the second over the first, and then pops
  -- nothing: both elements are lost.
  pub single_loses :
      (slot : ℕ → Slot A) (p fuel : ℕ) (weak : ℕ → Bool) (x y : A)
      → (slot 0).sequence ≡ p
      → p + 2 < 2 ^ 63
      → weak fuel ≡ true
      → let first = one slot p x in
        let second = two slot p x y in
        (push (suc fuel) weak x (single slot p) ≡ some (true, first))
        × (push (suc fuel) weak y first ≡ some (true, second))
        × (pop second ≡ (false, none, second))
  unfolding push
  single_loses slot p fuel weak x y e small pass =
      let (first, second) = push_twice slot p x y e small fuel weak pass in
      (first, second, pop-ahead (two slot p x y) (diff-two slot p x y e small))
