-- ===== src/Container/Slots/Single.antt =====
-- Capacity 1, which the constructors accept and slots of this kind cannot serve: after two pushes the
-- one slot reads as ahead of the head.
use v2_engine.Common.{
  ℕ, suc, ◌+◌, ◌%◌, ◌^◌, ◌<◌, ◌≡◌, ap, ◌∙◌, Bool, true, some, arith, update_self,
}
use v2_engine.Container.Slots.{Slot, Slots, diff, add_size, push_loop, claim, ahead}
use v2_engine.Container.Slots.Holding.{diff_level, diff_ahead}

module _ {ℓ} {A : Type ℓ} where
  -- An empty queue of capacity 1 whose positions stand at `p`.
  abbrev pub single : (ℕ → Slot A) → ℕ → Slots A
  single slot p = record { slot = slot; capacity = 1; head = p; tail = p }

  -- At capacity 1 a slot that is full reads as free for the next push, which the first compare-exchange
  -- that is let through claims.
  pub push_loop-level :
      (q : Slots A) (x : A) (fuel : ℕ) (weak : ℕ → Bool)
      → (q.slot (q.tail % q.capacity)).sequence ≡ q.tail
      → weak fuel ≡ true
      → push_loop (suc fuel) weak q.tail x q ≡ some (true, claim q q.tail x)
  unfolding push_loop
  push_loop-level q x fuel weak e pass =
      ground (arith, diff_level (q.slot (q.tail % q.capacity)).sequence q.tail e)

  -- After one push, and after two.
  unfoldable pub one : (ℕ → Slot A) → ℕ → A → Slots A
  one slot p x = claim (single slot p) p x

  unfoldable pub two : (ℕ → Slot A) → ℕ → A → A → Slots A
  unfolding one
  two slot p x y = claim (one slot p x) (suc p) y

  module _ (slot : ℕ → Slot A) (p : ℕ) (x y : A) (e : (slot 0).sequence ≡ p)
      (small : p + 2 < 2 ^ 63) where
    -- Both pushes succeed.
    pub push_twice :
        (fuel : ℕ) (weak : ℕ → Bool)
        → weak fuel ≡ true
        → (push_loop (suc fuel) weak p x (single slot p) ≡ some (true, one slot p x))
          × (push_loop (suc fuel) weak (one slot p x).tail y (one slot p x)
              ≡ some (true, two slot p x y))
    unfolding two claim
    push_twice fuel weak pass = (
      push_loop-level (single slot p) x fuel weak
          (ap (λ k. (slot k).sequence) {x = p % 1} {y = 0} (omega arith) ∙ e) pass,
      push_loop-level (one slot p x) y fuel weak
            (ap (λ k. ((one slot p x).slot k).sequence) {x = add_size p 1 % 1} {y = p % 1}
                (omega arith)
              ∙ ap Slot.sequence (update_self slot (p % 1) _))
            pass
          ∙ ap (λ k. some (true, claim (one slot p x) k y)) {x = add_size p 1} {y = suc p}
              (omega arith),
    )

    -- The head is ahead.
    pub diff-two :
        diff
          ((two slot p x y).slot ((two slot p x y).head % (two slot p x y).capacity)).sequence
          (add_size (two slot p x y).head 1)
        ≡ ahead
    unfolding two claim
    diff-two =
        let written : ((two slot p x y).slot (p % 1)).sequence ≡ p + 2 =
          ap (λ k. ((two slot p x y).slot k).sequence) {x = p % 1} {y = suc p % 1} (omega arith)
          ∙ ap Slot.sequence (update_self (one slot p x).slot (suc p % 1) _)
          ∙ omega arith in
        diff_ahead ((two slot p x y).slot (p % 1)).sequence (add_size p 1) (omega (arith, written))
          (omega (arith, written))
