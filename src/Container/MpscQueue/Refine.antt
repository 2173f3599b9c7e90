-- ===== src/Container/MpscQueue/Refine.antt =====
-- One caller at a time cannot tell the queue from a bounded FIFO, at a capacity from 2 on.
use v2_engine.Common.{
  ℕ, zero, suc, ◌+◌, ◌^◌, ◌<◌, ◌≡◌, refl, ap, ◌∙◌, Bool, true, false, Option, none, some, List, [],
  ◌∷◌, ◌++◌, length, arith, ltb, Bool-cases, inl, inr, ltb→lt, ltb→ge, take, drop, map,
}
use v2_engine.Container.Slots.{Slots, push_loop, vacate, claim}
use v2_engine.Container.Slots.Holding.{Holds}
use v2_engine.Container.Slots.Steps.{
  claim-Holds, push_loop-room, push-full, vacate-Holds, claim_fields, vacate_fields,
}
use v2_engine.Container.Slots.Observers.{diff-head, element-head, diff-head_empty}
use v2_engine.Container.BoundedQueue
use v2_engine.Container.BoundedQueue.{Call, pushes, pops, Reply}
use v2_engine.Container.MpscQueue.{push, pop, pop_while, pop_batch}

module _ {ℓ} {A : Type ℓ} where
  -- A pop takes the oldest element, and fails on an empty queue.
  pub pop-some :
      {q : Slots A} {x : A} {xs : List A}
      → Holds q (x ∷ xs)
      → pop q ≡ (true, some x, vacate q q.head)
  unfolding pop
  pop-some holds = ground (arith, diff-head holds, element-head holds)

  pub pop-none : {q : Slots A} → Holds q [] → pop q ≡ (false, none, q)
  unfolding pop
  pop-none holds = ground (arith, diff-head_empty holds)

  -- The queue runs a list of calls; `none` is a push that does not return.
  pub run : ℕ → (ℕ → Bool) → Slots A → List (Call A) → Option (List (Reply A))
  run fuel weak q [] = some []
  run fuel weak q (pushes x ∷ calls) = elim (push fuel weak x q) [
    | none ↦ none
    | some (done, q') ↦ elim (run fuel weak q' calls) [
      | none ↦ none
      | some replies ↦ some ((done, none) ∷ replies)
    ]
  ]
  run fuel weak q (pops ∷ calls) =
      let (done, out, q') = pop q in
      elim (run fuel weak q' calls) [ none ↦ none | some replies ↦ some ((done, out) ∷ replies) ]

  run-push :
      (fuel : ℕ) (weak : ℕ → Bool) (q : Slots A) (x : A) (calls : List (Call A)) {done : Bool}
      {q' : Slots A} {replies : List (Reply A)}
      → push_loop fuel weak q.tail x q ≡ some (done, q')
      → run fuel weak q' calls ≡ some replies
      → run fuel weak q (pushes x ∷ calls) ≡ some ((done, none) ∷ replies)
  unfolding run push
  run-push fuel weak q x calls e h = rw (e, run) (rw h)

  run-pop :
      (fuel : ℕ) (weak : ℕ → Bool) (q : Slots A) (calls : List (Call A)) {done : Bool}
      {out : Option A} {q' : Slots A} {replies : List (Reply A)}
      → pop q ≡ (done, out, q')
      → run fuel weak q' calls ≡ some replies
      → run fuel weak q (pops ∷ calls) ≡ some ((done, out) ∷ replies)
  unfolding run
  run-pop fuel weak q calls {replies} e h =
      rw (e, run) (rw h (ap (λ (t : Bool × Option A × Slots A). some ((t.0, t.1) ∷ replies)) e))

  -- On a queue of at least two slots, every call returns, with the reply of the bounded FIFO that holds
  -- the same elements, provided that the compare-exchange is let through in one of the rounds and that no position reaches
  -- `2 ^ 63`.
  pub mpsc_run_refines :
      (fuel k : ℕ) (weak : ℕ → Bool) (calls : List (Call A)) (q : Slots A) (xs : List A)
      → k < fuel
      → weak k ≡ true
      → Holds q xs
      → q.tail + q.capacity + length calls < 2 ^ 63
      → run fuel weak q calls ≡ some (BoundedQueue.run q.capacity xs calls)
  unfolding run push BoundedQueue.run
  mpsc_run_refines fuel k weak [] q xs h pass holds small = refl
  mpsc_run_refines fuel k weak (pushes x ∷ calls) q xs h pass holds small =
      elim (Bool-cases (ltb (length xs) q.capacity)) [
        | inl space ↦
            run-push fuel weak q x calls
              (push_loop-room holds fuel k weak x (ltb→lt _ _ space) h pass)
              (mpsc_run_refines fuel k weak calls (claim q q.tail x) (xs ++ x ∷ []) h pass
                (claim-Holds holds x (ltb→lt _ _ space) (omega arith))
                (omega (arith, claim_fields q q.tail x)))
            ∙ rw ((claim_fields q q.tail x).1, space)
        | inr full ↦
            let tight : length xs ≡ q.capacity = omega (arith, ltb→ge _ _ full, holds.room) in
            run-push fuel weak q x calls (push-full fuel k weak x h tight holds)
              (mpsc_run_refines fuel k weak calls q xs h pass holds (omega arith))
            ∙ rw full
      ]
  mpsc_run_refines fuel k weak (pops ∷ calls) q [] h pass holds small =
      run-pop fuel weak q calls (pop-none holds)
        (mpsc_run_refines fuel k weak calls q [] h pass holds (omega arith))
  mpsc_run_refines fuel k weak (pops ∷ calls) q (x ∷ xs) h pass holds small =
      run-pop fuel weak q calls (pop-some holds) (
        mpsc_run_refines fuel k weak calls (vacate q q.head) xs h pass (vacate-Holds holds)
          (omega (arith, vacate_fields q q.head)))
      ∙ rw (vacate_fields q q.head).1

  -- A batch takes the oldest elements, at most as many as asked for, in order, and leaves the rest.
  pub mpsc_pop_batch-take :
      (n : ℕ) (q : Slots A) (xs : List A)
      → Holds q xs
      → ((pop_batch true n q).0 ≡ map some (take n xs)) × Holds (pop_batch true n q).1 (drop n xs)
  unfolding pop_batch pop_while
  mpsc_pop_batch-take zero q xs holds = (refl, holds)
  mpsc_pop_batch-take (suc n) q [] holds = rw (pop-none holds) (refl, holds)
  mpsc_pop_batch-take (suc n) q (x ∷ xs) holds =
      let (taken, rest) = mpsc_pop_batch-take n (vacate q q.head) xs (vacate-Holds holds) in
      rw (pop-some holds) (ap (◌∷◌ (some x)) taken, rest)
