-- ===== src/Container/MpmcQueue/Refine.antt =====
-- One caller at a time cannot tell the queue from a bounded FIFO, at a capacity from 2 on.
use v2_engine.Common.{
  ℕ, zero, suc, ◌+◌, ◌^◌, ◌<◌, ◌≡◌, refl, ap, ◌∙◌, Bool, true, false, Option, none, some, List, [],
  ◌∷◌, ◌++◌, length, arith, ltb, Bool-cases, inl, inr, ltb→lt, ltb→ge, take, drop, map,
}
use v2_engine.Container.Slots.{Slots, push_loop, vacate, claim}
use native.Mathlib.Decide.{ℕ_discrete}
use v2_engine.Container.Slots.Holding.{Holds}
use v2_engine.Container.Slots.Steps.{
  claim-Holds, push_loop-room, push-full, vacate-Holds, claim_fields, vacate_fields,
}
use v2_engine.Container.Slots.Observers.{diff-head, element-head, diff-head_empty}
use v2_engine.Container.BoundedQueue
use v2_engine.Container.BoundedQueue.{Call, pushes, pops, Reply}
use v2_engine.Container.MpmcQueue.{push, pop, pop_loop, pop_while, pop_batch}

module _ {ℓ} {A : Type ℓ} where
  -- A pop takes the oldest element once its compare-exchange is let through, and fails on an empty
  -- queue.
  pub pop-some :
      (fuel k : ℕ) (weak : ℕ → Bool) {q : Slots A} {x : A} {xs : List A}
      → k < fuel
      → weak k ≡ true
      → Holds q (x ∷ xs)
      → pop_loop fuel weak q.head q ≡ some (true, some x, vacate q q.head)
  unfolding pop_loop
  pop-some zero k weak h pass holds = absurd (omega arith)
  pop-some (suc fuel) k weak {q} h pass holds = elim (ℕ_discrete k fuel) [
    | yes now ↦ ground (arith, diff-head holds, element-head holds, ap weak now, pass)
    | no later ↦ ground (
      arith,
      diff-head holds,
      element-head holds,
      pop-some fuel k weak {q = q} (omega arith) pass holds,
    )
  ]

  pub pop-none :
      (fuel k : ℕ) (weak : ℕ → Bool) {q : Slots A}
      → k < fuel
      → Holds q []
      → pop_loop fuel weak q.head q ≡ some (false, none, q)
  unfolding pop_loop
  pop-none zero k weak h holds = absurd (omega arith)
  pop-none (suc fuel) k weak h holds = rw (diff-head_empty holds, pop_loop)

  -- The queue runs a list of calls; `none` is a push that does not return.
  pub run : ℕ → (ℕ → Bool) → Slots A → List (Call A) → Option (List (Reply A))
  run fuel weak q [] = some []
  run fuel weak q (pushes x ∷ calls) = elim (push fuel weak x q) [
    | none ↦ none
    | some (done, q') ↦ elim (run fuel weak q' calls) [
      | none ↦ none
      | some replies ↦ some ((done, none) ∷ replies)
    ]
  ]
  run fuel weak q (pops ∷ calls) = elim (pop fuel weak q) [
    | none ↦ none
    | some (done, out, q') ↦ elim (run fuel weak q' calls) [
      | none ↦ none
      | some replies ↦ some ((done, out) ∷ replies)
    ]
  ]

  run-push :
      (fuel : ℕ) (weak : ℕ → Bool) (q : Slots A) (x : A) (calls : List (Call A)) {done : Bool}
      {q' : Slots A} {replies : List (Reply A)}
      → push_loop fuel weak q.tail x q ≡ some (done, q')
      → run fuel weak q' calls ≡ some replies
      → run fuel weak q (pushes x ∷ calls) ≡ some ((done, none) ∷ replies)
  unfolding run push
  run-push fuel weak q x calls e h = rw (e, run) (rw h)

  run-pop :
      (fuel : ℕ) (weak : ℕ → Bool) (q : Slots A) (calls : List (Call A)) {done : Bool}
      {out : Option A} {q' : Slots A} {replies : List (Reply A)}
      → pop_loop fuel weak q.head q ≡ some (done, out, q')
      → run fuel weak q' calls ≡ some replies
      → run fuel weak q (pops ∷ calls) ≡ some ((done, out) ∷ replies)
  unfolding run pop
  run-pop fuel weak q calls e h = rw (e, run) (rw h)

  -- On a queue of at least two slots, every call returns, with the reply of the bounded FIFO that holds
  -- the same elements, provided that the compare-exchange is let through in one of the rounds and that no position reaches
  -- `2 ^ 63`.
  pub mpmc_run_refines :
      (fuel k : ℕ) (weak : ℕ → Bool) (calls : List (Call A)) (q : Slots A) (xs : List A)
      → k < fuel
      → weak k ≡ true
      → Holds q xs
      → q.tail + q.capacity + length calls < 2 ^ 63
      → run fuel weak q calls ≡ some (BoundedQueue.run q.capacity xs calls)
  unfolding run push BoundedQueue.run
  mpmc_run_refines fuel k weak [] q xs h pass holds small = refl
  mpmc_run_refines fuel k weak (pushes x ∷ calls) q xs h pass holds small =
      elim (Bool-cases (ltb (length xs) q.capacity)) [
        | inl space ↦
            run-push fuel weak q x calls
              (push_loop-room holds fuel k weak x (ltb→lt _ _ space) h pass)
              (mpmc_run_refines fuel k weak calls (claim q q.tail x) (xs ++ x ∷ []) h pass
                (claim-Holds holds x (ltb→lt _ _ space) (omega arith))
                (omega (arith, claim_fields q q.tail x)))
            ∙ rw ((claim_fields q q.tail x).1, space)
        | inr full ↦
            let tight : length xs ≡ q.capacity = omega (arith, ltb→ge _ _ full, holds.room) in
            run-push fuel weak q x calls (push-full fuel k weak x h tight holds)
              (mpmc_run_refines fuel k weak calls q xs h pass holds (omega arith))
            ∙ rw full
      ]
  mpmc_run_refines fuel k weak (pops ∷ calls) q [] h pass holds small =
      run-pop fuel weak q calls (pop-none fuel k weak h holds)
        (mpmc_run_refines fuel k weak calls q [] h pass holds (omega arith))
  mpmc_run_refines fuel k weak (pops ∷ calls) q (x ∷ xs) h pass holds small =
      run-pop fuel weak q calls (pop-some fuel k weak h pass holds) (
        mpmc_run_refines fuel k weak calls (vacate q q.head) xs h pass (vacate-Holds holds)
          (omega (arith, vacate_fields q q.head)))
      ∙ rw (vacate_fields q q.head).1

  -- A batch takes the oldest elements, at most as many as asked for, in order, and leaves the rest.
  pub mpmc_pop_batch-take :
      (fuel k : ℕ) (weak : ℕ → Bool) (n : ℕ) (q : Slots A) (xs : List A)
      → k < fuel
      → weak k ≡ true
      → Holds q xs
      → (rest : Slots A) × (pop_batch fuel weak true n q ≡ some (map some (take n xs), rest))
        × Holds rest (drop n xs)
  unfolding pop_batch pop_while pop
  mpmc_pop_batch-take fuel k weak zero q xs h pass holds = (q, refl, holds)
  mpmc_pop_batch-take fuel k weak (suc n) q [] h pass holds =
      (q, rw (pop-none fuel k weak h holds, pop_while), holds)
  mpmc_pop_batch-take fuel k weak (suc n) q (x ∷ xs) h pass holds =
      let (rest, taken, kept) =
        mpmc_pop_batch-take fuel k weak n (vacate q q.head) xs h pass (vacate-Holds holds) in
      (rest, rw (pop-some fuel k weak h pass holds, pop_while) (rw taken), kept)
