-- ===== src/Dispatcher/Placement.antt =====
-- Where `pickWorker` puts an actor, and what `enqueueEntry` does with it.
use native.Mathlib.Nat.{mod-lt}
use v2_engine.Common.{
  ℕ, zero, suc, ◌+◌, ◌%◌, ◌≤◌, ◌<◌, ◌≡◌, refl, sym, subst, ap, ◌∙◌, true, false, [], ◌∷◌, ◌++◌,
  arith, ltb, ◌==◌, Bool-cases, inl, inr, ◌⊎◌, ltb→ge, ltb→lt, lt→ltb, ge→ltb, ne→==,
}
use v2_engine.Dispatcher.{
  Dispatcher, load, pick_loop, pick_least_loaded, pick_worker, enqueue_entry, put,
}

irrefl : (n : ℕ) → ltb n n ≡ false
irrefl n = ground arith

pick_loop-bounds :
    (count : ℕ → ℕ) (workers left i best : ℕ)
    → best < workers
    → (pick_loop count workers left i best (count best) < workers)
      × (count (pick_loop count workers left i best (count best)) ≤ count best)
unfolding pick_loop
pick_loop-bounds count workers zero i best h = (h, omega arith)
pick_loop-bounds count workers (suc left) i best h =
    let w = (best + i) % workers in
    let w_in : w < workers = mod-lt (best + i) (omega arith) in
    elim (Bool-cases (ltb (count w) (count best))) [
      | inl less ↦ elim (Bool-cases (count w == 0)) [
        | inl idle ↦ rw (less, pick_loop) (rw idle (w_in, omega (arith, ltb→lt _ _ less)))
        | inr busy ↦
            let (low, below) = pick_loop-bounds count workers left (i + 1) w w_in in
            rw (less, pick_loop) (rw busy (low, omega (arith, below, ltb→lt _ _ less)))
      ]
      | inr more ↦ rw (more, pick_loop) (pick_loop-bounds count workers left (i + 1) best h)
    ]

-- The worker that is picked exists, and its queue is no longer than that of the actor's home worker.
pub pick_worker-bounds :
    (actor : ℕ) (d : Dispatcher)
    → 0 < d.worker_count
    → (pick_worker actor d < d.worker_count)
      × (load d (pick_worker actor d) ≤ load d (actor % d.worker_count))
unfolding pick_worker pick_least_loaded
pick_worker-bounds actor d h =
    let home_in : actor % d.worker_count < d.worker_count = mod-lt actor h in
    ground (
      arith,
      home_in,
      pick_loop-bounds (load d) d.worker_count d.worker_count 0 (actor % d.worker_count) home_in,
    )

-- With three workers whose queues get shorter in the order of the scan, the worker after home is
-- picked, although the last has a shorter queue.
pub pick_least_loaded-not_least :
    (actor : ℕ) (d : Dispatcher)
    → d.worker_count ≡ 3
    → actor % 3 ≡ 0
    → load d 1 < load d 0
    → load d 2 < load d 1
    → (pick_least_loaded actor d ≡ 1) × (load d 2 < load d (pick_least_loaded actor d))
unfolding pick_least_loaded
pick_least_loaded-not_least actor d three home first second =
    let picked : pick_least_loaded actor d ≡ 1 = scan in
    (picked, subst (λ w. load d 2 < load d w) (sym picked) second)
  where
    rounds : pick_loop (load d) 3 3 0 0 (load d 0) ≡ 1
    rounds =
        unfold pick_loop in
        rw (irrefl (load d 0), pick_loop)
          (rw (lt→ltb (load d 1) (load d 0) first, pick_loop)
            (rw (ne→== (load d 1) 0 (λ e. absurd (omega (arith, e))), pick_loop)
              (rw (ge→ltb (load d 0) (load d 1) (omega arith), pick_loop) refl)))

    scan : pick_least_loaded actor d ≡ 1
    scan =
        ap (λ n. pick_loop (load d) n n 0 (actor % n) (load d (actor % n))) three
        ∙ ap (λ k. pick_loop (load d) 3 3 0 k (load d k)) home
        ∙ rounds

-- An entry goes to the queue of the picked worker if that has room, and else to the waiting list.
pub enqueue_entry_cases :
    (actor : ℕ) (d : Dispatcher)
    → 0 < d.worker_count
    → let w = pick_worker actor d in
      ((load d w < d.queue_capacity)
        × (w < d.worker_count)
        × (enqueue_entry actor d ≡ (true, put actor w d)))
      ⊎ ((d.queue_capacity ≤ load d w)
          × (enqueue_entry actor d ≡ (false, record d { pended = d.pended ++ actor ∷ [] })))
unfolding enqueue_entry
enqueue_entry_cases actor d h =
    let w = pick_worker actor d in
    elim (Bool-cases (ltb (load d w) d.queue_capacity)) [
      | inl room ↦ inl (ltb→lt _ _ room, (pick_worker-bounds actor d h).0, rw room)
      | inr full ↦ inr (ltb→ge _ _ full, rw full)
    ]
