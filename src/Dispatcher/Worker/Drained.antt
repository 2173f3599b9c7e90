-- ===== src/Dispatcher/Worker/Drained.antt =====
-- What is left when a worker's loop ends while the dispatcher drains.
use v2_engine.Common.{
  List-cases, ℕ, zero, suc, ◌+◌, ◌≤◌, ◌<◌, ◌^◌, ◌≡◌, ◌≢◌, ◌⊎◌, inl, inr, Bool, true, false, ◌&&◌,
  ◌||◌, List, [], ◌∷◌, ◌++◌, length, arith, refl, sym, ap, subst, ◌∙◌, ◌==◌, ltb, ltb→ge,
  Bool-cases,
}
use native.Mathlib.Decide.{ℕ_discrete}
use v2_engine.Dispatcher.{
  Dispatcher, load, put, count_up, pick_worker, drain_each, drain_pended_actor, ended, acquire_loop,
  acquire, try_acquire_own,
}
use v2_engine.Dispatcher.Placement.{pick_worker-bounds}
use v2_engine.Dispatcher.Accounting.{total, Accounts, total-put, drain_pended_actor-Accounts}
use v2_engine.Dispatcher.Worker.{Round, returned, run_loop}

load-le-total : (n : ℕ) (queues : ℕ → List ℕ) (w : ℕ) → w < n → length (queues w) ≤ total n queues
unfolding total
load-le-total zero queues w h = elim h [ ]
load-le-total (suc n) queues w h = elim (ℕ_discrete w n) [
  | yes e ↦
      let here : length (queues w) ≡ length (queues n) = ap (λ k. length (queues k)) e in
      omega arith
  | no ne ↦ omega (arith, load-le-total n queues w (omega arith))
]

-- The tokens in the queues.
abbrev pub queued : Dispatcher → ℕ
queued d = total d.worker_count d.queues

record Sized (d : Dispatcher) : Type 0 where
  workers : 0 < d.worker_count
  capacity : 0 < d.queue_capacity

put-Sized :
    (actor : ℕ) (d : Dispatcher)
    → Sized d
    → Sized (count_up true (put actor (pick_worker actor d) d))
unfolding put count_up
put-Sized actor d s = record { workers = s.workers; capacity = s.capacity }

put-queued :
    (actor : ℕ) (d : Dispatcher)
    → Sized d
    → 0 < queued (count_up true (put actor (pick_worker actor d) d))
unfolding count_up put
put-queued actor d s =
    omega (arith, total-put actor (pick_worker actor d) d (pick_worker-bounds actor d s.workers).0)

full-queued :
    (actor : ℕ) (d : Dispatcher)
    → Sized d
    → ltb (load d (pick_worker actor d)) d.queue_capacity ≡ false
    → 0 < total d.worker_count d.queues
full-queued actor d s full = omega (
  arith,
  s.capacity,
  ltb→ge (load d (pick_worker actor d)) d.queue_capacity full,
  load-le-total d.worker_count d.queues (pick_worker actor d)
      (pick_worker-bounds actor d s.workers).0,
)

drain_each-room :
    (actor : ℕ) (actors : List ℕ) (d : Dispatcher)
    → ltb (load d (pick_worker actor d)) d.queue_capacity ≡ true
    → drain_each (actor ∷ actors) d
      ≡ drain_each actors (count_up true (put actor (pick_worker actor d) d))
unfolding drain_each
drain_each-room actor actors d room = rw room refl

drain_each-full :
    (actor : ℕ) (actors : List ℕ) (d : Dispatcher)
    → ltb (load d (pick_worker actor d)) d.queue_capacity ≡ false
    → drain_each (actor ∷ actors) d
      ≡ drain_each actors (record d { pended = d.pended ++ actor ∷ [] })
unfolding drain_each
drain_each-full actor actors d full = rw full refl

-- Once a queue has a token, walking the waiting list leaves one with a token.
drain_each-queued :
    (actors : List ℕ) (d : Dispatcher)
    → Sized d
    → (0 < queued d) ⊎ (actors ≢ [])
    → 0 < queued (drain_each actors d)
unfolding drain_each
drain_each-queued [] d s (inl h) = h
drain_each-queued [] d s (inr h) = absurd (h refl)
drain_each-queued (actor ∷ actors) d s h =
    elim (Bool-cases (ltb (load d (pick_worker actor d)) d.queue_capacity)) [
      | inl room ↦
          subst (λ e. 0 < queued e) (sym (drain_each-room actor actors d room))
            (drain_each-queued actors (count_up true (put actor (pick_worker actor d) d))
              (put-Sized actor d s) (inl (put-queued actor d s)))
      | inr full ↦
          subst (λ e. 0 < queued e) (sym (drain_each-full actor actors d full))
            (drain_each-queued actors (record d { pended = d.pended ++ actor ∷ [] })
              (record { workers = s.workers; capacity = s.capacity })
              (inl (full-queued actor d s full)))
    ]

drain-queued :
    (d : Dispatcher)
    → 0 < d.worker_count
    → 0 < d.queue_capacity
    → d.pended ≢ []
    → 0 < queued (drain_pended_actor d)
unfolding drain_pended_actor
drain-queued d workers capacity waits =
    drain_each-queued d.pended (record d { pended = [] })
      (record { workers = workers; capacity = capacity }) (inr waits)

-- If the accounts are in order and the count is 0 after the waiting list was walked, which is when a
-- worker's loop ends in a drain, then nothing waited, every queue is empty and no worker has a token.
pub drain_pended_actor-done :
    {d : Dispatcher} (running owed : ℕ)
    → Accounts d running owed
    → d.pending_work + length d.pended < 2 ^ 63
    → 0 < d.queue_capacity
    → (drain_pended_actor d).pending_work ≡ 0
    → (d.pended ≡ []) × (queued (drain_pended_actor d) ≡ 0) × (running ≡ 0)
drain_pended_actor-done {d} running owed a small capacity zero' =
    let sum = (drain_pended_actor-Accounts small a).sum in
    elim (List-cases d.pended) [
      | inl none' ↦ (none', omega arith, omega arith)
      | inr (actor, rest, e) ↦
          let waits : d.pended ≢ [] = λ t. let clash : actor ∷ rest ≡ [] = sym e ∙ t in cc in
          let left = drain-queued d a.workers capacity waits in absurd (omega arith)
    ]

acquire-ended :
    (worker : ℕ) (waits : List Bool) (d : Dispatcher)
    → d.draining ≡ true
    → d.pending_work ≡ 0
    → d.queues worker ≡ []
    → acquire worker (true ∷ waits) d ≡ (ended, d)
unfolding acquire acquire_loop try_acquire_own
acquire-ended worker waits d draining none' alone = rw (alone, acquire) (ground arith)

run_idle :
    (worker : ℕ) (r : Round) (rs : List Round) (d : Dispatcher)
    → (acquire worker r.waits d).0 ≡ ended
    → (r.on_entry || d.draining) ≡ true
    → let d2 = drain_pended_actor (acquire worker r.waits d).1 in
      (d2.draining && d2.pending_work == 0) ≡ false
      → r.on_idle ≡ false
      → run_loop worker (r ∷ rs) d ≡ (returned, drain_pended_actor (acquire worker r.waits d).1)
unfolding run_loop
run_idle worker r rs d idle on more off =
    rw (on, run_loop) (rw (idle, run_loop) (rw (more, run_loop) (rw (off, run_loop) refl)))

-- A worker that has been told to stop, and finds the dispatcher draining with a count of 0 while actors
-- wait, puts them into queues and ends its loop, so that tokens are left behind.
run_loop-leaves :
    (worker : ℕ) (r : Round) (rs : List Round) (waits : List Bool) (d : Dispatcher) (owed : ℕ)
    → Accounts d 0 owed
    → length d.pended < 2 ^ 63
    → 0 < d.queue_capacity
    → d.draining ≡ true
    → d.pending_work ≡ 0
    → d.queues worker ≡ []
    → d.pended ≢ []
    → r.on_idle ≡ false
    → r.waits ≡ true ∷ waits
    → (run_loop worker (r ∷ rs) d ≡ (returned, drain_pended_actor d))
      × (0 < queued (drain_pended_actor d))
run_loop-leaves worker r rs waits d owed a small capacity draining none' alone waits' off w =
    let left = drain-queued d a.workers capacity waits' in
    let sum = (drain_pended_actor-Accounts (omega arith) a).sum in
    let idle : acquire worker r.waits d ≡ (ended, d) =
      ap (λ x. acquire worker x d) w ∙ acquire-ended worker waits d draining none' alone in
    let there : (acquire worker r.waits d).1 ≡ d = ap (λ x. x.1) idle in
    let more : ((drain_pended_actor d).draining && (drain_pended_actor d).pending_work == 0)
        ≡ false =
      ground arith in
    (
      run_idle worker r rs d (ap (λ x. x.0) idle) (ground arith)
            (subst
              (λ e.
                ((drain_pended_actor e).draining && (drain_pended_actor e).pending_work == 0)
                ≡ false)
              (sym there) more)
            off
          ∙ ap (λ e. (returned, drain_pended_actor e)) there,
      left,
    )
