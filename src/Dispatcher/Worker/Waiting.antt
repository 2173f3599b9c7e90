-- ===== src/Dispatcher/Worker/Waiting.antt =====
-- The waiting list of the dispatcher while workers run.
use v2_engine.Common.{
  List-cases, ℕ, zero, suc, ◌+◌, ◌-◌, ◌%◌, ◌≡◌, ◌≢◌, ◌⊎◌, update, inl, inr, Bool, true, false, not,
  ◌&&◌, ◌||◌, Option, none, some, List, [], ◌∷◌, ◌++◌, arith, refl, sym, ap, ◌∙◌, ◌==◌,
  if◌then◌else◌, Bool-cases, Option-cases, ltb,
}
use mathlib.Core.List.{append_assoc, append-nil}
use v2_engine.Dispatcher.{
  Dispatcher, load, dispatch, redispatch, settle_token, enqueue_entry, put, exchange, count_up,
  retire_pending_work, pick_worker, Acquired, got, ended, waiting, try_acquire_own, steal_loop,
  try_steal, acquire_loop, acquire,
}
use v2_engine.Dispatcher.Worker.{Round, dispatch_each, process, run_loop}

Acquired-cases : (a : Acquired) → ((actor : ℕ) × (a ≡ got actor)) ⊎ (a ≡ ended) ⊎ (a ≡ waiting)
Acquired-cases (got actor) = inl (actor, refl)
Acquired-cases ended = inr (inl refl)
Acquired-cases waiting = inr (inr refl)

-- The second still runs as the first did, and what waited still waits, in the same order.
record Longer (d e : Dispatcher) : Type 0 where
  running : e.running ≡ d.running
  draining : e.draining ≡ d.draining
  more : List ℕ
  pended : e.pended ≡ d.pended ++ more

-- Where only queues, semaphores, flags of slots and counts differ.
kept :
    {d e : Dispatcher}
    → e.running ≡ d.running
    → e.draining ≡ d.draining
    → e.pended ≡ d.pended
    → Longer d e
kept {d} r g p = record {
  running = r;
  draining = g;
  more = [];
  pended = p ∙ sym (append-nil d.pended);
}

Longer-trans : {d e f : Dispatcher} → Longer d e → Longer e f → Longer d f
Longer-trans {d} a b = record {
  running = b.running ∙ a.running;
  draining = b.draining ∙ a.draining;
  more = a.more ++ b.more;
  pended = b.pended ∙ ap (λ p. p ++ b.more) a.pended ∙ append_assoc d.pended a.more b.more;
}

enqueue_entry-Longer : (actor : ℕ) (d : Dispatcher) → Longer d (enqueue_entry actor d).1
unfolding enqueue_entry
enqueue_entry-Longer actor d =
    elim (Bool-cases (ltb (load d (pick_worker actor d)) d.queue_capacity)) [
      | inl room ↦ rw room (put-Longer (pick_worker actor d))
      | inr full ↦
          rw full (record { running = refl; draining = refl; more = actor ∷ []; pended = refl })
    ]
  where
    put-Longer : (worker : ℕ) → Longer d (put actor worker d)
    put-Longer worker = kept refl refl refl

count_up-Longer : (ok : Bool) (d : Dispatcher) → Longer d (count_up ok d)
unfolding count_up
count_up-Longer true d = kept refl refl refl
count_up-Longer false d = kept refl refl refl

exchange-Longer : (actor : ℕ) (value : Bool) (d : Dispatcher) → Longer d (exchange actor value d).1
unfolding exchange
exchange-Longer actor value d = kept refl refl refl

dispatch-Longer : (actor : ℕ) (d : Dispatcher) → Longer d (dispatch actor d).1
unfolding dispatch
dispatch-Longer actor d =
    let claimed = (exchange actor true d).1 in
    let first = exchange-Longer actor true d in
    let queued = enqueue_entry actor claimed in
    elim (Bool-cases (exchange actor true d).0) [
      | inl before ↦ rw before first
      | inr free ↦ rw free (
          Longer-trans first
            (Longer-trans (enqueue_entry-Longer actor claimed) (count_up-Longer queued.0 queued.1)))
    ]

dispatch_each-Longer : (actors : List ℕ) (d : Dispatcher) → Longer d (dispatch_each actors d)
unfolding dispatch_each
dispatch_each-Longer [] d = kept refl refl refl
dispatch_each-Longer (actor ∷ actors) d =
    Longer-trans (dispatch-Longer actor d) (dispatch_each-Longer actors (dispatch actor d).1)

retire-Longer : (d : Dispatcher) → Longer d (retire_pending_work d)
unfolding retire_pending_work
retire-Longer d = elim (Bool-cases (d.pending_work == 1 && d.draining)) [
  | inl last ↦ rw last (kept refl refl refl)
  | inr more ↦ rw more (kept refl refl refl)
]

settle_token-Longer :
    (actor : ℕ) (backlog : Bool) (d : Dispatcher) → Longer d (settle_token actor backlog d).1
unfolding settle_token redispatch
settle_token-Longer actor backlog d =
    let released = (exchange actor false d).1 in
    let claimed = (exchange actor true released).1 in
    let first = exchange-Longer actor false d in
    let both = Longer-trans first (exchange-Longer actor true released) in
    elim (Bool-cases (backlog && not (exchange actor true released).0)) [
      | inl again ↦ rw again (Longer-trans both (enqueue_entry-Longer actor claimed))
      | inr over ↦ rw over (after backlog first both)
    ]
  where
    after :
        {claimed released : Dispatcher} (b : Bool)
        → Longer d released
        → Longer d claimed
        → Longer d (retire_pending_work (if b then claimed else released))
    after {claimed} {released} true first both = Longer-trans both (retire-Longer claimed)
    after {claimed} {released} false first both = Longer-trans first (retire-Longer released)

process-Longer : (actor : ℕ) (r : Round) (d : Dispatcher) → Longer d (process actor r d)
unfolding process
process-Longer actor r d =
    Longer-trans (dispatch_each-Longer r.sends d)
      (settle_token-Longer actor r.backlog (dispatch_each r.sends d))

try_acquire_own-Longer : (worker : ℕ) (d : Dispatcher) → Longer d (try_acquire_own worker d).1
unfolding try_acquire_own
try_acquire_own-Longer worker d = own (d.queues worker)
  where
    own :
        (q : List ℕ)
        → Longer d
            (elim q as (λ _. Option ℕ × Dispatcher) [
              | [] ↦ (none, d)
              | actor ∷ rest ↦ (some actor, record d { queues = update d.queues worker rest })
            ]).1
    own [] = kept refl refl refl
    own (actor ∷ rest) = kept refl refl refl

steal_loop-Longer : (left i worker : ℕ) (d : Dispatcher) → Longer d (steal_loop left i worker d).1
unfolding steal_loop
steal_loop-Longer zero i worker d = kept refl refl refl
steal_loop-Longer (suc left) i worker d =
    let victim = (worker + i) % d.worker_count in
    elim (List-cases (d.queues victim)) [
      | inl e ↦ rw (e, steal_loop) (steal_loop-Longer left (i + 1) worker d)
      | inr (actor, rest, e) ↦ rw (e, steal_loop) (kept refl refl refl)
    ]

-- While the dispatcher runs and does not drain, the loop of `acquire` does not end without an actor.
record Acquires (d : Dispatcher) (after : Acquired × Dispatcher) : Type 0 where
  longer : Longer d after.1
  found : after.0 ≢ ended

goes_on :
    (d : Dispatcher)
    → d.running ≡ true
    → d.draining ≡ false
    → ((d.running || d.draining) && not (d.draining && d.pending_work == 0)) ≡ true
goes_on d on calm = ground arith

later :
    {d e : Dispatcher} {after : Acquired × Dispatcher}
    → Longer d e
    → Acquires e after
    → Acquires d after
later l a = record { longer = Longer-trans l a.longer; found = a.found }

acquire_loop-Acquires :
    (worker : ℕ) (waits : List Bool) (d : Dispatcher)
    → d.running ≡ true
    → d.draining ≡ false
    → Acquires d (acquire_loop worker waits d)
unfolding acquire_loop try_steal
acquire_loop-Acquires worker [] d on calm = record { longer = kept refl refl refl; found = λ e. cc }
acquire_loop-Acquires worker (true ∷ waits) d on calm =
    let woken = record d { semas = update d.semas worker (d.semas worker - 1) } in
    let first : Longer d woken = kept refl refl refl in
    elim (Option-cases (try_acquire_own worker woken).0) [
      | inl none' ↦
          rw (goes_on d on calm, acquire_loop)
            (rw (none', acquire_loop)
              (later first (acquire_loop-Acquires worker waits woken on calm)))
      | inr (actor, e) ↦
          rw (goes_on d on calm, acquire_loop)
            (rw (e, acquire_loop)
              (record {
                longer = Longer-trans first (try_acquire_own-Longer worker woken);
                found = λ e. cc;
              }))
    ]
acquire_loop-Acquires worker (false ∷ waits) d on calm =
    elim (Option-cases (try_steal worker d).0) [
      | inl none' ↦
          rw (goes_on d on calm, acquire_loop)
            (rw (none', acquire_loop) (acquire_loop-Acquires worker waits d on calm))
      | inr (actor, e) ↦
          rw (goes_on d on calm, acquire_loop)
            (rw (e, acquire_loop)
              (record {
                longer = steal_loop-Longer (d.worker_count - 1) 1 worker d;
                found = λ e. cc;
              }))
    ]

acquire-Acquires :
    (worker : ℕ) (waits : List Bool) (d : Dispatcher)
    → d.running ≡ true
    → d.draining ≡ false
    → Acquires d (acquire worker waits d)
unfolding acquire
acquire-Acquires worker waits d on calm = elim (Option-cases (try_acquire_own worker d).0) [
  | inl none' ↦ rw (none', acquire) (acquire_loop-Acquires worker waits d on calm)
  | inr (actor, e) ↦
      rw (e, acquire) (record { longer = try_acquire_own-Longer worker d; found = λ e. cc })
]

run_loop-Longer :
    (worker : ℕ) (rs : List Round) (d : Dispatcher)
    → d.running ≡ true
    → d.draining ≡ false
    → Longer d (run_loop worker rs d).1
unfolding run_loop
run_loop-Longer worker [] d on calm = kept refl refl refl
run_loop-Longer worker (r ∷ rs) d on calm = elim (Bool-cases (r.on_entry || d.draining)) [
  | inr off ↦ rw (off, run_loop) (kept refl refl refl)
  | inl goes ↦
      let a = acquire-Acquires worker r.waits d on calm in
      let d1 = (acquire worker r.waits d).1 in
      elim (Acquired-cases (acquire worker r.waits d).0) [
        | inl (actor, e) ↦
            let first = Longer-trans a.longer (process-Longer actor r d1) in
            rw (goes, run_loop)
              (rw (e, run_loop)
                (Longer-trans first (
                  run_loop-Longer worker rs (process actor r d1) (first.running ∙ on)
                    (first.draining ∙ calm))))
        | inr (inl e) ↦ absurd (a.found e)
        | inr (inr e) ↦ rw (goes, run_loop) (rw (e, run_loop) a.longer)
      ]
]

-- While the dispatcher runs, a worker never moves an actor off the waiting list, whatever its batches
-- send and however its waits end: what waited at the beginning waits at the end, in front and in the
-- same order.
pub run_loop-pended :
    (worker : ℕ) (rs : List Round) (d : Dispatcher)
    → d.running ≡ true
    → d.draining ≡ false
    → (more : List ℕ) × ((run_loop worker rs d).1.pended ≡ d.pended ++ more)
run_loop-pended worker rs d on calm =
    let l = run_loop-Longer worker rs d on calm in (l.more, l.pended)
