-- ===== src/Dispatcher/Acquire.antt =====
-- How long `acquire` waits: what ends it, and what does not.
use v2_engine.Common.{
  ℕ, zero, suc, ◌+◌, ◌-◌, ◌%◌, update, ◌≡◌, ◌≢◌, refl, Bool, true, false, not, ◌&&◌, ◌||◌, List, [],
  ◌∷◌, none, ◌==◌, ne→==,
}
use v2_engine.Dispatcher.{
  Dispatcher, try_acquire_own, steal_loop, try_steal, acquire_loop, acquire, waiting,
}

-- Nothing is queued.
abbrev pub AllEmpty : Dispatcher → Type 0
AllEmpty d = (w : ℕ) → d.queues w ≡ []

steal_loop-empty :
    (left i worker : ℕ) (d : Dispatcher) → AllEmpty d → (steal_loop left i worker d).0 ≡ none
unfolding steal_loop
steal_loop-empty zero i worker d e = refl
steal_loop-empty (suc left) i worker d e =
    rw (e ((worker + i) % d.worker_count), steal_loop) (steal_loop-empty left (i + 1) worker d e)

-- The condition of the loop in `acquire`.
keeps_on :
    (d : Dispatcher)
    → d.draining ≡ true
    → d.pending_work ≢ 0
    → (d.running || d.draining) && not (d.draining && d.pending_work == 0) ≡ true
keeps_on d draining owed = rw (draining, ne→== d.pending_work 0 owed) (go d.running)
  where
    go : (b : Bool) → (b || true) && true ≡ true
    go true = refl
    go false = refl

acquire_loop-waits :
    (worker : ℕ) (waits : List Bool) (d : Dispatcher)
    → AllEmpty d
    → d.draining ≡ true
    → d.pending_work ≢ 0
    → (acquire_loop worker waits d).0 ≡ waiting
unfolding acquire_loop try_acquire_own try_steal
acquire_loop-waits worker [] d e draining owed = refl
acquire_loop-waits worker (true ∷ waits) d e draining owed =
    rw (keeps_on d draining owed, acquire_loop)
      (rw (e worker) (
        acquire_loop-waits worker waits
          (record d { semas = update d.semas worker (d.semas worker - 1) }) e draining owed))
acquire_loop-waits worker (false ∷ waits) d e draining owed =
    rw (keeps_on d draining owed, acquire_loop)
      (rw (steal_loop-empty (d.worker_count - 1) 1 worker d e)
        (acquire_loop-waits worker waits d e draining owed))

-- While the dispatcher drains and counts pending work although every queue is empty, `acquire` does
-- not return, whatever the timed waits answer.
acquire-waits :
    (worker : ℕ) (waits : List Bool) (d : Dispatcher)
    → AllEmpty d
    → d.draining ≡ true
    → d.pending_work ≢ 0
    → (acquire worker waits d).0 ≡ waiting
unfolding acquire try_acquire_own
acquire-waits worker waits d e draining owed =
    rw (e worker, acquire) (acquire_loop-waits worker waits d e draining owed)
