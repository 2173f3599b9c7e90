-- ===== src/Dispatcher/Worker/Tests.antt =====
-- One worker, a queue of one place, and an actor on the waiting list.
use v2_engine.Common.{ℕ, ◌≡◌, ◌++◌, false, true, List, [], ◌∷◌, arith, refl}
use v2_engine.Dispatcher.{Dispatcher, create, dispatch, drain_pended_actor, begin_drain, start}
use v2_engine.Dispatcher.Accounting.{total, Accounts}
use v2_engine.Dispatcher.Worker.{Round, run_loop}
use v2_engine.Dispatcher.Worker.Waiting.{run_loop-pended}
use v2_engine.Dispatcher.Worker.Drained.{queued, drain_pended_actor-done}

-- Actor 1 has the queue's place, and actor 2 waits.
abbrev crowded : Dispatcher
unfolding create start dispatch
crowded = (dispatch 2 (dispatch 1 (start (create 1 1 0))).1).1

abbrev busy : Round
busy = record {
  on_entry = true;
  on_idle = true;
  waits = false ∷ false ∷ [];
  sends = [];
  backlog = false;
}

run_loop-pended_example :
    (more : List ℕ) × ((run_loop 0 (busy ∷ busy ∷ []) crowded).1.pended ≡ crowded.pended ++ more)
unfolding crowded
run_loop-pended_example = run_loop-pended 0 (busy ∷ busy ∷ []) crowded refl refl

-- The worker runs actor 1, and then polls its empty queue while actor 2 waits.
still_waits : (run_loop 0 (busy ∷ busy ∷ []) crowded).1.pended ≡ 2 ∷ []
unfolding run_loop crowded
still_waits = refl

abbrev emptied : Dispatcher
unfolding create begin_drain
emptied = record (begin_drain (create 1 1 0)) { pended = 2 ∷ [] }

abbrev stopped : Round
stopped = record busy { on_entry = false; on_idle = false; waits = true ∷ [] }

-- A worker that was told to stop puts actor 2 into its queue and leaves.
leaves : (run_loop 0 (stopped ∷ []) emptied).1.queues 0 ≡ 2 ∷ []
unfolding run_loop emptied
leaves = refl

abbrev idle : Dispatcher
unfolding create begin_drain
idle = begin_drain (create 2 4 0)

idle-Accounts : Accounts idle 0 0
unfolding idle total
idle-Accounts = record { sum = refl; small = omega arith; workers = omega arith }

drain_pended_actor-done_example :
    (idle.pended ≡ []) × (queued (drain_pended_actor idle) ≡ 0) × (◌≡◌ {A = ℕ} 0 0)
unfolding idle drain_pended_actor
drain_pended_actor-done_example =
    drain_pended_actor-done 0 0 idle-Accounts (omega arith) (omega arith) refl
