-- ===== src/Dispatcher/Worker.antt =====
-- runLoop of src/core/actor_system/runtime/dispatcher/worker.cpp, over the operations of one dispatcher.
-- What the worker meets in each round is a parameter; the clock readings are left out.
pub mod Waiting
pub mod Drained
mod Tests
use v2_engine.Common.{
  ℕ, Bool, true, false, not, ◌&&◌, ◌||◌, Option, none, some, List, [], ◌∷◌, ◌==◌, if◌then◌else◌,
}
use v2_engine.Dispatcher.{
  Dispatcher, dispatch, settle_token, drain_pended_actor, Acquired, got, ended, waiting, acquire,
}

-- Whether the worker's `running_` is set at the two places where the loop reads it, the answers of the
-- timed waits, the actors that the batch sends messages to, and whether the actor has mail afterwards.
pub record Round : Type 0 where
  pub on_entry : Bool
  pub on_idle : Bool
  pub waits : List Bool
  pub sends : List ℕ
  pub backlog : Bool

-- The messages that a batch sends wake their receivers.
pub dispatch_each : List ℕ → Dispatcher → Dispatcher
unfolding dispatch
dispatch_each [] d = d
dispatch_each (actor ∷ actors) d = dispatch_each actors (dispatch actor d).1

-- `ActorRuntime::run`.
pub process : ℕ → Round → Dispatcher → Dispatcher
unfolding dispatch_each settle_token
process actor r d = (settle_token actor r.backlog (dispatch_each r.sends d)).1

pub data Ended : Type 0 where
  returned unfinished : Ended

pub run_loop : ℕ → List Round → Dispatcher → Ended × Dispatcher
unfolding acquire process drain_pended_actor
run_loop worker [] d = (unfinished, d)
run_loop worker (r ∷ rs) d = elim (r.on_entry || d.draining) [
  | false ↦ (returned, d)
  | true ↦
      let d1 = (acquire worker r.waits d).1 in
      elim (acquire worker r.waits d).0 [
        | got actor ↦ run_loop worker rs (process actor r d1)
        | ended ↦
            let d2 = drain_pended_actor d1 in
            elim (d2.draining && d2.pending_work == 0) [
              | true ↦ (returned, d2)
              | false ↦ elim r.on_idle [ false ↦ (returned, d2) | true ↦ run_loop worker rs d2 ]
            ]
        | waiting ↦ (unfinished, d1)
      ]
]
