-- ===== src/Actors/Supervision.antt =====
-- src/core/actor_system/runtime/supervisor/supervisor.cpp with the calls of
-- runtime/actor_runtime/actor_runtime.cpp that it runs through, for one actor: `onActorFailed`,
-- `tryRestart`, `performRestart`, `shutdown`, `tryConsumeLifecycle` and `processBatch`. Mailbox and
-- dead letters are the bounded FIFO that `LockFreeMpscQueue` refines. The actor's class is a
-- parameter; a reason is data where the code builds a string. A limit below 0 acts like 0.
pub mod Budget
pub mod Batch
mod Tests
use Prim.Native.String.{String}
use v2_engine.Common.{
  ℕ, zero, suc, ◌+◌, Bool, true, false, not, ◌&&◌, Option, none, some, List, [], ◌∷◌, ◌++◌, ltb,
  leb, if◌then◌else◌,
}
use v2_engine.Common.Maps.{AssocMap, lookup, insert, erase, nat_key}
use v2_engine.Container.BoundedQueue

pub data ActorState : Type 0 where
  closed closing opening opened inherited : ActorState

pub data RestartStrategy : Type 0 where
  one_for_one one_for_all no_restart : RestartStrategy

-- `user` is a message of an id without a meaning for the runtime; `blank` is `Message()`.
pub data Message : Type 0 where
  enable_request disable_request blank : Message
  restart_request : String → Message
  user : ℕ → Message

-- How a call ends: an exception has its text, or none that is known.
pub data Outcome : Type 0 where
  returned threw_unknown : Outcome
  threw : String → Outcome

pub data Reason : Type 0 where
  what open_failed : String → Reason
  unknown open_failed_unknown : Reason

pub record DeadLetter : Type 0 where
  pub actor_id : ℕ
  pub reason : Reason
  pub message : Message

pub record ActorRuntime (S : Type 0) : Type 0 where
  pub actor : S
  pub actor_id : ℕ
  pub mailbox : List Message
  pub capacity : ℕ
  pub restart_count : ℕ
  pub stopped : Bool

pub record Supervisor : Type 0 where
  pub default_strategy : RestartStrategy
  pub per_actor_strategy : AssocMap ℕ RestartStrategy
  pub one_for_all_restart_count : AssocMap ℕ ℕ
  pub max_restarts : ℕ
  pub total_failures : ℕ
  pub total_restarts : ℕ
  pub one_for_all_broadcasts : ℕ
  pub dead_letters : List DeadLetter
  pub dead_letter_capacity : ℕ

pub record World (S : Type 0) : Type 0 where
  pub runtime : ActorRuntime S
  pub supervisor : Supervisor

-- Pushes that drop what finds no room.
unfoldable pub deliver {ℓ} : {A : Type ℓ} → ℕ → List A → List A → List A
unfolding BoundedQueue.push
deliver capacity q [] = q
deliver capacity q (x ∷ xs) = deliver capacity (BoundedQueue.push capacity x q).1 xs

unfoldable pub letters : ℕ → Reason → List Message → List DeadLetter
letters id reason [] = []
letters id reason (m ∷ ms) =
    record { actor_id = id; reason = reason; message = m } ∷ letters id reason ms

unfoldable pub set_strategy : ℕ → RestartStrategy → Supervisor → Supervisor
unfolding insert
set_strategy id strategy s = record s {
  per_actor_strategy = insert id strategy s.per_actor_strategy;
}

unfoldable pub remove_policy : ℕ → Supervisor → Supervisor
unfolding erase
remove_policy id s = record s {
  per_actor_strategy = erase id s.per_actor_strategy;
  one_for_all_restart_count = erase id s.one_for_all_restart_count;
}

unfoldable pub strategy_of : ℕ → Supervisor → RestartStrategy
unfolding lookup
strategy_of id s = elim (lookup id s.per_actor_strategy) [
  | none ↦ s.default_strategy
  | some strategy ↦ strategy
]

-- The failed message, then what the mailbox holds, go to the dead letters.
unfoldable pub drain : {S : Type 0} → Message → Reason → World S → World S
unfolding deliver letters
drain failed reason w = record {
  runtime = record (w.runtime) { mailbox = [] };
  supervisor = record (w.supervisor) {
    total_failures = suc w.supervisor.total_failures;
    dead_letters =
        deliver w.supervisor.dead_letter_capacity w.supervisor.dead_letters
          (letters w.runtime.actor_id reason (failed ∷ w.runtime.mailbox));
  };
}

-- The virtual functions of an actor's class. Each may send messages to the actor itself.
pub record Behaviour (S : Type 0) : Type 0 where
  pub state : S → ActorState
  pub essential : S → Bool
  pub on_open : S → Outcome × S × List Message
  pub on_close : S → Outcome × S × List Message
  pub on_handle : Message → S → Outcome × S × List Message

module _ {S : Type 0} (b : Behaviour S) where
  unfoldable pub act : (S → Outcome × S × List Message) → World S → Outcome × World S
  unfolding deliver
  act f w =
      let (o, s, sent) = f w.runtime.actor in
      (
        o,
        record w {
          runtime = record (w.runtime) {
            actor = s;
            mailbox = deliver w.runtime.capacity w.runtime.mailbox sent;
          };
        },
      )

  unfoldable pub shutdown : World S → Outcome × World S
  unfolding act
  shutdown w = act b.on_close (record w { runtime = record (w.runtime) { stopped = true } })

  -- `notify` is the call of `onActorFailed`; `none` is one that has not returned.
  unfoldable pub perform_restart :
      (Reason → World S → Option (Outcome × World S)) → World S → Option (Outcome × World S)
  unfolding act
  perform_restart notify w =
      let w1 = (act b.on_close w).1 in
      let (o, w2) = act b.on_open w1 in
      elim (b.state w1.runtime.actor) [
        | closed ↦ elim o [
          | returned ↦ some (returned, w2)
          | threw text ↦ notify (open_failed text) w2
          | threw_unknown ↦ notify open_failed_unknown w2
        ]
        | _ ↦ some (returned, w1)
      ]

  unfoldable pub count_restart : World S → World S
  count_restart w = record w {
    runtime = record (w.runtime) { restart_count = suc w.runtime.restart_count };
  }

  -- `totalRestarts_` is raised where `tryRestart` returns.
  unfoldable pub restarted : Outcome × World S → Outcome × World S
  restarted (returned, w) = (
    returned,
    record w {
      supervisor = record (w.supervisor) { total_restarts = suc w.supervisor.total_restarts };
    },
  )
  restarted (threw text, w) = (threw text, w)
  restarted (threw_unknown, w) = (threw_unknown, w)

  -- What the callback of `setRestartAll` does here, if one is set: the number it returns, or none
  -- where it throws, and what it sends to this actor.
  module _ (restart_all : Option (Option ℕ × List Message)) where
    unfoldable pub broadcast : World S → World S
    unfolding deliver
    broadcast w = elim restart_all [
      | none ↦ record w {
        supervisor = record (w.supervisor) {
          one_for_all_broadcasts = suc w.supervisor.one_for_all_broadcasts;
        };
      }
      | some (count, sent) ↦ record {
        runtime = record (w.runtime) {
          mailbox = deliver w.runtime.capacity w.runtime.mailbox sent;
        };
        supervisor = record (w.supervisor) {
          one_for_all_broadcasts = suc w.supervisor.one_for_all_broadcasts;
          total_restarts = w.supervisor.total_restarts + elim count [ none ↦ 0 | some n ↦ n ];
        };
      }
    ]

    -- `oneForAllRestartCount_[id]`, with the entry that the access makes.
    unfoldable pub restart_everyone : World S → Outcome × World S
    unfolding broadcast shutdown lookup insert
    restart_everyone w =
        let id = w.runtime.actor_id in
        let counts = w.supervisor.one_for_all_restart_count in
        let n : ℕ = elim (lookup id counts) [ none ↦ 0 | some n ↦ n ] in
        let store : ℕ → World S = λ k. record w {
          supervisor = record (w.supervisor) { one_for_all_restart_count = insert id k counts };
        } in
        if ltb n w.supervisor.max_restarts
        then (returned, broadcast (store (suc n)))
        else shutdown (store n)

    -- `none` is too little fuel; an exception that `shutdown` lets through is the outcome.
    unfoldable pub on_actor_failed : ℕ → Message → Reason → World S → Option (Outcome × World S)
    unfolding drain shutdown perform_restart count_restart restarted restart_everyone strategy_of
    on_actor_failed zero failed reason w = none
    on_actor_failed (suc fuel) failed reason w =
        let w1 = drain failed reason w in
        let again = perform_restart (on_actor_failed fuel blank) (count_restart w1) in
        elim (strategy_of w.runtime.actor_id w.supervisor) [
          | one_for_one ↦
              if leb w.supervisor.max_restarts w.runtime.restart_count
              then some (shutdown w1)
              else elim again [ none ↦ none | some result ↦ some (restarted result) ]
          | one_for_all ↦ some (restart_everyone w1)
          | no_restart ↦ some (shutdown w1)
        ]

    -- What `tryConsumeLifecycle` and `handle` do with one message.
    unfoldable pub consume : ℕ → Message → World S → Option (Outcome × World S)
    unfolding act perform_restart on_actor_failed
    consume fuel enable_request w = elim (b.state w.runtime.actor) [
      | closed ↦ some (act b.on_open w)
      | _ ↦ some (returned, w)
    ]
    consume fuel disable_request w = elim (b.state w.runtime.actor) [
      | opened ↦ if b.essential w.runtime.actor then some (returned, w) else some (act b.on_close w)
      | _ ↦ some (returned, w)
    ]
    consume fuel (restart_request text) w = elim (b.state w.runtime.actor) [
      | opened ↦ perform_restart (on_actor_failed fuel blank) w
      | _ ↦ some (returned, w)
    ]
    consume fuel blank w = some (act (b.on_handle blank) w)
    consume fuel (user k) w = some (act (b.on_handle (user k)) w)

    -- The loop of `processBatch` with the rounds left: the number processed, and an exception that it
    -- lets through.
    unfoldable pub batch_loop : ℕ → ℕ → World S → Option (ℕ × Outcome × World S)
    unfolding consume on_actor_failed
    batch_loop fuel zero w = some (0, returned, w)
    batch_loop fuel (suc n) w = elim (w.runtime.mailbox) [
      | [] ↦ some (0, returned, w)
      | m ∷ rest ↦
          elim (consume fuel m (record w { runtime = record (w.runtime) { mailbox = rest } })) [
            | none ↦ none
            | some (returned, w1) ↦ elim (batch_loop fuel n w1) [
              | none ↦ none
              | some (k, o, w2) ↦ some (suc k, o, w2)
            ]
            | some (threw text, w1) ↦ elim (on_actor_failed fuel m (what text) w1) [
              | none ↦ none
              | some (o, w2) ↦ some (0, o, w2)
            ]
            | some (threw_unknown, w1) ↦ elim (on_actor_failed fuel m unknown w1) [
              | none ↦ none
              | some (o, w2) ↦ some (0, o, w2)
            ]
          ]
    ]

    -- `processBatch` for a batch size that is not negative.
    unfoldable pub process_batch : ℕ → ℕ → World S → Option (ℕ × Outcome × World S)
    unfolding batch_loop
    process_batch fuel max_batch w =
        if w.runtime.stopped then some (0, returned, w) else batch_loop fuel max_batch w
