-- ===== src/Actors/Supervision/Tests.antt =====
-- An actor that cannot open again after a failure, under a limit of 2 restarts.
use v2_engine.Common.{ℕ, ◌≡◌, ◌≤◌, false, none, some, [], ◌∷◌, max, arith}
use v2_engine.Actors.Supervision.{
  ActorState, closed, opened, one_for_one, user, Outcome, returned, threw, what, World, Behaviour,
  on_actor_failed, process_batch,
}
use v2_engine.Actors.Supervision.Budget.{on_actor_failed-returns}
use v2_engine.Actors.Supervision.Batch.{process_batch-returns}

abbrev broken : Behaviour ActorState
broken = record {
  state = λ s. s;
  essential = λ s. false;
  on_open = λ s. (threw "no device", closed, []);
  on_close = λ s. (returned, closed, []);
  on_handle = λ m s. (threw "bad message", s, []);
}

abbrev world : World ActorState
world = record {
  runtime = record {
    actor = opened;
    actor_id = 7;
    mailbox = user 1 ∷ user 2 ∷ [];
    capacity = 4;
    restart_count = 0;
    stopped = false;
  };
  supervisor = record {
    default_strategy = one_for_one;
    per_actor_strategy = [];
    one_for_all_restart_count = [];
    max_restarts = 2;
    total_failures = 0;
    total_restarts = 0;
    one_for_all_broadcasts = 0;
    dead_letters = [];
    dead_letter_capacity = 8;
  };
}

on_actor_failed-returns_example :
    (o : Outcome) × (w' : World ActorState) × (on_actor_failed broken none 3
        (user 0)
        (what "bad message")
        world
      ≡ some (o, w'))
    × (0 ≤ w'.runtime.restart_count)
    × (w'.runtime.restart_count ≤ max 2 0)
on_actor_failed-returns_example =
    on_actor_failed-returns broken none 3 (user 0) (what "bad message") world (omega arith)

process_batch-returns_example :
    (k : ℕ) × (o : Outcome) × (w' : World ActorState) × (process_batch broken none 3 5 world
      ≡ some (k, o, w'))
    × (k ≤ 5)
    × (w'.runtime.restart_count ≤ max 2 0)
process_batch-returns_example = process_batch-returns broken none 3 5 world (omega arith)
