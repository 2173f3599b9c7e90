-- ===== src/Actors/System.antt =====
-- src/core/actor_system/actor_system.hpp and actor_system.cpp: which actors there are, and the order in
-- which the parts start and stop. The calls of the parts are listed as they are made. An actor stands
-- for its id; its name, and what its `open` comes to, are parameters.
pub mod Numbers
pub mod Order
mod Tests
use Prim.Native.String.{String}
use v2_engine.Common.{
  ℕ, zero, suc, ◌+◌, ◌%◌, ◌^◌, Bool, true, false, List, [], ◌∷◌, ◌++◌, ◌==◌, leb, map,
  if◌then◌else◌,
}
use v2_engine.Actors.Registry.{Registry, create, add}
use v2_engine.Dispatcher.{max_actors}

-- An `ActorRuntime`, as far as the system made it.
pub record Attached : Type 0 where
  pub id : ℕ
  pub mailbox_size : ℕ

pub record ActorSystem : Type 0 where
  pub default_mailbox_size : ℕ
  pub workers : ℕ
  pub has_event_loop : Bool
  pub next_actor_id : ℕ
  pub runtimes : List Attached
  pub registry : Registry

pub create_system : ℕ → ℕ → Bool → ActorSystem
create_system mailbox_size workers has_event_loop = record {
  default_mailbox_size = mailbox_size;
  workers = workers;
  has_event_loop = has_event_loop;
  next_actor_id = 0;
  runtimes = [];
  registry = create;
}

pub data Result : Type 0 where
  done threw : Result

module _ (name_of : ℕ → String) where
  pub attach_actor : ℕ → ℕ → ActorSystem → Result × ActorSystem
  attach_actor mailbox_size id s =
      let runtime : Attached = record { id = id; mailbox_size = mailbox_size } in
      if leb max_actors id then (threw, s) else (
        done,
        record s {
          registry = (add (λ a. a) name_of id s.registry).1;
          runtimes = s.runtimes ++ runtime ∷ [];
        },
      )

  -- A size of 0 asks for the default.
  pub create_actor : ℕ → ActorSystem → Result × ActorSystem
  unfolding attach_actor
  create_actor mailbox_size s =
      let size = if mailbox_size == 0 then s.default_mailbox_size else mailbox_size in
      attach_actor size s.next_actor_id
        (record s { next_actor_id = (s.next_actor_id + 1) % 2 ^ 64 })

  -- Actors made one after the other by a caller that catches the exceptions and goes on.
  pub create_actors : List ℕ → ActorSystem → ActorSystem
  unfolding create_actor
  create_actors [] s = s
  create_actors (size ∷ sizes) s = create_actors sizes (create_actor size s).1

pub data Call : Type 0 where
  dispatcher_start begin_drain dispatcher_stop : Call
  scheduler_start scheduler_stop loop_start loop_run loop_stop registry_clear : Call
  worker_start worker_stop actor_open actor_close : ℕ → Call

-- The calls of a part that may be missing.
pub with_loop : Bool → Call → List Call
with_loop true c = c ∷ []
with_loop false c = []

-- The calls for each of some workers.
pub each_worker : (ℕ → Call) → ℕ → List Call
each_worker call zero = []
each_worker call (suc n) = each_worker call n ++ call n ∷ []

pub close_all : List Attached → List Call
close_all [] = []
close_all (rt ∷ rts) = actor_close rt.id ∷ close_all rts

pub stop : ActorSystem → List Call
unfolding with_loop each_worker close_all
stop s =
    scheduler_stop
    ∷ (with_loop s.has_event_loop loop_stop
        ++ (begin_drain
            ∷ (each_worker worker_stop s.workers ++ (dispatcher_stop ∷ close_all s.runtimes))))

pub run : ActorSystem → List Call
unfolding with_loop
run s = with_loop s.has_event_loop loop_run

pub request_stop : ActorSystem → List Call
unfolding with_loop
request_stop s = with_loop s.has_event_loop loop_stop

-- The destructor.
pub destroy : ActorSystem → List Call
unfolding stop
destroy s = stop s ++ registry_clear ∷ []

-- What an actor's `open` comes to.
pub data Opened : Type 0 where
  opened failed exception : Opened

-- One turn of the loop over the actors, with what the turns after it would come to.
pub open_next : Opened → ℕ → Result × List Call → Result × List Call
open_next exception id rest = (threw, actor_open id ∷ [])
open_next opened id rest = (rest.0, actor_open id ∷ rest.1)
open_next failed id rest = (rest.0, actor_open id ∷ rest.1)

pub open_all : (ℕ → Opened) → List Attached → Result × List Call
unfolding open_next
open_all opens [] = (done, [])
open_all opens (rt ∷ rts) = open_next (opens rt.id) rt.id (open_all opens rts)

pub finish_start : Result → ActorSystem → List Call
unfolding stop each_worker
finish_start threw s = stop s
finish_start done s = each_worker worker_start s.workers

pub start : (ℕ → Opened) → ActorSystem → Result × List Call
unfolding with_loop open_all finish_start
start opens s =
    let (result, calls) = open_all opens s.runtimes in
    (
      result,
      dispatcher_start
          ∷ (with_loop s.has_event_loop loop_start
              ++ (scheduler_start ∷ (calls ++ finish_start result s))),
    )
