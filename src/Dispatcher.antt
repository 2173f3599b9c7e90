-- ===== src/Dispatcher.antt =====
-- src/core/actor_system/runtime/dispatcher/work_dispatcher.hpp and work_dispatcher.cpp. A worker's
-- queue is the bounded FIFO that `LockFreeMpmcQueue` refines, an `ActorRuntime*` is the id of its
-- actor. Operations run one after the other.
-- Spins, which only poll, and the metrics are left out.
pub mod Placement
pub mod Accounting
pub mod Acquire
pub mod Token
pub mod Worker
mod Tests
use v2_engine.Common.{
  ℕ, zero, suc, ◌+◌, ◌-◌, ◌*◌, ◌/◌, ◌%◌, ◌^◌, Bool, true, false, not, ◌&&◌, ◌||◌, Option, none,
  some, List, [], ◌∷◌, ◌++◌, length, ltb, leb, ◌==◌, if◌then◌else◌, update,
}
use v2_engine.Container.BoundedQueue

pub record Dispatcher : Type 0 where
  pub worker_count : ℕ
  pub queue_capacity : ℕ
  pub high_watermark : ℕ
  pub running : Bool
  pub draining : Bool
  pub pending_work : ℕ
  pub held : ℕ → Bool
  pub pended : List ℕ
  pub semas : ℕ → ℕ
  pub queues : ℕ → List ℕ

abbrev pub max_actors : ℕ
max_actors = 1024

-- A watermark of 0 asks for seven tenths of the capacity.
pub create : ℕ → ℕ → ℕ → Dispatcher
create workers capacity watermark = record {
  worker_count = workers;
  queue_capacity = capacity;
  high_watermark = if ltb 0 watermark then watermark else capacity * 7 / 10;
  running = false;
  draining = false;
  pending_work = 0;
  held = λ slot. false;
  pended = [];
  semas = λ worker. 0;
  queues = λ worker. [];
}

pub start : Dispatcher → Dispatcher
start d = record d { running = true }

-- One release for each worker.
pub wake_all : ℕ → (ℕ → ℕ) → ℕ → ℕ
wake_all workers semas w = if ltb w workers then semas w + 1 else semas w

pub stop : Dispatcher → Dispatcher
unfolding wake_all
stop d = record d {
  running = false;
  draining = false;
  semas = wake_all d.worker_count d.semas;
  pended = [];
}

pub begin_drain : Dispatcher → Dispatcher
unfolding wake_all
begin_drain d = record d {
  running = false;
  draining = true;
  semas = wake_all d.worker_count d.semas;
}

abbrev pub load : Dispatcher → ℕ → ℕ
load d worker = length (d.queues worker)

-- The loop of `pickLeastLoaded`, with the rounds left.
pub pick_loop : (ℕ → ℕ) → ℕ → ℕ → ℕ → ℕ → ℕ → ℕ
pick_loop count workers zero i best best_count = best
pick_loop count workers (suc left) i best best_count =
    let w = (best + i) % workers in
    elim (ltb (count w) best_count) [
      | true ↦ elim (count w == 0) [
        | true ↦ w
        | false ↦ pick_loop count workers left (i + 1) w (count w)
      ]
      | false ↦ pick_loop count workers left (i + 1) best best_count
    ]

pub pick_least_loaded : ℕ → Dispatcher → ℕ
unfolding pick_loop
pick_least_loaded actor d =
    let home = actor % d.worker_count in
    pick_loop (load d) d.worker_count d.worker_count 0 home (load d home)

unfoldable pub pick_worker : ℕ → Dispatcher → ℕ
unfolding pick_least_loaded
pick_worker actor d =
    let home = actor % d.worker_count in
    if leb d.worker_count 1
    then home
    else if ltb (load d home) d.high_watermark
    then home
    else pick_least_loaded actor d

-- A push that succeeds, with the worker's semaphore.
pub put : ℕ → ℕ → Dispatcher → Dispatcher
put actor worker d = record d {
  queues = update d.queues worker (d.queues worker ++ actor ∷ []);
  semas = update d.semas worker (d.semas worker + 1);
}

pub enqueue_entry : ℕ → Dispatcher → Bool × Dispatcher
unfolding pick_worker put
enqueue_entry actor d =
    let worker = pick_worker actor d in
    if ltb (load d worker) d.queue_capacity
    then (true, put actor worker d)
    else (false, record d { pended = d.pended ++ actor ∷ [] })

abbrev pub slot_of : ℕ → ℕ
slot_of actor = actor % max_actors

-- The flag is what the slot held before.
pub exchange : ℕ → Bool → Dispatcher → Bool × Dispatcher
exchange actor value d =
    (d.held (slot_of actor), record d { held = update d.held (slot_of actor) value })

pub count_up : Bool → Dispatcher → Dispatcher
count_up ok d = if ok then record d { pending_work = (d.pending_work + 1) % 2 ^ 64 } else d

pub dispatch : ℕ → Dispatcher → Bool × Dispatcher
unfolding exchange enqueue_entry count_up
dispatch actor d =
    let (before, claimed) = exchange actor true d in
    let (ok, queued) = enqueue_entry actor claimed in
    if before then (true, claimed) else (ok, count_up ok queued)

pub redispatch : ℕ → Dispatcher → Bool × Dispatcher
unfolding enqueue_entry
redispatch actor d = enqueue_entry actor d

pub retire_pending_work : Dispatcher → Dispatcher
unfolding wake_all
retire_pending_work d =
    let less = record d { pending_work = (d.pending_work + 2 ^ 64 - 1) % 2 ^ 64 } in
    if d.pending_work == 1 && d.draining
    then record less { semas = wake_all d.worker_count d.semas }
    else less

-- `backlog` is what the actor's runtime answers: it is not stopped, and its mailbox is not empty.
pub settle_token : ℕ → Bool → Dispatcher → Bool × Dispatcher
unfolding exchange redispatch retire_pending_work
settle_token actor backlog d =
    let (was, released) = exchange actor false d in
    let (before, claimed) = exchange actor true released in
    let after = if backlog then claimed else released in
    if backlog && not before then redispatch actor claimed else (false, retire_pending_work after)

-- The walk over `pendedActorList_`: the list is handed to it and is put back entry by entry.
pub drain_each : List ℕ → Dispatcher → Dispatcher
unfolding pick_worker put count_up
drain_each [] d = d
drain_each (actor ∷ actors) d =
    let worker = pick_worker actor d in
    drain_each actors (
      if ltb (load d worker) d.queue_capacity
      then count_up true (put actor worker d)
      else record d { pended = d.pended ++ actor ∷ [] })

pub drain_pended_actor : Dispatcher → Dispatcher
unfolding drain_each
drain_pended_actor d = drain_each d.pended (record d { pended = [] })

pub try_acquire_own : ℕ → Dispatcher → Option ℕ × Dispatcher
try_acquire_own worker d = elim (d.queues worker) [
  | [] ↦ (none, d)
  | actor ∷ rest ↦ (some actor, record d { queues = update d.queues worker rest })
]

-- The loop of `trySteal`, with the victims left. `try_acquire` takes a release if there is one.
pub steal_loop : ℕ → ℕ → ℕ → Dispatcher → Option ℕ × Dispatcher
unfolding try_acquire_own
steal_loop zero i worker d = (none, d)
steal_loop (suc left) i worker d =
    let victim = (worker + i) % d.worker_count in
    elim (d.queues victim) [
      | [] ↦ steal_loop left (i + 1) worker d
      | actor ∷ rest ↦ (
        some actor,
        record d {
          queues = update d.queues victim rest;
          semas = update d.semas victim (d.semas victim - 1);
        },
      )
    ]

pub try_steal : ℕ → Dispatcher → Option ℕ × Dispatcher
unfolding steal_loop
try_steal worker d = steal_loop (d.worker_count - 1) 1 worker d

-- What `acquire` comes to: an actor, the null pointer, or no end yet.
pub data Acquired : Type 0 where
  got : ℕ → Acquired
  ended waiting : Acquired

-- The loop of `acquire`. Each round has one answer of the timed wait on the semaphore: a release
-- came, or the time ran out.
pub acquire_loop : ℕ → List Bool → Dispatcher → Acquired × Dispatcher
unfolding try_acquire_own try_steal
acquire_loop worker [] d = (waiting, d)
acquire_loop worker (released ∷ waits) d =
    elim ((d.running || d.draining) && not (d.draining && d.pending_work == 0)) [
      | false ↦ (ended, d)
      | true ↦ elim released [
        | true ↦
            let d' = record d { semas = update d.semas worker (d.semas worker - 1) } in
            elim (try_acquire_own worker d').0 [
              | some actor ↦ (got actor, (try_acquire_own worker d').1)
              | none ↦ acquire_loop worker waits d'
            ]
        | false ↦ elim (try_steal worker d).0 [
          | some actor ↦ (got actor, (try_steal worker d).1)
          | none ↦ acquire_loop worker waits d
        ]
      ]
    ]

pub acquire : ℕ → List Bool → Dispatcher → Acquired × Dispatcher
unfolding acquire_loop
acquire worker waits d = elim (try_acquire_own worker d).0 [
  | some actor ↦ (got actor, (try_acquire_own worker d).1)
  | none ↦ acquire_loop worker waits d
]
