-- ===== src/Timer.antt =====
-- src/core/common/timer/timer_base.hpp and timer_base.cpp. The clock is a parameter of what reads it.
-- The heap is a list in the order of expiry; which of two equal expiries comes first is not fixed by
-- the priority queue, and here it is the older. `scheduleNextTimer`, which sets the platform's timer, is left out.
pub mod Cancel
pub mod Due
pub mod Places
mod Tests
pub mod Scheduler
use v2_engine.Common.{
  ℕ, zero, suc, ◌+◌, Bool, true, false, ◌&&◌, Option, none, some, List, [], ◌∷◌, ltb, leb,
  if◌then◌else◌, update,
}
use v2_engine.Common.Maps.{AssocMap, lookup, insert, erase, nat_key}

-- The id is `none` where the code has -1.
pub record TimerNode : Type 0 where
  pub expiry : ℕ
  pub interval : ℕ
  pub payload : ℕ
  pub id : Option ℕ
  pub repeating : Bool
  pub alive : Bool

abbrev pub fresh_node : TimerNode
fresh_node = record {
  expiry = 0;
  interval = 0;
  payload = 0;
  id = none;
  repeating = false;
  alive = true;
}

-- The end of `freeList_`, where it is pushed and popped, is the head of the list.
pub record TimerBase : Type 0 where
  pub next_id : ℕ
  pub free_list : List ℕ
  pub pool : ℕ → TimerNode
  pub pool_size : ℕ
  pub timers : AssocMap ℕ ℕ
  pub heap : List ℕ

unfoldable pub alloc_node : TimerBase → ℕ × TimerBase
alloc_node t = elim (t.free_list) [
  | [] ↦ (
    t.pool_size,
    record t { pool_size = suc t.pool_size; pool = update t.pool t.pool_size fresh_node },
  )
  | idx ∷ rest ↦ (idx, record t { free_list = rest; pool = update t.pool idx fresh_node })
]

unfoldable pub free_node : ℕ → TimerBase → TimerBase
free_node idx t = record t { pool = update t.pool idx fresh_node; free_list = idx ∷ t.free_list }

unfoldable pub heap_push : (ℕ → TimerNode) → ℕ → List ℕ → List ℕ
heap_push pool idx [] = idx ∷ []
heap_push pool idx (i ∷ is) =
    if ltb (pool idx).expiry (pool i).expiry then idx ∷ i ∷ is else i ∷ heap_push pool idx is

unfoldable pub add : ℕ → ℕ → Bool → ℕ → TimerBase → ℕ × TimerBase
unfolding alloc_node heap_push insert
add now delay repeating payload t =
    let (idx, t1) = alloc_node t in
    let node : TimerNode = record {
      expiry = now + delay;
      interval = delay;
      payload = payload;
      id = some t1.next_id;
      repeating = repeating;
      alive = true;
    } in
    let pool : ℕ → TimerNode = update t1.pool idx node in
    (
      t1.next_id,
      record t1 {
        next_id = suc t1.next_id;
        pool = pool;
        heap = heap_push pool idx t1.heap;
        timers = insert t1.next_id idx t1.timers;
      },
    )

-- The loop of `purgeDeadEntries` over the heap, from the top.
unfoldable pub purge : List ℕ → TimerBase → TimerBase
unfolding free_node
purge [] t = record t { heap = [] }
purge (idx ∷ heap) t =
    if (t.pool idx).alive then record t { heap = idx ∷ heap } else purge heap (free_node idx t)

unfoldable pub cancel : ℕ → TimerBase → TimerBase
unfolding purge lookup erase
cancel id t = elim (lookup id t.timers) [
  | none ↦ t
  | some idx ↦ purge t.heap (record t {
    pool = update t.pool idx (record (t.pool idx) { alive = false });
    timers = erase id t.timers;
  })
]

unfoldable pub clear : TimerBase → TimerBase
clear t = record t { heap = []; pool = λ i. fresh_node; pool_size = 0; free_list = []; timers = [] }

unfoldable pub is_alive : ℕ → TimerBase → Bool
unfolding lookup
is_alive id t = elim (lookup id t.timers) [ none ↦ false | some idx ↦ (t.pool idx).alive ]

unfoldable pub is_repeating : ℕ → TimerBase → Bool
unfolding lookup
is_repeating id t = elim (lookup id t.timers) [ none ↦ false | some idx ↦ (t.pool idx).repeating ]

-- `ReadyNode`, without the callback, which is one for all.
pub record ReadyNode : Type 0 where
  pub id : Option ℕ
  pub payload : ℕ

-- The first locked part of `executeExpiredTimers`, over the heap from the top.
unfoldable pub collect : ℕ → List ℕ → TimerBase → List ReadyNode × TimerBase
unfolding free_node
collect now [] t = ([], record t { heap = [] })
collect now (idx ∷ heap) t =
    let node = t.pool idx in
    let (ready, t1) = collect now heap t in
    if leb node.expiry now
    then if node.alive
      then (record { id = node.id; payload = node.payload } ∷ ready, t1)
      else collect now heap (free_node idx t)
    else ([], record t { heap = idx ∷ heap })

-- One round of its last part; a node in the heap always has an id.
unfoldable pub settle : ReadyNode → TimerBase → TimerBase
unfolding lookup erase heap_push free_node
settle r t = elim (r.id) [
  | none ↦ t
  | some id ↦ elim (lookup id t.timers) [
    | none ↦ t
    | some idx ↦
        let node = t.pool idx in
        let pool = update t.pool idx (record node { expiry = node.expiry + node.interval }) in
        if node.repeating && node.alive
        then record t { pool = pool; heap = heap_push pool idx t.heap }
        else free_node idx (record t { timers = erase id t.timers })
  ]
]

unfoldable pub settle_each : List ReadyNode → TimerBase → TimerBase
unfolding settle
settle_each [] t = t
settle_each (r ∷ rs) t = settle_each rs (settle r t)

-- The callbacks run without the lock; `callbacks` is what they do to the timer.
unfoldable pub execute_expired :
    ℕ → (List ReadyNode → TimerBase → TimerBase) → TimerBase → List ReadyNode × TimerBase
unfolding collect settle_each
execute_expired now callbacks t =
    let (ready, t1) = collect now t.heap t in (ready, settle_each ready (callbacks ready t1))
