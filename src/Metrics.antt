-- ===== src/Metrics.antt =====
-- src/core/perf/metrics/metrics.hpp and metrics.cpp. The atomics are relaxed counters; each record is
-- one step. A list stands for a vector of owned blocks. 64-bit counters keep their wrap-around.
pub mod Totals
mod Tests
use v2_engine.Common.{
  ℕ, zero, suc, ◌+◌, ◌%◌, ◌^◌, Bool, true, false, not, ◌||◌, Option, none, some, List, [], ◌∷◌,
  ◌++◌, map, length, ltb, leb, if◌then◌else◌, replicate,
}

pub record ActorMetrics : Type 0 where
  pub enqueued : ℕ
  pub processed : ℕ
  pub dropped : ℕ
  pub handle_time_ns : ℕ
  pub batches : ℕ
  pub dead_letters : ℕ
  pub peak_depth : ℕ

pub record WorkerMetrics : Type 0 where
  pub batches : ℕ
  pub busy_time_ns : ℕ
  pub idle_time_ns : ℕ
  pub messages : ℕ

pub record DispatcherMetrics : Type 0 where
  pub dispatch_count : ℕ
  pub acquire_count : ℕ
  pub deduplicated : ℕ
  pub steal_count : ℕ
  pub steal_fail_count : ℕ
  pub ready_queue_peak : ℕ

-- `reset` of each of the three.
abbrev pub no_actor : ActorMetrics
no_actor = record {
  enqueued = 0;
  processed = 0;
  dropped = 0;
  handle_time_ns = 0;
  batches = 0;
  dead_letters = 0;
  peak_depth = 0;
}

abbrev pub no_worker : WorkerMetrics
no_worker = record { batches = 0; busy_time_ns = 0; idle_time_ns = 0; messages = 0 }

abbrev pub no_dispatcher : DispatcherMetrics
no_dispatcher = record {
  dispatch_count = 0;
  acquire_count = 0;
  deduplicated = 0;
  steal_count = 0;
  steal_fail_count = 0;
  ready_queue_peak = 0;
}

pub record Metrics : Type 0 where
  pub enabled : Bool
  pub actors : List ActorMetrics
  pub workers : List WorkerMetrics
  pub dispatcher : DispatcherMetrics

-- `fetch_add`.
unfoldable pub add : ℕ → ℕ → ℕ
add counter n = (counter + n) % 2 ^ 64

-- The loop of `updatePeak`, with fuel for its rounds; `none` is one that has not returned. Another
-- thread may write the peak before a compare-exchange: `others` has what each round finds.
unfoldable pub update_peak : ℕ → (ℕ → Option ℕ) → ℕ → ℕ → Option ℕ
update_peak zero others current peak = none
update_peak (suc fuel) others current peak =
    let again = update_peak fuel others current in
    if ltb peak current
    then elim (others fuel) [ none ↦ some current | some other ↦ again other ]
    else some peak

-- With no other thread the first round ends it.
unfoldable pub peak : ℕ → ℕ → ℕ
peak p current = if ltb p current then current else p

-- A change of one element of a vector.
unfoldable pub modify {ℓ} : {A : Type ℓ} → (A → A) → ℕ → List A → List A
modify f i [] = []
modify f zero (x ∷ xs) = f x ∷ xs
modify f (suc i) (x ∷ xs) = x ∷ modify f i xs

unfoldable pub init : ℕ → Metrics → Metrics
init workers m = record m { workers = replicate workers no_worker }

-- The loop of `registerActor` ends with the actor's id in range.
unfoldable pub extend : ℕ → List ActorMetrics → List ActorMetrics
extend zero [] = no_actor ∷ []
extend zero (a ∷ actors) = a ∷ actors
extend (suc id) [] = no_actor ∷ extend id []
extend (suc id) (a ∷ actors) = a ∷ extend id actors

unfoldable pub register_actor : ℕ → Metrics → Metrics
unfolding extend
register_actor id m = record m { actors = extend id m.actors }

-- The early returns of the records: nothing is done where they are switched off or the index is out
-- of range.
unfoldable pub on_actor : (ActorMetrics → ActorMetrics) → ℕ → Metrics → Metrics
unfolding modify
on_actor f id m =
    if not (m.enabled) || leb (length m.actors) id
    then m
    else record m { actors = modify f id m.actors }

unfoldable pub on_dispatcher : (DispatcherMetrics → DispatcherMetrics) → Metrics → Metrics
on_dispatcher f m = if m.enabled then record m { dispatcher = f m.dispatcher } else m

unfoldable pub record_enqueue : ℕ → Bool → ℕ → Metrics → Metrics
unfolding on_actor add peak
record_enqueue id success depth =
    on_actor
      (λ a.
        if success
        then record a { enqueued = add a.enqueued 1; peak_depth = peak a.peak_depth depth }
        else record a { dropped = add a.dropped 1 })
      id

unfoldable pub record_handle : ℕ → ℕ → ℕ → Metrics → Metrics
unfolding on_actor add
record_handle id count duration =
    on_actor
      (λ a. record a {
        processed = add a.processed count;
        handle_time_ns = add a.handle_time_ns duration;
        batches = add a.batches 1;
      })
      id

unfoldable pub record_dead_letter : ℕ → Metrics → Metrics
unfolding on_actor add
record_dead_letter id = on_actor (λ a. record a { dead_letters = add a.dead_letters 1 }) id

-- A worker's id is an `int`; `none` is one below 0.
unfoldable pub record_batch : Option ℕ → ℕ → ℕ → ℕ → Metrics → Metrics
unfolding modify add
record_batch none count busy idle m = m
record_batch (some id) count busy idle m =
    if not (m.enabled) || leb (length m.workers) id then m else record m {
      workers =
          modify
            (λ w. record {
              batches = add w.batches 1;
              busy_time_ns = add w.busy_time_ns busy;
              idle_time_ns = add w.idle_time_ns idle;
              messages = add w.messages count;
            })
            id m.workers;
    }

unfoldable pub record_dispatch : Bool → ℕ → Metrics → Metrics
unfolding on_dispatcher add peak
record_dispatch deduped depth = on_dispatcher (λ d. record d {
  dispatch_count = add d.dispatch_count 1;
  deduplicated = if deduped then add d.deduplicated 1 else d.deduplicated;
  ready_queue_peak = peak d.ready_queue_peak depth;
})

unfoldable pub record_acquire : Metrics → Metrics
unfolding on_dispatcher add
record_acquire = on_dispatcher (λ d. record d { acquire_count = add d.acquire_count 1 })

unfoldable pub record_steal : Bool → Metrics → Metrics
unfolding on_dispatcher add
record_steal success = on_dispatcher (λ d.
    if success
    then record d { steal_count = add d.steal_count 1 }
    else record d { steal_fail_count = add d.steal_fail_count 1 })

-- What `snapshot` reads: the actors with their indices, the workers and the dispatcher.
unfoldable pub numbered : ℕ → List ActorMetrics → List (ℕ × ActorMetrics)
numbered i [] = []
numbered i (a ∷ actors) = (i, a) ∷ numbered (suc i) actors

unfoldable pub snapshot : Metrics → List (ℕ × ActorMetrics) × List WorkerMetrics × DispatcherMetrics
unfolding numbered
snapshot m = (numbered 0 m.actors, m.workers, m.dispatcher)

unfoldable pub reset : Metrics → Metrics
reset m = record m {
  actors = map (λ a. no_actor) m.actors;
  workers = map (λ w. no_worker) m.workers;
  dispatcher = no_dispatcher;
}
