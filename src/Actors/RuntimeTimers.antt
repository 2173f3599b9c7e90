-- ===== src/Actors/RuntimeTimers.antt =====
-- The timers of src/core/actor_system/runtime/actor_runtime/actor_runtime.cpp. The set `timerIds_` is
-- a list without repetitions; a scheduler or a target that is missing is `none`, and so is `Fail`.
use v2_engine.Common.{ℕ, Bool, Option, none, some, List, [], ◌∷◌, length, ◌==◌, if◌then◌else◌}
use v2_engine.Timer.Scheduler.{Scheduler}
use v2_engine.Timer.Scheduler

pub record RuntimeTimers : Type 0 where
  pub scheduler : Option Scheduler
  pub timer_ids : List ℕ

-- `std::unordered_set::erase`.
unfoldable pub erase_id : ℕ → List ℕ → List ℕ
erase_id id [] = []
erase_id id (i ∷ ids) = if i == id then erase_id id ids else i ∷ erase_id id ids

unfoldable pub add_timer : ℕ → Option ℕ → ℕ → ℕ → Bool → RuntimeTimers → Option ℕ × RuntimeTimers
unfolding erase_id Scheduler.add_timer
add_timer now none message delay repeating r = (none, r)
add_timer now (some target) message delay repeating r = elim (r.scheduler) [
  | none ↦ (none, r)
  | some s ↦
      let (id, s') = Scheduler.add_timer now target message delay repeating s in
      (some id, record { scheduler = some s'; timer_ids = id ∷ erase_id id r.timer_ids })
]

unfoldable pub cancel_timer : ℕ → RuntimeTimers → RuntimeTimers
unfolding erase_id Scheduler.cancel
cancel_timer id r = elim (r.scheduler) [
  | none ↦ r
  | some s ↦ record {
    scheduler = some (Scheduler.cancel id s);
    timer_ids = erase_id id r.timer_ids;
  }
]

unfoldable pub cancel_each : List ℕ → Scheduler → Scheduler
unfolding Scheduler.cancel
cancel_each [] s = s
cancel_each (id ∷ ids) s = cancel_each ids (Scheduler.cancel id s)

unfoldable pub cancel_all_timers : RuntimeTimers → RuntimeTimers
unfolding cancel_each
cancel_all_timers r = elim (r.scheduler) [
  | none ↦ r
  | some s ↦ record { scheduler = some (cancel_each r.timer_ids s); timer_ids = [] }
]

unfoldable pub timer_count : RuntimeTimers → ℕ
timer_count r = length r.timer_ids
