-- ===== src/Services/Monitor.antt =====
-- src/service/monitor/monitor_actor.cpp and src/service/device_manager/device_manager_actor.cpp: who is
-- told about measurements, and when they are made. system_manager_actor.cpp handles its subscriptions
-- as the device manager does. Data are of any type; what a sensor gives is a parameter.
pub mod Demand
pub mod Agreement
mod Tests
use v2_engine.Common.{
  ℕ, ◌+◌, Bool, true, false, not, ◌&&◌, Option, none, some, List, [], ◌∷◌, ◌++◌, map, if◌then◌else◌,
}
use v2_engine.Actors.Supervision.{ActorState, closed, closing, opening, opened}
use v2_engine.Services.Cmd.Tokens.{Text, codes, same_text, is_opened}

-- `std::unordered_set<std::string>`, as a list without repetitions.
unfoldable pub member : Text → List Text → Bool
unfolding same_text
member t [] = false
member t (x ∷ xs) = let rest = member t xs in if same_text x t then true else rest

pub insert : Text → List Text → List Text
unfolding member
insert t xs = if member t xs then xs else t ∷ xs

pub erase : Text → List Text → List Text
unfolding same_text
erase t [] = []
erase t (x ∷ xs) = let rest = erase t xs in if same_text x t then rest else x ∷ rest

pub no_one : List Text → Bool
no_one [] = true
no_one (x ∷ xs) = false

-- DeviceManagerActor, with the data of its sensor.
pub record Devices (D : Type 0) : Type 0 where
  pub state : ActorState
  pub subscribers : List Text
  pub latest : Option D
  -- The repeating timers that send a tick.
  pub timers : ℕ

pub data Request : Type 0 where
  subscribe unsubscribe : Text → Request
  tick : Request

module _ {D : Type 0} where
  -- The reading of the sensor: `none` without one or after an error. Each subscriber gets the data.
  pub pump : Option D → Devices D → Devices D × List (Text × D)
  pump none s = (s, [])
  pump (some d) s = (record s { latest = some d }, map (λ to. (to, d)) s.subscribers)

  pub handle_request : Option D → Request → Devices D → Devices D × List (Text × D)
  unfolding insert erase no_one pump
  handle_request d (subscribe who) s = pump d (record s { subscribers = insert who s.subscribers })
  handle_request d (unsubscribe who) s =
      let left = erase who s.subscribers in
      (record s { subscribers = left; latest = if no_one left then none else s.latest }, [])
  handle_request d tick s = if no_one s.subscribers then (s, []) else pump d s

  pub handle_devices : Option D → Request → Devices D → Devices D × List (Text × D)
  unfolding handle_request is_opened
  handle_devices d r s = if is_opened s.state then handle_request d r s else (s, [])

  pub close_devices : Devices D → Devices D
  close_devices s = elim s.state [ closed ↦ s | _ ↦ record s { state = closed; latest = none } ]

  -- `startTimer` adds a timer, and `close` cancels none.
  pub open_devices : Devices D → Devices D
  unfolding close_devices
  open_devices s =
      let closed' = close_devices s in
      record closed' { state = opened; timers = closed'.timers + 1 }

-- MonitorActor, with the data of the system and of the sensor.
pub record Monitor (S D : Type 0) : Type 0 where
  pub state : ActorState
  pub subscribers : List Text
  pub data_subscribed : Bool
  pub sys_cache : Option S
  pub pmu_cache : Option D

pub data Event (S D : Type 0) : Type 0 where
  join leave : Text → Event S D
  sys_data : S → Event S D
  pmu_data : D → Event S D

-- What the monitor sends: a request to both managers, or a snapshot to a subscriber.
pub data Sent (S D : Type 0) : Type 0 where
  to_managers : Request → Sent S D
  snapshot : Text → Option S → Option D → Sent S D

abbrev pub monitor_name : Text
monitor_name = codes "monitor"

module _ {S D : Type 0} where
  pub subscribe_to_data : Monitor S D → Monitor S D × List (Sent S D)
  subscribe_to_data m =
      (record m { data_subscribed = true }, to_managers (subscribe monitor_name) ∷ [])

  pub unsubscribe_from_data : Monitor S D → Monitor S D × List (Sent S D)
  unsubscribe_from_data m = (
    record m { data_subscribed = false; sys_cache = none; pmu_cache = none },
    to_managers (unsubscribe monitor_name) ∷ [],
  )

  pub try_publish : Monitor S D → List (Sent S D)
  try_publish m = map (λ to. snapshot to m.sys_cache m.pmu_cache) m.subscribers

  pub handle_event : Event S D → Monitor S D → Monitor S D × List (Sent S D)
  unfolding insert erase no_one subscribe_to_data unsubscribe_from_data try_publish
  handle_event (join who) m =
      let m' = record m { subscribers = insert who m.subscribers } in
      if m.data_subscribed then (m', []) else subscribe_to_data m'
  handle_event (leave who) m =
      let m' = record m { subscribers = erase who m.subscribers } in
      if no_one m'.subscribers && m.data_subscribed then unsubscribe_from_data m' else (m', [])
  handle_event (sys_data d) m = let m' = record m { sys_cache = some d } in (m', try_publish m')
  handle_event (pmu_data d) m = let m' = record m { pmu_cache = some d } in (m', try_publish m')

  pub handle_monitor : Event S D → Monitor S D → Monitor S D × List (Sent S D)
  unfolding handle_event is_opened
  handle_monitor e m = if is_opened m.state then handle_event e m else (m, [])

  pub close_monitor : Monitor S D → Monitor S D
  close_monitor m = elim m.state [
    | closed ↦ m
    | _ ↦ record m {
      state = closed;
      subscribers = [];
      data_subscribed = false;
      sys_cache = none;
      pmu_cache = none;
    }
  ]

  pub open_monitor : Monitor S D → Monitor S D
  unfolding close_monitor
  open_monitor m = record (close_monitor m) { state = opened }
