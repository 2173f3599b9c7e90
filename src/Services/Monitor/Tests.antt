-- ===== src/Services/Monitor/Tests.antt =====
-- A screen joins the monitor, and the request reaches the manager.
use v2_engine.Common.{◌≡◌, not, true, false, some, none, [], refl}
use v2_engine.Actors.Supervision.{opened}
use v2_engine.Services.Cmd.Tokens.{codes, is_opened}
use v2_engine.Services.Monitor.{
  join, member, no_one, monitor_name, handle_monitor, handle_devices, open_devices, close_devices,
  close_monitor,
}
use v2_engine.Services.Monitor.Demand.{requests}
use v2_engine.Services.Monitor.Agreement.{
  System, Reach, start, later, monitor_event, deliver, demand_agrees,
}

abbrev quiet : System (Unit {0}) (Unit {0})
quiet = record {
  monitor = record {
    state = opened;
    subscribers = [];
    data_subscribed = false;
    sys_cache = none;
    pmu_cache = none;
  };
  mail = [];
  devices = record { state = opened; subscribers = []; latest = none; timers = 1 };
}

abbrev watched : (t : System (Unit {0}) (Unit {0})) × Reach quiet t
unfolding handle_monitor requests
watched = (
  _,
  later (later start (monitor_event (join (codes "monitor_bridge")))) (deliver (some tt) refl),
)

demand_agrees_example :
    member monitor_name watched.0.devices.subscribers ≡ not (no_one watched.0.monitor.subscribers)
unfolding is_opened watched
demand_agrees_example = demand_agrees quiet watched.0 refl refl refl refl refl refl watched.1 refl

watched_asks : member monitor_name watched.0.devices.subscribers ≡ true
unfolding handle_monitor handle_devices requests member
watched_asks = refl

-- Closing and opening the manager again leaves it with two timers.
reopened : (open_devices (close_devices quiet.devices)).timers ≡ 2
unfolding open_devices
reopened = refl

-- A monitor that is closed while somebody watches stays among the manager's subscribers.
closed_asks :
    (member monitor_name watched.0.devices.subscribers ≡ true)
    × ((close_monitor watched.0.monitor).data_subscribed ≡ false)
unfolding handle_monitor handle_devices requests member close_monitor
closed_asks = (refl, refl)
