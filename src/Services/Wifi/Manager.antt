-- ===== src/Services/Wifi/Manager.antt =====
-- src/service/network_manager/network_manager_actor.cpp: the actor around the handler.
pub mod Reconnect
mod Tests
use v2_engine.Common.{
  ℕ, zero, suc, Bool, true, false, not, Option, none, some, List, [], ◌∷◌, ◌++◌, if◌then◌else◌,
}
use v2_engine.Actors.Supervision.{ActorState, closed, closing, opening, opened, inherited}
use v2_engine.Services.Cmd.Tokens.{Text, codes, is_opened}
use v2_engine.Services.Wifi.{
  WifiState, connected, ApInfo, Bus, WifiHandler, is_empty, same_state, sync_device_state,
  open_handler, close_handler, request_scan, active_ap_path, read_ap_info, read_interface_name,
  read_ip4_address, refresh_aps, add_and_activate, disconnect_device, auto_reconnect,
}

pub record Status : Type 0 where
  pub state : WifiState
  pub auto_reconnect : Bool
  pub connected : Bool
  pub interface : Text
  pub ssid : Text
  pub signal : Option ℕ
  pub ip : Text

-- What goes to the command actor.
pub data Sent : Type 0 where
  scan_result : List ApInfo → Sent
  connect_result : Bool → Text → Sent
  disconnect_result : Bool → Sent
  status_result : Status → Sent

pub data Event : Type 0 where
  tick scan_request disconnect_request status_request : Event
  connect_request : Text → Text → Event
  auto_reconnect_request : Bool → Event

pub record Manager : Type 0 where
  pub actor_state : ActorState
  pub wifi : WifiHandler
  pub ticking : Bool

-- The fields that need an access point in use.
pub with_ap : Bus → Text → Status → Status
unfolding is_empty read_ap_info
with_ap bus path r =
    if is_empty path
    then r
    else let info = read_ap_info bus path in record r { ssid = info.ssid; signal = info.signal }

pub report_status : Bus → WifiHandler → Status
unfolding is_empty same_state with_ap active_ap_path read_interface_name read_ip4_address
report_status bus w =
    let on = same_state w.state connected in
    let r : Status = record {
      state = w.state;
      auto_reconnect = w.enabled;
      connected = on;
      interface = [];
      ssid = [];
      signal = none;
      ip = [];
    } in
    if is_empty w.device_path
    then r
    else let named = record r { interface = read_interface_name bus w } in
      if on
      then record (with_ap bus (active_ap_path bus w) named) { ip = read_ip4_address bus w }
      else named

-- `refreshAps` with its message, if signals have asked for it.
pub refresh : Bus → WifiHandler → WifiHandler × List Sent
unfolding refresh_aps
refresh bus w =
    if w.refresh_pending
    then (let w' = refresh_aps bus (record w { refresh_pending = false }) in
        (w', scan_result w'.results ∷ []))
    else (w, [])

pub handle_tick : Bus → WifiHandler → WifiHandler × List Sent
unfolding sync_device_state refresh auto_reconnect report_status
handle_tick bus w =
    let (refreshed, sent) = refresh bus (sync_device_state bus w) in
    let w' = auto_reconnect bus refreshed in (w', sent ++ status_result (report_status bus w') ∷ [])

pub handle_event : Bus → Event → WifiHandler → WifiHandler × List Sent
unfolding handle_tick request_scan add_and_activate disconnect_device report_status
handle_event bus tick w = handle_tick bus w
handle_event bus scan_request w = (request_scan bus w, [])
handle_event bus (connect_request ssid password) w =
    let (w', ok) = add_and_activate bus ssid password w in
    (w', connect_result ok (if ok then [] else codes "Invalid state or device") ∷ [])
handle_event bus disconnect_request w =
    let (w', ok) = disconnect_device bus w in (w', disconnect_result ok ∷ [])
handle_event bus (auto_reconnect_request enable) w = (record w { enabled = enable }, [])
handle_event bus status_request w = (w, status_result (report_status bus w) ∷ [])

pub handle : Bus → Event → Manager → Manager × List Sent
unfolding handle_event is_opened
handle bus e m =
    let (w, sent) = handle_event bus e m.wifi in
    if is_opened m.actor_state then (record m { wifi = w }, sent) else (m, [])

-- The rounds in which the handler is tried, with the answers of D-Bus in each.
pub open_rounds : ℕ → (ℕ → Bus) → WifiHandler → WifiHandler × Bool
unfolding open_handler
open_rounds zero buses w = (w, false)
open_rounds (suc n) buses w =
    let (w', ok) = open_handler (buses n) w in
    let rest = open_rounds n buses w' in if ok then (w', true) else rest

pub close_manager : Manager → Manager
unfolding close_handler
close_manager m = elim m.actor_state [
  | closed ↦ m
  | _ ↦ record m { actor_state = closed; wifi = close_handler m.wifi; ticking = false }
]

-- `open`, with whether the D-Bus actor is found and opened.
pub open_manager : Bool → (ℕ → Bus) → Manager → Manager × Bool
unfolding open_rounds close_manager
open_manager dbus buses m =
    let m' = close_manager m in
    if dbus
    then (let (w, ok) = open_rounds 4 buses m'.wifi in
        (record m' { actor_state = opened; wifi = w; ticking = ok }, true))
    else (record m' { actor_state = closed }, false)
