-- ===== src/Services/Wifi/Manager/Reconnect.antt =====
-- A disconnection that the user asks for, and the automatic reconnection.
use v2_engine.Common.{
  ◌≡◌, true, false, some, [], ◌∷◌, arith, refl, ap, ap₂, ◌∙◌, inl, inr, Bool-cases,
}
use v2_engine.Services.Cmd.Tokens.{Text, is_opened}
use v2_engine.Services.Wifi.{
  disconnected, connected, Bus, WifiHandler, is_empty, same_state, takes_requests, map_device_state,
  get_device_state, sync_device_state, refresh_aps, activated, add_and_activate, disconnect_device,
  auto_reconnect,
}
use v2_engine.Services.Wifi.Manager.{
  Manager, disconnect_result, tick, disconnect_request, refresh, handle_tick, handle_event, handle,
}

-- What a refresh of the access points leaves alone.
record Same (w w' : WifiHandler) : Type 0 where
  state : w'.state ≡ w.state
  path : w'.device_path ≡ w.device_path
  enabled : w'.enabled ≡ w.enabled
  ssid : w'.last_ssid ≡ w.last_ssid
  password : w'.last_password ≡ w.last_password

refresh_aps-Same : (bus : Bus) (w : WifiHandler) → Same w (refresh_aps bus w)
unfolding refresh_aps
refresh_aps-Same bus w = ground arith

refresh-Same : (bus : Bus) (w : WifiHandler) → Same w (refresh bus w).0
unfolding refresh
refresh-Same bus w = elim (Bool-cases w.refresh_pending) [
  | inl on ↦ rw on (
      let s = refresh_aps-Same bus (record w { refresh_pending = false }) in
      record {
        state = s.state;
        path = s.path;
        enabled = s.enabled;
        ssid = s.ssid;
        password = s.password;
      })
  | inr off ↦
      rw off (record { state = refl; path = refl; enabled = refl; ssid = refl; password = refl })
]

sync-down :
    (bus : Bus) (w : WifiHandler)
    → w.device_proxy ≡ true
    → bus.device_state ≡ some 30
    → (sync_device_state bus w).state ≡ disconnected
unfolding sync_device_state get_device_state map_device_state
sync-down bus w proxy down = rw (proxy, down)

activate-again :
    (bus : Bus) (w : WifiHandler) (path : Text)
    → w.state ≡ disconnected
    → is_empty w.device_path ≡ false
    → w.enabled ≡ true
    → is_empty w.last_ssid ≡ false
    → bus.activate w.last_ssid w.last_password ≡ some path
    → ((auto_reconnect bus w).state ≡ connected) × ((auto_reconnect bus w).active_path ≡ path)
unfolding auto_reconnect add_and_activate activated same_state takes_requests
activate-again bus w path off device enabled ssid made = (ground arith, ground arith)

handle-tick :
    (bus : Bus) (m : Manager)
    → is_opened m.actor_state ≡ true
    → (handle bus tick m).0.wifi ≡ auto_reconnect bus (refresh bus (sync_device_state bus m.wifi)).0
unfolding handle handle_event handle_tick
handle-tick bus m open' = rw open'

-- A request to disconnect that succeeds is undone by the next tick, once NetworkManager reports the
-- device as disconnected: with the automatic reconnection on, as it is from the start, the handler
-- connects to the last network again, as long as the two calls of D-Bus succeed.
disconnect-tick :
    (bus next : Bus) (m : Manager) (path : Text)
    → is_opened m.actor_state ≡ true
    → m.wifi.state ≡ connected
    → m.wifi.device_proxy ≡ true
    → is_empty m.wifi.device_path ≡ false
    → m.wifi.enabled ≡ true
    → is_empty m.wifi.last_ssid ≡ false
    → bus.disconnect ≡ true
    → next.device_state ≡ some 30
    → next.activate m.wifi.last_ssid m.wifi.last_password ≡ some path
    → (m' : Manager) × (handle bus disconnect_request m ≡ (m', disconnect_result true ∷ []))
      × (m'.wifi.state ≡ disconnected)
      × ((handle next tick m').0.wifi.state ≡ connected)
      × ((handle next tick m').0.wifi.active_path ≡ path)
unfolding handle handle_event disconnect_device same_state sync_device_state
disconnect-tick bus next m path open' on proxy device enabled ssid done' down made =
    let m' : Manager = record m {
      wifi = record m.wifi { active_path = []; state = disconnected };
    } in
    let synced = sync_device_state next m'.wifi in
    let s = refresh-Same next synced in
    let (there, at) =
      activate-again next (refresh next synced).0 path (s.state ∙ sync-down next m'.wifi proxy down)
        (ap is_empty s.path ∙ device) (s.enabled ∙ enabled) (ap is_empty s.ssid ∙ ssid)
        (ap₂ next.activate s.ssid s.password ∙ made) in
    (
      m',
      rw (on, proxy, open', done') refl,
      refl,
      ap (λ w. w.state) (handle-tick next m' open') ∙ there,
      ap (λ w. w.active_path) (handle-tick next m' open') ∙ at,
    )
