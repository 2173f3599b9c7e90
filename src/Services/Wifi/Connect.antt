-- ===== src/Services/Wifi/Connect.antt =====
-- What a request to connect leaves behind.
use v2_engine.Common.{
  ◌≡◌, ◌⊎◌, inl, inr, true, false, not, ◌||◌, none, some, Bool-cases, Option-cases,
}
use v2_engine.Services.Cmd.Tokens.{Text}
use v2_engine.Services.Wifi.{
  disconnected, connected, Bus, WifiHandler, is_empty, takes_requests, activated, add_and_activate,
}

-- The three ways in which a request to connect ends: refused with nothing changed, without a device or
-- in a state that takes no requests; failed in D-Bus, and then disconnected with the last network kept;
-- or connected, with the network remembered. Only the last one answers `true`.
pub add_and_activate-outcomes :
    (bus : Bus) (ssid password : Text) (w : WifiHandler)
    → ((is_empty w.device_path || not (takes_requests w.state)) ≡ true)
        × (add_and_activate bus ssid password w ≡ (w, false))
      ⊎ ((bus.activate ssid password ≡ none)
            × (add_and_activate bus ssid password w ≡ (record w { state = disconnected }, false))
          ⊎ ((path : Text) × (bus.activate ssid password ≡ some path)
              × (add_and_activate bus ssid password w ≡ (
                record w {
                  active_path = path;
                  last_ssid = ssid;
                  last_password = password;
                  state = connected;
                },
                true,
              ))))
unfolding add_and_activate activated
add_and_activate-outcomes bus ssid password w =
    elim (Bool-cases (is_empty w.device_path || not (takes_requests w.state))) [
      | inl refused ↦ inl (refused, rw refused)
      | inr taken ↦ elim (Option-cases (bus.activate ssid password)) [
        | inl failed ↦ inr (inl (failed, rw (taken, failed)))
        | inr (path, made) ↦ inr (inr (path, made, rw (taken, made)))
      ]
    ]
