-- ===== src/Services/Wifi/Manager/Tests.antt =====
-- A device connected to "home".
use v2_engine.Common.{ℕ, ◌≡◌, true, none, some, [], ◌∷◌, refl}
use v2_engine.Actors.Supervision.{opened}
use v2_engine.Services.Cmd.Tokens.{codes}
use v2_engine.Services.Wifi.{connected, Bus, WifiHandler, fresh, flags_to_security}
use v2_engine.Services.Wifi.Manager.{Manager, open_manager}

abbrev bus : ℕ → Bus
bus state = record {
  devices = some ((codes "/d/1", some 1) ∷ (codes "/d/2", some 2) ∷ []);
  device_state = some state;
  request_scan = true;
  access_points = some [];
  active_ap = none;
  ap_props = λ path. record {
    ssid = none;
    hw_address = none;
    frequency = none;
    max_bitrate = none;
    strength = none;
    mode = none;
    wpa_flags = none;
    rsn_flags = none;
  };
  activate = λ ssid password. some (codes "/a/7");
  disconnect = true;
  interface = none;
  ip4_config = none;
  addresses = λ path. none;
}

abbrev home : WifiHandler
home = record fresh {
  device_path = codes "/d/2";
  device_proxy = true;
  state = connected;
  last_ssid = codes "home";
  last_password = codes "secret";
}

abbrev manager : Manager
manager = record { actor_state = opened; wifi = home; ticking = true }

opens :
    (open_manager true (λ n. bus 100) (record manager { wifi = fresh })).0.wifi.device_path
    ≡ codes "/d/2"
unfolding open_manager
opens = refl

-- An access point with WPA and RSN key management.
both_kinds : flags_to_security 0x10 0x20 ≡ codes "WPA2/WPA3"
unfolding flags_to_security
both_kinds = refl
