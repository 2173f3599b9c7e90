-- ===== src/Services/Wifi.antt =====
-- src/service/network_manager/wifi_handler.cpp: the state of the wireless device, and its requests to
-- NetworkManager over D-Bus. What a call of D-Bus returns is a parameter; `none` or `false` is an error
-- that it throws.
pub mod Manager
pub mod Connect
use v2_engine.Common.{
  ℕ, ◌%◌, ◌/◌, ◌^◌, Bool, true, false, not, ◌&&◌, ◌||◌, Option, none, some, List, [], ◌∷◌, ◌++◌,
  map, ◌==◌, if◌then◌else◌,
}
use v2_engine.Services.Cmd.Tokens.{Text, codes, same_text}

pub data WifiState : Type 0 where
  disconnected scanning connecting connected disconnecting error : WifiState

-- The properties of an access point; `none` is an error.
pub record ApProps : Type 0 where
  pub ssid : Option Text
  pub hw_address : Option Text
  pub frequency : Option ℕ
  pub max_bitrate : Option ℕ
  pub strength : Option ℕ
  pub mode : Option ℕ
  pub wpa_flags : Option ℕ
  pub rsn_flags : Option ℕ

pub record ApInfo : Type 0 where
  pub object_path : Text
  pub ssid : Text
  pub bssid : Text
  pub frequency : ℕ
  pub max_bitrate : ℕ
  -- `signalStrength` + 100, where it has been read.
  pub signal : Option ℕ
  pub mode : Text
  pub security : Text
  pub connected : Bool

-- The answers of D-Bus while one event is handled.
pub record Bus : Type 0 where
  -- `GetAllDevices`, and the type of each device.
  pub devices : Option (List (Text × Option ℕ))
  pub device_state : Option ℕ
  pub request_scan : Bool
  pub access_points : Option (List Text)
  pub active_ap : Option Text
  pub ap_props : Text → ApProps
  -- `AddAndActivateConnection`: the path of the active connection.
  pub activate : Text → Text → Option Text
  pub disconnect : Bool
  pub interface : Option Text
  pub ip4_config : Option Text
  pub addresses : Text → Option (List Text)

pub record WifiHandler : Type 0 where
  pub device_path : Text
  pub device_proxy : Bool
  pub state : WifiState
  pub active_path : Text
  pub enabled : Bool
  pub last_ssid : Text
  pub last_password : Text
  pub results : List ApInfo
  pub refresh_pending : Bool

abbrev pub fresh : WifiHandler
fresh = record {
  device_path = [];
  device_proxy = false;
  state = disconnected;
  active_path = [];
  enabled = true;
  last_ssid = [];
  last_password = [];
  results = [];
  refresh_pending = false;
}

pub is_empty : Text → Bool
is_empty [] = true
is_empty (c ∷ cs) = false

pub same_state : WifiState → WifiState → Bool
same_state disconnected disconnected = true
same_state scanning scanning = true
same_state connecting connecting = true
same_state connected connected = true
same_state disconnecting disconnecting = true
same_state error error = true
same_state _ _ = false

-- NetworkManager's numbers of device states.
pub map_device_state : ℕ → WifiState
map_device_state n =
    if n == 10 || n == 20
    then error
    else if n == 30
    then disconnected
    else if n == 40 || n == 50 || n == 60 || n == 70 || n == 80 || n == 90
    then connecting
    else if n == 100
    then connected
    else if n == 110
    then disconnecting
    else error

-- Whether bit `k` is set.
has_bit : ℕ → ℕ → Bool
has_bit flags k = not (flags / 2 ^ k % 2 == 0)

pub flags_to_security : ℕ → ℕ → Text
unfolding has_bit
flags_to_security wpa rsn =
    let has_wpa = has_bit wpa 4 in
    let has_rsn = has_bit rsn 5 in
    if has_bit rsn 29
    then codes "WPA3"
    else if has_wpa && has_rsn
    then codes "WPA2/WPA3"
    else if has_rsn
    then codes "WPA2"
    else if has_wpa
    then codes "WPA"
    else codes "OPEN"

security_of : Option ℕ → Option ℕ → Text
unfolding flags_to_security
security_of (some wpa) (some rsn) = flags_to_security wpa rsn
security_of _ _ = []

text_or_empty : Option Text → Text
text_or_empty none = []
text_or_empty (some t) = t

number_or_zero : Option ℕ → ℕ
number_or_zero none = 0
number_or_zero (some n) = n

mode_text : Option ℕ → Text
mode_text none = []
mode_text (some n) = if n == 0 then codes "infrastructure" else codes "adhoc"

pub read_ap_info : Bus → Text → ApInfo
unfolding security_of text_or_empty number_or_zero mode_text
read_ap_info bus path =
    let props = bus.ap_props path in
    record {
      object_path = path;
      ssid = text_or_empty props.ssid;
      bssid = text_or_empty props.hw_address;
      frequency = number_or_zero props.frequency % 2 ^ 16;
      max_bitrate = number_or_zero props.max_bitrate;
      signal = props.strength;
      mode = mode_text props.mode;
      security = security_of props.wpa_flags props.rsn_flags;
      connected = false;
    }

-- The first device of type 2; an error on the way ends the search.
find_device : List (Text × Option ℕ) → Option Text
find_device [] = none
find_device ((path, none) ∷ rest) = none
find_device ((path, some kind) ∷ rest) =
    let later = find_device rest in if kind == 2 then some path else later

pub find_wireless_device : Bus → WifiHandler → WifiHandler × Bool
unfolding find_device
find_wireless_device bus w = elim bus.devices [
  | none ↦ (w, false)
  | some all ↦ elim (find_device all) [
    | none ↦ (w, false)
    | some path ↦ (record w { device_path = path; device_proxy = true }, true)
  ]
]

pub get_device_state : Bus → WifiHandler → ℕ
get_device_state bus w =
    if w.device_proxy then elim bus.device_state [ none ↦ 0 | some n ↦ n ] else 0

pub sync_device_state : Bus → WifiHandler → WifiHandler
unfolding get_device_state map_device_state
sync_device_state bus w = record w { state = map_device_state (get_device_state bus w) }

pub open_handler : Bus → WifiHandler → WifiHandler × Bool
unfolding find_wireless_device sync_device_state
open_handler bus w =
    let (found, ok) = find_wireless_device bus w in
    if ok then (sync_device_state bus found, true) else (found, false)

-- The signals of the device, that access points or properties have changed.
pub on_signal : WifiHandler → WifiHandler
on_signal w = record w { refresh_pending = true }

pub close_handler : WifiHandler → WifiHandler
close_handler w = record w {
  refresh_pending = false;
  active_path = [];
  device_path = [];
  device_proxy = false;
  state = disconnected;
}

-- Requests are taken while disconnected or connected only.
pub takes_requests : WifiState → Bool
unfolding same_state
takes_requests state = same_state state disconnected || same_state state connected

pub request_scan : Bus → WifiHandler → WifiHandler
unfolding is_empty takes_requests
request_scan bus w =
    if is_empty w.device_path
      || not (takes_requests w.state)
      || not w.device_proxy
      || not bus.request_scan
    then w
    else record w { state = scanning }

-- `getActiveApPath`; empty without a device or after an error.
pub active_ap_path : Bus → WifiHandler → Text
active_ap_path bus w =
    if w.device_proxy then elim bus.active_ap [ none ↦ [] | some path ↦ path ] else []

read_one : Bus → Text → Text → ApInfo
unfolding same_text read_ap_info
read_one bus active path =
    if same_text path active
    then record (read_ap_info bus path) { connected = true }
    else read_ap_info bus path

pub read_interface_name : Bus → WifiHandler → Text
unfolding text_or_empty
read_interface_name bus w = if w.device_proxy then text_or_empty bus.interface else []

-- The first address of the configuration, if there is one.
first_address : Option (List Text) → Text
first_address none = []
first_address (some []) = []
first_address (some (a ∷ rest)) = a

pub read_ip4_address : Bus → WifiHandler → Text
unfolding is_empty same_text first_address
read_ip4_address bus w =
    if w.device_proxy
    then elim bus.ip4_config [
      | none ↦ []
      | some path ↦
          if is_empty path || same_text path (codes "/")
          then []
          else first_address (bus.addresses path)
    ]
    else []

pub refresh_aps : Bus → WifiHandler → WifiHandler
unfolding is_empty active_ap_path read_one
refresh_aps bus w =
    if is_empty w.device_path || not w.device_proxy then w else elim bus.access_points [
      | none ↦ w
      | some paths ↦ record w { results = map (read_one bus (active_ap_path bus w)) paths }
    ]

pub activated : Text → Text → Option Text → WifiHandler → WifiHandler × Bool
activated ssid password none w = (record w { state = disconnected }, false)
activated ssid password (some path) w = (
  record w { active_path = path; last_ssid = ssid; last_password = password; state = connected },
  true,
)

pub add_and_activate : Bus → Text → Text → WifiHandler → WifiHandler × Bool
unfolding is_empty takes_requests activated
add_and_activate bus ssid password w =
    if is_empty w.device_path || not (takes_requests w.state)
    then (w, false)
    else activated ssid password (bus.activate ssid password) (record w { state = connecting })

pub disconnect_device : Bus → WifiHandler → WifiHandler × Bool
unfolding same_state
disconnect_device bus w =
    if not (same_state w.state connected || same_state w.state connecting)
    then (w, false)
    else if not w.device_proxy
    then (record w { state = disconnecting }, false)
    else if bus.disconnect
    then (record w { active_path = []; state = disconnected }, true)
    else (record w { state = connected }, false)

pub auto_reconnect : Bus → WifiHandler → WifiHandler
unfolding add_and_activate is_empty same_state
auto_reconnect bus w =
    if w.enabled && same_state w.state disconnected && not (is_empty w.last_ssid)
    then (add_and_activate bus w.last_ssid w.last_password w).0
    else w
