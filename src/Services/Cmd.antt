-- ===== src/Services/Cmd.antt =====
-- src/service/cmd/cmd_actor.cpp: the actor that takes commands as text and answers the connections
-- that they came on. A reply stands for the text that the code builds from its arguments.
pub mod Tokens
pub mod Pending
mod Tests
use Prim.Native.Char.{code}
use Prim.Native.String.{String}
use v2_engine.Common.{
  ℕ, suc, ◌+◌, ◌≤◌, Bool, true, false, not, ◌&&◌, Option, none, some, List, [], ◌∷◌, ◌++◌, length,
  leb, if◌then◌else◌,
}
use v2_engine.Actors.Supervision.{ActorState, closed, closing, opening, opened}
use v2_engine.Services.Cmd.Tokens.{Text, parse, same_text, codes, is_opened}

-- The keys of `handlers_`.
pub data Handler : Type 0 where
  actor pmu wifi metrics : Handler

pub data Reply (Pmu : Type 0) : Type 0 where
  unknown_command not_found essential connecting : Text → Reply Pmu
  unknown_subcommand : Handler → Text → Reply Pmu
  toggled : Bool → Text → Reply Pmu
  pmu_status : Pmu → Reply Pmu
  auto_reconnect metrics_set : Bool → Reply Pmu
  missing_subcommand no_registry actor_list reading scanning no_scan ap_list connect_usage :
      Reply Pmu
  disconnecting wifi_status autoconnect_usage snapshot metrics_disabled metrics_reset : Reply Pmu

-- What the actor sends to other actors, and its calls of the metrics.
pub data Sent (Pmu : Type 0) : Type 0 where
  response : ℕ → Reply Pmu → Bool → Sent Pmu
  pmu_subscribe pmu_unsubscribe wifi_scan wifi_disconnect reset_metrics : Sent Pmu
  wifi_connect : Text → Text → Sent Pmu
  wifi_auto_reconnect set_metrics : Bool → Sent Pmu
  toggle_actor : Bool → Text → Sent Pmu

-- What the actor asks of its runtime and of the metrics: whether there is a registry, an actor of a
-- name, with its `isEssential`, and whether the metrics are on.
pub record Env : Type 0 where
  pub has_registry : Bool
  pub find_actor : Text → Option Bool
  pub metrics_enabled : Bool

module _ (Ap Status Pmu : Type 0) where
  pub record CmdActor : Type 0 where
    pub state : ActorState
    pub handlers : List (Text × Handler)
    pub last_scan : List Ap
    pub last_status : Option Status
    pub pending_conn : ℕ
    pub pmu_status_pending : Bool
    pub last_connect_result : Text
    pub last_disconnect_result : Text

  pub data Event : Type 0 where
    cmd_request : ℕ → Text → Event
    pmu_data_update : Pmu → Event
    wifi_scan_result : List Ap → Event
    wifi_status_result : Status → Event
    wifi_connect_result : Bool → Text → Event
    wifi_disconnect_result : Bool → Event

  abbrev pub Outcome : Type 0
  Outcome = CmdActor × List (Sent Pmu)

  -- A handler's new state, what it sends, and the reply that it returns.
  abbrev pub Answer : Type 0
  Answer = CmdActor × List (Sent Pmu) × Reply Pmu

pub find_handler : Text → List (Text × Handler) → Option Handler
unfolding same_text
find_handler name [] = none
find_handler name ((key, h) ∷ table) =
    let rest = find_handler name table in if same_text key name then some h else rest

module _ {Ap Status Pmu : Type 0} where
  pub do_actor_toggle : Env → Bool → Text → CmdActor Ap Status Pmu → Answer Ap Status Pmu
  do_actor_toggle env enable name s =
      if env.has_registry
      then elim (env.find_actor name) [
        | none ↦ (s, [], not_found name)
        | some yes' ↦
            if yes'
            then (s, [], essential name)
            else (s, toggle_actor enable name ∷ [], toggled enable name)
      ]
      else (s, [], no_registry)

  pub toggle_args : Env → Bool → Text → List Text → CmdActor Ap Status Pmu → Answer Ap Status Pmu
  unfolding do_actor_toggle
  toggle_args env enable cmd [] s = (s, [], unknown_subcommand actor cmd)
  toggle_args env enable cmd (name ∷ rest) s = do_actor_toggle env enable name s

  pub handle_actor : Env → List Text → CmdActor Ap Status Pmu → Answer Ap Status Pmu
  unfolding toggle_args same_text
  handle_actor env [] s = (s, [], missing_subcommand)
  handle_actor env (cmd ∷ args) s =
      if same_text cmd (codes "list")
      then (s, [], (if env.has_registry then actor_list else no_registry))
      else if same_text cmd (codes "enable")
      then toggle_args env true cmd args s
      else if same_text cmd (codes "disable")
      then toggle_args env false cmd args s
      else (s, [], unknown_subcommand actor cmd)

  pub handle_pmu : List Text → CmdActor Ap Status Pmu → Answer Ap Status Pmu
  unfolding same_text
  handle_pmu [] s = (s, [], missing_subcommand)
  handle_pmu (cmd ∷ args) s =
      if same_text cmd (codes "status")
      then (record s { pmu_status_pending = true }, pmu_subscribe ∷ [], reading)
      else (s, [], unknown_subcommand pmu cmd)

  pub wifi_connect_args : List Text → CmdActor Ap Status Pmu → Answer Ap Status Pmu
  wifi_connect_args [] s = (s, [], connect_usage)
  wifi_connect_args (ssid ∷ []) s = (s, wifi_connect ssid [] ∷ [], connecting ssid)
  wifi_connect_args (ssid ∷ password ∷ rest) s =
      (s, wifi_connect ssid password ∷ [], connecting ssid)

  pub wifi_autoconnect_args : List Text → CmdActor Ap Status Pmu → Answer Ap Status Pmu
  unfolding same_text
  wifi_autoconnect_args [] s = (s, [], autoconnect_usage)
  wifi_autoconnect_args (word ∷ rest) s =
      let enable = same_text word (codes "on") in
      (s, wifi_auto_reconnect enable ∷ [], auto_reconnect enable)

  pub handle_wifi : List Text → CmdActor Ap Status Pmu → Answer Ap Status Pmu
  unfolding wifi_connect_args wifi_autoconnect_args same_text
  handle_wifi [] s = (s, [], missing_subcommand)
  handle_wifi (cmd ∷ args) s =
      if same_text cmd (codes "scan")
      then (s, wifi_scan ∷ [], scanning)
      else if same_text cmd (codes "list")
      then (s, [], elim s.last_scan [ [] ↦ no_scan | _ ↦ ap_list ])
      else if same_text cmd (codes "connect")
      then wifi_connect_args args s
      else if same_text cmd (codes "disconnect")
      then (s, wifi_disconnect ∷ [], disconnecting)
      else if same_text cmd (codes "status")
      then (s, [], wifi_status)
      else if same_text cmd (codes "autoconnect")
      then wifi_autoconnect_args args s
      else (s, [], unknown_subcommand wifi cmd)

  pub handle_metrics : Env → List Text → CmdActor Ap Status Pmu → Answer Ap Status Pmu
  unfolding same_text
  handle_metrics env [] s = (s, [], missing_subcommand)
  handle_metrics env (cmd ∷ args) s =
      if same_text cmd (codes "enable")
      then (s, set_metrics true ∷ [], metrics_set true)
      else if same_text cmd (codes "disable")
      then (s, set_metrics false ∷ [], metrics_set false)
      else if same_text cmd (codes "snapshot")
      then (s, [], (if env.metrics_enabled then snapshot else metrics_disabled))
      else if same_text cmd (codes "reset")
      then (s, reset_metrics ∷ [], metrics_reset)
      else (s, [], unknown_subcommand metrics cmd)

  pub run_handler : Env → Handler → List Text → CmdActor Ap Status Pmu → Answer Ap Status Pmu
  unfolding handle_actor handle_pmu handle_wifi handle_metrics
  run_handler env actor args s = handle_actor env args s
  run_handler env pmu args s = handle_pmu args s
  run_handler env wifi args s = handle_wifi args s
  run_handler env metrics args s = handle_metrics env args s

  -- The fuel is more than the bytes of the command.
  pub dispatch : Env → Text → CmdActor Ap Status Pmu → Option (Answer Ap Status Pmu)
  unfolding find_handler run_handler parse
  dispatch env cmd s = elim (parse (suc (length cmd)) cmd) [
    | none ↦ none
    | some (name, args) ↦ some (elim (find_handler name s.handlers) [
      | none ↦ (s, [], unknown_command name)
      | some h ↦ run_handler env h args s
    ])
  ]

  -- What follows the dispatch of a request.
  pub respond : ℕ → Answer Ap Status Pmu → Outcome Ap Status Pmu
  respond conn (s, sent, reply) = (
    (if s.pmu_status_pending then record s { pending_conn = conn } else s),
    sent ++ response conn reply (not s.pmu_status_pending) ∷ [],
  )

  pub handle_request : Env → ℕ → Text → CmdActor Ap Status Pmu → Option (Outcome Ap Status Pmu)
  unfolding dispatch respond
  handle_request env conn cmd s = elim (dispatch env cmd s) [
    | none ↦ none
    | some a ↦ some (respond conn a)
  ]

  pub handle_pmu_update : Pmu → CmdActor Ap Status Pmu → Outcome Ap Status Pmu
  handle_pmu_update d s =
      if s.pmu_status_pending
      then (
        record s { pmu_status_pending = false },
        pmu_unsubscribe ∷ response s.pending_conn (pmu_status d) true ∷ [],
      )
      else (s, [])

  pub handle_opened :
      Env → Event Ap Status Pmu → CmdActor Ap Status Pmu → Option (Outcome Ap Status Pmu)
  unfolding handle_request handle_pmu_update
  handle_opened env (cmd_request conn cmd) s = handle_request env conn cmd s
  handle_opened env (pmu_data_update d) s = some (handle_pmu_update d s)
  handle_opened env (wifi_scan_result aps) s = some (record s { last_scan = aps }, [])
  handle_opened env (wifi_status_result m) s = some (record s { last_status = some m }, [])
  handle_opened env (wifi_connect_result ok why) s = some (
    record s {
      last_connect_result = if ok then codes "Connected successfully" else codes "Failed" ++ why;
    },
    [],
  )
  handle_opened env (wifi_disconnect_result ok) s = some (
    record s {
      last_disconnect_result =
          if ok then codes "Disconnected successfully" else codes "Failed to disconnect";
    },
    [],
  )

  pub handle : Env → Event Ap Status Pmu → CmdActor Ap Status Pmu → Option (Outcome Ap Status Pmu)
  unfolding handle_opened is_opened
  handle env m s = if is_opened s.state then handle_opened env m s else some (s, [])

  close_open : CmdActor Ap Status Pmu → Outcome Ap Status Pmu
  close_open s = (
    record s { state = closed; pmu_status_pending = false },
    (if s.pmu_status_pending then pmu_unsubscribe ∷ [] else []),
  )

  pub close : CmdActor Ap Status Pmu → Outcome Ap Status Pmu
  unfolding close_open
  close s = elim s.state [ closed ↦ (s, []) | _ ↦ close_open s ]

  pub open_actor : CmdActor Ap Status Pmu → Outcome Ap Status Pmu
  unfolding close
  open_actor s =
      let (t, sent) = close s in
      (
        record t {
          state = opened;
          handlers =
              (codes "actor", actor)
              ∷ (codes "pmu", pmu)
              ∷ (codes "wifi", wifi)
              ∷ (codes "metrics", metrics)
              ∷ [];
        },
        sent,
      )
