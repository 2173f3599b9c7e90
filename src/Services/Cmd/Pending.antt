-- ===== src/Services/Cmd/Pending.antt =====
-- Who is answered, and when the connection is closed.
pub mod Forgotten
use v2_engine.Common.{
  ℕ, ◌≡◌, inl, inr, Bool, true, false, not, none, some, List, [], ◌∷◌, ◌++◌, arith, refl, sym, ap,
  ◌∙◌, Bool-cases, Option-cases,
}
use v2_engine.Services.Cmd.Tokens.{Text, is_opened}
use v2_engine.Services.Cmd.Tokens.Words.{parse_total}
use v2_engine.Services.Cmd.{
  Handler, actor, pmu, wifi, metrics, pmu_status, Sent, response, pmu_unsubscribe, Env, CmdActor,
  cmd_request, pmu_data_update, Outcome, Answer, find_handler, unknown_command, do_actor_toggle,
  toggle_args, handle_actor, handle_pmu, wifi_connect_args, wifi_autoconnect_args, handle_wifi,
  handle_metrics, run_handler, dispatch, respond, handle_request, handle_pmu_update, handle_opened,
  handle,
}

-- The connections that are answered, with whether each is closed afterwards.
unfoldable pub responses : {Pmu : Type 0} → List (Sent Pmu) → List (ℕ × Bool)
responses [] = []
responses (response conn reply close ∷ sent) = (conn, close) ∷ responses sent
responses (_ ∷ sent) = responses sent

responses-append :
    {Pmu : Type 0} (sent more : List (Sent Pmu))
    → responses sent ≡ []
    → responses (sent ++ more) ≡ responses more
unfolding responses
responses-append [] more h = refl
responses-append (response conn reply close ∷ sent) more h = cc
responses-append (_ ∷ sent) more h = responses-append sent more h

module _ {Ap Status Pmu : Type 0} where
  -- What a command leaves of the actor: it may ask for the PMU's data, and answers nobody itself.
  record Keeps (s : CmdActor Ap Status Pmu) (a : Answer Ap Status Pmu) : Type 0 where
    state : a.0.state ≡ s.state
    pending : s.pmu_status_pending ≡ true → a.0.pmu_status_pending ≡ true
    silent : responses a.1 ≡ []

  toggle_args-Keeps :
      (env : Env) (enable : Bool) (cmd : Text) (args : List Text) (s : CmdActor Ap Status Pmu)
      → Keeps s (toggle_args env enable cmd args s)
  unfolding toggle_args do_actor_toggle responses
  toggle_args-Keeps env enable cmd [] s = record { state = refl; pending = λ h. h; silent = refl }
  toggle_args-Keeps env enable cmd (name ∷ rest) s = ground arith

  handle_actor-Keeps :
      (env : Env) (args : List Text) (s : CmdActor Ap Status Pmu)
      → Keeps s (handle_actor env args s)
  unfolding handle_actor responses
  handle_actor-Keeps env [] s = record { state = refl; pending = λ h. h; silent = refl }
  handle_actor-Keeps env (cmd ∷ args) s =
      ground (arith, toggle_args-Keeps env true cmd args s, toggle_args-Keeps env false cmd args s)

  handle_pmu-Keeps : (args : List Text) (s : CmdActor Ap Status Pmu) → Keeps s (handle_pmu args s)
  unfolding handle_pmu responses
  handle_pmu-Keeps [] s = record { state = refl; pending = λ h. h; silent = refl }
  handle_pmu-Keeps (cmd ∷ args) s = ground arith

  wifi_connect_args-Keeps :
      (args : List Text) (s : CmdActor Ap Status Pmu) → Keeps s (wifi_connect_args args s)
  unfolding wifi_connect_args responses
  wifi_connect_args-Keeps [] s = record { state = refl; pending = λ h. h; silent = refl }
  wifi_connect_args-Keeps (ssid ∷ []) s = record { state = refl; pending = λ h. h; silent = refl }
  wifi_connect_args-Keeps (ssid ∷ password ∷ rest) s = record {
    state = refl;
    pending = λ h. h;
    silent = refl;
  }

  wifi_autoconnect_args-Keeps :
      (args : List Text) (s : CmdActor Ap Status Pmu) → Keeps s (wifi_autoconnect_args args s)
  unfolding wifi_autoconnect_args responses
  wifi_autoconnect_args-Keeps [] s = record { state = refl; pending = λ h. h; silent = refl }
  wifi_autoconnect_args-Keeps (word ∷ rest) s = record {
    state = refl;
    pending = λ h. h;
    silent = refl;
  }

  handle_wifi-Keeps : (args : List Text) (s : CmdActor Ap Status Pmu) → Keeps s (handle_wifi args s)
  unfolding handle_wifi responses
  handle_wifi-Keeps [] s = record { state = refl; pending = λ h. h; silent = refl }
  handle_wifi-Keeps (cmd ∷ args) s =
      ground (arith, wifi_connect_args-Keeps args s, wifi_autoconnect_args-Keeps args s)

  handle_metrics-Keeps :
      (env : Env) (args : List Text) (s : CmdActor Ap Status Pmu)
      → Keeps s (handle_metrics env args s)
  unfolding handle_metrics responses
  handle_metrics-Keeps env [] s = record { state = refl; pending = λ h. h; silent = refl }
  handle_metrics-Keeps env (cmd ∷ args) s = ground arith

  run_handler-Keeps :
      (env : Env) (h : Handler) (args : List Text) (s : CmdActor Ap Status Pmu)
      → Keeps s (run_handler env h args s)
  unfolding run_handler
  run_handler-Keeps env actor args s = handle_actor-Keeps env args s
  run_handler-Keeps env pmu args s = handle_pmu-Keeps args s
  run_handler-Keeps env wifi args s = handle_wifi-Keeps args s
  run_handler-Keeps env metrics args s = handle_metrics-Keeps env args s

  -- The answer to a command whose parts are known.
  abbrev answer_to : Env → Text × List Text → CmdActor Ap Status Pmu → Answer Ap Status Pmu
  answer_to env p s = elim (find_handler p.0 s.handlers) [
    | none ↦ (s, [], unknown_command p.0)
    | some h ↦ run_handler env h p.1 s
  ]

  answer_to-Keeps :
      (env : Env) (p : Text × List Text) (s : CmdActor Ap Status Pmu) → Keeps s (answer_to env p s)
  unfolding responses
  answer_to-Keeps env p s = elim (Option-cases (find_handler p.0 s.handlers)) [
    | inl e ↦ rw (e, answer_to) (record { state = refl; pending = λ h. h; silent = refl })
    | inr (h, e) ↦ rw (e, answer_to) (run_handler-Keeps env h p.1 s)
  ]

  dispatch-Keeps :
      (env : Env) (cmd : Text) (s : CmdActor Ap Status Pmu)
      → (a : Answer Ap Status Pmu) × (dispatch env cmd s ≡ some a) × Keeps s a
  unfolding dispatch
  dispatch-Keeps env cmd s =
      let (p, e) = parse_total cmd in
      (answer_to env p s, rw (e, dispatch) refl, answer_to-Keeps env p s)

  respond_lem :
      (conn : ℕ) (s : CmdActor Ap Status Pmu) (a : Answer Ap Status Pmu)
      → Keeps s a
      → ((respond conn a).0.state ≡ s.state)
        × ((respond conn a).0.pmu_status_pending ≡ a.0.pmu_status_pending)
        × (a.0.pmu_status_pending ≡ true → (respond conn a).0.pending_conn ≡ conn)
        × (responses (respond conn a).1 ≡ (conn, not a.0.pmu_status_pending) ∷ [])
  unfolding respond responses
  respond_lem conn s a k = elim (Bool-cases a.0.pmu_status_pending) [
    | inl on ↦ (
      ground (arith, k.state),
      ground arith,
      ground arith,
      responses-append a.1 (response conn a.2 (not a.0.pmu_status_pending) ∷ []) k.silent,
    )
    | inr off ↦ (
      ground (arith, k.state),
      ground arith,
      ground arith,
      responses-append a.1 (response conn a.2 (not a.0.pmu_status_pending) ∷ []) k.silent,
    )
  ]

  handle_request_lem :
      (env : Env) (conn : ℕ) (cmd : Text) (s : CmdActor Ap Status Pmu)
      → is_opened s.state ≡ true
      → (a : Answer Ap Status Pmu) × (handle env (cmd_request conn cmd) s ≡ some (respond conn a))
        × Keeps s a
  unfolding handle handle_opened handle_request
  handle_request_lem env conn cmd s open' =
      let (a, e, k) = dispatch-Keeps env cmd s in
      (a, rw open' (ap (λ d. elim d [ none ↦ none | some b ↦ some (respond conn b) ]) e), k)

  -- Whatever its bytes, a command that reaches an opened actor is answered at once, once, and on the
  -- connection that it came on; the connection is closed unless the actor then waits for the PMU.
  pub request-answered :
      (env : Env) (conn : ℕ) (cmd : Text) (s : CmdActor Ap Status Pmu)
      → is_opened s.state ≡ true
      → (o : Outcome Ap Status Pmu) × (handle env (cmd_request conn cmd) s ≡ some o)
        × (responses o.1 ≡ (conn, not o.0.pmu_status_pending) ∷ [])
        × (o.0.state ≡ s.state)
  request-answered env conn cmd s open' =
      let (a, e, k) = handle_request_lem env conn cmd s open' in
      let (state, pending, taken, answered) = respond_lem conn s a k in
      (respond conn a, e, answered ∙ ap (λ p. (conn, not p) ∷ []) (sym pending), state)

  -- While the actor waits for the PMU on behalf of one connection, a command on another one takes its
  -- place: that command's connection stays open, the PMU's data goes to it, and then nobody waits any
  -- more.
  request-takes :
      (env : Env) (conn : ℕ) (cmd : Text) (d : Pmu) (s : CmdActor Ap Status Pmu)
      → is_opened s.state ≡ true
      → s.pmu_status_pending ≡ true
      → (o p : Outcome Ap Status Pmu) × (handle env (cmd_request conn cmd) s ≡ some o)
        × (responses o.1 ≡ (conn, false) ∷ [])
        × (handle env (pmu_data_update d) o.0 ≡ some p)
        × (responses p.1 ≡ (conn, true) ∷ [])
        × (p.0.pmu_status_pending ≡ false)
  unfolding handle handle_opened handle_pmu_update responses
  request-takes env conn cmd d s open' waits =
      let (a, e, k) = handle_request_lem env conn cmd s open' in
      let (state, pending, taken, answered) = respond_lem conn s a k in
      let on = pending ∙ k.pending waits in
      let there : is_opened (respond conn a).0.state ≡ true = ap is_opened state ∙ open' in
      (
        respond conn a,
        (
          record (respond conn a).0 { pmu_status_pending = false },
          pmu_unsubscribe ∷ response (respond conn a).0.pending_conn (pmu_status d) true ∷ [],
        ),
        e,
        answered ∙ ap (λ p. (conn, not p) ∷ []) (k.pending waits),
        rw (there, on) refl,
        ap (λ c. (c, true) ∷ []) (taken (k.pending waits)),
        refl,
      )
