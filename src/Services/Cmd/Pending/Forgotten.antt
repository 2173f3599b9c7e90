-- ===== src/Services/Cmd/Pending/Forgotten.antt =====
-- The connection that cmd_actor.cpp no longer answers once another command has come in between.
use v2_engine.Common.{
  ℕ, ◌+◌, ◌≡◌, inl, inr, Bool, true, false, Option, none, some, List, [], ◌∷◌, ◌++◌, arith, refl,
  sym, ap, ◌∙◌, ◌==◌, if◌then◌else◌, Bool-cases,
}
use v2_engine.Services.Cmd.Tokens.{Text, is_opened}
use v2_engine.Services.Cmd.{
  Sent, response, Env, CmdActor, Event, cmd_request, pmu_data_update, wifi_scan_result,
  wifi_status_result, wifi_connect_result, wifi_disconnect_result, Outcome, respond,
  handle_pmu_update, handle_opened, handle,
}
use v2_engine.Services.Cmd.Pending.{responses, handle_request_lem, respond_lem}

-- How many of some responses are on a connection.
count : ℕ → List (ℕ × Bool) → ℕ
count j [] = 0
count j ((conn, close) ∷ rs) = (if conn == j then 1 else 0) + count j rs

unfoldable pub told : {Pmu : Type 0} → ℕ → List (Sent Pmu) → ℕ
unfolding count responses
told j sent = count j (responses sent)

told-append :
    {Pmu : Type 0} (j : ℕ) (sent more : List (Sent Pmu))
    → told j (sent ++ more) ≡ told j sent + told j more
unfolding told count responses
told-append j [] more = omega arith
told-append j (response conn reply close ∷ sent) more = omega (arith, told-append j sent more)
told-append j (_ ∷ sent) more = told-append j sent more

module _ {Ap Status Pmu : Type 0} where
  -- No command comes on the connection.
  unfoldable pub Spares : ℕ → Event Ap Status Pmu → Type 0
  Spares j (cmd_request conn cmd) = (conn == j) ≡ false
  Spares j _ = Unit

  unfoldable pub AllSpare : ℕ → List (Event Ap Status Pmu) → Type 0
  unfolding Spares
  AllSpare j [] = Unit
  AllSpare j (e ∷ es) = Spares j e × AllSpare j es

  -- The events one after the other, with all that is sent.
  unfoldable pub run :
      Env → List (Event Ap Status Pmu) → CmdActor Ap Status Pmu → Option (Outcome Ap Status Pmu)
  unfolding handle
  run env [] s = some (s, [])
  run env (e ∷ es) s = elim (handle env e s) [
    | none ↦ none
    | some o ↦ elim (run env es o.0) [ none ↦ none | some p ↦ some (p.0, o.1 ++ p.1) ]
  ]

  -- The actor does not wait for the PMU on behalf of the connection.
  Elsewhere : ℕ → CmdActor Ap Status Pmu → Type 0
  Elsewhere j s = s.pmu_status_pending ≡ true → (s.pending_conn == j) ≡ false

  request_lem :
      (env : Env) (j conn : ℕ) (cmd : Text) (s : CmdActor Ap Status Pmu)
      → is_opened s.state ≡ true
      → (conn == j) ≡ false
      → (o : Outcome Ap Status Pmu) × (handle env (cmd_request conn cmd) s ≡ some o)
        × (told j o.1 ≡ 0)
        × Elsewhere j o.0
  unfolding told count Elsewhere
  request_lem env j conn cmd s open' other =
      let (a, e, k) = handle_request_lem env conn cmd s open' in
      let (state, pending, taken, answered) = respond_lem conn s a k in
      (
        respond conn a,
        e,
        ap (count j) answered ∙ rw other refl,
        λ on. ap (λ c. c == j) (taken (sym pending ∙ on)) ∙ other,
      )

  update_lem :
      (j : ℕ) (d : Pmu) (s : CmdActor Ap Status Pmu)
      → Elsewhere j s
      → (told j (handle_pmu_update d s).1 ≡ 0) × Elsewhere j (handle_pmu_update d s).0
  unfolding told count responses handle_pmu_update Elsewhere
  update_lem j d s away = elim (Bool-cases s.pmu_status_pending) [
    | inl on ↦ rw on (rw (away on) refl, λ h. cc)
    | inr off ↦ rw off (refl, λ h. cc)
  ]

  handle-opened :
      (env : Env) (e : Event Ap Status Pmu) (s : CmdActor Ap Status Pmu) {o : Outcome Ap Status Pmu}
      → is_opened s.state ≡ true
      → handle_opened env e s ≡ some o
      → handle env e s ≡ some o
  unfolding handle
  handle-opened env e s open' is = rw (open', handle) is

  opened_lem :
      (env : Env) (j : ℕ) (e : Event Ap Status Pmu) (s : CmdActor Ap Status Pmu)
      → is_opened s.state ≡ true
      → Spares j e
      → Elsewhere j s
      → (o : Outcome Ap Status Pmu) × (handle env e s ≡ some o) × (told j o.1 ≡ 0) × Elsewhere j o.0
  unfolding handle handle_opened told count responses Elsewhere Spares
  opened_lem env j (cmd_request conn cmd) s open' spared away =
      request_lem env j conn cmd s open' spared
  opened_lem env j (pmu_data_update d) s open' spared away =
      let (silent, away') = update_lem j d s away in
      (handle_pmu_update d s, rw open' refl, silent, away')
  opened_lem env j (wifi_scan_result aps) s open' spared away =
      (_, handle-opened env (wifi_scan_result aps) s open' refl, refl, away)
  opened_lem env j (wifi_status_result m) s open' spared away =
      (_, handle-opened env (wifi_status_result m) s open' refl, refl, away)
  opened_lem env j (wifi_connect_result ok why) s open' spared away =
      (_, handle-opened env (wifi_connect_result ok why) s open' refl, refl, away)
  opened_lem env j (wifi_disconnect_result ok) s open' spared away =
      (_, handle-opened env (wifi_disconnect_result ok) s open' refl, refl, away)

  handle_lem :
      (env : Env) (j : ℕ) (e : Event Ap Status Pmu) (s : CmdActor Ap Status Pmu)
      → Spares j e
      → Elsewhere j s
      → (o : Outcome Ap Status Pmu) × (handle env e s ≡ some o) × (told j o.1 ≡ 0) × Elsewhere j o.0
  unfolding handle told count responses
  handle_lem env j e s spared away = elim (Bool-cases (is_opened s.state)) [
    | inl open' ↦ opened_lem env j e s open' spared away
    | inr shut ↦ ((s, []), rw shut refl, refl, away)
  ]

  run_lem :
      (env : Env) (j : ℕ) (es : List (Event Ap Status Pmu)) (s : CmdActor Ap Status Pmu)
      → AllSpare j es
      → Elsewhere j s
      → (o : Outcome Ap Status Pmu) × (run env es s ≡ some o) × (told j o.1 ≡ 0)
  unfolding run AllSpare told count responses
  run_lem env j [] s spared away = ((s, []), refl, refl)
  run_lem env j (e ∷ es) s spared away =
      let (o, here, silent, away') = handle_lem env j e s spared.0 away in
      let (p, there, silent') = run_lem env j es o.0 spared.1 away' in
      (
        (p.0, o.1 ++ p.1),
        rw (here, run) (rw there refl),
        omega (arith, told-append j o.1 p.1, silent, silent'),
      )

  -- While the actor waits for the PMU on behalf of one connection, a command on another one makes it
  -- forget the first: whatever events follow, the PMU's data among them, as long as no new command comes
  -- on the first connection, the actor sends it no further response, so none that would close it.
  pub request-forgets :
      (env : Env) (conn : ℕ) (cmd : Text) (es : List (Event Ap Status Pmu))
      (s : CmdActor Ap Status Pmu)
      → is_opened s.state ≡ true
      → s.pmu_status_pending ≡ true
      → (conn == s.pending_conn) ≡ false
      → AllSpare s.pending_conn es
      → (o : Outcome Ap Status Pmu) × (run env (cmd_request conn cmd ∷ es) s ≡ some o)
        × (told s.pending_conn o.1 ≡ 0)
  unfolding run
  request-forgets env conn cmd es s open' waits other spared =
      let (o, here, silent, away) = request_lem env s.pending_conn conn cmd s open' other in
      let (p, there, silent') = run_lem env s.pending_conn es o.0 spared away in
      (
        (p.0, o.1 ++ p.1),
        rw (here, run) (rw there refl),
        omega (arith, told-append s.pending_conn o.1 p.1, silent, silent'),
      )
