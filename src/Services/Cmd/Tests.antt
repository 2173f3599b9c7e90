-- ===== src/Services/Cmd/Tests.antt =====
-- Connection 4 asks for the PMU's status; before the data comes, connection 5 asks for a scan.
use v2_engine.Common.{ℕ, ◌≡◌, not, false, true, some, none, List, [], ◌∷◌, arith, refl}
use v2_engine.Actors.Supervision.{opened}
use v2_engine.Services.Cmd.Tokens.{Text, codes, parse, same_text, is_opened}
use v2_engine.Services.Cmd.Tokens.Words.{words, parse-words}
use v2_engine.Services.Cmd.{CmdActor, Env, cmd_request, pmu_data_update, Outcome, handle, pmu, wifi}
use v2_engine.Services.Cmd.Pending.Forgotten.{told, Spares, AllSpare, run, request-forgets}
use v2_engine.Services.Cmd.Pending.{responses, request-answered}

abbrev env : Env
env = record { has_registry = true; find_actor = λ name. none; metrics_enabled = false }

abbrev ready : CmdActor ℕ ℕ ℕ
ready = record {
  state = opened;
  handlers = (codes "pmu", pmu) ∷ (codes "wifi", wifi) ∷ [];
  last_scan = [];
  last_status = none;
  pending_conn = 0;
  pmu_status_pending = false;
  last_connect_result = [];
  last_disconnect_result = [];
}

abbrev waiting : CmdActor ℕ ℕ ℕ
waiting = record ready { pending_conn = 4; pmu_status_pending = true }

ready_waits :
    (sent : List _) × (handle env (cmd_request 4 (codes "pmu status")) ready ≡ some (waiting, sent))
unfolding handle parse same_text
ready_waits = (_, refl)

parse-words_example :
    (name : Text) × (args : List Text) × (parse 20 (codes "wifi  scan") ≡ some (name, args))
    × (name ∷ args ≡ words (codes "wifi  scan"))
parse-words_example = parse-words 20 b'w' (codes "ifi  scan") refl (omega arith)

request-answered_example :
    (o : Outcome ℕ ℕ ℕ) × (handle env (cmd_request 4 (codes "pmu status")) ready ≡ some o)
    × (responses o.1 ≡ (4, not o.0.pmu_status_pending) ∷ [])
    × (o.0.state ≡ ready.state)
unfolding is_opened
request-answered_example = request-answered env 4 (codes "pmu status") ready refl

request-forgets_example :
    (o : Outcome ℕ ℕ ℕ) × (run env
        (cmd_request 5 (codes "wifi scan") ∷ pmu_data_update 70 ∷ cmd_request 6 [] ∷ [])
        waiting
      ≡ some o)
    × (told 4 o.1 ≡ 0)
unfolding is_opened AllSpare Spares
request-forgets_example =
    request-forgets env 5 (codes "wifi scan") (pmu_data_update 70 ∷ cmd_request 6 [] ∷ []) waiting
      refl refl refl (tt, (refl, tt))
