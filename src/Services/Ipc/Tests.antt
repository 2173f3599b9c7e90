-- ===== src/Services/Ipc/Tests.antt =====
-- Connection 7 sends a command, and connection 8 hangs up.
use v2_engine.Common.{ℕ, ◌≡◌, ◌++◌, false, true, none, some, List, [], ◌∷◌, refl}
use v2_engine.Common.Sets.{member, insert, erase}
use v2_engine.Actors.Supervision.{opened}
use v2_engine.Services.Cmd.Tokens.{codes}
use v2_engine.Services.Cmd as Cmd
use v2_engine.Services.Cmd.{CmdActor, Env, Reply, pmu, wifi}
use v2_engine.Platform.UdsServer.{done, accept}
use v2_engine.Services.Ipc.{
  IpcServer, Event, readable, new_connection, data_received, cmd_response, bytes, end, handle, run,
  close_actor,
}
use v2_engine.Services.Ipc.Accounts.{closed_times, taken_times, expected, taken_closed}

abbrev listening : IpcServer
listening = record {
  state = opened;
  server = record { server_fd = some 3; path = 47 ∷ [] };
  socket_path = 47 ∷ [];
  connections = [];
}

abbrev day : List Event
day =
    readable (done 7 ∷ [])
    ∷ readable (done 8 ∷ [])
    ∷ new_connection 7
    ∷ data_received 7 (bytes 65 (10 ∷ []))
    ∷ data_received 8 end
    ∷ cmd_response (done 9 ∷ []) 7 (79 ∷ 107 ∷ []) true
    ∷ readable (done 8 ∷ [])
    ∷ []

taken_closed_example :
    closed_times 8 ((run day listening).1 ++ (close_actor (run day listening).0).1)
    ≡ taken_times 8 (run day listening).1
unfolding expected handle accept member insert erase
taken_closed_example =
    taken_closed 8 day listening refl refl (λ e. cc)
      (refl, (refl, (refl, (refl, (refl, (refl, (refl, tt)))))))

abbrev env : Env
env = record { has_registry = true; find_actor = λ name. none; metrics_enabled = false }

abbrev commands : CmdActor ℕ ℕ ℕ
commands = record {
  state = opened;
  handlers = (codes "pmu", pmu) ∷ (codes "wifi", wifi) ∷ [];
  last_scan = [];
  last_status = none;
  pending_conn = 0;
  pmu_status_pending = false;
  last_connect_result = [];
  last_disconnect_result = [];
}

abbrev busy : IpcServer
busy = record listening { connections = 7 ∷ [] }

abbrev render : Reply ℕ → List ℕ
render reply = 111 ∷ []
