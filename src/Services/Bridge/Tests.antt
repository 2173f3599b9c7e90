-- ===== src/Services/Bridge/Tests.antt =====
-- A screen connects, is sent a snapshot, and hangs up.
use v2_engine.Common.{ℕ, ◌≡◌, not, false, none, some, List, [], ◌∷◌, refl}
use v2_engine.Common.Sets.{insert, erase}
use v2_engine.Common.Sets as Sets
use v2_engine.Actors.Supervision.{opened}
use v2_engine.Services.Cmd.Tokens.{is_opened}
use v2_engine.Platform.UdsServer.{done, send, close, watch, unwatch}
use v2_engine.Services.Monitor.{Monitor, member}
use v2_engine.Services.Bridge.{
  Bridge, Event, client_disconnected, new_connection, snapshot_update, sys, subscribe, unsubscribe,
  sent, run,
}
use v2_engine.Services.Bridge.Demand.{bridge_name, is_empty, tell, run-wanted}

abbrev listening : Bridge
listening = record {
  state = opened;
  server = record { server_fd = some 3; path = 47 ∷ [] };
  socket_path = 47 ∷ [];
  connections = [];
}

abbrev monitor : Monitor (Unit {0}) (Unit {0})
monitor = record {
  state = opened;
  subscribers = [];
  data_subscribed = false;
  sys_cache = none;
  pmu_cache = none;
}

abbrev render : ℕ → ℕ → List ℕ
render d clients = d ∷ clients ∷ []

abbrev day : List (Event ℕ)
day =
    new_connection 7
    ∷ snapshot_update 65 (λ conn. done 2 ∷ [])
    ∷ client_disconnected 7
    ∷ client_disconnected 7
    ∷ []

run-wanted_example :
    member bridge_name (tell (run render day listening).1 monitor).subscribers
    ≡ not (is_empty (run render day listening).0.connections)
unfolding member
run-wanted_example = run-wanted render day listening monitor refl refl refl refl

day_effects :
    (run render day listening).1
    ≡ subscribe
      ∷ sys (watch 7)
      ∷ sent 7 (65 ∷ 1 ∷ [])
      ∷ sys (unwatch 7)
      ∷ sys (close 7)
      ∷ unsubscribe
      ∷ []
unfolding run is_opened insert erase Sets.member send
day_effects = refl
