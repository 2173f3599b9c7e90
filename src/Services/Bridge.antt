-- ===== src/Services/Bridge.antt =====
-- src/service/monitor/monitor_bridge_actor.cpp: the actor that passes the monitor's snapshots on to local
-- sockets. Handlers answer with what they do outside of the actor, in order. The text of a snapshot
-- is a parameter.
pub mod Demand
mod Tests
use v2_engine.Common.{
  ℕ, Bool, true, false, Option, none, some, List, [], ◌∷◌, ◌++◌, length, ◌==◌, if◌then◌else◌,
}
use v2_engine.Common.Sets.{member, insert, erase}
use v2_engine.Actors.Supervision.{ActorState, closed, closing, opening, opened}
use v2_engine.Services.Cmd.Tokens.{Text, is_opened}
use v2_engine.Platform.UdsServer.{
  Result, ok, fail, invalid_state, SysCall, close, watch, unwatch, UdsServer, Setup, Answer,
  Outcome, returned, waiting, start, accept, send, shutdown,
}

pub record Bridge : Type 0 where
  pub state : ActorState
  pub server : UdsServer
  pub socket_path : Text
  pub connections : List ℕ

-- What looking at a readable connection comes to, one byte at most and without taking it.
pub data Peek : Type 0 where
  some_byte no_byte end failed : Peek

-- The first two are callbacks, which the event loop calls; the others are messages. A snapshot comes
-- with what the kernel answers to sending it on a connection.
pub data Event (D : Type 0) : Type 0 where
  readable : List Answer → Event D
  client_readable : ℕ → Peek → Event D
  new_connection client_disconnected : ℕ → Event D
  snapshot_update : D → (ℕ → List Answer) → Event D

pub data Effect : Type 0 where
  sys : SysCall → Effect
  -- Messages to the actor itself.
  taken lost : ℕ → Effect
  -- Messages to the monitor.
  subscribe unsubscribe : Effect
  sent : ℕ → List ℕ → Effect

abbrev pub Handled : Type 0
Handled = Bridge × List Effect

pub accepted : Outcome (Option ℕ) → List Effect
accepted waiting = []
accepted (returned none) = []
accepted (returned (some conn)) = taken conn ∷ []

-- EAGAIN, which stands for no byte yet, is no reason to drop a connection.
pub look : ℕ → Peek → List Effect
look conn some_byte = []
look conn no_byte = []
look conn end = lost conn ∷ []
look conn failed = lost conn ∷ []

pub handle_new : ℕ → Bridge → Handled
handle_new conn s =
    let s' = record s { connections = insert conn s.connections } in
    let watched = sys (watch conn) ∷ [] in
    (s', (if length s'.connections == 1 then subscribe ∷ watched else watched))

pub nobody_left : List ℕ → List Effect
nobody_left [] = unsubscribe ∷ []
nobody_left (conn ∷ conns) = []

pub handle_disconnected : ℕ → Bridge → Handled
unfolding nobody_left
handle_disconnected conn s =
    let s' = record s { connections = erase conn s.connections } in
    if member conn s.connections
    then (s', sys (unwatch conn) ∷ sys (close conn) ∷ nobody_left s'.connections)
    else (s, [])

pub send_each : (ℕ → List Answer) → List ℕ → List ℕ → List Effect
send_each answers payload [] = []
send_each answers payload (conn ∷ conns) =
    sent conn (send (answers conn) payload).1 ∷ send_each answers payload conns

pub close_each : List ℕ → List Effect
close_each [] = []
close_each (conn ∷ conns) = sys (unwatch conn) ∷ sys (close conn) ∷ close_each conns

pub unwatch_server : Option ℕ → List Effect
unwatch_server none = []
unwatch_server (some fd) = sys (unwatch fd) ∷ []

-- With a runtime that has an event loop.
pub unsubscribe_all : Bridge → Handled
unfolding close_each unwatch_server
unsubscribe_all s =
    (record s { connections = [] }, close_each s.connections ++ unwatch_server s.server.server_fd)

pub all_sys : List SysCall → List Effect
all_sys [] = []
all_sys (c ∷ cs) = sys c ∷ all_sys cs

pub close_open : Bridge → Handled
unfolding unsubscribe_all all_sys
close_open s =
    let (s1, dropped) = unsubscribe_all s in
    let (server, calls) = shutdown s1.server in
    (record s1 { state = closed; server = server }, dropped ++ all_sys calls)

pub close_actor : Bridge → Handled
unfolding close_open
close_actor s = elim s.state [ closed ↦ (s, []) | _ ↦ close_open s ]

pub watch_listener : Option ℕ → List Effect
watch_listener none = []
watch_listener (some fd) = sys (watch fd) ∷ []

pub started : Result × UdsServer × List SysCall → Bridge → Result × Bridge × List Effect
unfolding all_sys watch_listener
started (ok, server, calls) s = (
  ok,
  record s { state = opened; server = server },
  all_sys calls ++ watch_listener server.server_fd,
)
started (_, server, calls) s = (fail, record s { state = closed; server = server }, all_sys calls)

pub open_actor : Setup → Bridge → Result × Bridge × List Effect
unfolding close_actor started
open_actor answer s =
    let (s1, dropped) = close_actor s in
    let (result, s2, effects) = started (start s1.socket_path answer s1.server) s1 in
    (result, s2, dropped ++ effects)

-- `render` makes a line of a snapshot and the number of clients.
module _ {D : Type 0} (render : D → ℕ → List ℕ) where
  pub handle_opened : Event D → Bridge → Handled
  unfolding accepted look handle_new handle_disconnected send_each
  handle_opened (readable answers) s = (s, accepted (accept answers s.server))
  handle_opened (client_readable conn peek) s = (s, look conn peek)
  handle_opened (new_connection conn) s = handle_new conn s
  handle_opened (client_disconnected conn) s = handle_disconnected conn s
  handle_opened (snapshot_update d answers) s =
      (s, send_each answers (render d (length s.connections)) s.connections)

  -- The callbacks are called whatever the state.
  pub handle : Event D → Bridge → Handled
  unfolding handle_opened is_opened
  handle (readable answers) s = handle_opened (readable answers) s
  handle (client_readable conn peek) s = handle_opened (client_readable conn peek) s
  handle m s = if is_opened s.state then handle_opened m s else (s, [])

  pub run : List (Event D) → Bridge → Handled
  unfolding handle
  run [] s = (s, [])
  run (e ∷ es) s = let (s1, first) = handle e s in let (s2, rest) = run es s1 in (s2, first ++ rest)
