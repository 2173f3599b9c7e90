-- ===== src/Services/Ipc.antt =====
-- src/service/ipc/ipc_server_actor.cpp: the actor that takes commands from local sockets. Handlers
-- answer with what they do outside of the actor, in order.
pub mod Accounts
pub mod Served
mod Tests
use v2_engine.Common.{
  ℕ, ◌≡◌, Bool, true, false, Option, none, some, List, [], ◌∷◌, ◌++◌, ◌==◌, if◌then◌else◌,
}
use v2_engine.Common.Sets.{insert, erase}
use v2_engine.Actors.Supervision.{ActorState, closed, closing, opening, opened}
use v2_engine.Services.Cmd.Tokens.{Text, is_opened}
use v2_engine.Platform.UdsServer.{
  Result, ok, fail, invalid_state, SysCall, close, watch, unwatch, UdsServer, Setup, Answer,
  Outcome, returned, waiting, start, accept, send, shutdown,
}

pub record IpcServer : Type 0 where
  pub state : ActorState
  pub server : UdsServer
  pub socket_path : Text
  pub connections : List ℕ

-- What one call of `recv` comes to: some bytes, the end of the stream, an error.
pub data Received : Type 0 where
  bytes : ℕ → List ℕ → Received
  end failed : Received

-- `readable` is the listener's callback, which the event loop calls; the others are messages. A reply
-- comes with what the kernel answers to sending it.
pub data Event : Type 0 where
  readable : List Answer → Event
  new_connection : ℕ → Event
  data_received : ℕ → Received → Event
  cmd_response : List Answer → ℕ → List ℕ → Bool → Event

pub data Effect : Type 0 where
  sys : SysCall → Effect
  -- The listener has taken a connection, and posts the message about it.
  taken : ℕ → Effect
  request : ℕ → Text → Effect
  sent : ℕ → List ℕ → Effect

abbrev pub Handled : Type 0
Handled = IpcServer × List Effect

abbrev pub newline : ℕ
newline = 10

-- A newline at the end is taken off.
pub chomp : ℕ → List ℕ → Text
chomp x [] = if x == newline then [] else x ∷ []
chomp x (y ∷ ys) = x ∷ chomp y ys

pub accepted : Outcome (Option ℕ) → IpcServer → Handled
accepted waiting s = (s, [])
accepted (returned none) s = (s, [])
accepted (returned (some conn)) s =
    (record s { connections = insert conn s.connections }, taken conn ∷ [])

pub drop_connection : ℕ → IpcServer → Handled
drop_connection conn s = (
  record s { connections = erase conn s.connections },
  sys (unwatch conn) ∷ sys (close conn) ∷ [],
)

pub handle_data : ℕ → Received → IpcServer → Handled
unfolding chomp drop_connection
handle_data conn (bytes x xs) s = (s, request conn (chomp x xs) ∷ sys (unwatch conn) ∷ [])
handle_data conn end s = drop_connection conn s
handle_data conn failed s = (s, [])

pub handle_response : List Answer → ℕ → List ℕ → Bool → IpcServer → Handled
unfolding drop_connection
handle_response answers conn result close_on_send s =
    let out = sent conn (send answers result).1 in
    if close_on_send
    then ((drop_connection conn s).0, out ∷ (drop_connection conn s).1)
    else (s, out ∷ [])

pub handle_opened : Event → IpcServer → Handled
unfolding accepted handle_data handle_response
handle_opened (readable answers) s = accepted (accept answers s.server) s
handle_opened (new_connection conn) s = (s, sys (watch conn) ∷ [])
handle_opened (data_received conn r) s = handle_data conn r s
handle_opened (cmd_response answers conn result c) s = handle_response answers conn result c s

-- The listener is called whatever the state.
pub handle : Event → IpcServer → Handled
unfolding handle_opened is_opened
handle (readable answers) s = handle_opened (readable answers) s
handle m s = if is_opened s.state then handle_opened m s else (s, [])

pub run : List Event → IpcServer → Handled
unfolding handle
run [] s = (s, [])
run (e ∷ es) s = let (s1, first) = handle e s in let (s2, rest) = run es s1 in (s2, first ++ rest)

pub close_each : List ℕ → List Effect
close_each [] = []
close_each (conn ∷ conns) = sys (unwatch conn) ∷ sys (close conn) ∷ close_each conns

pub unwatch_server : Option ℕ → List Effect
unwatch_server none = []
unwatch_server (some fd) = sys (unwatch fd) ∷ []

-- With a runtime that has an event loop.
pub unsubscribe_all : IpcServer → Handled
unfolding close_each unwatch_server
unsubscribe_all s =
    (record s { connections = [] }, close_each s.connections ++ unwatch_server s.server.server_fd)

pub all_sys : List SysCall → List Effect
all_sys [] = []
all_sys (c ∷ cs) = sys c ∷ all_sys cs

pub close_open : IpcServer → Handled
unfolding unsubscribe_all all_sys
close_open s =
    let (s1, dropped) = unsubscribe_all s in
    let (server, calls) = shutdown s1.server in
    (record s1 { state = closed; server = server }, dropped ++ all_sys calls)

pub close_actor : IpcServer → Handled
unfolding close_open
close_actor s = elim s.state [ closed ↦ (s, []) | _ ↦ close_open s ]

pub watch_listener : Option ℕ → List Effect
watch_listener none = []
watch_listener (some fd) = sys (watch fd) ∷ []

pub started : Result × UdsServer × List SysCall → IpcServer → Result × IpcServer × List Effect
unfolding all_sys watch_listener
started (ok, server, calls) s = (
  ok,
  record s { state = opened; server = server },
  all_sys calls ++ watch_listener server.server_fd,
)
started (_, server, calls) s = (fail, record s { state = closed; server = server }, all_sys calls)

pub open_actor : Setup → IpcServer → Result × IpcServer × List Effect
unfolding close_actor started
open_actor answer s =
    let (s1, dropped) = close_actor s in
    let (result, s2, effects) = started (start s1.socket_path answer s1.server) s1 in
    (result, s2, dropped ++ effects)
