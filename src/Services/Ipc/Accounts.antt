-- ===== src/Services/Ipc/Accounts.antt =====
-- Which descriptors ipc_server_actor.cpp takes, holds and closes.
use v2_engine.Common.{
  ℕ, ◌+◌, ◌≤◌, ◌≡◌, ◌≢◌, Bool, true, false, not, Option, none, some, List, [], ◌∷◌, ◌++◌, arith,
  refl, sym, ap, ◌∙◌, ◌==◌, if◌then◌else◌,
}
use v2_engine.Common.Sets.{member, insert, count, count-erase, count-absent}
use v2_engine.Actors.Supervision.{opened}
use v2_engine.Services.Cmd.Tokens.{is_opened}
use v2_engine.Platform.UdsServer.{SysCall, Answer, Outcome, returned, waiting, accept, shutdown}
use v2_engine.Platform.UdsServer.Refused.{closes, closes-append, shutdown-closes}
use v2_engine.Services.Ipc.{
  IpcServer, Received, bytes, end, failed, Event, readable, new_connection, data_received,
  cmd_response, Effect, sys, taken, request, sent, Handled, accepted, drop_connection, handle_data,
  handle_response, handle_opened, handle, run, close_each, unwatch_server, unsubscribe_all, all_sys,
  close_open, close_actor,
}

-- How often a descriptor is closed, and how often the listener has taken a connection on it.
abbrev pub closed_times : ℕ → List Effect → ℕ
closed_times j [] = 0
closed_times j (sys c ∷ es) = closes j (c ∷ []) + closed_times j es
closed_times j (taken conn ∷ es) = closed_times j es
closed_times j (request conn cmd ∷ es) = closed_times j es
closed_times j (sent conn out ∷ es) = closed_times j es

abbrev pub taken_times : ℕ → List Effect → ℕ
taken_times j [] = 0
taken_times j (sys c ∷ es) = taken_times j es
taken_times j (taken conn ∷ es) = (if conn == j then 1 else 0) + taken_times j es
taken_times j (request conn cmd ∷ es) = taken_times j es
taken_times j (sent conn out ∷ es) = taken_times j es

closed_times-append :
    (j : ℕ) (xs ys : List Effect)
    → closed_times j (xs ++ ys) ≡ closed_times j xs + closed_times j ys
closed_times-append j [] ys = omega arith
closed_times-append j (sys c ∷ xs) ys = omega (arith, closed_times-append j xs ys)
closed_times-append j (taken conn ∷ xs) ys = closed_times-append j xs ys
closed_times-append j (request conn cmd ∷ xs) ys = closed_times-append j xs ys
closed_times-append j (sent conn out ∷ xs) ys = closed_times-append j xs ys

taken_times-append :
    (j : ℕ) (xs ys : List Effect) → taken_times j (xs ++ ys) ≡ taken_times j xs + taken_times j ys
taken_times-append j [] ys = omega arith
taken_times-append j (sys c ∷ xs) ys = taken_times-append j xs ys
taken_times-append j (taken conn ∷ xs) ys = omega (arith, taken_times-append j xs ys)
taken_times-append j (request conn cmd ∷ xs) ys = taken_times-append j xs ys
taken_times-append j (sent conn out ∷ xs) ys = taken_times-append j xs ys

-- The kernel gives a connection a number that no held connection has, a connection is at its end only
-- while it is held, and a reply that closes one comes only while it is held.
fresh : Outcome (Option ℕ) → IpcServer → Bool
fresh waiting s = true
fresh (returned none) s = true
fresh (returned (some conn)) s = not (member conn s.connections)

ends : Received → Bool
ends end = true
ends (bytes x xs) = false
ends failed = false

unfoldable pub expected : Event → IpcServer → Bool
unfolding fresh ends
expected (readable answers) s = fresh (accept answers s.server) s
expected (new_connection conn) s = true
expected (data_received conn r) s = if ends r then member conn s.connections else true
expected (cmd_response answers conn result c) s = if c then member conn s.connections else true

-- Each event of a run is such.
abbrev pub AllExpected : List Event → IpcServer → Type 0
AllExpected [] s = Unit
AllExpected (e ∷ es) s = (expected e s ≡ true) × AllExpected es (handle e s).0

member-count : (a : ℕ) (xs : List ℕ) → member a xs ≡ true → 1 ≤ count a xs
unfolding member count
member-count a [] h = cc
member-count a (x ∷ xs) h = ground (arith, member-count a xs)

module _ (j : ℕ) where
  -- An effect's balance: what is held after it and closed by it was held before or taken by it.
  record Balanced (s : IpcServer) (after : Handled) : Type 0 where
    state : after.0.state ≡ s.state
    server : after.0.server ≡ s.server
    once : count j s.connections ≤ 1 → count j after.0.connections ≤ 1
    balance :
        count j s.connections ≤ 1
        → count j after.0.connections + closed_times j after.1
          ≡ count j s.connections + taken_times j after.1

  same-Balanced : (s : IpcServer) → Balanced s (s, [])
  same-Balanced s = record {
    state = refl;
    server = refl;
    once = λ h. h;
    balance = λ h. omega arith;
  }

  accepted-Balanced :
      (o : Outcome (Option ℕ)) (s : IpcServer) → fresh o s ≡ true → Balanced s (accepted o s)
  unfolding accepted fresh insert count
  accepted-Balanced waiting s h = same-Balanced s
  accepted-Balanced (returned none) s h = same-Balanced s
  accepted-Balanced (returned (some conn)) s h =
      let absent : member conn s.connections ≡ false = ground arith in
      let zero' = count-absent conn s.connections absent in
      record {
        state = refl;
        server = refl;
        once = λ one. ground arith;
        balance = λ one. ground arith;
      }

  drop-Balanced :
      (conn : ℕ) (s : IpcServer)
      → member conn s.connections ≡ true
      → Balanced s (drop_connection conn s)
  unfolding drop_connection
  drop-Balanced conn s h =
      let there = member-count conn s.connections h in
      record {
        state = refl;
        server = refl;
        once = λ one. ground (arith, count-erase conn j s.connections);
        balance = λ one. ground (arith, count-erase conn j s.connections);
      }

  handle_data-Balanced :
      (conn : ℕ) (r : Received) (s : IpcServer)
      → (if ends r then member conn s.connections else true) ≡ true
      → Balanced s (handle_data conn r s)
  unfolding handle_data ends
  handle_data-Balanced conn (bytes x xs) s h = record {
    state = refl;
    server = refl;
    once = λ one. one;
    balance = λ one. omega arith;
  }
  handle_data-Balanced conn end s h = drop-Balanced conn s h
  handle_data-Balanced conn failed s h = same-Balanced s

  handle_response-Balanced :
      (answers : List Answer) (conn : ℕ) (result : List ℕ) (c : Bool) (s : IpcServer)
      → (if c then member conn s.connections else true) ≡ true
      → Balanced s (handle_response answers conn result c s)
  unfolding handle_response
  handle_response-Balanced answers conn result true s h =
      let b = drop-Balanced conn s h in
      record { state = b.state; server = b.server; once = b.once; balance = b.balance }
  handle_response-Balanced answers conn result false s h = record {
    state = refl;
    server = refl;
    once = λ one. one;
    balance = λ one. omega arith;
  }

  handle-Balanced :
      (e : Event) (s : IpcServer)
      → is_opened s.state ≡ true
      → expected e s ≡ true
      → Balanced s (handle e s)
  unfolding handle handle_opened expected
  handle-Balanced (readable answers) s o h = accepted-Balanced (accept answers s.server) s h
  handle-Balanced (new_connection conn) s o h =
      rw o (record { state = refl; server = refl; once = λ one. one; balance = λ one. omega arith })
  handle-Balanced (data_received conn r) s o h = rw o (handle_data-Balanced conn r s h)
  handle-Balanced (cmd_response answers conn result c) s o h =
      rw o (handle_response-Balanced answers conn result c s h)

  run-Balanced :
      (es : List Event) (s : IpcServer)
      → is_opened s.state ≡ true
      → AllExpected es s
      → Balanced s (run es s)
  unfolding run
  run-Balanced [] s o h = same-Balanced s
  run-Balanced (e ∷ es) s o h =
      let b = handle-Balanced e s o h.0 in
      let s1 = (handle e s).0 in
      let rest = run-Balanced es s1 (ap is_opened b.state ∙ o) h.1 in
      let c = closed_times-append j (handle e s).1 (run es s1).1 in
      let t = taken_times-append j (handle e s).1 (run es s1).1 in
      record {
        state = rest.state ∙ b.state;
        server = rest.server ∙ b.server;
        once = λ one. rest.once (b.once one);
        balance = λ one. omega (arith, b.balance one, rest.balance (b.once one), c, t);
      }

  close_each-closes : (conns : List ℕ) → closed_times j (close_each conns) ≡ count j conns
  unfolding close_each count
  close_each-closes [] = refl
  close_each-closes (conn ∷ conns) = omega (arith, close_each-closes conns)

  all_sys-closes : (cs : List SysCall) → closed_times j (all_sys cs) ≡ closes j cs
  unfolding all_sys
  all_sys-closes [] = refl
  all_sys-closes (c ∷ cs) = omega (arith, all_sys-closes cs, closes-append j (c ∷ []) cs)

  unwatch_server-closes : (fd : Option ℕ) → closed_times j (unwatch_server fd) ≡ 0
  unfolding unwatch_server
  unwatch_server-closes none = refl
  unwatch_server-closes (some fd) = refl

  -- Closing the actor closes each connection that it holds.
  close_open-closes :
      (s : IpcServer)
      → s.server.server_fd ≢ some j
      → closed_times j (close_open s).1 ≡ count j s.connections
  unfolding close_open unsubscribe_all
  close_open-closes s ne =
      let own = s.server.server_fd in
      omega (
        arith,
        closed_times-append j (close_each s.connections ++ unwatch_server own)
            (all_sys (shutdown s.server).1),
        closed_times-append j (close_each s.connections) (unwatch_server own),
        all_sys-closes (shutdown s.server).1,
        close_each-closes s.connections,
        unwatch_server-closes own,
        shutdown-closes j s.server ne,
      )

close_actor-opened : (s : IpcServer) → s.state ≡ opened → close_actor s ≡ close_open s
unfolding close_actor
close_actor-opened s e = rw e refl

-- From an opened actor without connections, after any events and then its closing, each descriptor
-- other than the listening one has been closed exactly as often as the listener has taken a connection
-- on it: none leaks and none is closed twice. This is under the condition that the kernel numbers a
-- connection like no held one, and that the end of a stream and a closing reply come only for a
-- connection that the actor still holds.
pub taken_closed :
    (j : ℕ) (es : List Event) (s : IpcServer)
    → s.state ≡ opened
    → s.connections ≡ []
    → s.server.server_fd ≢ some j
    → AllExpected es s
    → closed_times j ((run es s).1 ++ (close_actor (run es s).0).1) ≡ taken_times j (run es s).1
unfolding is_opened count
taken_closed j es s open' empty' ne h =
    let b = run-Balanced j es s (ap is_opened open') h in
    let t = (run es s).0 in
    let none' : count j s.connections ≡ 0 = ap (count j) empty' in
    let shut : (close_actor t).1 ≡ (close_open t).1 =
      ap (λ r. r.1) (close_actor-opened t (b.state ∙ open')) in
    omega (
      arith,
      closed_times-append j (run es s).1 (close_actor t).1,
      ap (closed_times j) shut,
      close_open-closes j t (λ e. ne (ap (λ v. v.server_fd) (sym b.server) ∙ e)),
      b.balance (omega arith),
      none',
    )

-- A reply that closes its connection, and that comes after the client has hung up, closes the same
-- descriptor a second time.
pub late_response-closes :
    (conn : ℕ) (answers : List Answer) (result : List ℕ) (s : IpcServer)
    → is_opened s.state ≡ true
    → closed_times conn
        (run (data_received conn end ∷ cmd_response answers conn result true ∷ []) s).1
      ≡ 2
unfolding run handle handle_opened handle_data handle_response drop_connection
late_response-closes conn answers result s o = rw o (ground arith)
