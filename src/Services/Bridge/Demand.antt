-- ===== src/Services/Bridge/Demand.antt =====
-- What monitor_bridge_actor.cpp asks of monitor_actor.cpp.
use v2_engine.Common.{
  ℕ, ◌≡◌, inl, inr, Bool, true, false, not, Option, none, some, List, [], ◌∷◌, ◌++◌, length, arith,
  refl, sym, subst, ap, ◌∙◌, ◌==◌, Bool-cases,
}
use v2_engine.Common.Sets.{insert, erase}
use v2_engine.Common.Sets as Sets
use v2_engine.Actors.Supervision.{opened}
use v2_engine.Services.Cmd.Tokens.{Text, codes, is_opened}
use v2_engine.Platform.UdsServer.{Answer, Outcome, returned, waiting, accept, SysCall, shutdown}
use v2_engine.Services.Monitor.{Monitor, join, leave, member, handle_monitor}
use v2_engine.Services.Monitor.Demand.{handle_monitor-join, handle_monitor-leave}
use v2_engine.Services.Bridge.{
  Bridge, Peek, some_byte, no_byte, end, failed, Event, readable, client_readable, new_connection,
  client_disconnected, snapshot_update, Effect, sys, taken, lost, subscribe, unsubscribe, sent,
  accepted, look, nobody_left, handle_new, handle_disconnected, send_each, close_each,
  unwatch_server, unsubscribe_all, all_sys, close_open, close_actor, handle_opened, handle, run,
}

abbrev pub bridge_name : Text
bridge_name = codes "monitor_bridge"

abbrev pub is_empty : List ℕ → Bool
is_empty [] = true
is_empty (conn ∷ conns) = false

is_empty-insert : (conn : ℕ) (conns : List ℕ) → is_empty (insert conn conns) ≡ false
unfolding insert Sets.member
is_empty-insert conn [] = refl
is_empty-insert conn (c ∷ conns) = ground arith

insert-more :
    (conn : ℕ) (conns : List ℕ) → (length (insert conn conns) == 1) ≡ false → is_empty conns ≡ false
unfolding insert Sets.member
insert-more conn [] more = cc
insert-more conn (c ∷ conns) more = refl

is_empty-member :
    (conn : ℕ) (conns : List ℕ) → Sets.member conn conns ≡ true → is_empty conns ≡ false
unfolding Sets.member
is_empty-member conn [] held = cc
is_empty-member conn (c ∷ conns) held = refl

module _ {S M : Type 0} where
  -- The monitor handles, one after the other, the messages that the bridge sends it.
  pub tell : List Effect → Monitor S M → Monitor S M
  tell [] m = m
  tell (subscribe ∷ es) m = tell es (handle_monitor (join bridge_name) m).0
  tell (unsubscribe ∷ es) m = tell es (handle_monitor (leave bridge_name) m).0
  tell (sys c ∷ es) m = tell es m
  tell (taken conn ∷ es) m = tell es m
  tell (lost conn ∷ es) m = tell es m
  tell (sent conn out ∷ es) m = tell es m

  tell-append : (xs ys : List Effect) (m : Monitor S M) → tell (xs ++ ys) m ≡ tell ys (tell xs m)
  unfolding tell
  tell-append [] ys m = refl
  tell-append (subscribe ∷ xs) ys m = tell-append xs ys (handle_monitor (join bridge_name) m).0
  tell-append (unsubscribe ∷ xs) ys m = tell-append xs ys (handle_monitor (leave bridge_name) m).0
  tell-append (sys c ∷ xs) ys m = tell-append xs ys m
  tell-append (taken conn ∷ xs) ys m = tell-append xs ys m
  tell-append (lost conn ∷ xs) ys m = tell-append xs ys m
  tell-append (sent conn out ∷ xs) ys m = tell-append xs ys m

  -- The monitor counts the bridge among its subscribers exactly when the bridge has a client.
  record Wanted (s : Bridge) (m : Monitor S M) : Type 0 where
    open_bridge : is_opened s.state ≡ true
    open_monitor : is_opened m.state ≡ true
    same : member bridge_name m.subscribers ≡ not (is_empty s.connections)

  handle_new-Wanted :
      (conn : ℕ) (s : Bridge) (m : Monitor S M)
      → Wanted s m
      → Wanted (handle_new conn s).0 (tell (handle_new conn s).1 m)
  unfolding handle_new tell
  handle_new-Wanted conn s m w =
      let joined = handle_monitor-join bridge_name m w.open_monitor in
      elim (Bool-cases (length (insert conn s.connections) == 1)) [
        | inl one ↦ rw one (record {
          open_bridge = w.open_bridge;
          open_monitor = ap is_opened joined.1 ∙ w.open_monitor;
          same = joined.0 ∙ sym (ap not (is_empty-insert conn s.connections));
        })
        | inr more ↦ rw more (record {
          open_bridge = w.open_bridge;
          open_monitor = w.open_monitor;
          same =
              w.same
              ∙ ap not (insert-more conn s.connections more)
              ∙ sym (ap not (is_empty-insert conn s.connections));
        })
      ]

  -- The bridge, asked for until now, is left with some connections or with none.
  nobody_left-Wanted :
      (conns : List ℕ) (s : Bridge) (m : Monitor S M)
      → Wanted s m
      → is_empty s.connections ≡ false
      → Wanted (record s { connections = conns }) (tell (nobody_left conns) m)
  unfolding nobody_left tell
  nobody_left-Wanted [] s m w some' =
      let left = handle_monitor-leave bridge_name m w.open_monitor in
      record {
        open_bridge = w.open_bridge;
        open_monitor = ap is_opened left.1 ∙ w.open_monitor;
        same = left.0;
      }
  nobody_left-Wanted (c ∷ conns) s m w some' = record {
    open_bridge = w.open_bridge;
    open_monitor = w.open_monitor;
    same = w.same ∙ ap not some';
  }

  handle_disconnected-Wanted :
      (conn : ℕ) (s : Bridge) (m : Monitor S M)
      → Wanted s m
      → Wanted (handle_disconnected conn s).0 (tell (handle_disconnected conn s).1 m)
  unfolding handle_disconnected tell
  handle_disconnected-Wanted conn s m w = elim (Bool-cases (Sets.member conn s.connections)) [
    | inl held ↦ rw held (
        nobody_left-Wanted (erase conn s.connections) s m w
          (is_empty-member conn s.connections held))
    | inr absent ↦ rw absent w
  ]

  accepted-silent : (o : Outcome (Option ℕ)) (m : Monitor S M) → tell (accepted o) m ≡ m
  unfolding accepted tell
  accepted-silent waiting m = refl
  accepted-silent (returned none) m = refl
  accepted-silent (returned (some conn)) m = refl

  look-silent : (conn : ℕ) (peek : Peek) (m : Monitor S M) → tell (look conn peek) m ≡ m
  unfolding look tell
  look-silent conn some_byte m = refl
  look-silent conn no_byte m = refl
  look-silent conn end m = refl
  look-silent conn failed m = refl

  send_each-silent :
      (answers : ℕ → List Answer) (payload : List ℕ) (conns : List ℕ) (m : Monitor S M)
      → tell (send_each answers payload conns) m ≡ m
  unfolding send_each tell
  send_each-silent answers payload [] m = refl
  send_each-silent answers payload (conn ∷ conns) m = send_each-silent answers payload conns m

  module _ {D : Type 0} (render : D → ℕ → List ℕ) where
    handle-Wanted :
        (e : Event D) (s : Bridge) (m : Monitor S M)
        → Wanted s m
        → Wanted (handle render e s).0 (tell (handle render e s).1 m)
    unfolding handle handle_opened
    handle-Wanted (readable answers) s m w =
        subst (Wanted s) (sym (accepted-silent (accept answers s.server) m)) w
    handle-Wanted (client_readable conn peek) s m w =
        subst (Wanted s) (sym (look-silent conn peek m)) w
    handle-Wanted (new_connection conn) s m w = rw w.open_bridge (handle_new-Wanted conn s m w)
    handle-Wanted (client_disconnected conn) s m w =
        rw w.open_bridge (handle_disconnected-Wanted conn s m w)
    handle-Wanted (snapshot_update d answers) s m w = rw w.open_bridge (
        subst (Wanted s)
          (sym (send_each-silent answers (render d (length s.connections)) s.connections m)) w)

    run-Wanted :
        (es : List (Event D)) (s : Bridge) (m : Monitor S M)
        → Wanted s m
        → Wanted (run render es s).0 (tell (run render es s).1 m)
    unfolding run tell
    run-Wanted [] s m w = w
    run-Wanted (e ∷ es) s m w =
        let s1 = (handle render e s).0 in
        subst (Wanted (run render es s1).0)
          (sym (tell-append (handle render e s).1 (run render es s1).1 m))
          (run-Wanted es s1 (tell (handle render e s).1 m) (handle-Wanted e s m w))

    -- From an opened bridge without clients and an opened monitor that does not know it, after any
    -- events of the bridge, its closing not among them, and once the monitor has handled what the bridge sent: the monitor counts
    -- the bridge among its subscribers exactly when the bridge has a client.
    pub run-wanted :
        (es : List (Event D)) (s : Bridge) (m : Monitor S M)
        → s.state ≡ opened
        → s.connections ≡ []
        → m.state ≡ opened
        → member bridge_name m.subscribers ≡ false
        → member bridge_name (tell (run render es s).1 m).subscribers
          ≡ not (is_empty (run render es s).0.connections)
    unfolding is_opened
    run-wanted es s m so alone mo absent =
        (run-Wanted es s m (record {
          open_bridge = ap is_opened so;
          open_monitor = ap is_opened mo;
          same = absent ∙ sym (ap (λ c. not (is_empty c)) alone);
        })).same

  close_each-silent : (conns : List ℕ) (m : Monitor S M) → tell (close_each conns) m ≡ m
  unfolding close_each tell
  close_each-silent [] m = refl
  close_each-silent (conn ∷ conns) m = close_each-silent conns m

  unwatch_server-silent : (fd : Option ℕ) (m : Monitor S M) → tell (unwatch_server fd) m ≡ m
  unfolding unwatch_server tell
  unwatch_server-silent none m = refl
  unwatch_server-silent (some fd) m = refl

  all_sys-silent : (cs : List SysCall) (m : Monitor S M) → tell (all_sys cs) m ≡ m
  unfolding all_sys tell
  all_sys-silent [] m = refl
  all_sys-silent (c ∷ cs) m = all_sys-silent cs m

  -- A bridge that is closed drops its clients and tells the monitor nothing, so the monitor goes on
  -- counting it among its subscribers if it did.
  pub close_actor-wanted :
      (s : Bridge) (m : Monitor S M)
      → s.state ≡ opened
      → ((close_actor s).0.connections ≡ []) × (tell (close_actor s).1 m ≡ m)
  unfolding close_actor close_open unsubscribe_all
  close_actor-wanted s m o = rw o (
    refl,
    tell-append (close_each s.connections ++ unwatch_server s.server.server_fd)
          (all_sys (shutdown s.server).1) m
        ∙ all_sys-silent (shutdown s.server).1 _
        ∙ tell-append (close_each s.connections) (unwatch_server s.server.server_fd) m
        ∙ unwatch_server-silent s.server.server_fd _
        ∙ close_each-silent s.connections m,
  )
