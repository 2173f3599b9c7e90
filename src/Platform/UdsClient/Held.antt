-- ===== src/Platform/UdsClient/Held.antt =====
-- The descriptors of the clients of uds_client.cpp.
use v2_engine.Common.{
  ℕ, ◌+◌, ◌≡◌, Bool, true, false, Option, none, some, List, [], ◌∷◌, ◌++◌, arith, refl, sym, subst,
  if◌then◌else◌, ◌==◌,
}
use v2_engine.Platform.UdsClient.{
  UdsClient, SysCall, socket, close, connect, disconnect, move_assign,
}

-- Two clients and the calls so far.
pub record World : Type 0 where
  pub first : UdsClient
  pub second : UdsClient
  pub calls : List SysCall

abbrev pub no_clients : World
no_clients = record { first = none; second = none; calls = [] }

-- What is done with the first client; `swap` names them the other way round, and `hand_over` moves the
-- second into the first.
pub data Move : Type 0 where
  connects : Option ℕ → Bool → Move
  disconnects hand_over swap : Move

unfoldable pub step : Move → World → World
unfolding connect disconnect move_assign
step (connects fd connected) w =
    let (result, c, calls) = connect fd connected w.first in
    record w { first = c; calls = w.calls ++ calls }
step disconnects w =
    let (c, calls) = disconnect w.first in record w { first = c; calls = w.calls ++ calls }
step hand_over w =
    let (c, other, calls) = move_assign w.second w.first in
    record { first = c; second = other; calls = w.calls ++ calls }
step swap w = record w { first = w.second; second = w.first }

-- Only a client that holds nothing connects.
unfoldable pub Legal : Move → World → Type 0
Legal (connects fd connected) w = w.first ≡ none
Legal disconnects w = Unit
Legal hand_over w = Unit
Legal swap w = Unit

unfoldable pub run : List Move → World → World
unfolding step
run [] w = w
run (m ∷ ms) w = run ms (step m w)

unfoldable pub LegalRun : List Move → World → Type 0
unfolding step Legal
LegalRun [] w = Unit
LegalRun (m ∷ ms) w = Legal m w × LegalRun ms (step m w)

held : UdsClient → ℕ → ℕ
held none fd = 0
held (some fd') fd = if fd' == fd then 1 else 0

-- How many times a descriptor came from the kernel, and how many times it was closed.
unfoldable pub sockets : ℕ → List SysCall → ℕ
sockets fd [] = 0
sockets fd (socket fd' ∷ cs) = (if fd' == fd then 1 else 0) + sockets fd cs
sockets fd (close fd' ∷ cs) = sockets fd cs

unfoldable pub closes : ℕ → List SysCall → ℕ
closes fd [] = 0
closes fd (socket fd' ∷ cs) = closes fd cs
closes fd (close fd' ∷ cs) = (if fd' == fd then 1 else 0) + closes fd cs

sockets-append :
    (fd : ℕ) (cs more : List SysCall) → sockets fd (cs ++ more) ≡ sockets fd cs + sockets fd more
unfolding sockets
sockets-append fd [] more = omega arith
sockets-append fd (socket fd' ∷ cs) more = omega (arith, sockets-append fd cs more)
sockets-append fd (close fd' ∷ cs) more = sockets-append fd cs more

closes-append :
    (fd : ℕ) (cs more : List SysCall) → closes fd (cs ++ more) ≡ closes fd cs + closes fd more
unfolding closes
closes-append fd [] more = omega arith
closes-append fd (socket fd' ∷ cs) more = closes-append fd cs more
closes-append fd (close fd' ∷ cs) more = omega (arith, closes-append fd cs more)

Balanced : ℕ → World → Type 0
Balanced fd w = sockets fd w.calls ≡ closes fd w.calls + (held w.first fd + held w.second fd)

connect-held :
    (fd : ℕ) (answer : Option ℕ) (connected : Bool)
    → sockets fd (connect answer connected none).2
      ≡ closes fd (connect answer connected none).2 + held (connect answer connected none).1 fd
unfolding connect sockets closes held
connect-held fd none connected = refl
connect-held fd (some fd') true = omega arith
connect-held fd (some fd') false = omega arith

disconnect-held :
    (fd : ℕ) (c : UdsClient)
    → (sockets fd (disconnect c).1 ≡ 0)
      × (closes fd (disconnect c).1 ≡ held c fd)
      × (held (disconnect c).0 fd ≡ 0)
unfolding disconnect sockets closes held
disconnect-held fd none = (refl, refl, refl)
disconnect-held fd (some fd') = (refl, omega arith, refl)

step-Balanced : (fd : ℕ) (m : Move) (w : World) → Legal m w → Balanced fd w → Balanced fd (step m w)
unfolding step Legal Balanced move_assign held
step-Balanced fd (connects answer connected) w free b =
    let cs = (connect answer connected w.first).2 in
    let free' : held w.first fd ≡ 0 = rw free refl in
    let sum =
      subst
        (λ c.
          sockets fd (connect answer connected c).2
          ≡ closes fd (connect answer connected c).2 + held (connect answer connected c).1 fd)
        (sym free) (connect-held fd answer connected) in
    omega (arith, sockets-append fd w.calls cs, closes-append fd w.calls cs, b, sum, free')
step-Balanced fd disconnects w l b =
    let cs = (disconnect w.first).1 in
    omega (
      arith,
      sockets-append fd w.calls cs,
      closes-append fd w.calls cs,
      b,
      disconnect-held fd w.first,
    )
step-Balanced fd hand_over w l b =
    let cs = (disconnect w.first).1 in
    omega (
      arith,
      sockets-append fd w.calls cs,
      closes-append fd w.calls cs,
      b,
      disconnect-held fd w.first,
    )
step-Balanced fd swap w l b = omega (arith, b)

run-Balanced :
    (fd : ℕ) (ms : List Move) (w : World) → LegalRun ms w → Balanced fd w → Balanced fd (run ms w)
unfolding run LegalRun
run-Balanced fd [] w l b = b
run-Balanced fd (m ∷ ms) w l b = run-Balanced fd ms (step m w) l.1 (step-Balanced fd m w l.0 b)

-- However two clients are connected, disconnected and moved into each other, if only a client that
-- holds nothing connects: once both are disconnected, each descriptor was closed as many times as the
-- kernel gave it.
pub closes-run :
    (fd : ℕ) (ms : List Move)
    → LegalRun ms no_clients
    → closes fd (run (disconnects ∷ swap ∷ disconnects ∷ []) (run ms no_clients)).calls
      ≡ sockets fd (run ms no_clients).calls
unfolding run step Balanced sockets closes held
closes-run fd ms l =
    let w = run ms no_clients in
    let balanced : Balanced fd w = run-Balanced fd ms no_clients l refl in
    let first = (disconnect w.first).1 in
    omega (
      arith,
      balanced,
      disconnect-held fd w.first,
      disconnect-held fd w.second,
      closes-append fd w.calls first,
      closes-append fd (w.calls ++ first) (disconnect w.second).1,
    )
