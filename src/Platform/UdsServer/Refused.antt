-- ===== src/Platform/UdsServer/Refused.antt =====
-- `start` of uds_server.cpp where the kernel refuses to bind or to listen.
use v2_engine.Common.{
  ℕ, ◌+◌, ◌≡◌, ◌⊎◌, false, Option, none, some, List, [], ◌∷◌, ◌++◌, arith, refl, ap, ◌≢◌, ◌==◌,
  if◌then◌else◌,
}
use v2_engine.Platform.UdsServer.{
  SysCall, unlink, close, watch, unwatch, UdsServer, Setup, start, shutdown, close_client,
  unlink_path, fail,
}

-- How often a descriptor is closed.
abbrev pub closes : ℕ → List SysCall → ℕ
closes fd [] = 0
closes fd (unlink path ∷ calls) = closes fd calls
closes fd (close x ∷ calls) = (if x == fd then 1 else 0) + closes fd calls
closes fd (watch x ∷ calls) = closes fd calls
closes fd (unwatch x ∷ calls) = closes fd calls

pub closes-append :
    (fd : ℕ) (xs ys : List SysCall) → closes fd (xs ++ ys) ≡ closes fd xs + closes fd ys
closes-append fd [] ys = omega arith
closes-append fd (unlink path ∷ xs) ys = closes-append fd xs ys
closes-append fd (close x ∷ xs) ys = omega (arith, closes-append fd xs ys)
closes-append fd (watch x ∷ xs) ys = closes-append fd xs ys
closes-append fd (unwatch x ∷ xs) ys = closes-append fd xs ys

pub closes-unlink_path : (fd : ℕ) (path : List ℕ) → closes fd (unlink_path path) ≡ 0
unfolding unlink_path
closes-unlink_path fd [] = refl
closes-unlink_path fd (x ∷ path) = refl

close_client-closes : (j : ℕ) (fd : Option ℕ) → fd ≢ some j → closes j (close_client fd) ≡ 0
unfolding close_client
close_client-closes j none ne = refl
close_client-closes j (some fd) ne = ground (arith, λ (e : fd ≡ j). ne (ap some e))

pub shutdown-closes : (j : ℕ) (s : UdsServer) → s.server_fd ≢ some j → closes j (shutdown s).1 ≡ 0
unfolding shutdown
shutdown-closes j s ne = omega (
  arith,
  closes-append j (close_client s.server_fd) (unlink_path s.path),
  close_client-closes j s.server_fd ne,
  closes-unlink_path j s.path,
)

start_refused :
    (path : List ℕ) (answer : Setup) (s : UdsServer) (fd : ℕ)
    → answer.socket ≡ some fd
    → (answer.bound ≡ false) ⊎ (answer.listening ≡ false)
    → start path answer s ≡ (fail, record s { server_fd = some fd }, unlink path ∷ close fd ∷ [])
unfolding start
start_refused path answer s fd given bad = ground arith

-- If the kernel gives a socket and refuses to bind it or to listen, then `start` fails having closed
-- it, and the next `shutdown` closes the same descriptor again, which may be another file's by then.
pub start-shutdown_twice :
    (path : List ℕ) (answer : Setup) (s : UdsServer) (fd : ℕ)
    → answer.socket ≡ some fd
    → (answer.bound ≡ false) ⊎ (answer.listening ≡ false)
    → ((start path answer s).0 ≡ fail)
      × (closes fd (start path answer s).2 ≡ 1)
      × (closes fd (shutdown (start path answer s).1).1 ≡ 1)
unfolding shutdown close_client
start-shutdown_twice path answer s fd given bad =
    rw (start_refused path answer s fd given bad)
      (refl, ground arith, ground (arith, closes-unlink_path fd s.path))
