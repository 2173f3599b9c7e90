-- ===== src/Platform/UdsClient.antt =====
-- src/infra/transport/uds/uds_client.cpp. What the kernel answers is a parameter. A client is the
-- descriptor that it holds, `none` where `clientFd_` is negative; the loggings are left out.
pub mod Held
mod Tests
use v2_engine.Common.{
  ℕ, zero, suc, ◌+◌, Bool, true, false, Option, none, some, List, [], ◌∷◌, ◌++◌, take, drop,
}
use v2_engine.Platform.UdsServer.{
  Answer, done, Chunk, interrupted, refused, bytes, Outcome, returned, waiting,
}

pub data Result : Type 0 where
  ok fail invalid_arg : Result

abbrev pub UdsClient : Type 0
UdsClient = Option ℕ

-- The calls of the kernel that concern descriptors.
pub data SysCall : Type 0 where
  socket close : ℕ → SysCall

-- The descriptor that the client held before is written over.
pub connect : Option ℕ → Bool → UdsClient → Result × UdsClient × List SysCall
connect none connected c = (fail, none, [])
connect (some fd) true c = (ok, some fd, socket fd ∷ [])
connect (some fd) false c = (fail, none, socket fd ∷ close fd ∷ [])

pub disconnect : UdsClient → UdsClient × List SysCall
disconnect none = (none, [])
disconnect (some fd) = (none, close fd ∷ [])

-- `UdsClient(std::move(other))`: the new client and what is left of the other.
pub move_construct : UdsClient → UdsClient × UdsClient
move_construct other = (other, none)

-- `client = std::move(other)` with two different clients.
pub move_assign : UdsClient → UdsClient → UdsClient × UdsClient × List SysCall
unfolding disconnect
move_assign other c = (other, none, (disconnect c).1)

-- The loop of `send`, with the bytes left; beside the outcome, the bytes that the kernel took.
pub send_loop : List Answer → List ℕ → Outcome Result × List ℕ
send_loop answers [] = (returned ok, [])
send_loop [] (x ∷ xs) = (waiting, [])
send_loop (done n ∷ answers) (x ∷ xs) =
    let (outcome, out) = send_loop answers (drop n (x ∷ xs)) in (outcome, take n (x ∷ xs) ++ out)
send_loop (interrupted ∷ answers) (x ∷ xs) = send_loop answers (x ∷ xs)
send_loop (refused ∷ answers) (x ∷ xs) = (returned fail, [])

pub send : List Answer → List ℕ → UdsClient → Outcome Result × List ℕ
unfolding send_loop
send answers data' none = (returned invalid_arg, [])
send answers data' (some fd) = send_loop answers data'

-- The result with the bytes; no bytes stand for the answer 0, which also an interruption gives.
pub recv : Chunk → UdsClient → Result × List ℕ
recv chunk none = (invalid_arg, [])
recv (bytes xs) (some fd) = (ok, xs)
recv interrupted (some fd) = (ok, [])
recv refused (some fd) = (fail, [])
