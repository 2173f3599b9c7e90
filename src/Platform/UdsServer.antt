-- ===== src/Platform/UdsServer.antt =====
-- src/infra/transport/uds/uds_server.cpp. What the kernel answers is a parameter: a list of answers
-- for a loop, one answer for a call that is made once. Texts and buffers are lists of bytes.
pub mod Transfer
pub mod Refused
mod Tests
use v2_engine.Common.{
  ℕ, ◌+◌, Bool, true, false, Option, none, some, List, [], ◌∷◌, ◌++◌, if◌then◌else◌, length, ltb,
  take, drop,
}

pub data Result : Type 0 where
  ok fail invalid_state : Result

-- The calls that leave the process, and the subscriptions at the event loop.
pub data SysCall : Type 0 where
  unlink : List ℕ → SysCall
  close watch unwatch : ℕ → SysCall

-- `server_fd` is `none` where `serverFd_` is negative.
pub record UdsServer : Type 0 where
  pub server_fd : Option ℕ
  pub path : List ℕ

abbrev pub unused : UdsServer
unused = record { server_fd = none; path = [] }

-- What `socket` answers, and whether `bind` and `listen` succeed.
pub record Setup : Type 0 where
  pub socket : Option ℕ
  pub bound : Bool
  pub listening : Bool

pub start : List ℕ → Setup → UdsServer → Result × UdsServer × List SysCall
start path answer s = elim answer.socket [
  | none ↦ (fail, record s { server_fd = none }, unlink path ∷ [])
  | some fd ↦
      let s' = record s { server_fd = some fd } in
      if answer.bound
      then if answer.listening
        then (ok, record s' { path = path }, unlink path ∷ [])
        else (fail, s', unlink path ∷ close fd ∷ [])
      else (fail, s', unlink path ∷ close fd ∷ [])
]

pub data Answer : Type 0 where
  done : ℕ → Answer
  interrupted refused : Answer

-- How a loop comes out: an answer for its caller, or the answers of the kernel are used up.
pub data Outcome (A : Type 0) : Type 0 where
  returned : A → Outcome A
  waiting : Outcome A

pub accept_loop : List Answer → Outcome (Option ℕ)
accept_loop [] = waiting
accept_loop (done fd ∷ answers) = returned (some fd)
accept_loop (interrupted ∷ answers) = accept_loop answers
accept_loop (refused ∷ answers) = returned none

-- `none` stands for a negative result.
unfoldable pub accept : List Answer → UdsServer → Outcome (Option ℕ)
unfolding accept_loop
accept answers s = elim s.server_fd [ none ↦ returned none | some fd ↦ accept_loop answers ]

-- The loop of `send`, with the bytes left; beside the outcome, the bytes that the kernel took.
unfoldable pub send : List Answer → List ℕ → Outcome Result × List ℕ
send answers [] = (returned ok, [])
send [] (x ∷ xs) = (waiting, [])
send (done n ∷ answers) (x ∷ xs) =
    let (outcome, out) = send answers (drop n (x ∷ xs)) in (outcome, take n (x ∷ xs) ++ out)
send (interrupted ∷ answers) (x ∷ xs) = send answers (x ∷ xs)
send (refused ∷ answers) (x ∷ xs) = (returned fail, [])

-- What a call of the kernel's `recv` comes to; no bytes stand for the end of the stream.
pub data Chunk : Type 0 where
  bytes : List ℕ → Chunk
  interrupted refused : Chunk

-- The loop of `recv`, with the bytes that came so far; `none` stands for `Fail`.
pub recv_loop : List Chunk → ℕ → List ℕ → Outcome (Option (List ℕ))
recv_loop [] size got = if ltb (length got) size then waiting else returned (some got)
recv_loop (chunk ∷ chunks) size got = elim (ltb (length got) size) [
  | false ↦ returned (some got)
  | true ↦ elim chunk [
    | bytes [] ↦ returned (some got)
    | bytes (x ∷ xs) ↦ recv_loop chunks size (got ++ x ∷ xs)
    | interrupted ↦ recv_loop chunks size got
    | refused ↦ returned none
  ]
]

pub recv : List Chunk → ℕ → Outcome (Option (List ℕ))
unfolding recv_loop
recv chunks size = recv_loop chunks size []

pub close_client : Option ℕ → List SysCall
close_client none = []
close_client (some fd) = close fd ∷ []

-- A path that is not empty.
pub unlink_path : List ℕ → List SysCall
unlink_path [] = []
unlink_path (x ∷ xs) = unlink (x ∷ xs) ∷ []

pub shutdown : UdsServer → UdsServer × List SysCall
unfolding close_client unlink_path
shutdown s = (unused, close_client s.server_fd ++ unlink_path s.path)
