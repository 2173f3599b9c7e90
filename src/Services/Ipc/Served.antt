-- ===== src/Services/Ipc/Served.antt =====
-- A command on its way through ipc_server_actor.cpp to cmd_actor.cpp and back.
use v2_engine.Common.{ℕ, ◌≡◌, Bool, false, List, [], ◌∷◌, ◌++◌, ◌==◌, if◌then◌else◌}
use v2_engine.Common.Sets.{member}
use v2_engine.Services.Cmd.Tokens.{Text}
use v2_engine.Services.Cmd as Cmd
use v2_engine.Services.Cmd.{Reply, Sent, response}
use v2_engine.Platform.UdsServer.{Answer, send}
use v2_engine.Services.Ipc.{
  IpcServer, cmd_response, Effect, sys, taken, request, sent, Handled, handle,
}
use v2_engine.Services.Ipc.Accounts.{closed_times}

-- The commands that are passed on, and the bytes that each write to a connection puts there.
abbrev pub requests : List Effect → List (ℕ × Text)
requests [] = []
requests (sys c ∷ es) = requests es
requests (taken conn ∷ es) = requests es
requests (request conn cmd ∷ es) = (conn, cmd) ∷ requests es
requests (sent conn out ∷ es) = requests es

abbrev pub replies : ℕ → List Effect → List (List ℕ)
replies j [] = []
replies j (sys c ∷ es) = replies j es
replies j (taken conn ∷ es) = replies j es
replies j (request conn cmd ∷ es) = replies j es
replies j (sent conn out ∷ es) = let rest = replies j es in if conn == j then out ∷ rest else rest

-- The replies of the command actor, with their connections.
abbrev pub reply_texts : {Pmu : Type 0} → List (Sent Pmu) → List (ℕ × Reply Pmu)
reply_texts [] = []
reply_texts (response conn reply close ∷ out) = (conn, reply) ∷ reply_texts out
reply_texts (_ ∷ out) = reply_texts out

module _ {Pmu : Type 0} (render : Reply Pmu → List ℕ) (answers : List Answer) where
  -- What the command actor sends reaches the IPC actor where it is a response. The text of a reply is
  -- a parameter.
  unfoldable pub deliver : List (Sent Pmu) → IpcServer → Handled
  unfolding handle
  deliver [] s = (s, [])
  deliver (response conn reply close ∷ out) s =
      let (s1, first) = handle (cmd_response answers conn (render reply) close) s in
      let (s2, rest) = deliver out s1 in (s2, first ++ rest)
  deliver (_ ∷ out) s = deliver out s

  -- One response among what the command actor sends.
  record Answered (conn : ℕ) (reply : Reply Pmu) (c : Bool) (s : IpcServer) (after : Handled)
      : Type 0 where
    written : replies conn after.1 ≡ (send answers (render reply)).1 ∷ []
    dropped : closed_times conn after.1 ≡ (if c then 1 else 0)
    kept : member conn after.0.connections ≡ (if c then false else member conn s.connections)
