-- ===== src/Platform/UdsServer/Tests.antt =====
-- A socket path that is taken, and a reply in two pieces.
use v2_engine.Common.{◌≡◌, false, some, [], ◌∷◌, refl, arith}
use v2_engine.Platform.UdsServer.{Setup, ok, done, interrupted, bytes, returned, send, recv}
use v2_engine.Platform.UdsServer.Transfer.{send-delivers}

abbrev taken : Setup
taken = record { socket = some 6; bound = false; listening = false }

short_read : recv (bytes (65 ∷ []) ∷ bytes [] ∷ []) 4 ≡ returned (some (65 ∷ []))
unfolding recv
short_read = refl

send-delivers_example :
    send (done 1 ∷ interrupted ∷ done 2 ∷ []) (65 ∷ 66 ∷ 67 ∷ []) ≡ (returned ok, 65 ∷ 66 ∷ 67 ∷ [])
send-delivers_example =
    send-delivers (done 1 ∷ interrupted ∷ done 2 ∷ []) (65 ∷ 66 ∷ 67 ∷ []) refl (omega arith)
