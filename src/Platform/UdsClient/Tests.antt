-- ===== src/Platform/UdsClient/Tests.antt =====
-- Two clients, of which one takes over the descriptor of the other.
use v2_engine.Common.{◌≡◌, true, some, [], ◌∷◌, refl}
use v2_engine.Platform.UdsServer.{done, interrupted, returned}
use v2_engine.Platform.UdsClient.{ok, send}
use v2_engine.Platform.UdsClient.Held.{
  World, no_clients, connects, disconnects, hand_over, swap, run, LegalRun, sockets, closes,
  closes-run,
}

closes-run_example :
    closes 5
      (run (disconnects ∷ swap ∷ disconnects ∷ []) (
        run
          (connects (some 5) true ∷ swap ∷ connects (some 6) true ∷ hand_over ∷ [])
          no_clients)).calls
    ≡ sockets 5
        (run
          (connects (some 5) true ∷ swap ∷ connects (some 6) true ∷ hand_over ∷ [])
          no_clients).calls
unfolding LegalRun
closes-run_example =
    closes-run 5 (connects (some 5) true ∷ swap ∷ connects (some 6) true ∷ hand_over ∷ [])
      (refl, (tt, (refl, (tt, tt))))

abbrev twice : World
unfolding run
twice = run (connects (some 5) true ∷ connects (some 6) true ∷ disconnects ∷ []) no_clients

-- A client that connects a second time loses its first descriptor.
lost : (sockets 5 twice.calls ≡ 1) × (closes 5 twice.calls ≡ 0)
unfolding twice sockets closes
lost = (refl, refl)

in_two_parts :
    send (done 2 ∷ interrupted ∷ done 1 ∷ []) (1 ∷ 2 ∷ 3 ∷ []) (some 5)
    ≡ (returned ok, 1 ∷ 2 ∷ 3 ∷ [])
unfolding send
in_two_parts = refl
