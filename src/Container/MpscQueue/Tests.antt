-- ===== src/Container/MpscQueue/Tests.antt =====
-- The queue of one consumer at concrete calls.
use v2_engine.Common.{ℕ, ◌≡◌, refl, true, false, Bool, some, none, List, [], ◌∷◌, arith}
use v2_engine.Container.Slots.{Slot}
use v2_engine.Container.Slots.Tests.{empty_two, empty_two-Holds}
use v2_engine.Container.BoundedQueue
use v2_engine.Container.BoundedQueue.{Call, pushes, pops}
use v2_engine.Container.MpscQueue.Refine.{run, mpsc_run_refines}

abbrev always : ℕ → Bool
always n = true

abbrev calls : List (Call ℕ)
calls = pushes 1 ∷ pushes 2 ∷ pushes 3 ∷ pops ∷ pushes 4 ∷ pops ∷ pops ∷ pops ∷ []

mpsc_run_refines_example :
    run 1 always empty_two calls
    ≡ some (
        (true, none)
        ∷ (true, none)
        ∷ (false, none)
        ∷ (true, some 1)
        ∷ (true, none)
        ∷ (true, some 2)
        ∷ (true, some 4)
        ∷ (false, none)
        ∷ [])
unfolding BoundedQueue.run
mpsc_run_refines_example =
    mpsc_run_refines 1 0 always calls empty_two [] (omega arith) refl empty_two-Holds (omega arith)

abbrev slots : ℕ → Slot ℕ
slots i = record { sequence = i; element = none }
