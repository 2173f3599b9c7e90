-- ===== src/Container/RingBuffer/Tests.antt =====
-- The ring buffer at concrete calls, through the end of the vector.
use v2_engine.Common.{◌≡◌, true, some, none, List, [], ◌∷◌, arith}
use v2_engine.Container.RingBuffer.{create, ok, fail, invalid_arg}
use v2_engine.Container.RingBuffer.Fifo.{
  Call, pushes, pops, resets, run, run_fifo, fifo_push, fifo_pop, ring_run_refines, create-Holds,
}

abbrev calls : List Call
calls =
    pushes (some (1 ∷ 2 ∷ 3 ∷ [])) 3
    ∷ pops true 2
    ∷ pushes (some (4 ∷ 5 ∷ 6 ∷ [])) 3
    ∷ pushes (some (7 ∷ [])) 1
    ∷ pushes none 1
    ∷ pops true 4
    ∷ resets
    ∷ pops true 1
    ∷ []

ring_run_refines_example :
    run (create 4) calls
    ≡ (ok, [])
      ∷ (ok, 1 ∷ 2 ∷ [])
      ∷ (ok, [])
      ∷ (fail, [])
      ∷ (invalid_arg, [])
      ∷ (ok, 3 ∷ 4 ∷ 5 ∷ 6 ∷ [])
      ∷ (ok, [])
      ∷ (fail, [])
      ∷ []
unfolding run_fifo fifo_push fifo_pop
ring_run_refines_example =
    ring_run_refines 4 calls (create 4) [] (create-Holds 4 (omega arith) (omega arith))
      (omega arith, (omega arith, (omega arith, (tt, tt))))
