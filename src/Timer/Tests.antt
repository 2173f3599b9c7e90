-- ===== src/Timer/Tests.antt =====
-- Four timers, of which the second was cancelled and the last is due at 20.
use v2_engine.Common.{
  ℕ, zero, suc, ◌≡◌, ◌+◌, ◌≤◌, List, ltb, if◌then◌else◌, Bool, true, false, some, [], ◌∷◌, arith,
  refl,
}
use v2_engine.Timer.{TimerNode, TimerBase, add, cancel, collect, execute_expired}
use v2_engine.Timer.Due.{Later, Sorted, Apart, Distinct, due, undue, execute_expired-due}
use v2_engine.Timer.Places.{count, adds, cancels, run, no_timers, run-places, Call}

abbrev node : ℕ → Bool → TimerNode
node expiry alive = record {
  expiry = expiry;
  interval = 10;
  payload = 5;
  id = some expiry;
  repeating = true;
  alive = alive;
}

abbrev nodes : ℕ → TimerNode
nodes zero = node 12 true
nodes (suc zero) = node 13 false
nodes (suc (suc zero)) = node 14 true
nodes (suc (suc (suc n))) = node 20 true

abbrev timer : TimerBase
timer = record {
  next_id = 5;
  free_list = [];
  pool = nodes;
  pool_size = 4;
  timers = (12, 0) ∷ (14, 2) ∷ (20, 3) ∷ [];
  heap = 0 ∷ 1 ∷ 2 ∷ 3 ∷ [];
}

execute_expired-due_example :
    ((execute_expired 15 (λ rs. cancel 14) timer).0 ≡ due 15 nodes (0 ∷ 1 ∷ 2 ∷ 3 ∷ []))
    × ((collect 15 (0 ∷ 1 ∷ 2 ∷ 3 ∷ []) timer).1.heap ≡ undue 15 nodes (0 ∷ 1 ∷ 2 ∷ 3 ∷ []))
unfolding Later Sorted Apart Distinct
execute_expired-due_example =
    execute_expired-due 15 (λ rs. cancel 14) timer
      (
        (omega arith, (omega arith, (omega arith, tt))),
        ((omega arith, (omega arith, tt)), ((omega arith, tt), (tt, tt))),
      )
      (
        (omega arith, (omega arith, (omega arith, tt))),
        ((omega arith, (omega arith, tt)), ((omega arith, tt), (tt, tt))),
      )

two_fire :
    due 15 nodes (0 ∷ 1 ∷ 2 ∷ 3 ∷ [])
    ≡ record { id = some 12; payload = 5 } ∷ record { id = some 14; payload = 5 } ∷ []
unfolding due
two_fire = refl

abbrev some_calls : List Call
some_calls = adds 0 12 true 5 ∷ adds 1 3 false 6 ∷ cancels 1 ∷ adds 2 4 false 7 ∷ []

run-places_example :
    Sorted (run some_calls no_timers).pool (run some_calls no_timers).heap
    × Distinct (run some_calls no_timers).heap
    × ((i : ℕ)
        → count i (run some_calls no_timers).heap + count i (run some_calls no_timers).free_list
          ≤ (if ltb i (run some_calls no_timers).pool_size then 1 else 0))
run-places_example = run-places some_calls

-- The place of the cancelled timer is taken again.
place_reused : (run some_calls no_timers).heap ≡ 1 ∷ 0 ∷ []
unfolding run add cancel
place_reused = refl
