-- ===== src/Container/MpmcQueue/Threads/Tests.antt =====
-- Thread 1 pushes 7 and thread 2 pushes 9 at once on a queue of two slots; thread 3 then pops.
use native.Mathlib.Decide.{ℕ_discrete}
use v2_engine.Common.{ℕ, ◌%◌, ◌+◌, ◌≤◌, ◌≡◌, ◌≢◌, some, arith, refl}
use v2_engine.Container.MpmcQueue.Threads.{
  System, Reach, later, start, turn, slot_of, push_lose, push_start, push_level, push_win,
  push_build, push_publish, pop_start, pop_level, pop_win,
}
use v2_engine.Container.MpmcQueue.Threads.Safety.{
  slots_exclusive, positions_ordered, claimed-pushed,
}

abbrev Run : Type 0
Run = (s : System ℕ) × Reach 2 s

-- Both pushes load the tail and find its slot free. Thread 1 wins the compare-exchange, thread 2 loads
-- the tail again and claims the next position, and both have built their elements.
abbrev both_claim : Run
unfolding ℕ_discrete
both_claim =
    let loaded = later (later start (turn 1 (push_start 7))) (turn 2 (push_start 9)) in
    let ready =
      later (later loaded (turn 1 (push_level {pos = 0} refl)))
        (turn 2 (push_level {pos = 0} refl)) in
    let one = later (later ready (turn 1 (push_win refl))) (turn 2 push_lose) in
    let two = later (later one (turn 2 (push_level {pos = 1} refl))) (turn 2 (push_win refl)) in
    (_, later (later two (turn 2 push_build)) (turn 1 push_build))

-- Both publish, and thread 3 claims the head.
abbrev pop_claims : Run
unfolding ℕ_discrete
pop_claims =
    let published = later (later both_claim.1 (turn 2 push_publish)) (turn 1 push_publish) in
    let ready = later (later published (turn 3 pop_start)) (turn 3 (pop_level {pos = 0} refl)) in
    (_, later ready (turn 3 (pop_win refl)))

slots_exclusive_example : 0 % 2 ≢ 1 % 2
unfolding ℕ_discrete
slots_exclusive_example =
    slots_exclusive 2 {s = both_claim.0} (omega arith) both_claim.1 1 2 0 1 (omega arith) refl refl

positions_ordered_example :
    (both_claim.0.memory.head ≤ both_claim.0.memory.tail)
    × (both_claim.0.memory.tail ≤ both_claim.0.memory.head + 2)
positions_ordered_example = positions_ordered 2 {s = both_claim.0} (omega arith) both_claim.1

claimed-pushed_example :
    pop_claims.0.memory.element (slot_of pop_claims.0.memory 0) ≡ pop_claims.0.pushed 0
unfolding ℕ_discrete
claimed-pushed_example = claimed-pushed 2 {s = pop_claims.0} (omega arith) pop_claims.1 3 0 refl

-- The pop of position 0 takes the winner's element.
pop_claims_first : pop_claims.0.pushed 0 ≡ some 7
unfolding ℕ_discrete
pop_claims_first = refl
