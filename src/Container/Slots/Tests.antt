-- ===== src/Container/Slots/Tests.antt =====
-- An empty queue of two slots, and what the observers say of it.
use v2_engine.Common.{ℕ, refl, none, [], ◌∷◌, some, arith, ◌==◌, true, false}
use v2_engine.Container.Slots.{Slots}
use v2_engine.Container.Slots.Holding.{Holds}

abbrev pub empty_two : Slots ℕ
empty_two = record {
  slot = λ i. record { sequence = i; element = none };
  capacity = 2;
  head = 0;
  tail = 0;
}

pub empty_two-Holds : Holds empty_two []
empty_two-Holds = record {
  two = omega arith;
  room = omega arith;
  last = refl;
  small = omega arith;
  filled = tt;
  vacant = (refl, (refl, tt));
}

-- After one element: the slot at position 0 is full, and that at position 1 waits.
abbrev pub one_in : Slots ℕ
one_in = record {
  slot = λ i. elim (i == 0) [
    | true ↦ record { sequence = 1; element = some 7 }
    | false ↦ record { sequence = i; element = none }
  ];
  capacity = 2;
  head = 0;
  tail = 1;
}

pub one_in-Holds : Holds one_in (7 ∷ [])
one_in-Holds = record {
  two = omega arith;
  room = omega arith;
  last = refl;
  small = omega arith;
  filled = (refl, tt);
  vacant = (refl, tt);
}
