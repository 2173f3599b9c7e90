-- ===== src/Container/Slots/Steps.antt =====
-- What claiming and vacating a slot do to the list that a queue of slots holds, and how the loop of
-- `push` ends.
use v2_engine.Common.{
  ℕ, zero, suc, ◌+◌, ◌-◌, ◌%◌, ◌^◌, ◌<◌, ◌≡◌, refl, ap, ◌∙◌, sym, Bool, true, false, none, some,
  List, [], ◌∷◌, ◌++◌, length, length-append, update, update_self, arith,
}
use native.Mathlib.Decide.{ℕ_discrete}
use native.Mathlib.Nat.{add-mod_right}
use v2_engine.Container.Slots.{Slot, Slots, behind, level, diff, add_size, claim, vacate, push_loop}
use v2_engine.Container.Slots.Holding.{
  diff_level, diff_behind, Filled, Vacant, Holds, Filled-update, Filled-append, Vacant-update,
  Vacant-append, Filled-update_before, Vacant-length,
}

module _ {ℓ} {A : Type ℓ} where
  module _ {q : Slots A} {xs : List A} (holds : Holds q xs) where
    open holds use {two, room, last, small, filled, vacant}

    -- The first vacant slot, and the others.
    pub Vacant-first :
        length xs < q.capacity
        → Vacant q.slot q.capacity q.tail (suc (q.capacity - suc (length xs)))
    Vacant-first space =
        Vacant-length q.slot q.capacity q.tail (q.capacity - length xs)
          (suc (q.capacity - suc (length xs))) (omega arith) vacant

    -- Claiming the tail puts an element behind the others.
    pub claim-Holds :
        (x : A)
        → length xs < q.capacity
        → suc q.tail + q.capacity < 2 ^ 63
        → Holds (claim q q.tail x) (xs ++ x ∷ [])
    unfolding claim
    claim-Holds x space more =
        let next_tail : add_size q.tail 1 ≡ suc q.tail = omega arith in
        let full : Slot A = record { sequence = suc q.tail; element = some x } in
        record {
          two = two;
          room = omega (arith, length-append xs (x ∷ []));
          last = omega (arith, last, length-append xs (x ∷ []));
          small = omega arith;
          filled = rw next_tail (
              Filled-append (update q.slot (q.tail % q.capacity) full) q.capacity q.head q.tail xs x
                (sym last)
                (Filled-update q.slot q.capacity q.head q.tail xs full (omega arith) (omega arith)
                  filled)
                (update_self q.slot (q.tail % q.capacity) _));
          vacant = rw next_tail (
              Vacant-length (update q.slot (q.tail % q.capacity) full) q.capacity (suc q.tail)
                (q.capacity - suc (length xs)) _ (omega (arith, length-append xs (x ∷ [])))
                (Vacant-update q.slot q.capacity (suc q.tail) q.tail _ full (omega arith)
                  (omega arith) (Vacant-first space).1));
        }

    pub diff_room :
        length xs < q.capacity → diff (q.slot (q.tail % q.capacity)).sequence q.tail ≡ level
    diff_room space = diff_level _ q.tail (ap Slot.sequence (Vacant-first space).0)

    -- With room, a push claims the tail as soon as the compare-exchange is let through.
    pub push_loop-room :
        (fuel k : ℕ) (weak : ℕ → Bool) (x : A)
        → length xs < q.capacity
        → k < fuel
        → weak k ≡ true
        → push_loop fuel weak q.tail x q ≡ some (true, claim q q.tail x)
    unfolding push_loop
    push_loop-room zero k weak x space h pass = absurd (omega arith)
    push_loop-room (suc fuel) k weak x space h pass = elim (ℕ_discrete k fuel) [
      | yes now ↦ ground (arith, diff_room space, ap weak now, pass)
      | no later ↦
          ground (arith, diff_room space, push_loop-room fuel k weak x space (omega arith) pass)
    ]

    head_full :
        (ys : List A)
        → length ys ≡ q.capacity
        → Filled q.slot q.capacity q.head ys
        → (q.slot (q.head % q.capacity)).sequence ≡ suc q.head
    head_full [] e f = absurd (omega (arith, two))
    head_full (y ∷ ys) e f = ap Slot.sequence f.0

    diff_full :
        length xs ≡ q.capacity → diff (q.slot (q.tail % q.capacity)).sequence q.tail ≡ behind
    diff_full full =
        let round : q.tail % q.capacity ≡ q.head % q.capacity =
          ap (λ k. k % q.capacity) (last ∙ ap (◌+◌ q.head) full)
          ∙ add-mod_right q.head q.capacity in
        diff_behind _ q.tail
          (omega (arith, ap (λ k. (q.slot k).sequence) round, head_full xs full filled, two, last))
          (omega (arith, small))

    -- Without room it fails in its first round and changes nothing.
    pub push_loop-full :
        (fuel : ℕ) (weak : ℕ → Bool) (x : A)
        → length xs ≡ q.capacity
        → push_loop (suc fuel) weak q.tail x q ≡ some (false, q)
    unfolding push_loop
    push_loop-full fuel weak x full = ground (arith, diff_full full)

  -- Vacating the head takes the first element off.
  pub vacate-Holds :
      {q : Slots A} {x : A} {xs : List A} → Holds q (x ∷ xs) → Holds (vacate q q.head) xs
  unfolding vacate
  vacate-Holds {q} {x} {xs} holds =
      let next_head : add_size q.head 1 ≡ suc q.head = omega (arith, last, small) in
      let next_round : add_size q.head q.capacity ≡ q.tail + (q.capacity - suc (length xs)) =
        omega (arith, last, small, room) in
      let free : Slot A = record { sequence = add_size q.head q.capacity; element = none } in
      let round : (q.tail + (q.capacity - suc (length xs))) % q.capacity ≡ q.head % q.capacity =
        ap (λ k. k % q.capacity) {y = q.head + q.capacity} (omega (arith, last, room))
        ∙ add-mod_right q.head q.capacity in
      record {
        two = two;
        room = omega (arith, room);
        last = omega (arith, last, next_head);
        small = small;
        filled = rw next_head (
            Filled-update_before q.slot q.capacity (suc q.head) q.head xs free (omega arith)
              (omega (arith, room)) filled.1);
        vacant =
            Vacant-length (update q.slot (q.head % q.capacity) free) q.capacity q.tail
              (suc (q.capacity - suc (length xs))) (q.capacity - length xs) (omega (arith, room))
              (Vacant-append (update q.slot (q.head % q.capacity) free) q.capacity q.tail
                (q.tail + (q.capacity - suc (length xs))) (q.capacity - suc (length xs)) refl
                (Vacant-update q.slot q.capacity q.tail q.head (q.capacity - suc (length xs)) free
                  (omega (arith, last)) (omega (arith, last, room)) vacant)
                (ap (update q.slot (q.head % q.capacity) free) round
                  ∙ update_self q.slot (q.head % q.capacity) free
                  ∙ ap (λ k. record { sequence = k; element = none }) next_round));
      }
    where
      open holds use {two, room, last, small, filled, vacant}

  pub claim_fields :
      (q : Slots A) (pos : ℕ) (x : A)
      → ((claim q pos x).tail ≡ add_size pos 1) × ((claim q pos x).capacity ≡ q.capacity)
  unfolding claim
  claim_fields q pos x = (refl, refl)

  pub vacate_fields :
      (q : Slots A) (pos : ℕ)
      → ((vacate q pos).tail ≡ q.tail) × ((vacate q pos).capacity ≡ q.capacity)
  unfolding vacate
  vacate_fields q pos = (refl, refl)

  pub push-full :
      {q : Slots A} {xs : List A} (fuel k : ℕ) (weak : ℕ → Bool) (x : A)
      → k < fuel
      → length xs ≡ q.capacity
      → Holds q xs
      → push_loop fuel weak q.tail x q ≡ some (false, q)
  push-full zero k weak x h full holds = absurd (omega arith)
  push-full (suc fuel) k weak x h full holds = push_loop-full holds fuel weak x full
