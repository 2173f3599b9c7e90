-- ===== src/Container/Slots/Observers.antt =====
-- What the first slot, `empty`, `count` and the constructor say of the list that is held.
use v2_engine.Common.{
  ℕ, zero, suc, ◌+◌, ◌-◌, ◌%◌, ◌^◌, ◌≤◌, ◌<◌, ◌≡◌, refl, ap, ◌∙◌, subst, none, some, List, [], ◌∷◌,
  length, arith, ◌==◌,
}
use native.Mathlib.Nat.{mod-eq_of_lt}
use v2_engine.Container.Slots.{Slot, Slots, behind, level, diff, add_size, create, is_empty, count}
use v2_engine.Container.Slots.Holding.{diff_level, diff_behind, Vacant, Holds, Vacant-length}

Vacant-fresh {ℓ} :
    (A : Type ℓ) (size p n : ℕ)
    → p + n ≤ size
    → Vacant {A = A} (λ i. record { sequence = i; element = none }) size p n
Vacant-fresh A size p zero h = tt
Vacant-fresh A size p (suc n) h = (
  ap (λ i. record { sequence = i; element = none }) (mod-eq_of_lt (omega arith)),
  Vacant-fresh A size (suc p) n (omega arith),
)

module _ {ℓ} {A : Type ℓ} where
  -- A full first slot, and an empty queue's first slot.
  pub diff-head :
      {q : Slots A} {x : A} {xs : List A}
      → Holds q (x ∷ xs)
      → diff (q.slot (q.head % q.capacity)).sequence (add_size q.head 1) ≡ level
  diff-head {q} holds =
      diff_level _ _ (ap Slot.sequence holds.filled.0 ∙ omega (arith, holds.last, holds.small))

  pub element-head :
      {q : Slots A} {x : A} {xs : List A}
      → Holds q (x ∷ xs)
      → (q.slot (q.head % q.capacity)).element ≡ some x
  element-head holds = ap Slot.element holds.filled.0

  pub sequence-head_empty :
      {q : Slots A} → Holds q [] → (q.slot (q.head % q.capacity)).sequence ≡ q.head
  sequence-head_empty {q} holds =
      subst (λ k. (q.slot (k % q.capacity)).sequence ≡ k) {x = q.tail} {y = q.head}
        (omega (arith, holds.last))
        (ap Slot.sequence
          (Vacant-length q.slot q.capacity q.tail (q.capacity - 0) (suc (q.capacity - 1))
            (omega (arith, holds.two)) holds.vacant).0)

  pub diff-head_empty :
      {q : Slots A}
      → Holds q []
      → diff (q.slot (q.head % q.capacity)).sequence (add_size q.head 1) ≡ behind
  diff-head_empty {q} holds =
      diff_behind _ _ (omega (arith, sequence-head_empty holds, holds.last, holds.small))
        (omega (arith, holds.last, holds.small, holds.two))

  -- `empty` is true exactly when the queue holds the empty list.
  pub is_empty-Holds : {q : Slots A} {xs : List A} → Holds q xs → is_empty q ≡ (length xs == 0)
  unfolding is_empty
  is_empty-Holds {q} {xs = []} holds =
      ground (arith, sequence-head_empty holds, holds.last, holds.small, holds.two)
  is_empty-Holds {q} {xs = x ∷ xs} holds =
      ground (arith, ap Slot.sequence holds.filled.0, holds.last, holds.small, holds.two)

  -- `count` is the length of the list that the queue holds.
  pub count-Holds : {q : Slots A} {xs : List A} → Holds q xs → count q ≡ length xs
  unfolding count
  count-Holds {q} {xs} holds = ground (arith, holds.last, holds.small, holds.room)

  -- The constructor makes an empty queue, of a capacity from 2 on.
  pub create-Holds :
      (capacity : ℕ)
      → 2 ≤ capacity
      → capacity < 2 ^ 63
      → (q : Slots A) × (create capacity ≡ some q) × Holds q [] × (q.capacity ≡ capacity)
  unfolding create
  create-Holds capacity h k = (
    record {
      slot = λ i. record { sequence = i; element = none };
      capacity = capacity;
      head = 0;
      tail = 0;
    },
    ground arith,
    record {
      two = h;
      room = omega arith;
      last = refl;
      small = omega arith;
      filled = tt;
      vacant = Vacant-fresh A capacity 0 (capacity - 0) (omega arith);
    },
    refl,
  )
