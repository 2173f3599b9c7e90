-- ===== src/Container/Slots.antt =====
-- What src/core/common/container/lock_free_mpsc_queue.hpp and lock_free_mpmc_queue.hpp share: the
-- slots with their sequence numbers, and `push`, which the two files spell alike.
-- `size_t` sums keep their wrap-around. An element that has been destroyed, or was never built, is
-- `none`. The atomic steps of one call run without another thread between them here; a weak
-- compare-exchange may still fail for no reason, as `weak` says: in the round with `n` rounds of
-- fuel left it is let through if `weak n` is true.
pub mod Holding
pub mod Steps
pub mod Observers
pub mod Single
pub mod Tests
use Prim.Native.Nat.{compare, Ordering}
use v2_engine.Common.{
  ℕ, zero, suc, ◌+◌, ◌-◌, ◌%◌, ◌^◌, Bool, true, false, ◌&&◌, Option, none, some, ltb, ◌==◌,
  if◌then◌else◌, update,
}

pub record Slot {ℓ} (A : Type ℓ) : Type ℓ where
  pub sequence : ℕ
  pub element : Option A

pub record Slots {ℓ} (A : Type ℓ) : Type ℓ where
  pub slot : ℕ → Slot A
  pub capacity : ℕ
  pub head : ℕ
  pub tail : ℕ

abbrev pub add_size : ℕ → ℕ → ℕ
add_size a b = (a + b) % 2 ^ 64

-- The sign of `static_cast<SignedSize>(seq) - static_cast<SignedSize>(pos)`.
pub data Diff : Type 0 where
  behind level ahead : Diff

-- Adding `2 ^ 63` turns the order of two's complement into that of the bit patterns.
unfoldable pub diff : ℕ → ℕ → Diff
diff seq pos = elim (compare (add_size seq (2 ^ 63)) (add_size pos (2 ^ 63))) [
  | Ordering.lt ↦ behind
  | Ordering.eq ↦ level
  | Ordering.gt ↦ ahead
]

module _ {ℓ} {A : Type ℓ} where
  -- The constructor; `none` is its exception.
  unfoldable pub create : ℕ → Option (Slots A)
  create capacity =
      if capacity == 0
      then none
      else some (record {
        slot = λ i. record { sequence = i; element = none };
        capacity = capacity;
        head = 0;
        tail = 0;
      })

  -- The element is built at the position that the compare-exchange has claimed.
  unfoldable pub claim : Slots A → ℕ → A → Slots A
  claim q pos msg = record q {
    tail = add_size pos 1;
    slot =
        update q.slot (pos % q.capacity) (record { sequence = add_size pos 1; element = some msg });
  }

  -- The `for(;;)` of `push`; `none` is a loop that has not returned.
  unfoldable pub push_loop : ℕ → (ℕ → Bool) → ℕ → A → Slots A → Option (Bool × Slots A)
  push_loop zero weak pos msg q = none
  push_loop (suc fuel) weak pos msg q = elim (diff (q.slot (pos % q.capacity)).sequence pos) [
    | level ↦ elim (q.tail == pos && weak fuel) [
      | true ↦ some (true, claim q pos msg)
      | false ↦ push_loop fuel weak q.tail msg q
    ]
    | behind ↦ some (false, q)
    | ahead ↦ push_loop fuel weak q.tail msg q
  ]

  -- `element` is moved out and destroyed, and the slot is handed to the next round.
  unfoldable pub vacate : Slots A → ℕ → Slots A
  vacate q pos = record q {
    head = add_size pos 1;
    slot =
        update q.slot (pos % q.capacity)
          (record { sequence = add_size pos q.capacity; element = none });
  }

  unfoldable pub is_empty : Slots A → Bool
  is_empty q = if (q.slot (q.head % q.capacity)).sequence == add_size q.head 1 then false else true

  unfoldable pub count : Slots A → ℕ
  count q =
      let reserved = (q.tail + 2 ^ 64 - q.head) % 2 ^ 64 in
      if ltb reserved q.capacity then reserved else q.capacity
