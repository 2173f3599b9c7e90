-- ===== src/Container/BoundedQueue.antt =====
-- What the lock-free queues promise to one caller at a time: a FIFO of bounded length.
use v2_engine.Common.{
  ℕ, Bool, true, false, Option, none, some, List, [], ◌∷◌, ◌++◌, ltb, if◌then◌else◌, length,
}

-- The calls of one caller, and what it sees of each.
pub data Call {ℓ} (A : Type ℓ) : Type ℓ where
  pushes : A → Call A
  pops : Call A

abbrev pub Reply {ℓ} : Type ℓ → Type ℓ
Reply A = Bool × Option A

module _ {ℓ} {A : Type ℓ} where
  -- A push onto a full queue fails and changes nothing.
  unfoldable pub push : ℕ → A → List A → Bool × List A
  push capacity x xs = if ltb (length xs) capacity then (true, xs ++ x ∷ []) else (false, xs)

  unfoldable pub pop : List A → Bool × Option A × List A
  pop [] = (false, none, [])
  pop (x ∷ xs) = (true, some x, xs)

  unfoldable pub run : ℕ → List A → List (Call A) → List (Reply A)
  unfolding push pop
  run capacity xs [] = []
  run capacity xs (pushes x ∷ calls) =
      let (done, xs') = push capacity x xs in (done, none) ∷ run capacity xs' calls
  run capacity xs (pops ∷ calls) =
      let (done, out, xs') = pop xs in (done, out) ∷ run capacity xs' calls
