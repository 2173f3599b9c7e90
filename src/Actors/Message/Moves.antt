-- ===== src/Actors/Message/Moves.antt =====
-- The move operations keep each payload with one message.
use v2_engine.Common.{
  ℕ, ◌≡◌, ◌≢◌, inl, inr, Option, none, some, sym, ap, ◌∙◌, update_self, update_ne, ◌==◌, ==→ne,
  if◌then◌else◌, Bool-cases,
}
use v2_engine.Actors.Message.{
  Message, Heap, done, ◌>>=◌, take_over, emptied, moved_ptr, move_payload, move_construct,
  move_assign, destroy, on_message, with_message,
}
use v2_engine.Actors.Message.Ownership.{Owned}
use v2_engine.Actors.Message.Lifetime.{destroy-Owned, on_message-some}
use v2_engine.Actors.Message.Placing.{update_again}
use v2_engine.Actors.Message.TakeOver.{take_over-Owned}

module _ {V : Type 0} where
  pub move_construct-Owned :
      (h : Heap V) (a b : ℕ) (other : Message)
      → a ≢ b
      → h.messages a ≡ none
      → h.messages b ≡ some other
      → Owned h
      → (h' : Heap V) × (move_construct a b h ≡ done h') × Owned h'
  unfolding move_construct
  move_construct-Owned h a b other ne at at' own =
      let (h', e, own') = take_over-Owned h a b none other ne at at' own in
      (h', on_message-some b (λ m. take_over a b none m) h at' ∙ e, own')

  -- `take_over` does not look at the message that it replaces.
  take_over-over :
      (h : Heap V) (a b : ℕ) (ptr : Option ℕ) (other : Message)
      → take_over a b ptr other (with_message a none h) ≡ take_over a b ptr other h
  unfolding take_over
  take_over-over h a b ptr other =
      ap
        (λ t.
          move_payload other.mode other.ops a b
            (record { messages = t; inlined = h.inlined; blocks = h.blocks })
          >>= λ g. done (with_message b (some (emptied other)) g))
        (update_again h.messages a none
          (some (record other { ptr = moved_ptr other.mode ptr other.ptr })))

  move_assign-some :
      (h : Heap V) (a b : ℕ) (mine other : Message)
      → h.messages a ≡ some mine
      → h.messages b ≡ some other
      → move_assign a b h
        ≡ (if a == b then done h else destroy a mine h >>= take_over a b mine.ptr other)
  unfolding move_assign
  move_assign-some h a b mine other at at' =
      on_message-some a
        (λ m.
          on_message b (λ n g. if a == b then done g else destroy a m g >>= take_over a b m.ptr n))
        h at
      ∙ on_message-some b
          (λ n g. if a == b then done g else destroy a mine g >>= take_over a b mine.ptr n) h at'

  pub move_assign-Owned :
      (h : Heap V) (a b : ℕ) (mine other : Message)
      → h.messages a ≡ some mine
      → h.messages b ≡ some other
      → Owned h
      → (h' : Heap V) × (move_assign a b h ≡ done h') × Owned h'
  move_assign-Owned h a b mine other at at' own = elim (Bool-cases (a == b)) [
    | inl same ↦ (h, move_assign-some h a b mine other at at' ∙ rw same, own)
    | inr apart ↦
        let ne = ==→ne a b apart in
        let (h1, e1, kept, own1) = destroy-Owned h a mine at own in
        let there : (with_message a none h1).messages b ≡ some other =
          update_ne h1.messages a b none (λ t. ne (sym t)) ∙ ap (λ M. M b) kept ∙ at' in
        let (h2, e2, own2) =
          take_over-Owned (with_message a none h1) a b mine.ptr other ne
            (update_self h1.messages a none) there own1 in
        (
          h2,
          move_assign-some h a b mine other at at'
              ∙ rw apart (ap (λ r. r >>= take_over a b mine.ptr other) e1)
              ∙ sym (take_over-over h1 a b mine.ptr other)
              ∙ e2,
          own2,
        )
  ]
