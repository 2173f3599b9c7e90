-- ===== src/Actors/Message/Runs.antt =====
-- Sequences of operations on messages.
use v2_engine.Common.{ℕ, ◌≡◌, inl, inr, false, none, some, refl, sym, ap, ◌∙◌, subst, Option-cases}
use v2_engine.Actors.Message.{
  Class, Message, empty_message, Object, Heap, Result, done, make, clone, destruct, move_construct,
  move_assign, with_message,
}
use v2_engine.Actors.Message.Ownership.{held, Owned}
use v2_engine.Actors.Message.Lifetime.{destruct-Owned}
use v2_engine.Actors.Message.Moves.{move_construct-Owned, move_assign-Owned}
use v2_engine.Actors.Message.Placing.{slot_of}
use v2_engine.Actors.Message.Copies.{make-Owned, clone-Owned, empty-Owned}

-- A call of an operation, with the block that the allocator returns.
pub data Call (V : Type 0) : Type 0 where
  construct destroy : ℕ → Call V
  make_at : ℕ → Class → V → ℕ → Call V
  move_new move_old : ℕ → ℕ → Call V
  clone_at : ℕ → ℕ → ℕ → Call V

done-inj : {V : Type 0} {h h' : Heap V} → done h ≡ done h' → h ≡ h'
done-inj {h} {h'} e = ap (λ r. elim r [ done g ↦ g | _ ↦ h ]) e

abbrev pub no_heap : {V : Type 0} → Heap V
no_heap = record { messages = λ a. none; inlined = λ a. none; blocks = λ p. none }

module _ {V : Type 0} (max_align : ℕ) where
  abbrev pub run_call : Call V → Heap V → Result V
  run_call (construct a) h = done (with_message a (some empty_message) h)
  run_call (destroy a) h = destruct a h
  run_call (make_at a c v p) h = make max_align a c v (some p) false h
  run_call (move_new a b) h = move_construct a b h
  run_call (move_old a b) h = move_assign a b h
  run_call (clone_at a b p) h = clone max_align a b (some p) false h

  abbrev Exists : ℕ → Heap V → Type 0
  Exists a h = (m : Message) × (h.messages a ≡ some m)

  -- What the language and the allocator ensure: a message is constructed where there is none, an
  -- operation is applied to a message that exists, and a new block holds nothing alive.
  abbrev pub Legal : Call V → Heap V → Type 0
  Legal (construct a) h = h.messages a ≡ none
  Legal (destroy a) h = Exists a h
  Legal (make_at a c v p) h = (h.messages a ≡ none) × (h.blocks p ≡ none)
  Legal (move_new a b) h = (h.messages a ≡ none) × Exists b h
  Legal (move_old a b) h = Exists a h × Exists b h
  Legal (clone_at a b p) h = (h.messages a ≡ none) × Exists b h × (h.blocks p ≡ none)

  call-Owned :
      (c : Call V) (h : Heap V)
      → Legal c h
      → Owned h
      → (h' : Heap V) × (run_call c h ≡ done h') × Owned h'
  call-Owned (construct a) h at own =
      (with_message a (some empty_message) h, refl, empty-Owned h a at own)
  call-Owned (destroy a) h (m, at) own = destruct-Owned h a m at own
  call-Owned (make_at a c v p) h (at, fresh) own = make-Owned max_align h a p c v at fresh own
  call-Owned (move_new a b) h (at, (m, at')) own =
      move_construct-Owned h a b m
        (λ e. let clash : none ≡ some m = sym at ∙ ap h.messages e ∙ at' in cc) at at' own
  call-Owned (move_old a b) h ((m, at), (n, at')) own = move_assign-Owned h a b m n at at' own
  call-Owned (clone_at a b p) h (at, (m, at'), fresh) own =
      clone-Owned max_align h a b p m at at' fresh own

  pub data Reach : Heap V → Type 0 where
    start : Reach no_heap
    later : {h h' : Heap V} (c : Call V) → Reach h → Legal c h → run_call c h ≡ done h' → Reach h'

  Reach-Owned : {h : Heap V} → Reach h → Owned h
  Reach-Owned start = record {
    slots = λ a. refl;
    owner = λ p o alive. cc;
    single = λ a b p at at'. cc;
  }
  Reach-Owned (later {h} {h'} c before legal e) =
      let (g, e', own) = call-Owned c h legal (Reach-Owned before) in
      subst Owned {x = g} {y = h'} (done-inj (sym e' ∙ e)) own

  -- Whatever legal constructions, moves, clones, assignments and destructions of messages came before,
  -- a further legal one returns: no payload is destroyed twice, moved from where there is none, or
  -- cloned without being alive. Payload constructors do not throw here and the allocator has memory.
  pub run_call-done :
      {h : Heap V} (c : Call V) → Reach h → Legal c h → (h' : Heap V) × (run_call c h ≡ done h')
  run_call-done {h} c reach legal =
      let (h', e, own) = call-Owned c h legal (Reach-Owned reach) in (h', e)

  -- After any legal sequence of calls, a payload alive in a block belongs to one message and to no
  -- other, and once no message is left no payload is alive anywhere.
  pub payloads_owned :
      {h : Heap V}
      → Reach h
      → ((p : ℕ) (o : Object V)
          → h.blocks p ≡ some o
          → (a : ℕ) × (held (h.messages a) ≡ some p)
            × ((b : ℕ) → held (h.messages b) ≡ some p → b ≡ a))
        × (((a : ℕ) → h.messages a ≡ none) → (a : ℕ) → (h.inlined a ≡ none) × (h.blocks a ≡ none))
  payloads_owned {h} reach =
      let own = Reach-Owned reach in
      (
        (λ p o alive.
            let (a, at) = own.owner p o alive in (a, at, λ b at'. own.single b a p at' at)),
        λ gone a. (
          slot_of h a (gone a) own,
          elim (Option-cases (h.blocks a)) [
            | inl free ↦ free
            | inr (o, alive) ↦
                let (b, at) = own.owner a o alive in
                let clash : none ≡ some a = sym (ap held (gone b)) ∙ at in cc
          ],
        ),
      )
