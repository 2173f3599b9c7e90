-- ===== src/Actors/Message/Visit.antt =====
-- A message gives back what was put into it.
use v2_engine.Common.{
  ℕ, ◌≡◌, ◌≢◌, false, none, some, List, inl, inr, ap, ◌∙◌, update, update_self, update_ne,
  Bool-cases,
}
use v2_engine.Actors.Message.{
  inline, pool, Class, Message, Object, Heap, done, ◌>>=◌, is_inline, make, made, data_at, visit,
  visit_loop, visit_as, move_construct, take_over, move_payload, move_inline, moved_ptr, emptied,
  with_message, with_inlined,
}
use v2_engine.Actors.Message.Lifetime.{on_message-some}
use v2_engine.Actors.Message.Copies.{
  make-inline, make-pool, inline_heap, block_heap, in_block, object, payload-some,
}

module _ {V : Type 0} where
  pub visit-some :
      (classes : List Class) (h : Heap V) (a : ℕ) (m : Message) (c : Class) (o : Object V)
      → h.messages a ≡ some m
      → visit_loop classes m.id ≡ some c
      → data_at m.mode a m.ptr h ≡ some o
      → visit classes a h ≡ some (c, o)
  unfolding visit visit_as
  visit-some classes h a m c o at first alive =
      rw (at, visit)
        ((ap (visit_as (visit_loop classes m.id)) (payload-some h a m at ∙ alive)
          ∙ ap (λ k. visit_as k (some o)) first))

  move_inline-visit :
      (h : Heap V) (a b : ℕ) (c : Class) (v : V) (classes : List Class)
      → a ≢ b
      → visit_loop classes c.id ≡ some c
      → (h' : Heap V) × (move_construct a b (inline_heap b (made c inline) (object c v) h)
          ≡ done h')
        × (visit classes a h' ≡ some (c, object c v))
  unfolding move_construct take_over move_payload move_inline moved_ptr made data_at
  move_inline-visit h a b c v classes ne first =
      let from : Message = made c inline in
      let o = object c v in
      let h1 : Heap V = inline_heap b from o h in
      let h2 : Heap V = with_message a (some from) h1 in
      let h3 : Heap V = with_inlined b none (with_inlined a (some o) h2) in
      let h4 : Heap V = with_message b (some (emptied from)) h3 in
      (
        h4,
        on_message-some b (λ m. take_over a b none m) h1 (update_self h.messages b (some from))
            ∙ ap (λ r. move_inline a b r h2 >>= λ g. done (with_message b (some (emptied from)) g))
                (update_self h.inlined b (some o)),
        visit-some classes h4 a from c o
            (update_ne h2.messages b a (some (emptied from)) ne
              ∙ update_self h1.messages a (some from))
            first
            (update_ne (update h1.inlined a (some o)) b a none ne
              ∙ update_self h1.inlined a (some o)),
      )

  move_block-visit :
      (h : Heap V) (a b p : ℕ) (c : Class) (v : V) (classes : List Class)
      → a ≢ b
      → visit_loop classes c.id ≡ some c
      → (h' : Heap V) × (move_construct a b
            (block_heap b p (in_block p (made c pool)) (object c v) h)
          ≡ done h')
        × (visit classes a h' ≡ some (c, object c v))
  unfolding move_construct take_over move_payload moved_ptr made data_at
  move_block-visit h a b p c v classes ne first =
      let from : Message = in_block p (made c pool) in
      let o = object c v in
      let h1 : Heap V = block_heap b p from o h in
      let h2 : Heap V = with_message a (some from) h1 in
      let h4 : Heap V = with_message b (some (emptied from)) h2 in
      (
        h4,
        on_message-some b (λ m. take_over a b none m) h1 (update_self h.messages b (some from)),
        visit-some classes h4 a from c o
            (update_ne h2.messages b a (some (emptied from)) ne
              ∙ update_self h1.messages a (some from))
            first (update_self h.blocks p (some o)),
      )

  -- A payload that `make` puts into a message, inline or in a block, and that is then moved to another
  -- message, is what `visit` passes on for that message, under its own class, as long as no earlier
  -- class of the visit has the same id. The constructor does not throw and there is memory.
  pub make-move-visit :
      (max_align : ℕ) (h : Heap V) (a b p : ℕ) (c : Class) (v : V) (classes : List Class)
      → a ≢ b
      → visit_loop classes c.id ≡ some c
      → (h' : Heap V) × ((make max_align b c v (some p) false h >>= move_construct a b) ≡ done h')
        × (visit classes a h' ≡ some (c, record { class = c; value = v }))
  make-move-visit max_align h a b p c v classes ne first =
      elim (Bool-cases (is_inline max_align c)) [
        | inl small ↦
            let (h', e, seen) = move_inline-visit h a b c v classes ne first in
            (
              h',
              ap (λ r. r >>= move_construct a b) (make-inline max_align h b c v (some p) small) ∙ e,
              seen,
            )
        | inr large ↦
            let (h', e, seen) = move_block-visit h a b p c v classes ne first in
            (h', ap (λ r. r >>= move_construct a b) (make-pool max_align h b p c v large) ∙ e, seen)
      ]
