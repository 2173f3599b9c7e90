-- ===== src/Actors/Message/Cloning.antt =====
-- Copies of a message, and its construction where the payload fails.
use v2_engine.Common.{
  ℕ, ◌≡◌, ◌≢◌, Bool, true, false, not, ◌&&◌, Option, none, some, List, ◌⊎◌, inl, inr, refl, sym, ap,
  ◌∙◌, update_self, update_ne, Bool-cases,
}
use v2_engine.Actors.Message.{
  inline, pool, Class, Message, Object, Heap, done, thrown, undefined, ◌>>=◌, is_inline, is_pool,
  make, made, unwind, destroy, destroy_payload, destroy_inline, destroy_block, clone, clone_payload,
  clone_inline, clone_block, payload, data_at, visit, visit_loop,
}
use v2_engine.Actors.Message.Lifetime.{on_message-some}
use v2_engine.Actors.Message.Copies.{
  make-inline, make-pool, inline_heap, block_heap, in_block, object, payload-some,
  is_pool-is_inline,
}
use v2_engine.Actors.Message.Visit.{visit-some}

module _ {V : Type 0} where
  clone-payload :
      (max_align : ℕ) (h : Heap V) (a b : ℕ) (memory : Option ℕ) (m : Message) (o : Object V)
      → h.messages b ≡ some m
      → data_at m.mode b m.ptr h ≡ some o
      → clone max_align a b memory false h
        ≡ clone_payload max_align a m m.mode m.ops memory false (some o) h
  unfolding clone
  clone-payload max_align h a b memory m o at alive =
      on_message-some b
        (λ n g. clone_payload max_align a n n.mode n.ops memory false (payload b g) g) h at
      ∙ ap (λ t. clone_payload max_align a m m.mode m.ops memory false t h)
          (payload-some h b m at ∙ alive)

  clone_inline-visit :
      (max_align : ℕ) (h : Heap V) (a b q : ℕ) (c : Class) (v : V) (classes : List Class)
      → a ≢ b
      → is_inline max_align c ≡ true
      → c.copyable ≡ true
      → visit_loop classes c.id ≡ some c
      → (h' : Heap V) × (clone max_align a b
            (some q)
            false
            (inline_heap b (made c inline) (object c v) h)
          ≡ done h')
        × (visit classes a h' ≡ some (c, object c v))
        × (visit classes b h' ≡ some (c, object c v))
  unfolding clone_payload clone_inline made data_at
  clone_inline-visit max_align h a b q c v classes ne small copies first =
      let from : Message = made c inline in
      let o = object c v in
      let h1 : Heap V = inline_heap b from o h in
      let h2 : Heap V = inline_heap a from o h1 in
      let here = update_self h.messages b (some from) in
      let alive = update_self h.inlined b (some o) in
      let can : (not (is_pool max_align c) && c.copyable) ≡ true =
        rw (is_pool-is_inline max_align c) (rw (small, copies) refl) in
      (
        h2,
        clone-payload max_align h1 a b (some q) from o here alive ∙ rw can refl,
        visit-some classes h2 a from c o (update_self h1.messages a (some from)) first
            (update_self h1.inlined a (some o)),
        visit-some classes h2 b from c o
            (update_ne h1.messages a b (some from) (λ e. ne (sym e)) ∙ here) first
            (update_ne h1.inlined a b (some o) (λ e. ne (sym e)) ∙ alive),
      )

  clone_block-visit :
      (max_align : ℕ) (h : Heap V) (a b p q : ℕ) (c : Class) (v : V) (classes : List Class)
      → a ≢ b
      → p ≢ q
      → is_inline max_align c ≡ false
      → c.copyable ≡ true
      → visit_loop classes c.id ≡ some c
      → (h' : Heap V) × (clone max_align a b
            (some q)
            false
            (block_heap b p (in_block p (made c pool)) (object c v) h)
          ≡ done h')
        × (visit classes a h' ≡ some (c, object c v))
        × (visit classes b h' ≡ some (c, object c v))
  unfolding clone_payload clone_block made data_at
  clone_block-visit max_align h a b p q c v classes ne other large copies first =
      let from : Message = in_block p (made c pool) in
      let copy : Message = in_block q (made c pool) in
      let o = object c v in
      let h1 : Heap V = block_heap b p from o h in
      let h2 : Heap V = block_heap a q copy o h1 in
      let here = update_self h.messages b (some from) in
      let alive = update_self h.blocks p (some o) in
      let can : (is_pool max_align c && c.copyable) ≡ true =
        rw (is_pool-is_inline max_align c) (rw (large, copies) refl) in
      (
        h2,
        clone-payload max_align h1 a b (some q) from o here alive ∙ rw can refl,
        visit-some classes h2 a copy c o (update_self h1.messages a (some copy)) first
            (update_self h1.blocks q (some o)),
        visit-some classes h2 b from c o
            (update_ne h1.messages a b (some copy) (λ e. ne (sym e)) ∙ here) first
            (update_ne h1.blocks q p (some o) other ∙ alive),
      )

  -- `clone` leaves the message that it copies as it was, and a visit of the copy passes on the same
  -- payload, if the class can be copied and is the one that the visit finds for its id, there is memory in another
  -- block, and the copy does not throw.
  pub make-clone-visit :
      (max_align : ℕ) (h : Heap V) (a b p q : ℕ) (c : Class) (v : V) (classes : List Class)
      → a ≢ b
      → p ≢ q
      → c.copyable ≡ true
      → visit_loop classes c.id ≡ some c
      → (h' : Heap V) × ((make max_align b c v (some p) false h
            >>= clone max_align a b (some q) false)
          ≡ done h')
        × (visit classes a h' ≡ some (c, record { class = c; value = v }))
        × (visit classes b h' ≡ some (c, record { class = c; value = v }))
  make-clone-visit max_align h a b p q c v classes ne other copies first =
      elim (Bool-cases (is_inline max_align c)) [
        | inl small ↦
            let (h', e, seen, kept) =
              clone_inline-visit max_align h a b q c v classes ne small copies first in
            (
              h',
              ap (λ r. r >>= clone max_align a b (some q) false)
                    (make-inline max_align h b c v (some p) small)
                  ∙ e,
              seen,
              kept,
            )
        | inr large ↦
            let (h', e, seen, kept) =
              clone_block-visit max_align h a b p q c v classes ne other large copies first in
            (
              h',
              ap (λ r. r >>= clone max_align a b (some q) false)
                    (make-pool max_align h b p c v large)
                  ∙ e,
              seen,
              kept,
            )
      ]

  unwind_inline :
      (max_align : ℕ) (h : Heap V) (a : ℕ) (c : Class)
      → h.inlined a ≡ none
      → unwind max_align a (made c inline) h ≡ undefined
  unfolding unwind destroy destroy_payload destroy_inline made
  unwind_inline max_align h a c free = ap (λ t. destroy_inline a t h >>= λ g. thrown g) free

  unwind_pool :
      (max_align : ℕ) (h : Heap V) (a : ℕ) (c : Class)
      → unwind max_align a (made c pool) h ≡ undefined
  unfolding unwind destroy destroy_payload destroy_block made
  unwind_pool max_align h a c = refl

  -- `make` sets the mode before there is a payload: where the allocator has no memory for a class that
  -- goes to the pool, or the constructor of a payload throws, the message is destroyed on the way out
  -- and with it a payload that was never built, which is undefined behaviour.
  make-undefined :
      (max_align : ℕ) (h : Heap V) (a : ℕ) (c : Class) (v : V) (memory : Option ℕ) (throws : Bool)
      → ((is_inline max_align c ≡ false) × (memory ≡ none)) ⊎ (throws ≡ true)
      → h.inlined a ≡ none
      → make max_align a c v memory throws h ≡ undefined
  unfolding make
  make-undefined max_align h a c v memory throws (inl (large, e)) free =
      rw (large, e) (unwind_pool max_align h a c)
  make-undefined max_align h a c v none throws (inr e) free =
      elim (Bool-cases (is_inline max_align c)) [
        | inl small ↦ rw (small, e) (unwind_inline max_align h a c free)
        | inr large ↦ rw large (unwind_pool max_align h a c)
      ]
  make-undefined max_align h a c v (some p) throws (inr e) free =
      elim (Bool-cases (is_inline max_align c)) [
        | inl small ↦ rw (small, e) (unwind_inline max_align h a c free)
        | inr large ↦ rw (large, e) (unwind_pool max_align h a c)
      ]
