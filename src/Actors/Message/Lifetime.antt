-- ===== src/Actors/Message/Lifetime.antt =====
-- No operation on messages destroys a payload twice or loses one.
use v2_engine.Common.{
  ℕ, ◌≡◌, ◌≢◌, inr, Option, none, some, refl, sym, ap, ◌∙◌, subst, update, update_self, update_ne,
}
use native.Mathlib.Decide.{ℕ_discrete}
use v2_engine.Actors.Message.{
  StorageMode, empty, inline, pool, Class, Message, Object, Heap, Result, done, destroy_payload,
  destroy, on_message, destruct, destroy_block, ◌>>=◌, with_message, with_inlined, with_block,
}
use v2_engine.Actors.Message.Ownership.{held, held_by, Stored, Slot, Owned, put}

module _ {V : Type 0} where
  -- A block that the message at `a` does not hold has its owner elsewhere.
  pub elsewhere :
      (h : Heap V) (a p : ℕ) (o : Object V)
      → Owned h
      → held (h.messages a) ≢ some p
      → h.blocks p ≡ some o
      → (c : ℕ) × (c ≢ a) × (held (h.messages c) ≡ some p)
  elsewhere h a p o own ne alive =
      let (c, at) = own.owner p o alive in
      (c, (λ e. ne (subst (λ t. held (h.messages t) ≡ some p) e at)), at)

  -- A message without a block takes the place of one without a block.
  pub put_blockless :
      (h : Heap V) (a : ℕ) (x : Option Message) (inlined' : ℕ → Option (Object V))
      → ((c : ℕ) → c ≢ a → inlined' c ≡ h.inlined c)
      → held (h.messages a) ≡ none
      → held x ≡ none
      → Slot h.blocks x (inlined' a)
      → Owned h
      → Owned (record { messages = update h.messages a x; inlined = inlined'; blocks = h.blocks })
  put_blockless h a x inlined' same before after mine own =
      put h a x inlined' h.blocks same mine (λ c p ne at. (refl, cc))
        (λ p o alive.
          let not_here : held (h.messages a) ≢ some p = λ t. cc in
          inr (elsewhere h a p o own not_here alive))
        own

  -- A message without a block takes the place of one with a block, which is freed.
  pub put_freed :
      (h : Heap V) (a p : ℕ) (x : Option Message)
      → held (h.messages a) ≡ some p
      → held x ≡ none
      → Slot (update h.blocks p none) x (h.inlined a)
      → Owned h
      → Owned (record {
        messages = update h.messages a x;
        inlined = h.inlined;
        blocks = update h.blocks p none;
      })
  put_freed h a p x before after mine own =
      put h a x h.inlined (update h.blocks p none) (λ c ne. refl) mine
        (λ c q ne at.
          (update_ne h.blocks p q none (λ e. ne (own.single c a p (at ∙ ap some e) before)), cc))
        (λ q o alive. elim (ℕ_discrete q p) [
          | yes e ↦
              let gone : none ≡ some o =
                sym (ap (update h.blocks p none) e ∙ update_self h.blocks p none) ∙ alive in
              cc
          | no ne ↦ inr (
              elsewhere h a q o own (λ t. let same : some p ≡ some q = sym before ∙ t in ne cc)
                (sym (update_ne h.blocks p q none ne) ∙ alive))
        ])
        own

  destroy_block-alive :
      (p : ℕ) {o : Object V} (h : Heap V)
      → h.blocks p ≡ some o
      → destroy_block (some p) h ≡ done (with_block p none h)
  unfolding destroy_block
  destroy_block-alive p h alive = rw (alive, destroy_block)

  pub on_message-some :
      (a : ℕ) (f : Message → Heap V → Result V) {m : Message} (h : Heap V)
      → h.messages a ≡ some m
      → on_message a f h ≡ f m h
  unfolding on_message
  on_message-some a f h at = rw (at, on_message)

  -- A message that holds nothing takes the place of the one whose payload is destroyed.
  destroy_payload-Owned :
      (h : Heap V) (a : ℕ) (mode : StorageMode) (ops : Option Class) (ptr : Option ℕ) (id : ℕ)
      (x : Option Message)
      → Stored h.blocks mode ops ptr id (h.inlined a)
      → held (h.messages a) ≡ held_by mode ptr
      → held x ≡ none
      → ((blocks : ℕ → Option (Object V)) → Slot blocks x none)
      → Owned h
      → (h' : Heap V) × (destroy_payload mode ops a ptr h ≡ done h')
        × (h'.messages ≡ h.messages)
        × Owned (with_message a x h')
  unfolding destroy_payload
  destroy_payload-Owned h a empty ops ptr id x here holds out blank own = (
    h,
    refl,
    refl,
    put_blockless h a x h.inlined (λ c ne. refl) holds out
        (subst (Slot h.blocks x) (sym here) (blank h.blocks)) own,
  )
  destroy_payload-Owned h a inline none ptr id x (o, here, class, i) holds out blank own = cc
  destroy_payload-Owned h a inline (some c) ptr id x (o, here, class, i) holds out blank own = (
    with_inlined a none h,
    rw here,
    refl,
    put_blockless h a x (update h.inlined a none) (λ c ne. update_ne h.inlined a c none ne) holds
        out (subst (Slot h.blocks x) (sym (update_self h.inlined a none)) (blank h.blocks)) own,
  )
  destroy_payload-Owned h a pool none ptr id x (o, here, class, i, block) holds out blank own = cc
  destroy_payload-Owned h a pool (some c) none id x (o, here, class, i, (p, at, alive)) holds out
        blank own =
      cc
  destroy_payload-Owned h a pool (some c) (some q) id x (o, here, class, i, (p, at, alive)) holds
        out blank own =
      let same : p ≡ q = cc in
      (
        with_block q none h,
        destroy_block-alive q h (ap h.blocks (sym same) ∙ alive),
        refl,
        put_freed h a q x holds out
            (subst (Slot (update h.blocks q none) x) (sym here) (blank (update h.blocks q none)))
            own,
      )

  -- The payload of a message is destroyed and the message is gone, or takes another payload.
  pub destroy-Owned :
      (h : Heap V) (a : ℕ) (m : Message)
      → h.messages a ≡ some m
      → Owned h
      → (h' : Heap V) × (destroy a m h ≡ done h')
        × (h'.messages ≡ h.messages)
        × Owned (with_message a none h')
  unfolding destroy
  destroy-Owned h a m at own =
      destroy_payload-Owned h a m.mode m.ops m.ptr m.id none
        (subst (λ t. Slot h.blocks t (h.inlined a)) at (own.slots a)) (ap held at) refl
        (λ blocks. refl) own

  pub destruct-Owned :
      (h : Heap V) (a : ℕ) (m : Message)
      → h.messages a ≡ some m
      → Owned h
      → (h' : Heap V) × (destruct a h ≡ done h') × Owned h'
  unfolding destruct
  destruct-Owned h a m at own =
      let (h', e, same, own') = destroy-Owned h a m at own in
      (
        with_message a none h',
        on_message-some a (λ m g. destroy a m g >>= λ g. done (with_message a none g)) h at
            ∙ ap (λ r. r >>= λ g. done (with_message a none g)) e,
        own',
      )
