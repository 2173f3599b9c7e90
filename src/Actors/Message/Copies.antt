-- ===== src/Actors/Message/Copies.antt =====
-- Construction and cloning keep each payload with one message.
use v2_engine.Common.{
  ℕ, ◌≡◌, inl, inr, true, false, not, ◌&&◌, Option, none, some, arith, refl, sym, ap, ◌∙◌, subst,
  update, update_self, update_ne, Bool-cases,
}
use v2_engine.Actors.Message.{
  StorageMode, empty, inline, pool, Class, Message, empty_message, Object, Heap, done, is_inline,
  is_pool, make, made, clone, clone_payload, clone_inline, clone_block, payload, data_at,
  with_message, with_inlined, with_block,
}
use v2_engine.Actors.Message.Ownership.{held, held_by, Stored, Owned}
use v2_engine.Actors.Message.Lifetime.{put_blockless, on_message-some}
use v2_engine.Actors.Message.Placing.{put_block, slot_of}

-- `make` picks the storage for which `opsFor` has the operations.
pub is_pool-is_inline :
    (max_align : ℕ) (c : Class) → is_pool max_align c ≡ not (is_inline max_align c)
unfolding is_inline is_pool
is_pool-is_inline max_align c = ground arith

abbrev pub in_block : ℕ → Message → Message
in_block p m = record m { ptr = some p; allocator = true }

module _ {V : Type 0} where
  -- The heap in which the message `m` has a payload in its inline storage, or in a block.
  abbrev pub inline_heap : ℕ → Message → Object V → Heap V → Heap V
  inline_heap a m o h = with_message a (some m) (with_inlined a (some o) h)

  abbrev pub block_heap : ℕ → ℕ → Message → Object V → Heap V → Heap V
  block_heap a p m o h = with_message a (some m) (with_block p (some o) h)

  abbrev pub object : Class → V → Object V
  object c v = record { class = c; value = v }

  inline_heap-Owned :
      (h : Heap V) (a : ℕ) (m : Message) (o : Object V)
      → h.messages a ≡ none
      → m.mode ≡ inline
      → m.ops ≡ some o.class
      → m.id ≡ o.class.id
      → Owned h
      → Owned (inline_heap a m o h)
  inline_heap-Owned h a m o at mode ops id own =
      put_blockless h a (some m) (update h.inlined a (some o))
        (λ d ne. update_ne h.inlined a d (some o) ne) (ap held at) (ap (λ t. held_by t m.ptr) mode)
        (subst (λ t. Stored h.blocks t m.ops m.ptr m.id (update h.inlined a (some o) a)) (sym mode)
          (o, update_self h.inlined a (some o), ops, id))
        own

  block_heap-Owned :
      (h : Heap V) (a p : ℕ) (m : Message) (o : Object V)
      → h.messages a ≡ none
      → h.blocks p ≡ none
      → m.mode ≡ pool
      → m.ops ≡ some o.class
      → m.id ≡ o.class.id
      → Owned h
      → Owned (block_heap a p (in_block p m) o h)
  block_heap-Owned h a p m o at fresh mode ops id own =
      put_block h a p (some (in_block p m)) o (ap held at) fresh (ap (λ t. held_by t (some p)) mode)
        (subst (λ t. Stored (update h.blocks p (some o)) t m.ops (some p) m.id (h.inlined a))
          (sym mode) (o, slot_of h a at own, ops, id, (p, refl, update_self h.blocks p (some o))))
        own

  pub payload-some :
      (h : Heap V) (b : ℕ) (m : Message)
      → h.messages b ≡ some m
      → payload b h ≡ data_at m.mode b m.ptr h
  unfolding payload
  payload-some h b m at = rw (at, payload)

  pub empty-Owned :
      (h : Heap V) (a : ℕ)
      → h.messages a ≡ none
      → Owned h
      → Owned (with_message a (some empty_message) h)
  empty-Owned h a at own =
      put_blockless h a (some empty_message) h.inlined (λ d ne. refl) (ap held at) refl
        (slot_of h a at own) own

module _ {V : Type 0} (max_align : ℕ) where
  pub make-inline :
      (h : Heap V) (a : ℕ) (c : Class) (v : V) (memory : Option ℕ)
      → is_inline max_align c ≡ true
      → make max_align a c v memory false h ≡ done (inline_heap a (made c inline) (object c v) h)
  unfolding make
  make-inline h a c v memory small = rw small

  pub make-pool :
      (h : Heap V) (a p : ℕ) (c : Class) (v : V)
      → is_inline max_align c ≡ false
      → make max_align a c v (some p) false h
        ≡ done (block_heap a p (in_block p (made c pool)) (object c v) h)
  unfolding make
  make-pool h a p c v large = rw large

  pub make-Owned :
      (h : Heap V) (a p : ℕ) (c : Class) (v : V)
      → h.messages a ≡ none
      → h.blocks p ≡ none
      → Owned h
      → (h' : Heap V) × (make max_align a c v (some p) false h ≡ done h') × Owned h'
  unfolding made
  make-Owned h a p c v at fresh own = elim (Bool-cases (is_inline max_align c)) [
    | inl small ↦ (
      inline_heap a (made c inline) (object c v) h,
      make-inline h a c v (some p) small,
      inline_heap-Owned h a (made c inline) (object c v) at refl refl refl own,
    )
    | inr large ↦ (
      block_heap a p (in_block p (made c pool)) (object c v) h,
      make-pool h a p c v large,
      block_heap-Owned h a p (made c pool) (object c v) at fresh refl refl refl own,
    )
  ]

  -- `clone` by the mode of the message that is cloned.
  clone_by :
      (h : Heap V) (a b p : ℕ) (m : Message) (mode : StorageMode) (ops : Option Class)
      (ptr : Option ℕ)
      → h.messages a ≡ none
      → h.blocks p ≡ none
      → Stored h.blocks mode ops ptr m.id (h.inlined b)
      → m.ops ≡ ops
      → Owned h
      → (h' : Heap V) × (clone_payload max_align a m mode ops
            (some p)
            false
            (data_at mode b ptr h)
            h
          ≡ done h')
        × Owned h'
  unfolding clone_payload clone_inline clone_block data_at
  clone_by h a b p m empty ops ptr at fresh s same own = (_, refl, empty-Owned h a at own)
  clone_by h a b p m inline none ptr at fresh (o, here, class, i) same own = cc
  clone_by h a b p m inline (some c) ptr at fresh (o, here, class, i) same own =
      elim (Bool-cases (not (is_pool max_align c) && c.copyable)) [
        | inl yes' ↦
            let copy : Message = record {
              id = m.id;
              mode = inline;
              ops = m.ops;
              allocator = false;
              ptr = none;
            } in
            (
              inline_heap a copy o h,
              rw yes' (ap (λ t. clone_inline max_align a m false t h) here),
              inline_heap-Owned h a copy o at refl (same ∙ class) i own,
            )
        | inr no' ↦ (with_message a (some empty_message) h, rw no', empty-Owned h a at own)
      ]
  clone_by h a b p m pool none ptr at fresh (o, here, class, i, block) same own = cc
  clone_by h a b p m pool (some c) ptr at fresh (o, here, class, i, (q, points, alive)) same own =
      elim (Bool-cases (is_pool max_align c && c.copyable)) [
        | inl yes' ↦
            let copy : Message = record {
              id = m.id;
              mode = pool;
              ops = m.ops;
              allocator = true;
              ptr = some p;
            } in
            let source = ap (λ t. data_at pool b t h) points ∙ alive in
            (
              block_heap a p copy o h,
              rw yes' (ap (λ t. clone_block max_align a m (some p) false t h) source),
              block_heap-Owned h a p copy o at fresh refl (same ∙ class) i own,
            )
        | inr no' ↦ (with_message a (some empty_message) h, rw no', empty-Owned h a at own)
      ]

  pub clone-Owned :
      (h : Heap V) (a b p : ℕ) (m : Message)
      → h.messages a ≡ none
      → h.messages b ≡ some m
      → h.blocks p ≡ none
      → Owned h
      → (h' : Heap V) × (clone max_align a b (some p) false h ≡ done h') × Owned h'
  unfolding clone payload
  clone-Owned h a b p m at at' fresh own =
      let (h', e, own') =
        clone_by h a b p m m.mode m.ops m.ptr at fresh (slot_of h b at' own) refl own in
      (
        h',
        on_message-some b
              (λ n g. clone_payload max_align a n n.mode n.ops (some p) false (payload b g) g) h at'
            ∙ ap (λ t. clone_payload max_align a m m.mode m.ops (some p) false t h)
                (payload-some h b m at')
            ∙ e,
        own',
      )
