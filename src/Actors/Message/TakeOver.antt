-- ===== src/Actors/Message/TakeOver.antt =====
-- What the move constructor and the move assignment of src/core/actor_system/messages/message.hpp
-- share, for each storage mode.
use v2_engine.Common.{
  ℕ, ◌≡◌, ◌≢◌, Bool, Option, none, some, refl, ap, ◌∙◌, subst, update, update_self, update_ne,
}
use v2_engine.Actors.Message.{
  StorageMode, empty, inline, pool, Class, Message, Heap, done, ◌>>=◌, take_over, emptied,
  moved_ptr, move_payload, move_inline, with_message,
}
use v2_engine.Actors.Message.Ownership.{held, Owned}
use v2_engine.Actors.Message.Lifetime.{put_blockless, put_freed}
use v2_engine.Actors.Message.Placing.{update_comm, update_back, put_block, slot_of}

module _ {V : Type 0} where
  take_over_empty :
      (h : Heap V) (a b : ℕ) (ptr : Option ℕ) (id : ℕ) (ops : Option Class) (allocator : Bool)
      (ptr' : Option ℕ)
      → a ≢ b
      → h.messages a ≡ none
      → h.messages b
        ≡ some (record { id = id; mode = empty; ops = ops; allocator = allocator; ptr = ptr' })
      → Owned h
      → (h' : Heap V) × (take_over a b ptr
            (record { id = id; mode = empty; ops = ops; allocator = allocator; ptr = ptr' })
            h
          ≡ done h')
        × Owned h'
  unfolding take_over emptied moved_ptr move_payload move_inline
  take_over_empty h a b ptr id ops allocator ptr' ne at at' own =
      let from : Message = record {
        id = id;
        mode = empty;
        ops = ops;
        allocator = allocator;
        ptr = ptr';
      } in
      let to : Message = record {
        id = id;
        mode = empty;
        ops = ops;
        allocator = allocator;
        ptr = ptr;
      } in
      let left : Message = emptied from in
      let own1 =
        put_blockless h b (some left) h.inlined (λ c n. refl) (ap held at') refl
          (slot_of h b at' own) own in
      (
        _,
        refl,
        subst (λ t. Owned (record { messages = t; inlined = h.inlined; blocks = h.blocks }))
            (update_comm h.messages a b (some to) (some left) ne)
            (put_blockless (with_message b (some left) h) a (some to) h.inlined (λ c n. refl)
              (ap held (update_ne h.messages b a (some left) ne ∙ at)) refl (slot_of h a at own)
              own1),
      )

  take_over_inline :
      (h : Heap V) (a b : ℕ) (ptr : Option ℕ) (id : ℕ) (ops : Option Class) (allocator : Bool)
      (ptr' : Option ℕ)
      → a ≢ b
      → h.messages a ≡ none
      → h.messages b
        ≡ some (record { id = id; mode = inline; ops = ops; allocator = allocator; ptr = ptr' })
      → Owned h
      → (h' : Heap V) × (take_over a b ptr
            (record { id = id; mode = inline; ops = ops; allocator = allocator; ptr = ptr' })
            h
          ≡ done h')
        × Owned h'
  unfolding take_over emptied moved_ptr move_payload move_inline
  take_over_inline h a b ptr id none allocator ptr' ne at at' own =
      let (o, here, class, i) = slot_of h b at' own in cc
  take_over_inline h a b ptr id (some k) allocator ptr' ne at at' own =
      let from : Message = record {
        id = id;
        mode = inline;
        ops = some k;
        allocator = allocator;
        ptr = ptr';
      } in
      let to : Message = record {
        id = id;
        mode = inline;
        ops = some k;
        allocator = allocator;
        ptr = ptr;
      } in
      let left : Message = emptied from in
      let (o, here, class, i) = slot_of h b at' own in
      let gone = update h.inlined b none in
      let own1 =
        put_blockless h b (some left) gone (λ c n. update_ne h.inlined b c none n) (ap held at')
          refl (update_self h.inlined b none) own in
      let own2 =
        put_blockless
          (record { messages = update h.messages b (some left); inlined = gone; blocks = h.blocks })
          a (some to) (update gone a (some o)) (λ c n. update_ne gone a c (some o) n)
          (ap held (update_ne h.messages b a (some left) ne ∙ at)) refl
          (o, update_self gone a (some o), class, i) own1 in
      (
        _,
        ap
            (λ r. move_inline a b r (with_message a (some to) h) >>= λ g.
              done (with_message b (some left) g))
            here,
        subst
            (λ t. Owned (record {
              messages = update (update h.messages a (some to)) b (some left);
              inlined = t;
              blocks = h.blocks;
            }))
            (update_comm h.inlined a b (some o) none ne)
            (subst
              (λ t.
                Owned
                  (record { messages = t; inlined = update gone a (some o); blocks = h.blocks }))
              (update_comm h.messages a b (some to) (some left) ne) own2),
      )

  take_over_pool :
      (h : Heap V) (a b : ℕ) (ptr : Option ℕ) (id : ℕ) (ops : Option Class) (allocator : Bool)
      (ptr' : Option ℕ)
      → a ≢ b
      → h.messages a ≡ none
      → h.messages b
        ≡ some (record { id = id; mode = pool; ops = ops; allocator = allocator; ptr = ptr' })
      → Owned h
      → (h' : Heap V) × (take_over a b ptr
            (record { id = id; mode = pool; ops = ops; allocator = allocator; ptr = ptr' })
            h
          ≡ done h')
        × Owned h'
  unfolding take_over emptied moved_ptr move_payload move_inline
  take_over_pool h a b ptr id ops allocator ptr' ne at at' own =
      let to : Message = record {
        id = id;
        mode = pool;
        ops = ops;
        allocator = allocator;
        ptr = ptr';
      } in
      let left : Message = emptied to in
      let (o, here, class, i, (p, points, alive)) = slot_of h b at' own in
      let own1 = put_freed h b p (some left) (ap held at' ∙ points) refl here own in
      let own2 =
        put_block
          (record {
            messages = update h.messages b (some left);
            inlined = h.inlined;
            blocks = update h.blocks p none;
          })
          a p (some to) o (ap held (update_ne h.messages b a (some left) ne ∙ at))
          (update_self h.blocks p none) points
          (
            o,
            slot_of h a at own,
            class,
            i,
            (p, points, update_self (update h.blocks p none) p (some o)),
          )
          own1 in
      (
        _,
        refl,
        subst
            (λ t. Owned (record {
              messages = update (update h.messages a (some to)) b (some left);
              inlined = h.inlined;
              blocks = t;
            }))
            (update_back h.blocks p none (some o) alive)
            (subst
              (λ t. Owned (record {
                messages = t;
                inlined = h.inlined;
                blocks = update (update h.blocks p none) p (some o);
              }))
              (update_comm h.messages a b (some to) (some left) ne) own2),
      )

  take_over_by :
      (h : Heap V) (a b : ℕ) (ptr : Option ℕ) (id : ℕ) (mode : StorageMode) (ops : Option Class)
      (allocator : Bool) (ptr' : Option ℕ)
      → a ≢ b
      → h.messages a ≡ none
      → h.messages b
        ≡ some (record { id = id; mode = mode; ops = ops; allocator = allocator; ptr = ptr' })
      → Owned h
      → (h' : Heap V) × (take_over a b ptr
            (record { id = id; mode = mode; ops = ops; allocator = allocator; ptr = ptr' })
            h
          ≡ done h')
        × Owned h'
  take_over_by h a b ptr id empty = take_over_empty h a b ptr id
  take_over_by h a b ptr id inline = take_over_inline h a b ptr id
  take_over_by h a b ptr id pool = take_over_pool h a b ptr id

  pub take_over-Owned :
      (h : Heap V) (a b : ℕ) (ptr : Option ℕ) (other : Message)
      → a ≢ b
      → h.messages a ≡ none
      → h.messages b ≡ some other
      → Owned h
      → (h' : Heap V) × (take_over a b ptr other h ≡ done h') × Owned h'
  take_over-Owned h a b ptr other =
      take_over_by h a b ptr other.id other.mode other.ops other.allocator other.ptr
