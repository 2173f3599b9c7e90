-- ===== src/Actors/Message/Placing.antt =====
-- A message on the heap of src/core/actor_system/messages/message.hpp is replaced by one with or
-- without a block.
use v2_engine.Common.{
  ℕ, ◌≡◌, ◌≢◌, inl, inr, Option, none, some, arith, refl, sym, ap, ◌∙◌, subst, update, update_ne,
}
use mathlib.Core.Path.{fun_ext}
use native.Mathlib.Decide.{ℕ_discrete}
use v2_engine.Actors.Message.{StorageMode, empty, inline, pool, Class, Message, Object, Heap}
use v2_engine.Actors.Message.Ownership.{held, held_by, Stored, Slot, Owned, put}
use v2_engine.Actors.Message.Lifetime.{elsewhere}

pub update_comm {ℓ} :
    {A : Type ℓ} (f : ℕ → A) (a b : ℕ) (x y : A)
    → a ≢ b
    → update (update f b y) a x ≡ update (update f a x) b y
update_comm f a b x y ne = fun_ext (λ c. ground arith)

pub update_back {ℓ} :
    {A : Type ℓ} (f : ℕ → A) (a : ℕ) (x y : A) → f a ≡ y → update (update f a x) a y ≡ f
update_back f a x y e = fun_ext (λ c. ground (arith, ap f))

pub update_again {ℓ} :
    {A : Type ℓ} (f : ℕ → A) (a : ℕ) (x y : A) → update (update f a x) a y ≡ update f a y
update_again f a x y = fun_ext (λ c. ground arith)

module _ {V : Type 0} where
  -- A held block is alive.
  alive_at :
      (blocks : ℕ → Option (Object V)) (m : Option Message) (here : Option (Object V)) (p : ℕ)
      → Slot blocks m here
      → held m ≡ some p
      → (o : Object V) × (blocks p ≡ some o)
  alive_at blocks none here p s at = cc
  alive_at blocks (some m) here p s at = by_mode m.mode m.ops m.ptr m.id s at
    where
      by_mode :
          (mode : StorageMode) (ops : Option Class) (ptr : Option ℕ) (id : ℕ)
          → Stored blocks mode ops ptr id here
          → held_by mode ptr ≡ some p
          → (o : Object V) × (blocks p ≡ some o)
      by_mode empty ops ptr id s at = cc
      by_mode inline ops ptr id s at = cc
      by_mode pool ops ptr id (o, here, class, i, (q, there, alive)) at =
          let same : q ≡ p = cc in (o, ap blocks (sym same) ∙ alive)

  -- A message with a new block takes the place of one without.
  pub put_block :
      (h : Heap V) (a p : ℕ) (x : Option Message) (o : Object V)
      → held (h.messages a) ≡ none
      → h.blocks p ≡ none
      → held x ≡ some p
      → Slot (update h.blocks p (some o)) x (h.inlined a)
      → Owned h
      → Owned (record {
        messages = update h.messages a x;
        inlined = h.inlined;
        blocks = update h.blocks p (some o);
      })
  put_block h a p x o before free after mine own =
      put h a x h.inlined (update h.blocks p (some o)) (λ c ne. refl) mine
        (λ c q ne at.
          let (o', alive) = alive_at h.blocks (h.messages c) (h.inlined c) q (own.slots c) at in
          let other : q ≢ p =
            λ e. let clash : none ≡ some o' = sym free ∙ ap h.blocks (sym e) ∙ alive in cc in
          (
            update_ne h.blocks p q (some o) other,
            λ t. let same : some p ≡ some q = sym after ∙ t in other cc,
          ))
        (λ q o' alive. elim (ℕ_discrete q p) [
          | yes e ↦ inl (after ∙ ap some (sym e))
          | no ne ↦
              let not_here : held (h.messages a) ≢ some q = λ t. cc in
              inr
                (elsewhere h a q o' own not_here (sym (update_ne h.blocks p q (some o) ne) ∙ alive))
        ])
        own

  pub slot_of :
      (h : Heap V) (a : ℕ) {m : Option Message}
      → h.messages a ≡ m
      → Owned h
      → Slot h.blocks m (h.inlined a)
  slot_of h a at own = subst (λ t. Slot h.blocks t (h.inlined a)) at (own.slots a)
