-- ===== src/Actors/Message/Ownership.antt =====
-- Each living payload belongs to exactly one message, which knows its class.
use v2_engine.Common.{
  ℕ, ◌≡◌, ◌≢◌, ◌⊎◌, inl, inr, Option, none, some, sym, ap, ◌∙◌, subst, update, update_self,
  update_ne,
}
use native.Mathlib.Decide.{ℕ_discrete}
use v2_engine.Actors.Message.{StorageMode, empty, inline, pool, Class, Message, Object, Heap}

-- The block that a message points to.
abbrev pub held_by : StorageMode → Option ℕ → Option ℕ
held_by pool ptr = ptr
held_by _ ptr = none

abbrev pub held : Option Message → Option ℕ
held none = none
held (some m) = held_by m.mode m.ptr

module _ {V : Type 0} where
  abbrev pub Stored :
      (ℕ → Option (Object V))
      → StorageMode
      → Option Class
      → Option ℕ
      → ℕ
      → Option (Object V)
      → Type 0
  Stored blocks empty ops ptr id here = here ≡ none
  Stored blocks inline ops ptr id here =
      (o : Object V) × (here ≡ some o) × (ops ≡ some o.class) × (id ≡ o.class.id)
  Stored blocks pool ops ptr id here =
      (o : Object V) × (here ≡ none)
      × (ops ≡ some o.class)
      × (id ≡ o.class.id)
      × ((p : ℕ) × (ptr ≡ some p) × (blocks p ≡ some o))

  -- What lies at the address of a message, or of none.
  abbrev pub Slot : (ℕ → Option (Object V)) → Option Message → Option (Object V) → Type 0
  Slot blocks none here = here ≡ none
  Slot blocks (some m) here = Stored blocks m.mode m.ops m.ptr m.id here

  pub record Owned (h : Heap V) : Type 0 where
    pub slots : (a : ℕ) → Slot h.blocks (h.messages a) (h.inlined a)
    pub owner :
        (p : ℕ) (o : Object V) → h.blocks p ≡ some o → (a : ℕ) × (held (h.messages a) ≡ some p)
    pub single : (a b p : ℕ) → held (h.messages a) ≡ some p → held (h.messages b) ≡ some p → a ≡ b

  Stored-frame :
      {blocks blocks' : ℕ → Option (Object V)} (mode : StorageMode) (ops : Option Class)
      (ptr : Option ℕ) (id : ℕ) (here : Option (Object V))
      → ((p : ℕ) → held_by mode ptr ≡ some p → blocks' p ≡ blocks p)
      → Stored blocks mode ops ptr id here
      → Stored blocks' mode ops ptr id here
  Stored-frame empty ops ptr id here same s = s
  Stored-frame inline ops ptr id here same s = s
  Stored-frame pool ops ptr id here same (o, e, f, g, (p, at, alive)) =
      (o, e, f, g, (p, at, same p at ∙ alive))

  pub Slot-frame :
      {blocks blocks' : ℕ → Option (Object V)} (m : Option Message) (here : Option (Object V))
      → ((p : ℕ) → held m ≡ some p → blocks' p ≡ blocks p)
      → Slot blocks m here
      → Slot blocks' m here
  Slot-frame none here same s = s
  Slot-frame (some m) here same s = Stored-frame m.mode m.ops m.ptr m.id here same s

  -- A change at one address, and of the block that its message held or holds.
  pub install :
      (h h' : Heap V) (a : ℕ)
      → ((c : ℕ) → c ≢ a → h'.messages c ≡ h.messages c)
      → ((c : ℕ) → c ≢ a → h'.inlined c ≡ h.inlined c)
      → Slot h'.blocks (h'.messages a) (h'.inlined a)
      → ((c p : ℕ)
          → c ≢ a
          → held (h.messages c) ≡ some p
          → (h'.blocks p ≡ h.blocks p) × (held (h'.messages a) ≢ some p))
      → ((p : ℕ) (o : Object V)
          → h'.blocks p ≡ some o
          → (held (h'.messages a) ≡ some p) ⊎ ((c : ℕ) × (c ≢ a) × (held (h.messages c) ≡ some p)))
      → Owned h
      → Owned h'
  install h h' a same_m same_i mine others owners own = record {
    slots = λ c. elim (ℕ_discrete c a) [
      | yes e ↦ subst (λ t. Slot h'.blocks (h'.messages t) (h'.inlined t)) (sym e) mine
      | no ne ↦
          subst (λ t. Slot h'.blocks t (h'.inlined c)) (sym (same_m c ne))
            (subst (Slot h'.blocks (h.messages c)) (sym (same_i c ne)) (
              Slot-frame (h.messages c) (h.inlined c) (λ p at. (others c p ne at).0) (own.slots c)))
    ];
    owner = λ p o alive. elim (owners p o alive) [
      | inl at ↦ (a, at)
      | inr (c, ne, at) ↦ (c, ap held (same_m c ne) ∙ at)
    ];
    single = λ c d p at at'. single' c d p (ℕ_discrete c a) (ℕ_discrete d a) at at';
  }
    where
      single' :
          (c d p : ℕ)
          → Dec (c ≡ a)
          → Dec (d ≡ a)
          → held (h'.messages c) ≡ some p
          → held (h'.messages d) ≡ some p
          → c ≡ d
      single' c d p (yes e) (yes f) at at' = e ∙ sym f
      single' c d p (yes e) (no nf) at at' = absurd (
          (others d p nf (ap held (sym (same_m d nf)) ∙ at')).1
            (subst (λ t. held (h'.messages t) ≡ some p) e at))
      single' c d p (no ne) (yes f) at at' = absurd (
          (others c p ne (ap held (sym (same_m c ne)) ∙ at)).1
            (subst (λ t. held (h'.messages t) ≡ some p) f at'))
      single' c d p (no ne) (no nf) at at' =
          own.single c d p (ap held (sym (same_m c ne)) ∙ at) (ap held (sym (same_m d nf)) ∙ at')

  -- The message at one address is replaced.
  pub put :
      (h : Heap V) (a : ℕ) (x : Option Message) (inlined' blocks' : ℕ → Option (Object V))
      → ((c : ℕ) → c ≢ a → inlined' c ≡ h.inlined c)
      → Slot blocks' x (inlined' a)
      → ((c p : ℕ)
          → c ≢ a
          → held (h.messages c) ≡ some p
          → (blocks' p ≡ h.blocks p) × (held x ≢ some p))
      → ((p : ℕ) (o : Object V)
          → blocks' p ≡ some o
          → (held x ≡ some p) ⊎ ((c : ℕ) × (c ≢ a) × (held (h.messages c) ≡ some p)))
      → Owned h
      → Owned (record { messages = update h.messages a x; inlined = inlined'; blocks = blocks' })
  put h a x inlined' blocks' same_i mine others owners own =
      let self = sym (update_self h.messages a x) in
      install h (record { messages = update h.messages a x; inlined = inlined'; blocks = blocks' })
        a (λ c ne. update_ne h.messages a c x ne) same_i
        (subst (λ t. Slot blocks' t (inlined' a)) self mine)
        (subst
          (λ t.
            (c p : ℕ)
            → c ≢ a
            → held (h.messages c) ≡ some p
            → (blocks' p ≡ h.blocks p) × (held t ≢ some p))
          self others)
        (subst
          (λ t.
            (p : ℕ) (o : Object V)
            → blocks' p ≡ some o
            → (held t ≡ some p) ⊎ ((c : ℕ) × (c ≢ a) × (held (h.messages c) ≡ some p)))
          self owners)
        own
