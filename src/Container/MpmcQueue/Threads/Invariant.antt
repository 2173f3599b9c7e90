-- ===== src/Container/MpmcQueue/Threads/Invariant.antt =====
-- What holds of the queue between any two steps.
use v2_engine.Common.{
  ℕ, suc, ◌+◌, ◌%◌, ◌≤◌, ◌<◌, ◌≡◌, ◌≢◌, ◌⊎◌, inl, Option, none, some, update, update_self,
  update_ne, arith, sym, ap, ◌∙◌, subst,
}
use native.Mathlib.Decide.{dec_lt, ℕ_discrete}
use native.Mathlib.Nat.{mod-eq_of_lt}
use v2_engine.Common.Modular.{mod_ne}
use v2_engine.Container.MpmcQueue.Threads.{
  Memory, Phase, idle, push_loaded, push_ready, push_claimed, push_built, pop_loaded, pop_ready,
  pop_claimed, pop_taken, System, slot_of, init,
}

-- Two positions that share a slot and are less than a round apart are the same.
pub same_slot : (p q cap : ℕ) → p % cap ≡ q % cap → p < q + cap → q < p + cap → p ≡ q
same_slot p q cap e near near' = elim (dec_lt p q) [
  | yes lt ↦ absurd (mod_ne p q cap lt near' e)
  | no ge ↦ elim (dec_lt q p) [
    | yes lt ↦ absurd (mod_ne q p cap lt near (sym e))
    | no le ↦ omega arith
  ]
]

-- The sequence of a slot against the next position `k` that a push will claim in it: free, claimed by
-- the push of the round before, or published by it.
abbrev pub Round : ℕ → ℕ → ℕ → Type 0
Round size seq k = (seq ≡ k) ⊎ ((seq + size ≡ k) ⊎ (seq + size ≡ suc k))

module _ {A : Type 0} where
  -- The position whose slot a thread may build in or take from.
  abbrev pub owned : Phase A → Option ℕ
  owned idle = none
  owned (push_loaded pos x) = none
  owned (push_ready pos x) = none
  owned (push_claimed pos x) = some pos
  owned (push_built pos) = some pos
  owned (pop_loaded pos) = none
  owned (pop_ready pos) = none
  owned (pop_claimed pos) = some pos
  owned (pop_taken pos) = some pos

  -- A position that has been claimed by a push and not yet published.
  pub record Writing (m : Memory A) (pos : ℕ) : Type 0 where
    pub low : m.head ≤ pos
    pub high : pos < m.tail
    pub at : m.sequence (slot_of m pos) ≡ pos

  -- A position that has been claimed by a pop and not yet released.
  pub record Reading (m : Memory A) (pos : ℕ) : Type 0 where
    pub low : m.tail ≤ pos + m.capacity
    pub high : pos < m.head
    pub at : m.sequence (slot_of m pos) ≡ suc pos

  -- What a thread knows at each place.
  abbrev pub Knows : Memory A → (ℕ → Option A) → Phase A → Type 0
  Knows m h idle = Unit
  Knows m h (push_loaded pos x) = pos ≤ m.tail
  Knows m h (push_ready pos x) = (pos ≤ m.tail) × (pos ≡ m.tail → m.sequence (slot_of m pos) ≡ pos)
  Knows m h (push_claimed pos x) = Writing m pos × (h pos ≡ some x)
  Knows m h (push_built pos) = Writing m pos × (m.element (slot_of m pos) ≡ h pos)
  Knows m h (pop_loaded pos) = pos ≤ m.head
  Knows m h (pop_ready pos) = (pos ≤ m.head) × (pos ≡ m.head → m.sequence (slot_of m pos) ≡ suc pos)
  Knows m h (pop_claimed pos) = Reading m pos × (m.element (slot_of m pos) ≡ h pos)
  Knows m h (pop_taken pos) = Reading m pos

  pub record Shared (m : Memory A) (h : ℕ → Option A) : Type 0 where
    pub two : 2 ≤ m.capacity
    pub ordered : m.head ≤ m.tail
    pub room : m.tail ≤ m.head + m.capacity
    pub ring :
        (k : ℕ)
        → m.tail ≤ k
        → k < m.tail + m.capacity
        → Round m.capacity (m.sequence (slot_of m k)) k
    pub live :
        (p : ℕ)
        → m.head ≤ p
        → p < m.tail
        → (m.sequence (slot_of m p) ≡ p) ⊎ (m.sequence (slot_of m p) ≡ suc p)
    pub content :
        (p : ℕ)
        → m.head ≤ p
        → p < m.tail
        → m.sequence (slot_of m p) ≡ suc p
        → m.element (slot_of m p) ≡ h p

  pub record Inv (s : System A) : Type 0 where
    pub shared : Shared s.memory s.pushed
    pub knows : (i : ℕ) → Knows s.memory s.pushed (s.phase i)
    pub apart :
        (i j p q : ℕ)
        → i ≢ j
        → owned (s.phase i) ≡ some p
        → owned (s.phase j) ≡ some q
        → slot_of s.memory p ≢ slot_of s.memory q

  pub init-Inv : (capacity : ℕ) → 2 ≤ capacity → Inv (init capacity)
  init-Inv capacity h = record {
    shared = record {
      two = h;
      ordered = omega arith;
      room = omega arith;
      ring = λ k low high. inl (mod-eq_of_lt (omega (arith, high)));
      live = λ p low high. absurd (omega (arith, low, high));
      content = λ p low high. absurd (omega (arith, low, high));
    };
    knows = λ i. tt;
    apart = λ i j p q ne a b. cc;
  }

  -- A thread that steps keeps the invariant if the memory stays right, if it knows its new place, if
  -- the others still know theirs, and if what it comes to own is owned by no other.
  pub install :
      (s : System A) (i : ℕ) {m : Memory A} {h : ℕ → Option A} (ph : Phase A)
      → m.capacity ≡ s.memory.capacity
      → Shared m h
      → Knows m h ph
      → ((j : ℕ) → j ≢ i → Knows m h (s.phase j))
      → ((j p q : ℕ)
          → j ≢ i
          → owned ph ≡ some p
          → owned (s.phase j) ≡ some q
          → p % s.memory.capacity ≢ q % s.memory.capacity)
      → Inv s
      → Inv (record { memory = m; phase = update s.phase i ph; pushed = h })
  install s i {m} {h} ph same sh mine others alone inv = record {
    shared = sh;
    knows = λ j. elim (ℕ_discrete j i) [
      | yes e ↦ subst (Knows m h) (sym (own j e)) mine
      | no ne ↦ subst (Knows m h) (sym (update_ne s.phase i j ph ne)) (others j ne)
    ];
    apart = λ j k p q ne a b. apart' j k p q ne (ℕ_discrete j i) (ℕ_discrete k i) a b;
  }
    where
      own : (j : ℕ) → j ≡ i → update s.phase i ph j ≡ ph
      own j e = ap (update s.phase i ph) e ∙ update_self s.phase i ph

      apart' :
          (j k p q : ℕ)
          → j ≢ k
          → Dec (j ≡ i)
          → Dec (k ≡ i)
          → owned (update s.phase i ph j) ≡ some p
          → owned (update s.phase i ph k) ≡ some q
          → p % m.capacity ≢ q % m.capacity
      apart' j k p q ne (yes ji) (yes ki) a b = absurd (ne (ji ∙ sym ki))
      apart' j k p q ne (yes ji) (no nk) a b = rw same (
          alone k p q nk (sym (ap owned (own j ji)) ∙ a)
            (sym (ap owned (update_ne s.phase i k ph nk)) ∙ b))
      apart' j k p q ne (no nj) (yes ki) a b = rw same (λ e.
          alone j q p nj (sym (ap owned (own k ki)) ∙ b)
            (sym (ap owned (update_ne s.phase i j ph nj)) ∙ a) (sym e))
      apart' j k p q ne (no nj) (no nk) a b = rw same (
          inv.apart j k p q ne (sym (ap owned (update_ne s.phase i j ph nj)) ∙ a)
            (sym (ap owned (update_ne s.phase i k ph nk)) ∙ b))
