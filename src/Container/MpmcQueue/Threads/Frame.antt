-- ===== src/Container/MpmcQueue/Threads/Frame.antt =====
-- What a thread knows outlives the other threads' steps.
use v2_engine.Common.{
  ℕ, suc, ◌+◌, ◌%◌, ◌≤◌, ◌≡◌, ◌≢◌, Option, some, update, update_ne, arith, refl, sym, ap, ◌∙◌,
  subst,
}
use native.Mathlib.Decide.{ℕ_discrete}
use native.Mathlib.Nat.{add-mod_right}
use v2_engine.Container.MpmcQueue.Threads.{
  Memory, Phase, idle, push_loaded, push_ready, push_claimed, push_built, pop_loaded, pop_ready,
  pop_claimed, pop_taken, slot_of,
}
use v2_engine.Container.MpmcQueue.Threads.Invariant.{owned, Writing, Reading, Knows}

module _ {A : Type 0} (m : Memory A) where
  -- No slot that the thread owns is the slot of `pos`.
  abbrev pub Clear : ℕ → Phase A → Type 0
  Clear pos ph = (q : ℕ) → owned ph ≡ some q → slot_of m pos ≢ slot_of m q

  -- A push claims the tail.
  Writing-tail : {q : ℕ} → Writing m q → Writing (record m { tail = suc m.tail }) q
  Writing-tail w = record { low = w.low; high = omega (arith, w.high); at = w.at }

  Reading-tail :
      {q : ℕ}
      → 2 ≤ m.capacity
      → m.sequence (slot_of m m.tail) ≡ m.tail
      → Reading m q
      → Reading (record m { tail = suc m.tail }) q
  Reading-tail {q} two free r = record {
    low = elim (ℕ_discrete m.tail (q + m.capacity)) [
      | no ne ↦ omega (arith, ne, r.low)
      | yes e ↦
          let here : slot_of m m.tail ≡ slot_of m q =
            ap (λ k. k % m.capacity) e ∙ add-mod_right q m.capacity in
          let both : m.tail ≡ suc q = sym free ∙ ap m.sequence here ∙ r.at in
          absurd (omega (arith, both, e, two))
    ];
    high = r.high;
    at = r.at;
  }

  pub Knows-tail :
      (h : ℕ → Option A) (x : A) (ph : Phase A)
      → 2 ≤ m.capacity
      → m.head ≤ m.tail
      → m.sequence (slot_of m m.tail) ≡ m.tail
      → Knows m h ph
      → Knows (record m { tail = suc m.tail }) (update h m.tail (some x)) ph
  Knows-tail h x idle two ordered free k = tt
  Knows-tail h x (push_loaded q y) two ordered free k = omega (arith, k)
  Knows-tail h x (push_ready q y) two ordered free k =
      (omega (arith, k.0), λ e. absurd (omega (arith, e, k.0)))
  Knows-tail h x (push_claimed q y) two ordered free (w, e) =
      (Writing-tail w, update_ne h m.tail q (some x) (λ t. omega (arith, t, w.high)) ∙ e)
  Knows-tail h x (push_built q) two ordered free (w, e) =
      (Writing-tail w, e ∙ sym (update_ne h m.tail q (some x) (λ t. omega (arith, t, w.high))))
  Knows-tail h x (pop_loaded q) two ordered free k = k
  Knows-tail h x (pop_ready q) two ordered free k = k
  Knows-tail h x (pop_claimed q) two ordered free (r, e) = (
    Reading-tail two free r,
    e ∙ sym (update_ne h m.tail q (some x) (λ t. omega (arith, t, r.high, ordered))),
  )
  Knows-tail h x (pop_taken q) two ordered free r = Reading-tail two free r

  -- A pop claims the head.
  Writing-head :
      {q : ℕ}
      → m.sequence (slot_of m m.head) ≡ suc m.head
      → Writing m q
      → Writing (record m { head = suc m.head }) q
  Writing-head {q} full w = record {
    low = elim (ℕ_discrete m.head q) [
      | no ne ↦ omega (arith, ne, w.low)
      | yes e ↦
          let both : suc m.head ≡ q = sym full ∙ ap (λ k. m.sequence (slot_of m k)) e ∙ w.at in
          absurd (omega (arith, both, e))
    ];
    high = w.high;
    at = w.at;
  }

  Reading-head : {q : ℕ} → Reading m q → Reading (record m { head = suc m.head }) q
  Reading-head r = record { low = r.low; high = omega (arith, r.high); at = r.at }

  pub Knows-head :
      (h : ℕ → Option A) (ph : Phase A)
      → m.sequence (slot_of m m.head) ≡ suc m.head
      → Knows m h ph
      → Knows (record m { head = suc m.head }) h ph
  Knows-head h idle full k = tt
  Knows-head h (push_loaded q y) full k = k
  Knows-head h (push_ready q y) full k = k
  Knows-head h (push_claimed q y) full (w, e) = (Writing-head full w, e)
  Knows-head h (push_built q) full (w, e) = (Writing-head full w, e)
  Knows-head h (pop_loaded q) full k = omega (arith, k)
  Knows-head h (pop_ready q) full k = (omega (arith, k.0), λ e. absurd (omega (arith, e, k.0)))
  Knows-head h (pop_claimed q) full (r, e) = (Reading-head r, e)
  Knows-head h (pop_taken q) full r = Reading-head r

  -- An element is built or taken in a slot that the thread does not own.
  abbrev pub with_element : ℕ → Option A → Memory A
  with_element pos e = record m { element = update m.element (slot_of m pos) e }

  element-same :
      (pos q : ℕ) (e : Option A)
      → slot_of m pos ≢ slot_of m q
      → update m.element (slot_of m pos) e (slot_of m q) ≡ m.element (slot_of m q)
  element-same pos q e ne = update_ne m.element (slot_of m pos) (slot_of m q) e (λ t. ne (sym t))

  Writing-element : {q : ℕ} (pos : ℕ) (e : Option A) → Writing m q → Writing (with_element pos e) q
  Writing-element pos e w = record { low = w.low; high = w.high; at = w.at }

  Reading-element : {q : ℕ} (pos : ℕ) (e : Option A) → Reading m q → Reading (with_element pos e) q
  Reading-element pos e r = record { low = r.low; high = r.high; at = r.at }

  pub Knows-element :
      (h : ℕ → Option A) (pos : ℕ) (e : Option A) (ph : Phase A)
      → Clear pos ph
      → Knows m h ph
      → Knows (with_element pos e) h ph
  Knows-element h pos e idle clear k = tt
  Knows-element h pos e (push_loaded q y) clear k = k
  Knows-element h pos e (push_ready q y) clear k = k
  Knows-element h pos e (push_claimed q y) clear (w, t) = (Writing-element pos e w, t)
  Knows-element h pos e (push_built q) clear (w, t) =
      (Writing-element pos e w, element-same pos q e (clear q refl) ∙ t)
  Knows-element h pos e (pop_loaded q) clear k = k
  Knows-element h pos e (pop_ready q) clear k = k
  Knows-element h pos e (pop_claimed q) clear (r, t) =
      (Reading-element pos e r, element-same pos q e (clear q refl) ∙ t)
  Knows-element h pos e (pop_taken q) clear r = Reading-element pos e r

  -- A sequence is stored in a slot that the thread does not own, and that is neither a free tail nor a
  -- full head.
  abbrev pub with_sequence : ℕ → ℕ → Memory A
  with_sequence pos v = record m { sequence = update m.sequence (slot_of m pos) v }

  pub sequence-same :
      (pos q v : ℕ)
      → slot_of m pos ≢ slot_of m q
      → update m.sequence (slot_of m pos) v (slot_of m q) ≡ m.sequence (slot_of m q)
  sequence-same pos q v ne = update_ne m.sequence (slot_of m pos) (slot_of m q) v (λ t. ne (sym t))

  Writing-sequence :
      {q : ℕ} (pos v : ℕ)
      → slot_of m pos ≢ slot_of m q
      → Writing m q
      → Writing (with_sequence pos v) q
  Writing-sequence {q} pos v ne w = record {
    low = w.low;
    high = w.high;
    at = sequence-same pos q v ne ∙ w.at;
  }

  Reading-sequence :
      {q : ℕ} (pos v : ℕ)
      → slot_of m pos ≢ slot_of m q
      → Reading m q
      → Reading (with_sequence pos v) q
  Reading-sequence {q} pos v ne r = record {
    low = r.low;
    high = r.high;
    at = sequence-same pos q v ne ∙ r.at;
  }

  pub Knows-sequence :
      (h : ℕ → Option A) (pos v : ℕ) (ph : Phase A)
      → (m.sequence (slot_of m m.tail) ≡ m.tail → slot_of m pos ≢ slot_of m m.tail)
      → (m.sequence (slot_of m m.head) ≡ suc m.head → slot_of m pos ≢ slot_of m m.head)
      → Clear pos ph
      → Knows m h ph
      → Knows (with_sequence pos v) h ph
  Knows-sequence h pos v idle free full clear k = tt
  Knows-sequence h pos v (push_loaded q y) free full clear k = k
  Knows-sequence h pos v (push_ready q y) free full clear (low, at) = (
    low,
    λ e.
        let seen : m.sequence (slot_of m m.tail) ≡ m.tail =
          subst (λ t. m.sequence (slot_of m t) ≡ t) e (at e) in
        sequence-same pos q v (λ t. free seen (t ∙ ap (slot_of m) e)) ∙ at e,
  )
  Knows-sequence h pos v (push_claimed q y) free full clear (w, t) =
      (Writing-sequence pos v (clear q refl) w, t)
  Knows-sequence h pos v (push_built q) free full clear (w, t) =
      (Writing-sequence pos v (clear q refl) w, t)
  Knows-sequence h pos v (pop_loaded q) free full clear k = k
  Knows-sequence h pos v (pop_ready q) free full clear (low, at) = (
    low,
    λ e.
        let seen : m.sequence (slot_of m m.head) ≡ suc m.head =
          subst (λ t. m.sequence (slot_of m t) ≡ suc t) e (at e) in
        sequence-same pos q v (λ t. full seen (t ∙ ap (slot_of m) e)) ∙ at e,
  )
  Knows-sequence h pos v (pop_claimed q) free full clear (r, t) =
      (Reading-sequence pos v (clear q refl) r, t)
  Knows-sequence h pos v (pop_taken q) free full clear r = Reading-sequence pos v (clear q refl) r
