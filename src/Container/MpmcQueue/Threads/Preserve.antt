-- ===== src/Container/MpmcQueue/Threads/Preserve.antt =====
-- What the queue's steps leave of the shared part of the invariant.
use v2_engine.Common.{
  ℕ, suc, ◌+◌, ◌≤◌, ◌<◌, ◌≡◌, ◌≢◌, ◌⊎◌, inl, inr, Option, some, update, update_self, update_ne,
  arith, sym, ap, ◌∙◌, subst,
}
use native.Mathlib.Decide.{ℕ_discrete}
use native.Mathlib.Nat.{add-mod_right}
use v2_engine.Container.MpmcQueue.Threads.{Memory, slot_of}
use v2_engine.Container.MpmcQueue.Threads.Invariant.{Writing, Reading, Shared, Round, same_slot}
use v2_engine.Container.MpmcQueue.Threads.Frame.{with_element, with_sequence}

module _ {A : Type 0} (m : Memory A) (h : ℕ → Option A) (sh : Shared m h) where
  open sh use {two, ordered, room, ring, live, content}

  pub tail_below : m.sequence (slot_of m m.tail) ≡ m.tail → m.tail < m.head + m.capacity
  tail_below free = elim (ℕ_discrete m.tail (m.head + m.capacity)) [
    | no ne ↦ omega (arith, ne, room)
    | yes e ↦
        let here : m.sequence (slot_of m m.head) ≡ m.tail =
          ap m.sequence (sym (ap (slot_of m) e ∙ add-mod_right m.head m.capacity)) ∙ free in
        elim (live m.head (omega arith) (omega (arith, e, two))) [
          | inl q ↦ absurd (omega (arith, here, q, e, two))
          | inr q ↦ absurd (omega (arith, here, q, e, two))
        ]
  ]

  pub Shared-tail :
      (x : A)
      → m.sequence (slot_of m m.tail) ≡ m.tail
      → Shared (record m { tail = suc m.tail }) (update h m.tail (some x))
  Shared-tail x free = record {
    two = two;
    ordered = omega (arith, ordered);
    room = omega (arith, tail_below free);
    ring = λ k low high. elim (ℕ_discrete k (m.tail + m.capacity)) [
      | yes e ↦
          let here : m.sequence (slot_of m k) ≡ m.tail =
            ap m.sequence (ap (slot_of m) e ∙ add-mod_right m.tail m.capacity) ∙ free in
          inr (inl (omega (arith, here, e)))
      | no ne ↦ ring k (omega (arith, low)) (omega (arith, high, ne))
    ];
    live = λ p low high. elim (ℕ_discrete p m.tail) [
      | yes e ↦ inl (subst (λ k. m.sequence (slot_of m k) ≡ k) (sym e) free)
      | no ne ↦ live p low (omega (arith, high, ne))
    ];
    content = λ p low high full. elim (ℕ_discrete p m.tail) [
      | yes e ↦
          let both : suc p ≡ p =
            sym full ∙ subst (λ k. m.sequence (slot_of m k) ≡ k) (sym e) free in
          absurd (omega (arith, both))
      | no ne ↦
          content p low (omega (arith, high, ne)) full ∙ sym (update_ne h m.tail p (some x) ne)
    ];
  }

  pub head_below : m.sequence (slot_of m m.head) ≡ suc m.head → m.head < m.tail
  head_below full = elim (ℕ_discrete m.head m.tail) [
    | no ne ↦ omega (arith, ne, ordered)
    | yes e ↦
        let here : m.sequence (slot_of m m.tail) ≡ suc m.tail =
          subst (λ k. m.sequence (slot_of m k) ≡ suc k) e full in
        elim (ring m.tail (omega arith) (omega (arith, two))) [
          | inl q ↦ absurd (omega (arith, here, q))
          | inr (inl q) ↦ absurd (omega (arith, here, q))
          | inr (inr q) ↦ absurd (omega (arith, here, q, two))
        ]
  ]

  pub Shared-head :
      m.sequence (slot_of m m.head) ≡ suc m.head → Shared (record m { head = suc m.head }) h
  Shared-head full = record {
    two = two;
    ordered = omega (arith, head_below full);
    room = omega (arith, room);
    ring = ring;
    live = λ p low. live p (omega (arith, low));
    content = λ p low. content p (omega (arith, low));
  }

  -- No published position between head and tail shares the slot.
  abbrev pub Unread : ℕ → Type 0
  Unread pos =
      (p : ℕ)
      → m.head ≤ p
      → p < m.tail
      → m.sequence (slot_of m p) ≡ suc p
      → slot_of m p ≢ slot_of m pos

  pub Writing-Unread : {pos : ℕ} → Writing m pos → Unread pos
  Writing-Unread {pos} w p low high full e =
      let same : p ≡ pos =
        same_slot p pos m.capacity e (omega (arith, high, room, w.low))
          (omega (arith, w.high, room, low)) in
      let both : suc p ≡ pos = sym full ∙ ap m.sequence e ∙ w.at in
      absurd (omega (arith, same, both))

  pub Reading-other :
      {pos : ℕ} → Reading m pos → (p : ℕ) → m.head ≤ p → p < m.tail → slot_of m p ≢ slot_of m pos
  Reading-other {pos} r p low high e =
      let same : p ≡ pos =
        same_slot p pos m.capacity e (omega (arith, high, r.low)) (omega (arith, r.high, low)) in
      absurd (omega (arith, same, r.high, low))

  pub Shared-element : (pos : ℕ) (e : Option A) → Unread pos → Shared (with_element m pos e) h
  Shared-element pos e unread = record {
    two = two;
    ordered = ordered;
    room = room;
    ring = ring;
    live = live;
    content = λ p low high full.
        update_ne m.element (slot_of m pos) (slot_of m p) e (unread p low high full)
        ∙ content p low high full;
  }

  here :
      (pos v k : ℕ)
      → slot_of m k ≡ slot_of m pos
      → update m.sequence (slot_of m pos) v (slot_of m k) ≡ v
  here pos v k e =
      ap (update m.sequence (slot_of m pos) v) e ∙ update_self m.sequence (slot_of m pos) v

  there :
      (pos v k : ℕ)
      → slot_of m k ≢ slot_of m pos
      → update m.sequence (slot_of m pos) v (slot_of m k) ≡ m.sequence (slot_of m k)
  there pos v k ne = update_ne m.sequence (slot_of m pos) (slot_of m k) v ne

  -- One slot back round the ring is another slot.
  pub not_next : (pos : ℕ) → slot_of m pos ≢ slot_of m (suc pos)
  not_next pos e =
      absurd
        (omega (arith, same_slot pos (suc pos) m.capacity e (omega arith) (omega (arith, two))))

  publish-Round :
      (pos k s : ℕ)
      → Writing m pos
      → m.tail ≤ k
      → slot_of m k ≡ slot_of m pos
      → s ≡ pos
      → Round m.capacity s k
      → Round m.capacity (suc pos) k
  publish-Round pos k s w low e at (inl q) = absurd (omega (arith, at, q, w.high, low))
  publish-Round pos k s w low e at (inr (inl q)) = inr (inr (omega (arith, at, q)))
  publish-Round pos k s w low e at (inr (inr q)) =
      let wrapped : slot_of m (suc k) ≡ slot_of m pos =
        ap (slot_of m) {x = suc k} {y = pos + m.capacity} (omega (arith, at, q))
        ∙ add-mod_right pos m.capacity in
      absurd (not_next k (e ∙ sym wrapped))

  pub Shared-publish :
      (pos : ℕ)
      → Writing m pos
      → m.element (slot_of m pos) ≡ h pos
      → Shared (with_sequence m pos (suc pos)) h
  Shared-publish pos w built = record {
    two = two;
    ordered = ordered;
    room = room;
    ring = λ k low high. elim (ℕ_discrete (slot_of m k) (slot_of m pos)) [
      | yes e ↦
          subst (λ s. Round m.capacity s k) (sym (here pos (suc pos) k e))
            (publish-Round pos k (m.sequence (slot_of m k)) w low e (ap m.sequence e ∙ w.at)
              (ring k low high))
      | no ne ↦ subst (λ s. Round m.capacity s k) (sym (there pos (suc pos) k ne)) (ring k low high)
    ];
    live = λ p low high. elim (ℕ_discrete (slot_of m p) (slot_of m pos)) [
      | yes e ↦ inr (here pos (suc pos) p e ∙ ap suc (sym (position p low high e)))
      | no ne ↦
          subst (λ s. (s ≡ p) ⊎ (s ≡ suc p)) (sym (there pos (suc pos) p ne)) (live p low high)
    ];
    content = λ p low high full. elim (ℕ_discrete (slot_of m p) (slot_of m pos)) [
      | yes e ↦ ap m.element e ∙ built ∙ ap h (sym (position p low high e))
      | no ne ↦ content p low high (sym (there pos (suc pos) p ne) ∙ full)
    ];
  }
    where
      position : (p : ℕ) → m.head ≤ p → p < m.tail → slot_of m p ≡ slot_of m pos → p ≡ pos
      position p low high e =
          same_slot p pos m.capacity e (omega (arith, high, room, w.low))
            (omega (arith, w.high, room, low))

  release-Round :
      (pos k s : ℕ)
      → slot_of m k ≡ slot_of m pos
      → s ≡ suc pos
      → Round m.capacity s k
      → Round m.capacity (pos + m.capacity) k
  release-Round pos k s e at (inl q) =
      absurd (not_next pos (sym e ∙ ap (slot_of m) {x = k} {y = suc pos} (omega (arith, at, q))))
  release-Round pos k s e at (inr (inl q)) =
      let wrapped : slot_of m k ≡ slot_of m (suc pos) =
        ap (slot_of m) {x = k} {y = suc pos + m.capacity} (omega (arith, at, q))
        ∙ add-mod_right (suc pos) m.capacity in
      absurd (not_next pos (sym e ∙ wrapped))
  release-Round pos k s e at (inr (inr q)) = inl (omega (arith, at, q))

  pub Shared-release : (pos : ℕ) → Reading m pos → Shared (with_sequence m pos (pos + m.capacity)) h
  Shared-release pos r = record {
    two = two;
    ordered = ordered;
    room = room;
    ring = λ k low high. elim (ℕ_discrete (slot_of m k) (slot_of m pos)) [
      | yes e ↦
          subst (λ s. Round m.capacity s k) (sym (here pos (pos + m.capacity) k e))
            (release-Round pos k (m.sequence (slot_of m k)) e (ap m.sequence e ∙ r.at)
              (ring k low high))
      | no ne ↦
          subst (λ s. Round m.capacity s k) (sym (there pos (pos + m.capacity) k ne))
            (ring k low high)
    ];
    live = λ p low high.
        subst (λ s. (s ≡ p) ⊎ (s ≡ suc p))
          (sym (there pos (pos + m.capacity) p (Reading-other r p low high))) (live p low high);
    content = λ p low high full.
        content p low high
          (sym (there pos (pos + m.capacity) p (Reading-other r p low high)) ∙ full);
  }
