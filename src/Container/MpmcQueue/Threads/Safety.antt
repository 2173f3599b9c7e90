-- ===== src/Container/MpmcQueue/Threads/Safety.antt =====
-- The invariant holds however the threads' steps are interleaved, and what follows from it.
use v2_engine.Common.{
  ℕ, suc, ◌+◌, ◌%◌, ◌≤◌, ◌≡◌, ◌≢◌, Option, none, some, update, update_self, arith, refl, sym, ap,
  ◌∙◌, subst,
}
use v2_engine.Container.MpmcQueue.Threads.{
  Memory, Phase, idle, push_claimed, push_built, pop_claimed, pop_taken, System, slot_of, Move,
  Step, Reach, push_start, push_level, push_full, push_again, push_win, push_lose, push_build,
  push_publish, pop_start, pop_level, pop_empty, pop_again, pop_win, pop_lose, pop_take,
  pop_release, turn, start, later,
}
use v2_engine.Container.MpmcQueue.Threads.Invariant.{owned, Knows, Inv, init-Inv, install}
use v2_engine.Container.MpmcQueue.Threads.Frame.{
  Clear, Knows-tail, Knows-head, Knows-element, Knows-sequence,
}
use v2_engine.Container.MpmcQueue.Threads.Preserve.{
  Shared-tail, Shared-head, Shared-element, Shared-publish, Shared-release, Writing-Unread,
  Reading-other, head_below,
}
use v2_engine.Container.MpmcQueue.Threads.Claims.{
  tail-Clear, head-Clear, Writing-tail_free, Writing-head_full, Reading-tail_free,
  Reading-head_full, carry,
}

module _ {A : Type 0} (s : System A) (inv : Inv s) (i : ℕ) where
  -- A thread that owns no slot afterwards and leaves the memory alone.
  quiet :
      (p : Phase A)
      → owned p ≡ none
      → Knows s.memory s.pushed p
      → Inv (record { memory = s.memory; phase = update s.phase i p; pushed = s.pushed })
  quiet p out k = install s i p refl inv.shared k (λ j ne. inv.knows j) (λ j a b ne e f. cc) inv

  others-Clear :
      {pos : ℕ} → owned (s.phase i) ≡ some pos → (j : ℕ) → j ≢ i → Clear s.memory pos (s.phase j)
  others-Clear {pos} mine j ne q o = inv.apart i j pos q (λ t. ne (sym t)) mine o

  -- A thread's slot stays apart while it goes on owning it.
  still :
      {pos : ℕ} (p : Phase A)
      → owned (s.phase i) ≡ some pos
      → owned p ≡ some pos
      → (j a b : ℕ) → j ≢ i
      → owned p ≡ some a
      → owned (s.phase j) ≡ some b
      → a % s.memory.capacity ≢ b % s.memory.capacity
  still p mine now j a b ne e f = inv.apart i j a b (λ t. ne (sym t)) (mine ∙ sym now ∙ e) f

  claim_tail :
      (x : A)
      → s.memory.sequence (slot_of s.memory s.memory.tail) ≡ s.memory.tail
      → Inv (record {
        memory = record s.memory { tail = suc s.memory.tail };
        phase = update s.phase i (push_claimed s.memory.tail x);
        pushed = update s.pushed s.memory.tail (some x);
      })
  claim_tail x free =
      install s i (push_claimed s.memory.tail x) refl
        (Shared-tail s.memory s.pushed inv.shared x free)
        (
          record { low = inv.shared.ordered; high = omega arith; at = free },
          update_self s.pushed s.memory.tail (some x),
        )
        (λ j ne.
          Knows-tail s.memory s.pushed x (s.phase j) inv.shared.two inv.shared.ordered free
            (inv.knows j))
        (λ j a b ne e.
          carry (λ t. owned (s.phase j) ≡ some b → t % s.memory.capacity ≢ b % s.memory.capacity) e
            (tail-Clear s.memory s.pushed inv.shared (s.phase j) free (inv.knows j) b))
        inv

  claim_head :
      s.memory.sequence (slot_of s.memory s.memory.head) ≡ suc s.memory.head
      → Inv (record {
        memory = record s.memory { head = suc s.memory.head };
        phase = update s.phase i (pop_claimed s.memory.head);
        pushed = s.pushed;
      })
  claim_head full =
      let below = head_below s.memory s.pushed inv.shared full in
      install s i (pop_claimed s.memory.head) refl (Shared-head s.memory s.pushed inv.shared full)
        (
          record { low = inv.shared.room; high = omega arith; at = full },
          inv.shared.content s.memory.head (omega arith) below full,
        )
        (λ j ne. Knows-head s.memory s.pushed (s.phase j) full (inv.knows j))
        (λ j a b ne e.
          carry (λ t. owned (s.phase j) ≡ some b → t % s.memory.capacity ≢ b % s.memory.capacity) e
            (head-Clear s.memory s.pushed inv.shared (s.phase j) full (inv.knows j) b))
        inv

  Move-Inv :
      {ph p : Phase A} {m : Memory A} {h : ℕ → Option A}
      → s.phase i ≡ ph
      → Knows s.memory s.pushed ph
      → Move s.memory s.pushed ph m h p
      → Inv (record { memory = m; phase = update s.phase i p; pushed = h })
  Move-Inv at k (push_start x) = quiet _ refl (omega arith)
  Move-Inv at k (push_level seen) = quiet _ refl (k, λ t. seen)
  Move-Inv at k (push_full low) = quiet _ refl tt
  Move-Inv at k (push_again high) = quiet _ refl (omega arith)
  Move-Inv at k (push_win {pos} {x} e) =
      subst
        (λ q. Inv (record {
          memory = record s.memory { tail = suc q };
          phase = update s.phase i (push_claimed q x);
          pushed = update s.pushed q (some x);
        }))
        e
        (claim_tail x
          (subst (λ q. s.memory.sequence (slot_of s.memory q) ≡ q) (sym e) (k.1 (sym e))))
  Move-Inv at k push_lose = quiet _ refl (omega arith)
  Move-Inv at k (push_build {pos} {x}) =
      install s i (push_built pos) refl
        (Shared-element s.memory s.pushed inv.shared pos (some x)
          (Writing-Unread s.memory s.pushed inv.shared k.0))
        (
          record { low = k.0.low; high = k.0.high; at = k.0.at },
          update_self s.memory.element (slot_of s.memory pos) (some x) ∙ sym k.1,
        )
        (λ j ne.
          Knows-element s.memory s.pushed pos (some x) (s.phase j) (others-Clear (ap owned at) j ne)
            (inv.knows j))
        (still (push_built pos) (ap owned at) refl) inv
  Move-Inv at k (push_publish {pos}) =
      install s i idle refl (Shared-publish s.memory s.pushed inv.shared pos k.0 k.1) tt
        (λ j ne.
          Knows-sequence s.memory s.pushed pos (suc pos) (s.phase j)
            (Writing-tail_free s.memory s.pushed inv.shared k.0)
            (Writing-head_full s.memory s.pushed inv.shared k.0) (others-Clear (ap owned at) j ne)
            (inv.knows j))
        (λ j a b ne e f. cc) inv
  Move-Inv at k pop_start = quiet _ refl (omega arith)
  Move-Inv at k (pop_level seen) = quiet _ refl (k, λ t. seen)
  Move-Inv at k (pop_empty low) = quiet _ refl tt
  Move-Inv at k (pop_again high) = quiet _ refl (omega arith)
  Move-Inv at k (pop_win {pos} e) =
      subst
        (λ q. Inv (record {
          memory = record s.memory { head = suc q };
          phase = update s.phase i (pop_claimed q);
          pushed = s.pushed;
        }))
        e
        (claim_head
          (subst (λ q. s.memory.sequence (slot_of s.memory q) ≡ suc q) (sym e) (k.1 (sym e))))
  Move-Inv at k pop_lose = quiet _ refl (omega arith)
  Move-Inv at k (pop_take {pos}) =
      install s i (pop_taken pos) refl
        (Shared-element s.memory s.pushed inv.shared pos none
          (λ p low high full. Reading-other s.memory s.pushed inv.shared k.0 p low high))
        (record { low = k.0.low; high = k.0.high; at = k.0.at })
        (λ j ne.
          Knows-element s.memory s.pushed pos none (s.phase j) (others-Clear (ap owned at) j ne)
            (inv.knows j))
        (still (pop_taken pos) (ap owned at) refl) inv
  Move-Inv at k (pop_release {pos}) =
      install s i idle refl (Shared-release s.memory s.pushed inv.shared pos k) tt
        (λ j ne.
          Knows-sequence s.memory s.pushed pos (pos + s.memory.capacity) (s.phase j)
            (Reading-tail_free s.memory s.pushed inv.shared k)
            (Reading-head_full s.memory s.pushed inv.shared k) (others-Clear (ap owned at) j ne)
            (inv.knows j))
        (λ j a b ne e f. cc) inv

module _ {A : Type 0} where
  Step-Inv : {s t : System A} → Inv s → Step s t → Inv t
  Step-Inv {s} inv (turn i move) = Move-Inv s inv i refl (inv.knows i) move

  pub Reach-Inv : (capacity : ℕ) {s : System A} → 2 ≤ capacity → Reach capacity s → Inv s
  Reach-Inv capacity two start = init-Inv capacity two
  Reach-Inv capacity two (later before step) = Step-Inv (Reach-Inv capacity two before) step

  Move-capacity :
      {m m' : Memory A} {h h' : ℕ → Option A} {p p' : Phase A}
      → Move m h p m' h' p'
      → m'.capacity ≡ m.capacity
  Move-capacity (push_start x) = refl
  Move-capacity (push_level seen) = refl
  Move-capacity (push_full low) = refl
  Move-capacity (push_again high) = refl
  Move-capacity (push_win e) = refl
  Move-capacity push_lose = refl
  Move-capacity push_build = refl
  Move-capacity push_publish = refl
  Move-capacity pop_start = refl
  Move-capacity (pop_level seen) = refl
  Move-capacity (pop_empty low) = refl
  Move-capacity (pop_again high) = refl
  Move-capacity (pop_win e) = refl
  Move-capacity pop_lose = refl
  Move-capacity pop_take = refl
  Move-capacity pop_release = refl

  Step-capacity : {s t : System A} → Step s t → t.memory.capacity ≡ s.memory.capacity
  Step-capacity (turn i move) = Move-capacity move

  Reach-capacity : (capacity : ℕ) {s : System A} → Reach capacity s → s.memory.capacity ≡ capacity
  Reach-capacity capacity start = refl
  Reach-capacity capacity (later before step) = Step-capacity step ∙ Reach-capacity capacity before

  -- However the threads' loads, compare-exchanges, constructions and stores are interleaved on a queue
  -- of at least two slots, two different threads never own the same slot: no slot is built by two
  -- pushes at once, taken by two pops at once, or built while it is taken.
  pub slots_exclusive :
      (capacity : ℕ) {s : System A}
      → 2 ≤ capacity
      → Reach capacity s
      → (i j p q : ℕ) → i ≢ j
      → owned (s.phase i) ≡ some p
      → owned (s.phase j) ≡ some q
      → p % capacity ≢ q % capacity
  slots_exclusive capacity {s} two reach i j p q ne a b =
      subst (λ c. p % c ≢ q % c) (Reach-capacity capacity reach)
        ((Reach-Inv capacity two reach).apart i j p q ne a b)

  -- Between any two steps of any threads on a queue of at least two slots, the head has not passed the tail, and the tail is at most
  -- one round ahead of the head.
  pub positions_ordered :
      (capacity : ℕ) {s : System A}
      → 2 ≤ capacity
      → Reach capacity s
      → (s.memory.head ≤ s.memory.tail) × (s.memory.tail ≤ s.memory.head + capacity)
  positions_ordered capacity {s} two reach =
      let inv = Reach-Inv capacity two reach in
      (inv.shared.ordered, omega (arith, inv.shared.room, Reach-capacity capacity reach))

  -- On a queue of at least two slots, a pop that has claimed a position finds in its slot the element of the push that claimed that
  -- position, whole, so that pops receive the elements in the order in which the pushes claimed their
  -- positions.
  pub claimed-pushed :
      (capacity : ℕ) {s : System A}
      → 2 ≤ capacity
      → Reach capacity s
      → (i pos : ℕ) → s.phase i ≡ pop_claimed pos
      → s.memory.element (slot_of s.memory pos) ≡ s.pushed pos
  claimed-pushed capacity {s} two reach i pos at =
      (subst (Knows s.memory s.pushed) at ((Reach-Inv capacity two reach).knows i)).1
