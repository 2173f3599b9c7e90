-- ===== src/Container/MpmcQueue/Threads/Claims.antt =====
-- What a thread claims is owned by no other thread.
use v2_engine.Common.{ℕ, suc, ◌≡◌, ◌≢◌, Option, some, arith, sym, ap, ◌∙◌, subst}
use v2_engine.Container.MpmcQueue.Threads.{
  Memory, Phase, push_claimed, push_built, pop_claimed, pop_taken, slot_of,
}
use v2_engine.Container.MpmcQueue.Threads.Invariant.{Writing, Reading, Knows, Shared}
use v2_engine.Container.MpmcQueue.Threads.Frame.{Clear}
use v2_engine.Container.MpmcQueue.Threads.Preserve.{not_next}

pub carry : {p q : ℕ} (P : ℕ → Type 0) → some q ≡ some p → P q → P p
carry {p} {q} P e = let same : q ≡ p = cc in subst P same

module _ {A : Type 0} (m : Memory A) (h : ℕ → Option A) (sh : Shared m h) where
  tail-Writing :
      {q : ℕ}
      → m.sequence (slot_of m m.tail) ≡ m.tail
      → Writing m q
      → slot_of m m.tail ≢ slot_of m q
  tail-Writing free w e =
      let both : m.tail ≡ _ = sym free ∙ ap m.sequence e ∙ w.at in omega (arith, both, w.high)

  tail-Reading :
      {q : ℕ}
      → m.sequence (slot_of m m.tail) ≡ m.tail
      → Reading m q
      → slot_of m m.tail ≢ slot_of m q
  tail-Reading {q} free r e =
      let both : m.tail ≡ suc q = sym free ∙ ap m.sequence e ∙ r.at in
      not_next m h sh q (sym e ∙ ap (slot_of m) both)

  -- A push that finds the tail's slot free.
  pub tail-Clear :
      (ph : Phase A) → m.sequence (slot_of m m.tail) ≡ m.tail → Knows m h ph → Clear m m.tail ph
  tail-Clear (push_claimed q x) free k p o =
      carry (λ t. slot_of m m.tail ≢ slot_of m t) o (tail-Writing free k.0)
  tail-Clear (push_built q) free k p o =
      carry (λ t. slot_of m m.tail ≢ slot_of m t) o (tail-Writing free k.0)
  tail-Clear (pop_claimed q) free k p o =
      carry (λ t. slot_of m m.tail ≢ slot_of m t) o (tail-Reading free k.0)
  tail-Clear (pop_taken q) free k p o =
      carry (λ t. slot_of m m.tail ≢ slot_of m t) o (tail-Reading free k)
  tail-Clear _ free k p o = cc

  head-Writing :
      {q : ℕ}
      → m.sequence (slot_of m m.head) ≡ suc m.head
      → Writing m q
      → slot_of m m.head ≢ slot_of m q
  head-Writing {q} full w e =
      let both : suc m.head ≡ q = sym full ∙ ap m.sequence e ∙ w.at in
      not_next m h sh m.head (e ∙ ap (slot_of m) (sym both))

  head-Reading :
      {q : ℕ}
      → m.sequence (slot_of m m.head) ≡ suc m.head
      → Reading m q
      → slot_of m m.head ≢ slot_of m q
  head-Reading {q} full r e =
      let both : suc m.head ≡ suc q = sym full ∙ ap m.sequence e ∙ r.at in
      omega (arith, both, r.high)

  -- A pop that finds the head's slot full.
  pub head-Clear :
      (ph : Phase A) → m.sequence (slot_of m m.head) ≡ suc m.head → Knows m h ph → Clear m m.head ph
  head-Clear (push_claimed q x) full k p o =
      carry (λ t. slot_of m m.head ≢ slot_of m t) o (head-Writing full k.0)
  head-Clear (push_built q) full k p o =
      carry (λ t. slot_of m m.head ≢ slot_of m t) o (head-Writing full k.0)
  head-Clear (pop_claimed q) full k p o =
      carry (λ t. slot_of m m.head ≢ slot_of m t) o (head-Reading full k.0)
  head-Clear (pop_taken q) full k p o =
      carry (λ t. slot_of m m.head ≢ slot_of m t) o (head-Reading full k)
  head-Clear _ full k p o = cc

  -- A written slot is neither a free tail's nor a full head's, and so is a read one.
  pub Writing-tail_free :
      {pos : ℕ}
      → Writing m pos
      → m.sequence (slot_of m m.tail) ≡ m.tail
      → slot_of m pos ≢ slot_of m m.tail
  Writing-tail_free w free e = tail-Writing free w (sym e)

  pub Writing-head_full :
      {pos : ℕ}
      → Writing m pos
      → m.sequence (slot_of m m.head) ≡ suc m.head
      → slot_of m pos ≢ slot_of m m.head
  Writing-head_full w full e = head-Writing full w (sym e)

  pub Reading-tail_free :
      {pos : ℕ}
      → Reading m pos
      → m.sequence (slot_of m m.tail) ≡ m.tail
      → slot_of m pos ≢ slot_of m m.tail
  Reading-tail_free r free e = tail-Reading free r (sym e)

  pub Reading-head_full :
      {pos : ℕ}
      → Reading m pos
      → m.sequence (slot_of m m.head) ≡ suc m.head
      → slot_of m pos ≢ slot_of m m.head
  Reading-head_full r full e = head-Reading full r (sym e)
