-- ===== src/Container/MpmcQueue/Threads.antt =====
-- src/core/common/container/lock_free_mpmc_queue.hpp with any number of threads inside `push` and
-- `pop`. Each load, compare-exchange, store and construction of the code is a step of its own, and the
-- steps of the threads come in any order; memory is sequentially consistent. Positions are taken
-- before they wrap.
pub mod Invariant
pub mod Frame
pub mod Preserve
pub mod Claims
pub mod Safety
mod Tests
use v2_engine.Common.{ℕ, suc, ◌+◌, ◌%◌, ◌<◌, ◌≡◌, Option, none, some, update}

module _ (A : Type 0) where
  -- The members that the threads share.
  pub record Memory : Type 0 where
    pub sequence : ℕ → ℕ
    pub element : ℕ → Option A
    pub capacity : ℕ
    pub head : ℕ
    pub tail : ℕ

  -- Where a thread stands, with its `pos` and the element that it pushes: it has loaded the position,
  -- has seen a sequence that lets it go on, has won the compare-exchange, and has built or taken the
  -- element.
  pub data Phase : Type 0 where
    idle : Phase
    push_loaded push_ready push_claimed : ℕ → A → Phase
    push_built pop_loaded pop_ready pop_claimed pop_taken : ℕ → Phase

  pub record System : Type 0 where
    pub memory : Memory
    pub phase : ℕ → Phase
    -- What the push that claimed a position brings.
    pub pushed : ℕ → Option A

module _ {A : Type 0} where
  abbrev pub slot_of : Memory A → ℕ → ℕ
  slot_of m pos = pos % m.capacity

  -- One thread's next step, on the memory and on what has been pushed.
  pub data Move (m : Memory A) (h : ℕ → Option A)
      : Phase A → Memory A → (ℕ → Option A) → Phase A → Type 0 where
    push_start : (x : A) → Move m h idle m h (push_loaded m.tail x)
    push_level :
        {pos : ℕ} {x : A}
        → m.sequence (slot_of m pos) ≡ pos
        → Move m h (push_loaded pos x) m h (push_ready pos x)
    push_full :
        {pos : ℕ} {x : A} → m.sequence (slot_of m pos) < pos → Move m h (push_loaded pos x) m h idle
    push_again :
        {pos : ℕ} {x : A}
        → pos < m.sequence (slot_of m pos)
        → Move m h (push_loaded pos x) m h (push_loaded m.tail x)
    push_win :
        {pos : ℕ} {x : A}
        → m.tail ≡ pos
        → Move m h
            (push_ready pos x)
            (record m { tail = suc pos })
            (update h pos (some x))
            (push_claimed pos x)
    push_lose : {pos : ℕ} {x : A} → Move m h (push_ready pos x) m h (push_loaded m.tail x)
    push_build :
        {pos : ℕ} {x : A}
        → Move m h
            (push_claimed pos x)
            (record m { element = update m.element (slot_of m pos) (some x) })
            h
            (push_built pos)
    push_publish :
        {pos : ℕ}
        → Move m h
            (push_built pos)
            (record m { sequence = update m.sequence (slot_of m pos) (suc pos) })
            h
            idle
    pop_start : Move m h idle m h (pop_loaded m.head)
    pop_level :
        {pos : ℕ}
        → m.sequence (slot_of m pos) ≡ suc pos
        → Move m h (pop_loaded pos) m h (pop_ready pos)
    pop_empty :
        {pos : ℕ} → m.sequence (slot_of m pos) < suc pos → Move m h (pop_loaded pos) m h idle
    pop_again :
        {pos : ℕ}
        → suc pos < m.sequence (slot_of m pos)
        → Move m h (pop_loaded pos) m h (pop_loaded m.head)
    pop_win :
        {pos : ℕ}
        → m.head ≡ pos
        → Move m h (pop_ready pos) (record m { head = suc pos }) h (pop_claimed pos)
    pop_lose : {pos : ℕ} → Move m h (pop_ready pos) m h (pop_loaded m.head)
    pop_take :
        {pos : ℕ}
        → Move m h
            (pop_claimed pos)
            (record m { element = update m.element (slot_of m pos) none })
            h
            (pop_taken pos)
    pop_release :
        {pos : ℕ}
        → Move m h
            (pop_taken pos)
            (record m { sequence = update m.sequence (slot_of m pos) (pos + m.capacity) })
            h
            idle

  pub data Step (s : System A) : System A → Type 0 where
    turn :
        (i : ℕ) {m : Memory A} {h : ℕ → Option A} {p : Phase A}
        → Move s.memory s.pushed (s.phase i) m h p
        → Step s (record { memory = m; phase = update s.phase i p; pushed = h })

  -- The constructor's queue, with every thread outside.
  abbrev pub init : ℕ → System A
  init capacity = record {
    memory = record {
      sequence = λ i. i;
      element = λ i. none;
      capacity = capacity;
      head = 0;
      tail = 0;
    };
    phase = λ i. idle;
    pushed = λ pos. none;
  }

  pub data Reach (capacity : ℕ) : System A → Type 0 where
    start : Reach capacity (init capacity)
    later : {s t : System A} → Reach capacity s → Step s t → Reach capacity t
