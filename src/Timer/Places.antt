-- ===== src/Timer/Places.antt =====
-- Where the places of the pool of timer_base.cpp are: in the heap, in the free list, or cancelled.
use v2_engine.Common.{
  ℕ, ◌+◌, ◌≤◌, ◌≡◌, ◌≢◌, inl, inr, Bool, true, false, some, List, [], ◌∷◌, arith, refl, ◌==◌, ltb,
  if◌then◌else◌, update, ap, Bool-cases, Option-cases, List-cases,
}
use v2_engine.Common.Maps.{lookup, nat_key}
use v2_engine.Timer.{
  TimerNode, fresh_node, TimerBase, alloc_node, free_node, heap_push, add, purge, cancel, clear,
}
use v2_engine.Timer.Due.{Later, Sorted, Apart, Distinct, update-Sorted}

pub count : ℕ → List ℕ → ℕ
count i [] = 0
count i (j ∷ js) = (if j == i then 1 else 0) + count i js

count-Apart : (i : ℕ) (is : List ℕ) → count i is ≡ 0 → Apart i is
unfolding count Apart
count-Apart i [] h = tt
count-Apart i (j ∷ js) h =
    let other : j ≢ i = ground arith in (other, count-Apart i js (ground arith))

count-Distinct : (is : List ℕ) → ((i : ℕ) → count i is ≤ 1) → Distinct is
unfolding count Distinct
count-Distinct [] h = tt
count-Distinct (j ∷ js) h =
    (count-Apart j js (ground (arith, h j)), count-Distinct js (λ i. ground (arith, h i)))

Later-same :
    (p q : ℕ → TimerNode) (e : ℕ) (is : List ℕ)
    → ((i : ℕ) → (q i).expiry ≡ (p i).expiry)
    → Later p e is
    → Later q e is
unfolding Later
Later-same p q e [] same l = tt
Later-same p q e (i ∷ is) same l = (omega (arith, same i, l.0), Later-same p q e is same l.1)

Later-le : (p : ℕ → TimerNode) (e e' : ℕ) (is : List ℕ) → e ≤ e' → Later p e' is → Later p e is
unfolding Later
Later-le p e e' [] h l = tt
Later-le p e e' (i ∷ is) h l = (omega (arith, h, l.0), Later-le p e e' is h l.1)

Sorted-same :
    (p q : ℕ → TimerNode) (is : List ℕ)
    → ((i : ℕ) → (q i).expiry ≡ (p i).expiry)
    → Sorted p is
    → Sorted q is
unfolding Sorted
Sorted-same p q [] same s = tt
Sorted-same p q (i ∷ is) same s = (
  Later-same p q (q i).expiry is same
      (Later-le p (q i).expiry (p i).expiry is (omega (arith, same i)) s.0),
  Sorted-same p q is same s.1,
)

heap_push-Later :
    (p : ℕ → TimerNode) (e k : ℕ) (is : List ℕ)
    → e ≤ (p k).expiry
    → Later p e is
    → Later p e (heap_push p k is)
unfolding Later heap_push
heap_push-Later p e k [] h l = (h, tt)
heap_push-Later p e k (i ∷ is) h l = elim (Bool-cases (ltb (p k).expiry (p i).expiry)) [
  | inl before ↦ rw before (h, l)
  | inr after ↦ rw after (l.0, heap_push-Later p e k is h l.1)
]

heap_push-Sorted :
    (p : ℕ → TimerNode) (k : ℕ) (is : List ℕ) → Sorted p is → Sorted p (heap_push p k is)
unfolding Sorted heap_push Later
heap_push-Sorted p k [] s = (tt, tt)
heap_push-Sorted p k (i ∷ is) s = elim (Bool-cases (ltb (p k).expiry (p i).expiry)) [
  | inl before ↦
      let le : (p k).expiry ≤ (p i).expiry = ground arith in
      rw before ((le, Later-le p (p k).expiry (p i).expiry is le s.0), s)
  | inr after ↦
      let le : (p i).expiry ≤ (p k).expiry = ground arith in
      rw after (heap_push-Later p (p i).expiry k is le s.0, heap_push-Sorted p k is s.1)
]

count-heap_push :
    (p : ℕ → TimerNode) (i k : ℕ) (is : List ℕ)
    → count i (heap_push p k is) ≡ (if k == i then 1 else 0) + count i is
unfolding count heap_push
count-heap_push p i k [] = refl
count-heap_push p i k (j ∷ js) = ground (arith, count-heap_push p i k js)

-- The heap is in order, and each place of the pool is in it or in the free list at most once, and no
-- other number.
record Valid (size : ℕ) (pool : ℕ → TimerNode) (heap free : List ℕ) : Type 0 where
  sorted : Sorted pool heap
  once : (i : ℕ) → count i heap + count i free ≤ 1
  within : (i : ℕ) → size ≤ i → count i heap + count i free ≡ 0

abbrev IsValid : TimerBase → Type 0
IsValid t = Valid t.pool_size t.pool t.heap t.free_list

purge-IsValid :
    (heap : List ℕ) (t : TimerBase)
    → Valid t.pool_size t.pool heap t.free_list
    → IsValid (purge heap t)
unfolding purge free_node count Sorted
purge-IsValid [] t v = record { sorted = v.sorted; once = v.once; within = v.within }
purge-IsValid (idx ∷ heap) t v = elim (Bool-cases (t.pool idx).alive) [
  | inl alive ↦ rw alive (record { sorted = v.sorted; once = v.once; within = v.within })
  | inr dead ↦
      let apart = count-Apart idx heap (ground (arith, v.once idx)) in
      rw dead (
        purge-IsValid heap (free_node idx t) (record {
          sorted = update-Sorted t.pool idx fresh_node heap apart v.sorted.1;
          once = λ i. ground (arith, v.once i);
          within = λ i h. ground (arith, v.within i h);
        }))
]

cancel-IsValid : (id : ℕ) (t : TimerBase) → IsValid t → IsValid (cancel id t)
unfolding cancel
cancel-IsValid id t v = elim (Option-cases (lookup id t.timers)) [
  | inl unknown ↦ rw (unknown, cancel) v
  | inr (idx, known) ↦
      let dead : TimerNode = record (t.pool idx) { alive = false } in
      let same : (i : ℕ) → (update t.pool idx dead i).expiry ≡ (t.pool i).expiry =
        λ i. ground arith in
      rw (known, cancel)
        (purge-IsValid t.heap _ (record {
          sorted = Sorted-same t.pool (update t.pool idx dead) t.heap same v.sorted;
          once = v.once;
          within = v.within;
        }))
]

-- What taking a place leaves, wherever it comes from.
record Allocated (t : TimerBase) (idx : ℕ) (t1 : TimerBase) : Type 0 where
  heap : t1.heap ≡ t.heap
  sorted : Sorted t1.pool t.heap
  once : (i : ℕ) → (if idx == i then 1 else 0) + count i t.heap + count i t1.free_list ≤ 1
  within :
      (i : ℕ)
      → t1.pool_size ≤ i
      → (if idx == i then 1 else 0) + count i t.heap + count i t1.free_list ≡ 0

alloc_node-Allocated : (t : TimerBase) → IsValid t → Allocated t (alloc_node t).0 (alloc_node t).1
unfolding alloc_node count
alloc_node-Allocated t v = elim (List-cases t.free_list) [
  | inl none' ↦
      let apart =
        count-Apart t.pool_size t.heap (omega (arith, v.within t.pool_size (omega arith))) in
      rw (none', alloc_node)
        (record {
          heap = refl;
          sorted = update-Sorted t.pool t.pool_size fresh_node t.heap apart v.sorted;
          once = λ i. ground (arith, v.once i, v.within i, ap (count i) none');
          within = λ i h. ground (arith, v.within i, ap (count i) none');
        })
  | inr (idx, rest, e) ↦
      let apart = count-Apart idx t.heap (ground (arith, v.once idx, ap (count idx) e)) in
      rw (e, alloc_node)
        (record {
          heap = refl;
          sorted = update-Sorted t.pool idx fresh_node t.heap apart v.sorted;
          once = λ i. omega (arith, v.once i, ap (count i) e);
          within = λ i h. omega (arith, v.within i h, ap (count i) e);
        })
]

add-IsValid :
    (now delay : ℕ) (repeating : Bool) (payload : ℕ) (t : TimerBase)
    → IsValid t
    → IsValid (add now delay repeating payload t).1
unfolding add
add-IsValid now delay repeating payload t v =
    let idx = (alloc_node t).0 in
    let t1 = (alloc_node t).1 in
    let a = alloc_node-Allocated t v in
    let node : TimerNode = record {
      expiry = now + delay;
      interval = delay;
      payload = payload;
      id = some t1.next_id;
      repeating = repeating;
      alive = true;
    } in
    let apart = count-Apart idx t.heap (ground (arith, a.once idx)) in
    let pool = update t1.pool idx node in
    let sorted : Sorted pool t1.heap =
      rw a.heap (update-Sorted t1.pool idx node t.heap apart a.sorted) in
    record {
      sorted = heap_push-Sorted pool idx t1.heap sorted;
      once = λ i. rw (count-heap_push pool i idx t1.heap, a.heap) (a.once i);
      within = λ i h. rw (count-heap_push pool i idx t1.heap, a.heap) (a.within i h);
    }

-- The operations between two executions of what is due.
pub data Call : Type 0 where
  adds : (now delay : ℕ) → Bool → ℕ → Call
  cancels : ℕ → Call
  clears : Call

unfoldable pub run : List Call → TimerBase → TimerBase
unfolding add cancel clear
run [] t = t
run (adds now delay repeating payload ∷ cs) t = run cs (add now delay repeating payload t).1
run (cancels id ∷ cs) t = run cs (cancel id t)
run (clears ∷ cs) t = run cs (clear t)

abbrev pub no_timers : TimerBase
no_timers = record {
  next_id = 0;
  free_list = [];
  pool = λ i. fresh_node;
  pool_size = 0;
  timers = [];
  heap = [];
}

run-IsValid : (cs : List Call) (t : TimerBase) → IsValid t → IsValid (run cs t)
unfolding run clear Sorted count
run-IsValid [] t v = v
run-IsValid (adds now delay repeating payload ∷ cs) t v =
    run-IsValid cs _ (add-IsValid now delay repeating payload t v)
run-IsValid (cancels id ∷ cs) t v = run-IsValid cs _ (cancel-IsValid id t v)
run-IsValid (clears ∷ cs) t v =
    run-IsValid cs _ (record { sorted = tt; once = λ i. omega arith; within = λ i h. refl })

-- Whatever timers are added, cancelled and cleared, from a timer without any: the heap is in the order
-- of expiry and lists no place twice, and each place of the pool stands at most once in the heap and the
-- free list together, so that no two live timers share a node.
pub run-places :
    (cs : List Call)
    → Sorted (run cs no_timers).pool (run cs no_timers).heap
      × Distinct (run cs no_timers).heap
      × ((i : ℕ)
          → count i (run cs no_timers).heap + count i (run cs no_timers).free_list
            ≤ (if ltb i (run cs no_timers).pool_size then 1 else 0))
unfolding Sorted count
run-places cs =
    let fresh : IsValid no_timers = record {
      sorted = tt;
      once = λ i. omega arith;
      within = λ i h. refl;
    } in
    let v = run-IsValid cs no_timers fresh in
    (
      v.sorted,
      count-Distinct _ (λ i. omega (arith, v.once i)),
      λ i. ground (arith, v.once i, v.within i),
    )
