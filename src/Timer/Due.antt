-- ===== src/Timer/Due.antt =====
-- Which timers of timer_base.cpp fire.
use v2_engine.Common.{
  ℕ, ◌≤◌, ◌≡◌, ◌≢◌, inl, inr, false, ◌&&◌, List, [], ◌∷◌, arith, refl, sym, ◌∙◌, leb, if◌then◌else◌,
  update, update_ne, ap, Bool-cases,
}
use v2_engine.Timer.{
  TimerNode, fresh_node, TimerBase, ReadyNode, free_node, collect, execute_expired,
}

-- A time after which no timer of a list is due earlier.
unfoldable pub Later : (ℕ → TimerNode) → ℕ → List ℕ → Type 0
Later pool e [] = Unit
Later pool e (i ∷ is) = (e ≤ (pool i).expiry) × Later pool e is

unfoldable pub Sorted : (ℕ → TimerNode) → List ℕ → Type 0
unfolding Later
Sorted pool [] = Unit
Sorted pool (i ∷ is) = Later pool (pool i).expiry is × Sorted pool is

unfoldable pub Apart : ℕ → List ℕ → Type 0
Apart i [] = Unit
Apart i (j ∷ js) = (j ≢ i) × Apart i js

unfoldable pub Distinct : List ℕ → Type 0
unfolding Apart
Distinct [] = Unit
Distinct (i ∷ is) = Apart i is × Distinct is

-- What is due and was not cancelled, in the order of the heap, and what is not due.
unfoldable pub due : ℕ → (ℕ → TimerNode) → List ℕ → List ReadyNode
due now pool [] = []
due now pool (i ∷ is) =
    let rest = due now pool is in
    if leb (pool i).expiry now && (pool i).alive
    then record { id = (pool i).id; payload = (pool i).payload } ∷ rest
    else rest

unfoldable pub undue : ℕ → (ℕ → TimerNode) → List ℕ → List ℕ
undue now pool [] = []
undue now pool (i ∷ is) =
    let rest = undue now pool is in if leb (pool i).expiry now then rest else i ∷ rest

update-Later :
    (pool : ℕ → TimerNode) (i e : ℕ) (n : TimerNode) (is : List ℕ)
    → Apart i is
    → Later pool e is
    → Later (update pool i n) e is
unfolding Later Apart
update-Later pool i e n [] apart l = tt
update-Later pool i e n (j ∷ js) apart l =
    (rw (update_ne pool i j n apart.0) l.0, update-Later pool i e n js apart.1 l.1)

pub update-Sorted :
    (pool : ℕ → TimerNode) (i : ℕ) (n : TimerNode) (is : List ℕ)
    → Apart i is
    → Sorted pool is
    → Sorted (update pool i n) is
unfolding Sorted Apart
update-Sorted pool i n [] apart l = tt
update-Sorted pool i n (j ∷ js) apart l = (
  rw (update_ne pool i j n apart.0) (update-Later pool i (pool j).expiry n js apart.1 l.0),
  update-Sorted pool i n js apart.1 l.1,
)

module _ (now : ℕ) where
  -- A change of one node is not seen by what the others are.
  record Same (p q : ℕ → TimerNode) (is : List ℕ) : Type 0 where
    fires : due now p is ≡ due now q is
    stays : undue now p is ≡ undue now q is

  update-Same :
      (pool : ℕ → TimerNode) (i : ℕ) (n : TimerNode) (is : List ℕ)
      → Apart i is
      → Same (update pool i n) pool is
  unfolding due undue Apart
  update-Same pool i n [] apart = record { fires = refl; stays = refl }
  update-Same pool i n (j ∷ js) apart =
      let rest = update-Same pool i n js apart.1 in
      let other = update_ne pool i j n apart.0 in
      record { fires = rw (other, rest.fires) refl; stays = rw (other, rest.stays) refl }

  -- Past the first timer that is not due, none is.
  none_due :
      (pool : ℕ → TimerNode) (e : ℕ) (is : List ℕ)
      → leb e now ≡ false
      → Later pool e is
      → (due now pool is ≡ []) × (undue now pool is ≡ is)
  unfolding due undue Later
  none_due pool e [] h l = (refl, refl)
  none_due pool e (i ∷ is) h l =
      let rest = none_due pool e is h l.1 in
      let late : leb (pool i).expiry now ≡ false = ground arith in
      (rw late rest.0, rw late (ap (λ js. i ∷ js) rest.1))

  collect_lem :
      (heap : List ℕ) (t : TimerBase)
      → Sorted t.pool heap
      → Distinct heap
      → ((collect now heap t).0 ≡ due now t.pool heap)
        × ((collect now heap t).1.heap ≡ undue now t.pool heap)
  unfolding collect due undue Sorted Distinct free_node
  collect_lem [] t sorted distinct = (refl, refl)
  collect_lem (i ∷ is) t sorted distinct = elim (Bool-cases (leb (t.pool i).expiry now)) [
    | inr early ↦
        let past = none_due t.pool (t.pool i).expiry is early sorted.0 in
        (rw early (sym past.0), rw early (ap (λ js. i ∷ js) (sym past.1)))
    | inl ripe ↦ elim (Bool-cases (t.pool i).alive) [
      | inl alive ↦
          let rest = collect_lem is t sorted.1 distinct.1 in
          let r : ReadyNode = record { id = (t.pool i).id; payload = (t.pool i).payload } in
          (rw (ripe, alive) (ap (λ rs. r ∷ rs) rest.0), rw (ripe, alive) rest.1)
      | inr dead ↦
          let kept = update-Sorted t.pool i fresh_node is distinct.0 sorted.1 in
          let rest = collect_lem is (free_node i t) kept distinct.1 in
          let same = update-Same t.pool i fresh_node is distinct.0 in
          (rw (ripe, dead) (rest.0 ∙ same.fires), rw (ripe, dead) (rest.1 ∙ same.stays))
    ]
  ]

  -- From a heap in the order of expiry that lists no timer twice: the timers that fire are exactly
  -- those that are due and were not cancelled, each once and in that order, and exactly those that are
  -- not due stay in the heap when the callbacks begin, whatever the callbacks do.
  pub execute_expired-due :
      (callbacks : List ReadyNode → TimerBase → TimerBase) (t : TimerBase)
      → Sorted t.pool t.heap
      → Distinct t.heap
      → ((execute_expired now callbacks t).0 ≡ due now t.pool t.heap)
        × ((collect now t.heap t).1.heap ≡ undue now t.pool t.heap)
  unfolding execute_expired
  execute_expired-due callbacks t sorted distinct = collect_lem t.heap t sorted distinct
