-- ===== src/Metrics/Totals.antt =====
-- What a run of records adds up to.
use mathlib.Core.Option
use native.Mathlib.Decide.{ℕ_discrete}
use v2_engine.Common.{
  ℕ, zero, suc, ◌+◌, ◌^◌, ◌≤◌, ◌<◌, ◌≡◌, refl, ap, ◌∙◌, sym, Bool, true, false, Option, none, some,
  List, [], ◌∷◌, length, max, arith, ltb, get_elem?, Bool-cases, Option-cases, inl, inr,
}
use v2_engine.Metrics.{
  ActorMetrics, Metrics, add, update_peak, peak, modify, on_actor, record_enqueue,
}

-- The peak of the depths of the enqueues that succeeded, and the numbers of those and of the drops.
abbrev pub peak_of : ℕ → List (Bool × ℕ) → ℕ
peak_of p [] = p
peak_of p ((true, depth) ∷ calls) = peak_of (max p depth) calls
peak_of p ((false, depth) ∷ calls) = peak_of p calls

abbrev pub successes : List (Bool × ℕ) → ℕ
successes [] = 0
successes ((true, depth) ∷ calls) = suc (successes calls)
successes ((false, depth) ∷ calls) = successes calls

pub run : ℕ → List (Bool × ℕ) → Metrics → Metrics
unfolding record_enqueue
run id [] m = m
run id ((success, depth) ∷ calls) m = run id calls (record_enqueue id success depth m)

get_elem?-modify {ℓ} :
    {A : Type ℓ} (f : A → A) (i : ℕ) (xs : List A) {x : A}
    → get_elem? xs i ≡ some x
    → get_elem? (modify f i xs) i ≡ some (f x)
unfolding modify
get_elem?-modify f i [] h = absurd (ground (arith, h))
get_elem?-modify f zero (y ∷ xs) h = ap (λ o. Option.map f o) h
get_elem?-modify f (suc i) (y ∷ xs) h = get_elem?-modify f i xs h

get_elem?-bound {ℓ} :
    {A : Type ℓ} (i : ℕ) (xs : List A) {x : A} → get_elem? xs i ≡ some x → i < length xs
get_elem?-bound i [] h = absurd (ground (arith, h))
get_elem?-bound zero (y ∷ xs) h = omega arith
get_elem?-bound (suc i) (y ∷ xs) h = omega (arith, get_elem?-bound i xs h)

-- A record for a registered actor changes its entry.
on_actor-entry :
    (f : ActorMetrics → ActorMetrics) (id : ℕ) (m : Metrics) {a : ActorMetrics}
    → m.enabled ≡ true
    → get_elem? m.actors id ≡ some a
    → ((on_actor f id m).enabled ≡ true) × (get_elem? (on_actor f id m).actors id ≡ some (f a))
unfolding on_actor
on_actor-entry f id m on h =
    let inside : id < length m.actors = get_elem?-bound id m.actors h in
    (ground (arith, on, inside), ground (arith, on, inside, get_elem?-modify f id m.actors h))

-- Where the metrics are on, the actor is registered and its counts do not wrap: a run of enqueue
-- records adds the successes to `enqueued`, the failures to `dropped`, and leaves in `peakDepth` the
-- greatest of what it was and the depths of the successes.
pub run-entry :
    (id : ℕ) (calls : List (Bool × ℕ)) (m : Metrics) (a : ActorMetrics)
    → m.enabled ≡ true
    → get_elem? m.actors id ≡ some a
    → a.enqueued + length calls < 2 ^ 64
    → a.dropped + length calls < 2 ^ 64
    → (a' : ActorMetrics) × (get_elem? (run id calls m).actors id ≡ some a')
      × (a'.enqueued ≡ a.enqueued + successes calls)
      × (a'.enqueued + a'.dropped ≡ a.enqueued + a.dropped + length calls)
      × (a'.peak_depth ≡ peak_of a.peak_depth calls)
unfolding run record_enqueue add peak
run-entry id [] m a on h small small' = (a, h, omega arith, omega arith, refl)
run-entry id ((true, depth) ∷ calls) m a on h small small' =
    let b : ActorMetrics = record a {
      enqueued = add a.enqueued 1;
      peak_depth = peak a.peak_depth depth;
    } in
    let (on', h') = on_actor-entry _ id m on h in
    let (a', found, count, all, top) = run-entry id calls _ b on' h' (omega arith) (omega arith) in
    let highest : peak a.peak_depth depth ≡ max a.peak_depth depth = ground arith in
    (a', found, omega (arith, count), omega (arith, all), top ∙ ap (λ p. peak_of p calls) highest)
run-entry id ((false, depth) ∷ calls) m a on h small small' =
    let b : ActorMetrics = record a { dropped = add a.dropped 1 } in
    let (on', h') = on_actor-entry _ id m on h in
    let (a', found, count, all, top) = run-entry id calls _ b on' h' (omega arith) (omega arith) in
    (a', found, omega (arith, count), omega (arith, all), top)

-- `updatePeak` returns once a compare-exchange goes through in one of its rounds, whatever other
-- threads write before; the peak is then no less than the value recorded.
pub update_peak-returns :
    (fuel k : ℕ) (others : ℕ → Option ℕ) (current p : ℕ)
    → k < fuel
    → others k ≡ none
    → (r : ℕ) × (update_peak fuel others current p ≡ some r) × (current ≤ r)
unfolding update_peak
update_peak-returns zero k others current p h free = absurd (omega arith)
update_peak-returns (suc fuel) k others current p h free = elim (Bool-cases (ltb p current)) [
  | inl above ↦ elim (Option-cases (others fuel)) [
    | inl through ↦ (current, ground (arith, above, through), omega arith)
    | inr (other, e) ↦
        let later : k < fuel = before other e in
        let (r, q, bound) = update_peak-returns fuel k others current other later free in
        (r, ground (arith, above, e, q), bound)
  ]
  | inr enough ↦ (p, ground (arith, enough), ground (arith, enough))
]
  where
    before : (other : ℕ) → others fuel ≡ some other → k < fuel
    before other e = elim (ℕ_discrete k fuel) [
      | yes same ↦ absurd (ground (arith, e, sym (ap others same) ∙ free))
      | no different ↦ omega (arith, different)
    ]
