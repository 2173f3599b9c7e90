-- ===== src/Actors/Registry/Stale.antt =====
-- A handle whose actor has left the registry never resolves again.
use Prim.Native.String.{String}
use v2_engine.Common.{
  ℕ, suc, ◌+◌, ◌%◌, ◌^◌, ◌≤◌, ◌<◌, ◌⊎◌, ◌≡◌, ◌≢◌, refl, none, some, List, [], ◌∷◌, length, arith,
  ◌==◌, ==_refl, ==_iff, if◌then◌else◌, Option-cases, Bool-cases, inl, inr,
}
use v2_engine.Common.Maps.{lookup, lookup-insert, lookup-erase, nat_key, string_key}
use v2_engine.Actors.Registry.{
  Entry, ActorHandle, Registry, generation_of, resolve, clear, add, remove, Op, adds, removes,
  clears, step, run,
}

-- The generation that a handle names lies behind, and no entry has it.
pub record Stale (h : ActorHandle) (r : Registry) : Type 0 where
  pub behind : h.generation < generation_of h.id r
  pub gone : (e : Entry) → lookup h.id r.by_id ≡ some e → e.generation ≢ h.generation

-- Every entry's generation lies behind the count of its id.
abbrev pub Counted : Registry → Type 0
Counted r = (id : ℕ) (e : Entry) → lookup id r.by_id ≡ some e → e.generation < generation_of id r

-- No count wraps within `n` steps.
abbrev pub Below : ℕ → Registry → Type 0
Below n r = (id : ℕ) → generation_of id r + n < 2 ^ 64

pub resolve-Stale : {h : ActorHandle} {r : Registry} → Stale h r → resolve h r ≡ none
unfolding resolve
resolve-Stale {h} {r} stale = elim (Option-cases (lookup h.id r.by_id)) [
  | inl e ↦ rw (e, resolve) refl
  | inr (entry, e) ↦ ground (arith, e, stale.gone entry)
]

module _ (id_of : ℕ → ℕ) (name_of : ℕ → String) where
  generation_of-add :
      (actor id : ℕ) (r : Registry)
      → generation_of id (add id_of name_of actor r).1 ≡ (
          if id_of actor == id
          then (generation_of (id_of actor) r + 1) % 2 ^ 64
          else generation_of id r)
  unfolding add generation_of
  generation_of-add actor id r = ground (
    arith,
    lookup-insert (id_of actor) id ((generation_of (id_of actor) r + 1) % 2 ^ 64) r.generations,
  )

  generation_of-remove :
      (actor id : ℕ) (r : Registry)
      → generation_of id (remove id_of name_of actor r) ≡ (
          if id_of actor == id
          then (generation_of (id_of actor) r + 1) % 2 ^ 64
          else generation_of id r)
  unfolding remove generation_of
  generation_of-remove actor id r = ground (
    arith,
    lookup-insert (id_of actor) id ((generation_of (id_of actor) r + 1) % 2 ^ 64) r.generations,
  )

  -- An operation raises a count by one at most.
  generation_of-step :
      (op : Op) (r : Registry) (n : ℕ)
      → Below (suc n) r
      → (id : ℕ)
      → (generation_of id r ≤ generation_of id (step id_of name_of op r))
        × (generation_of id (step id_of name_of op r) ≤ generation_of id r + 1)
  unfolding step
  generation_of-step (adds actor) r n small id = elim (Bool-cases (id_of actor == id)) [
    | inl e ↦
        rw (generation_of-add actor id r, e, (==_iff (id_of actor) id).0 e)
          (omega (arith, small id))
    | inr e ↦ rw (generation_of-add actor id r, e) (omega arith)
  ]
  generation_of-step (removes actor) r n small id = elim (Bool-cases (id_of actor == id)) [
    | inl e ↦
        rw (generation_of-remove actor id r, e, (==_iff (id_of actor) id).0 e)
          (omega (arith, small id))
    | inr e ↦ rw (generation_of-remove actor id r, e) (omega arith)
  ]
  generation_of-step clears r n small id = unfold clear generation_of in omega arith

  step-Below :
      (op : Op) (r : Registry) (n : ℕ) → Below (suc n) r → Below n (step id_of name_of op r)
  step-Below op r n small id = omega (arith, small id, generation_of-step op r n small id)

  -- What the entry of an id is after an operation: what it was, or one of the count before.
  entry-step :
      (op : Op) (r : Registry) (id : ℕ) (e : Entry)
      → lookup id (step id_of name_of op r).by_id ≡ some e
      → (lookup id r.by_id ≡ some e) ⊎ (e.generation ≡ generation_of id r)
  unfolding step add remove clear lookup
  entry-step (adds actor) r id e h = ground (
    arith,
    h,
    ==_iff (id_of actor) id,
    lookup-insert (id_of actor) id
        (record { actor = actor; generation = generation_of (id_of actor) r }) r.by_id,
  )
  entry-step (removes actor) r id e h = ground (arith, h, lookup-erase (id_of actor) id r.by_id)
  entry-step clears r id e h = cc

  step-Stale :
      (op : Op) (h : ActorHandle) {r : Registry} (n : ℕ)
      → Below (suc n) r
      → Stale h r
      → Stale h (step id_of name_of op r)
  step-Stale op h {r} n small stale = record {
    behind = omega (arith, stale.behind, generation_of-step op r n small h.id);
    gone = λ e q same. elim (entry-step op r h.id e q) [
      | inl before ↦ stale.gone e before same
      | inr fresh ↦ absurd (omega (arith, fresh, same, stale.behind))
    ];
  }

  run-Stale :
      (ops : List Op) (h : ActorHandle) {r : Registry}
      → Below (length ops) r
      → Stale h r
      → Stale h (run id_of name_of ops r)
  unfolding run
  run-Stale [] h small stale = stale
  run-Stale (op ∷ ops) h small stale =
      run-Stale ops h (step-Below op _ (length ops) small)
        (step-Stale op h (length ops) small stale)

  -- Once the actor with the id of a handle has been removed, or another has been added under it, no
  -- run of operations makes the handle resolve again, as long as no generation wraps: a handle whose
  -- generation lies behind its id's count and that does not resolve resolves to nothing ever after.
  pub resolve-run :
      (ops : List Op) (h : ActorHandle) (r : Registry)
      → Below (length ops) r
      → h.generation < generation_of h.id r
      → resolve h r ≡ none
      → resolve h (run id_of name_of ops r) ≡ none
  unfolding resolve
  resolve-run ops h r small behind dead =
      let stale : Stale h r = record {
        behind = behind;
        gone = λ e q same. absurd (ground (arith, q, same, dead));
      } in
      resolve-Stale (run-Stale ops h small stale)

  -- The handle of an actor that was added resolves to it; after the actor is removed it does not, and
  -- its generation lies behind.
  pub resolve-remove :
      (actor : ℕ) (r : Registry)
      → Below 2 r
      → let (gen, added) = add id_of name_of actor r in
        let h : ActorHandle = record { id = id_of actor; generation = gen } in
        (resolve h added ≡ some actor)
        × (resolve h (remove id_of name_of actor added) ≡ none)
        × (gen < generation_of (id_of actor) (remove id_of name_of actor added))
  unfolding add remove resolve
  resolve-remove actor r small = (
    ground (
      arith,
      ==_refl (id_of actor),
      lookup-insert (id_of actor) (id_of actor)
          (record { actor = actor; generation = generation_of (id_of actor) r }) r.by_id,
    ),
    ground (
      arith,
      ==_refl (id_of actor),
      lookup-erase (id_of actor) (id_of actor) (add id_of name_of actor r).1.by_id,
    ),
    ground (
      arith,
      small (id_of actor),
      ==_refl (id_of actor),
      generation_of-remove actor (id_of actor) (add id_of name_of actor r).1,
      generation_of-add actor (id_of actor) r,
    ),
  )
