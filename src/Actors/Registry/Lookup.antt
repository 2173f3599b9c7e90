-- ===== src/Actors/Registry/Lookup.antt =====
-- What is found by a name resolves.
use Prim.Native.String.{String}
use v2_engine.Common.{
  ℕ, ◌≡◌, ◌≢◌, refl, ap, ◌∙◌, sym, true, false, none, some, List, [], ◌∷◌, arith, ◌==◌, ==_refl,
  ==_iff, ne→==, if◌then◌else◌, Option-cases, Bool-cases, inl, inr,
}
use v2_engine.Common.Maps.{AssocMap, lookup, lookup-insert, lookup-erase, nat_key, string_key}
use v2_engine.Actors.Registry.{
  Entry, ActorHandle, Registry, generation_of, resolve, find_handle_by_name, clear, add, remove,
  remove_name, Op, adds, removes, clears, step, run, create,
}

module _ (id_of : ℕ → ℕ) (name_of : ℕ → String) where
  -- Each entry of the names stands under its actor's name, and the ids have the same entry.
  abbrev pub Linked : Registry → Type 0
  Linked r =
      (name : String) (e : Entry)
      → lookup name r.by_name ≡ some e
      → (name_of e.actor ≡ name) × (lookup (id_of e.actor) r.by_id ≡ some e)

  other_actor :
      (actor other : ℕ) (name : String)
      → name_of other ≡ name
      → string_key.same (name_of actor) name ≡ false
      → actor ≢ other
  other_actor actor other name named different q =
      absurd
        (ground (arith, string_key.same_iff (name_of actor) name, different, ap name_of q ∙ named))

  -- A name that is left after a removal was there before, and is not that of the actor removed.
  remove_name-kept :
      (actor : ℕ) (name : String) (m : AssocMap String Entry) (e : Entry)
      → lookup name (remove_name id_of name_of actor m) ≡ some e
      → (lookup name m ≡ some e) × (name_of e.actor ≡ name → actor ≢ e.actor)
  unfolding remove_name
  remove_name-kept actor name m e h = elim (Option-cases (lookup (name_of actor) m)) [
    | inl no_entry ↦ (
      ground (arith, h, no_entry),
      λ named q.
          let same : lookup name m ≡ lookup (name_of actor) m =
            ap (λ k. lookup k m) (sym named ∙ ap name_of (sym q)) in
          absurd (ground (arith, h, no_entry, same)),
    )
    | inr (entry, there) ↦ elim (Bool-cases (entry.actor == actor)) [
      | inl its_own ↦
          let erased : (if string_key.same (name_of actor) name then none else lookup name m)
              ≡ some e =
            sym (lookup-erase (name_of actor) name m) ∙ ground (arith, h, there, its_own) in
          (
            ground (arith, erased),
            λ named q.
                let same : string_key.same (name_of actor) name ≡ true =
                  (string_key.same_iff (name_of actor) name).1 (ap name_of q ∙ named) in
                absurd (ground (arith, erased, same)),
          )
      | inr taken_over ↦
          let kept : lookup name m ≡ some e = ground (arith, h, there, taken_over) in
          (
            kept,
            λ named q.
                let same : lookup name m ≡ lookup (name_of actor) m =
                  ap (λ k. lookup k m) (sym named ∙ ap name_of (sym q)) in
                absurd (ground (arith, kept, same, there, taken_over, q)),
          )
    ]
  ]

  create-Linked : Linked create
  unfolding lookup
  create-Linked name e h = cc

  module _ (distinct : (a b : ℕ) → id_of a ≡ id_of b → a ≡ b) where
    add-Linked : (actor : ℕ) (r : Registry) → Linked r → Linked (add id_of name_of actor r).1
    unfolding add
    add-Linked actor r linked name e h =
        let entry : Entry = record { actor = actor; generation = generation_of (id_of actor) r } in
        elim (Bool-cases (string_key.same (name_of actor) name)) [
          | inl here ↦
              let named : name_of actor ≡ name =
                (string_key.same_iff (name_of actor) name).0 here in
              let is : e ≡ entry =
                ground (arith, h, here, lookup-insert (name_of actor) name entry r.by_name) in
              rw (is, ==_refl (id_of actor)) (named, refl)
          | inr other ↦
              let before : lookup name r.by_name ≡ some e =
                ground (arith, h, other, lookup-insert (name_of actor) name entry r.by_name) in
              let (named, found) = linked name e before in
              (
                named,
                ground (
                  arith,
                  found,
                  ==_iff (id_of actor) (id_of e.actor),
                  distinct actor e.actor,
                  other_actor actor e.actor name named other,
                  lookup-insert (id_of actor) (id_of e.actor) entry r.by_id,
                ),
              )
        ]

    remove-Linked : (actor : ℕ) (r : Registry) → Linked r → Linked (remove id_of name_of actor r)
    unfolding remove remove_name
    remove-Linked actor r linked name e h =
        let (kept, apart) = remove_name-kept actor name r.by_name e h in
        let (named, found) = linked name e kept in
        let ne : id_of actor ≢ id_of e.actor = λ q. apart named (distinct actor e.actor q) in
        (
          named,
          lookup-erase (id_of actor) (id_of e.actor) r.by_id
              ∙ rw (ne→== (id_of actor) (id_of e.actor) ne) found,
        )

    step-Linked : (op : Op) (r : Registry) → Linked r → Linked (step id_of name_of op r)
    unfolding step clear lookup
    step-Linked (adds actor) r linked = add-Linked actor r linked
    step-Linked (removes actor) r linked = remove-Linked actor r linked
    step-Linked clears r linked = λ name e h. cc

    run-Linked : (ops : List Op) (r : Registry) → Linked r → Linked (run id_of name_of ops r)
    unfolding run
    run-Linked [] r linked = linked
    run-Linked (op ∷ ops) r linked = run-Linked ops _ (step-Linked op r linked)

    -- Where the actors' ids are distinct, whatever has been added, removed and cleared since the registry
    -- was created: a handle that is found by a name resolves, to an actor of that name.
    pub find_handle_by_name-resolve :
        (ops : List Op) (name : String) (h : ActorHandle)
        → find_handle_by_name id_of name_of name (run id_of name_of ops create) ≡ some h
        → (actor : ℕ) × (resolve h (run id_of name_of ops create) ≡ some actor)
          × (name_of actor ≡ name)
    unfolding find_handle_by_name resolve
    find_handle_by_name-resolve ops name h found =
        let r : Registry = run id_of name_of ops create in
        let linked : Linked r = run-Linked ops create create-Linked in
        elim (Option-cases (lookup name r.by_name)) [
          | inl q ↦ absurd (ground (arith, found, q))
          | inr (entry, q) ↦
              let (named, there) = linked name entry q in
              (entry.actor, ground (arith, found, q, there), named)
        ]
