-- ===== src/Actors/System/Numbers.antt =====
-- The ids of the actors of actor_system.cpp.
use Prim.Native.String.{String}
use v2_engine.Common.{
  ℕ, zero, suc, ◌+◌, ◌%◌, ◌^◌, ◌<◌, ◌≡◌, ◌⊎◌, inl, inr, Bool, some, List, [], ◌∷◌, ◌++◌, arith,
  refl, sym, ap, ◌∙◌, ◌==◌, leb, leb→le, if◌then◌else◌, Bool-cases, length, length-append,
  get_elem?, min,
}
use v2_engine.Common.Tests.{==→ne}
use v2_engine.Common.Maps.{lookup-insert, nat_key}
use v2_engine.Actors.Registry.{Registry, Entry, add, find_actor_by_id, generation_of}
use v2_engine.Dispatcher.{max_actors, slot_of}
use v2_engine.Actors.System.{
  Attached, ActorSystem, create_system, attach_actor, create_actor, create_actors,
}

get_elem?-append_last :
    (xs : List Attached) (x : Attached) (i : ℕ) {y : Attached}
    → get_elem? (xs ++ x ∷ []) i ≡ some y
    → (get_elem? xs i ≡ some y) ⊎ ((i ≡ length xs) × (y ≡ x))
get_elem?-append_last [] x zero e = inr (refl, cc)
get_elem?-append_last [] x (suc i) e = cc
get_elem?-append_last (z ∷ xs) x zero e = inl e
get_elem?-append_last (z ∷ xs) x (suc i) e = elim (get_elem?-append_last xs x i e) [
  | inl h ↦ inl h
  | inr h ↦ inr (omega (arith, h.0), h.1)
]

length-append_last : (xs : List Attached) (x : Attached) → length (xs ++ x ∷ []) ≡ length xs + 1
length-append_last xs x = length-append xs (x ∷ [])

module _ (name_of : ℕ → String) where
  find-add :
      (id j : ℕ) (r : Registry)
      → find_actor_by_id j (add (λ a. a) name_of id r).1
        ≡ (if id == j then some id else find_actor_by_id j r)
  unfolding find_actor_by_id add
  find-add id j r =
      let entry : Entry = record { actor = id; generation = generation_of id r } in
      ground (arith, lookup-insert id j entry r.by_id)

  -- The actors are numbered in order, as long as there are slots.
  record Numbered (s : ActorSystem) : Type 0 where
    size : length s.runtimes ≡ min s.next_actor_id max_actors
    at :
        (i : ℕ) (a : Attached)
        → get_elem? s.runtimes i ≡ some a
        → (a.id ≡ i) × (i < length s.runtimes)
    found : (i : ℕ) → i < length s.runtimes → find_actor_by_id i s.registry ≡ some i

  -- What an actor that gets its number leaves.
  attached-Numbered :
      (x : Attached) (s : ActorSystem)
      → s.next_actor_id + 1 < 2 ^ 64
      → s.next_actor_id < max_actors
      → x.id ≡ s.next_actor_id
      → Numbered s
      → Numbered (record s {
        next_actor_id = (s.next_actor_id + 1) % 2 ^ 64;
        registry = (add (λ a. a) name_of s.next_actor_id s.registry).1;
        runtimes = s.runtimes ++ x ∷ [];
      })
  attached-Numbered x s small room same n =
      let longer = length-append_last s.runtimes x in
      let old = n.size in
      record {
        size = omega (arith, longer, old, small, room);
        at = λ i a e. elim (get_elem?-append_last s.runtimes x i e) [
          | inl h ↦ ((n.at i a h).0, omega (arith, longer, (n.at i a h).1))
          | inr h ↦ (
            ap (λ y. y.id) h.1 ∙ same ∙ omega (arith, h.0, old, room),
            omega (arith, longer, h.0),
          )
        ];
        found = λ i below. elim (Bool-cases (s.next_actor_id == i)) [
          | inl here ↦ ground (arith, find-add s.next_actor_id i s.registry)
          | inr there ↦
              find-add s.next_actor_id i s.registry
              ∙ rw there (
                  n.found i
                    (omega (arith, longer, below, old, room, ==→ne s.next_actor_id i there)))
        ];
      }

  create_actor-Numbered :
      (size : ℕ) (s : ActorSystem)
      → s.next_actor_id + 1 < 2 ^ 64
      → Numbered s
      → Numbered (create_actor name_of size s).1
  unfolding create_actor attach_actor
  create_actor-Numbered size s small n = elim (Bool-cases (leb max_actors s.next_actor_id)) [
    | inl over ↦ rw over (record {
      size = omega (arith, n.size, leb→le max_actors s.next_actor_id over, small);
      at = n.at;
      found = n.found;
    })
    | inr room ↦ rw room (
        attached-Numbered
          (record {
            id = s.next_actor_id;
            mailbox_size = if size == 0 then s.default_mailbox_size else size;
          })
          s small (grind arith) refl n)
  ]

  next_actor_id-create_actor :
      (size : ℕ) (s : ActorSystem)
      → (create_actor name_of size s).1.next_actor_id ≡ (s.next_actor_id + 1) % 2 ^ 64
  unfolding create_actor attach_actor
  next_actor_id-create_actor size s = elim (Bool-cases (leb max_actors s.next_actor_id)) [
    | inl over ↦ rw over refl
    | inr room ↦ rw room refl
  ]

  create_actors-Numbered :
      (sizes : List ℕ) (s : ActorSystem)
      → s.next_actor_id + length sizes < 2 ^ 64
      → Numbered s
      → Numbered (create_actors name_of sizes s)
  unfolding create_actors
  create_actors-Numbered [] s small n = n
  create_actors-Numbered (size ∷ sizes) s small n =
      create_actors-Numbered sizes (create_actor name_of size s).1
        (omega (arith, small, next_actor_id-create_actor size s))
        (create_actor-Numbered size s (omega (arith, small)) n)

  next_actor_id-create_actors :
      (sizes : List ℕ) (s : ActorSystem)
      → s.next_actor_id + length sizes < 2 ^ 64
      → (create_actors name_of sizes s).next_actor_id ≡ s.next_actor_id + length sizes
  unfolding create_actors
  next_actor_id-create_actors [] s small = omega arith
  next_actor_id-create_actors (size ∷ sizes) s small =
      let next = next_actor_id-create_actor size s in
      omega (
        arith,
        small,
        next,
        next_actor_id-create_actors sizes (create_actor name_of size s).1
            (omega (arith, small, next)),
      )

  create_system-Numbered :
      (default workers : ℕ) (has_loop : Bool) → Numbered (create_system default workers has_loop)
  unfolding create_system
  create_system-Numbered default workers has_loop = record {
    size = refl;
    at = λ i a e. cc;
    found = λ i below. grind arith;
  }

  -- Of the actors made one after the other each is found by its id and has a flag of its own among the
  -- tokens of the dispatcher, and those beyond the slots are not made.
  pub create_actors-slots :
      (default workers : ℕ) (has_loop : Bool) (sizes : List ℕ)
      → length sizes < 2 ^ 64
      → (length (create_actors name_of sizes (create_system default workers has_loop)).runtimes
          ≡ min (length sizes) max_actors)
        × ((i : ℕ) (a : Attached)
            → get_elem?
                (create_actors name_of sizes (create_system default workers has_loop)).runtimes
                i
              ≡ some a
            → (slot_of a.id ≡ i)
              × (find_actor_by_id a.id
                    (create_actors name_of sizes (create_system default workers has_loop)).registry
                  ≡ some a.id))
  unfolding create_system
  create_actors-slots default workers has_loop sizes small =
      let s = create_system default workers has_loop in
      let start : s.next_actor_id ≡ 0 = refl in
      let fits : s.next_actor_id + length sizes < 2 ^ 64 = omega (arith, small, start) in
      let n =
        create_actors-Numbered sizes s fits (create_system-Numbered default workers has_loop) in
      let next = next_actor_id-create_actors sizes s fits in
      (
        omega (arith, n.size, next, start),
        λ i a e.
            let (same, below) = n.at i a e in
            (
              omega (arith, same, below, n.size),
              ap (λ j. find_actor_by_id j (create_actors name_of sizes s).registry) same
                  ∙ n.found i below
                  ∙ ap some (sym same),
            ),
      )
