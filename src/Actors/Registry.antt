-- ===== src/Actors/Registry.antt =====
-- src/core/actor_system/actor/actor_registry.hpp and actor_registry.cpp, with the handles of
-- actor_handle.hpp. An `Actor*` is a number; the id and the name behind it do not change, and are
-- parameters. The locks make each operation one step. The loggings are left out.
pub mod Lookup
pub mod Stale
mod Tests
use Prim.Native.String.{String}
use v2_engine.Common.{
  ℕ, ◌+◌, ◌%◌, ◌^◌, Bool, true, false, ◌&&◌, not, Option, none, some, List, [], ◌∷◌, map, ◌==◌,
  if◌then◌else◌,
}
use v2_engine.Common.Maps.{AssocMap, lookup, insert, erase, nat_key, string_key}

-- `ActorEntry`.
pub record Entry : Type 0 where
  pub actor : ℕ
  pub generation : ℕ

-- A handle that a registry made; the handle with no registry is `none` where one is returned.
pub record ActorHandle : Type 0 where
  pub id : ℕ
  pub generation : ℕ

pub record Registry : Type 0 where
  pub by_name : AssocMap String Entry
  pub by_id : AssocMap ℕ Entry
  pub generations : AssocMap ℕ ℕ

abbrev pub create : Registry
create = record { by_name = []; by_id = []; generations = [] }

-- `generations_[id]`, which is 0 where nothing is stored.
unfoldable pub generation_of : ℕ → Registry → ℕ
unfolding lookup
generation_of id r = elim (lookup id r.generations) [ none ↦ 0 | some g ↦ g ]

unfoldable pub resolve : ActorHandle → Registry → Option ℕ
unfolding lookup
resolve handle r = elim (lookup handle.id r.by_id) [
  | none ↦ none
  | some entry ↦ if entry.generation == handle.generation then some entry.actor else none
]

unfoldable pub find_handle_by_id : ℕ → Registry → Option ActorHandle
unfolding lookup
find_handle_by_id id r = elim (lookup id r.by_id) [
  | none ↦ none
  | some entry ↦ some (record { id = id; generation = entry.generation })
]

unfoldable pub find_actor_by_name : String → Registry → Option ℕ
unfolding lookup
find_actor_by_name name r = elim (lookup name r.by_name) [
  | none ↦ none
  | some entry ↦ some entry.actor
]

unfoldable pub find_actor_by_id : ℕ → Registry → Option ℕ
unfolding lookup
find_actor_by_id id r = elim (lookup id r.by_id) [ none ↦ none | some entry ↦ some entry.actor ]

-- The handles on which `forEachActor` calls back, in the order of the map.
unfoldable pub snapshot : Registry → List ActorHandle
snapshot r = map (λ (e : ℕ × Entry). record { id = e.0; generation = e.1.generation }) r.by_id

unfoldable pub clear : Registry → Registry
clear r = record r { by_name = []; by_id = [] }

module _ (id_of : ℕ → ℕ) (name_of : ℕ → String) where
  unfoldable pub find_handle_by_name : String → Registry → Option ActorHandle
  unfolding lookup
  find_handle_by_name name r = elim (lookup name r.by_name) [
    | none ↦ none
    | some entry ↦ some (record { id = id_of entry.actor; generation = entry.generation })
  ]

  -- The new generation, which the actor is told, is the first component.
  unfoldable pub add : ℕ → Registry → ℕ × Registry
  unfolding generation_of insert
  add actor r =
      let id = id_of actor in
      let gen = generation_of id r in
      let entry : Entry = record { actor = actor; generation = gen } in
      (
        gen,
        record {
          by_name = insert (name_of actor) entry r.by_name;
          by_id = insert id entry r.by_id;
          generations = insert id ((gen + 1) % 2 ^ 64) r.generations;
        },
      )

  -- The name stays where another actor has taken it over.
  unfoldable pub remove_name : ℕ → AssocMap String Entry → AssocMap String Entry
  unfolding lookup erase
  remove_name actor m = elim (lookup (name_of actor) m) [
    | none ↦ m
    | some entry ↦ if entry.actor == actor then erase (name_of actor) m else m
  ]

  unfoldable pub remove : ℕ → Registry → Registry
  unfolding generation_of remove_name insert erase
  remove actor r =
      let id = id_of actor in
      record {
        by_name = remove_name actor r.by_name;
        by_id = erase id r.by_id;
        generations = insert id ((generation_of id r + 1) % 2 ^ 64) r.generations;
      }

-- The operations that change a registry.
pub data Op : Type 0 where
  adds removes : ℕ → Op
  clears : Op

module _ (id_of : ℕ → ℕ) (name_of : ℕ → String) where
  unfoldable pub step : Op → Registry → Registry
  unfolding add remove clear
  step (adds actor) r = (add id_of name_of actor r).1
  step (removes actor) r = remove id_of name_of actor r
  step clears r = clear r

  unfoldable pub run : List Op → Registry → Registry
  unfolding step
  run [] r = r
  run (op ∷ ops) r = run ops (step op r)
