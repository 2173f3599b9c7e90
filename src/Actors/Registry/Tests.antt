-- ===== src/Actors/Registry/Tests.antt =====
-- A registry in which the actor 5 was added and removed, and one with two actors of one name.
use Prim.Native.String.{String}
use v2_engine.Common.{ℕ, ◌≡◌, refl, none, some, List, [], ◌∷◌, arith, ◌==◌, if◌then◌else◌}
use v2_engine.Common.Maps.{lookup, insert, erase}
use v2_engine.Actors.Registry.{
  ActorHandle, Registry, create, generation_of, resolve, find_handle_by_name, remove_name, Op, adds,
  removes, run,
}
use v2_engine.Actors.Registry.Stale.{Below, resolve-run}

abbrev id_of : ℕ → ℕ
id_of actor = actor

abbrev name_of : ℕ → String
name_of actor = if actor == 3 then "tick" else "clock"

abbrev handle : ℕ → ℕ → ActorHandle
handle id generation = record { id = id; generation = generation }

abbrev left : Registry
left = record { by_name = []; by_id = []; generations = (5, 2) ∷ [] }

left-Below : Below 2 left
unfolding generation_of lookup
left-Below id = ground arith

resolve-run_example : resolve (handle 5 0) (run id_of name_of (adds 5 ∷ adds 3 ∷ []) left) ≡ none
unfolding generation_of lookup resolve
resolve-run_example =
    resolve-run id_of name_of (adds 5 ∷ adds 3 ∷ []) (handle 5 0) left left-Below (omega arith) refl

abbrev ops : List Op
ops = adds 3 ∷ adds 5 ∷ adds 6 ∷ removes 5 ∷ []

found : find_handle_by_name id_of name_of "clock" (run id_of name_of ops create) ≡ some (handle 6 0)
unfolding find_handle_by_name run lookup insert erase remove_name generation_of
found = refl
