-- ===== src/Actors/System/Tests.antt =====
-- Examples of the system of actor_system.cpp.
use Prim.Native.String.{String}
use v2_engine.Common.{
  ℕ, zero, suc, ◌≡◌, true, some, [], ◌∷◌, ◌++◌, arith, refl, length, get_elem?, min,
}
use v2_engine.Actors.Registry.{find_actor_by_id}
use v2_engine.Dispatcher.{max_actors, slot_of}
use v2_engine.Actors.System.{
  Attached, ActorSystem, create_system, create_actors, Opened, opened, failed, exception, open_all,
  start, stop, destroy, threw, actor_open,
}
use v2_engine.Actors.System.Numbers.{create_actors-slots}
use v2_engine.Actors.System.Order.{idle, replay, start-stop-destroy}

abbrev name : ℕ → String
name zero = "log"
name (suc n) = "ipc"

abbrev three_actors : ActorSystem
three_actors = create_actors name (0 ∷ 64 ∷ 0 ∷ []) (create_system 512 2 true)

abbrev second_throws : ℕ → Opened
second_throws zero = failed
second_throws (suc zero) = exception
second_throws (suc (suc n)) = opened

sizes_of_three : get_elem? three_actors.runtimes 2 ≡ some (record { id = 2; mailbox_size = 512 })
unfolding create_actors create_system
sizes_of_three = refl

stops_at_second :
    open_all second_throws three_actors.runtimes ≡ (threw, actor_open 0 ∷ actor_open 1 ∷ [])
unfolding create_actors create_system open_all
stops_at_second = refl

create_actors-slots_example :
    (length three_actors.runtimes ≡ min 3 max_actors)
    × ((i : ℕ) (a : Attached)
        → get_elem? three_actors.runtimes i ≡ some a
        → (slot_of a.id ≡ i) × (find_actor_by_id a.id three_actors.registry ≡ some a.id))
create_actors-slots_example = create_actors-slots name 512 2 true (0 ∷ 64 ∷ 0 ∷ []) (omega arith)

start-stop-destroy_example :
    replay
      ((start second_throws three_actors).1 ++ (stop three_actors ++ destroy three_actors))
      idle
    ≡ some idle
start-stop-destroy_example = start-stop-destroy second_throws three_actors
