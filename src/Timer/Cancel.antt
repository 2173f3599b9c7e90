-- ===== src/Timer/Cancel.antt =====
-- One due timer: cancelled from its own callback, and left alone.
use v2_engine.Common.{
  ℕ, ◌+◌, ◌≤◌, ◌≡◌, true, false, none, some, [], ◌∷◌, arith, update_self, ==_refl, ◌⊎◌, inl, inr,
  Bool-cases,
}
use v2_engine.Common.Maps.{lookup, lookup-erase, nat_key}
use v2_engine.Timer.{
  TimerBase, purge, cancel, collect, settle, settle_each, execute_expired, heap_push, free_node,
}

-- When the one timer in the heap is due and its callback cancels it, it fires once and leaves the heap
-- and the ids; but its node does not go back to the free list, so its place in the pool is lost.
execute_expired-cancel :
    (now id idx : ℕ) (t : TimerBase)
    → t.heap ≡ idx ∷ []
    → (t.pool idx).id ≡ some id
    → (t.pool idx).alive ≡ true
    → (t.pool idx).expiry ≤ now
    → lookup id t.timers ≡ some idx
    → let (ready, t') = execute_expired now (λ rs. cancel id) t in
      (ready ≡ record { id = some id; payload = (t.pool idx).payload } ∷ [])
      × (t'.heap ≡ [])
      × (lookup id t'.timers ≡ none)
      × (t'.free_list ≡ t.free_list)
      × (t'.pool_size ≡ t.pool_size)
unfolding execute_expired collect settle_each settle cancel purge
execute_expired-cancel now id idx t top named alive due listed =
    ground (arith, top, named, alive, due, listed, ==_refl id, lookup-erase id id t.timers)

-- When the one timer in the heap is due and its callback leaves the timer alone, a repeating timer
-- goes back to the heap one interval later, and any other leaves the ids and gives its node back.
pub execute_expired-settle :
    (now id idx : ℕ) (t : TimerBase)
    → t.heap ≡ idx ∷ []
    → (t.pool idx).id ≡ some id
    → (t.pool idx).alive ≡ true
    → (t.pool idx).expiry ≤ now
    → lookup id t.timers ≡ some idx
    → let t' = (execute_expired now (λ rs t. t) t).1 in
      ((t.pool idx).repeating ≡ true)
        × (t'.heap ≡ idx ∷ [])
        × ((t'.pool idx).expiry ≡ (t.pool idx).expiry + (t.pool idx).interval)
        × (lookup id t'.timers ≡ some idx)
      ⊎ ((t.pool idx).repeating ≡ false)
        × (t'.heap ≡ [])
        × (t'.free_list ≡ idx ∷ t.free_list)
        × (lookup id t'.timers ≡ none)
unfolding execute_expired collect settle_each settle heap_push free_node
execute_expired-settle now id idx t top named alive due listed =
    elim (Bool-cases ((t.pool idx).repeating)) [
      | inl again ↦ inl (
        again,
        ground (arith, top, named, alive, due, listed, again),
        ground (
          arith,
          top,
          named,
          alive,
          due,
          listed,
          again,
          update_self t.pool idx
              (record (t.pool idx) { expiry = (t.pool idx).expiry + (t.pool idx).interval }),
        ),
        ground (arith, top, named, alive, due, listed, again),
      )
      | inr once ↦ inr (
        once,
        ground (arith, top, named, alive, due, listed, once),
        ground (arith, top, named, alive, due, listed, once),
        ground
            (arith, top, named, alive, due, listed, once, ==_refl id, lookup-erase id id t.timers),
      )
    ]
