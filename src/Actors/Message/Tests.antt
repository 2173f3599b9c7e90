-- ===== src/Actors/Message/Tests.antt =====
-- A small class stored inline, a large one stored in a block, and what becomes of their messages.
use v2_engine.Common.{ℕ, ◌≡◌, true, false, none, some, [], ◌∷◌, arith, refl}
use v2_engine.Actors.Message.{
  Class, Object, Heap, done, ◌>>=◌, make, visit, visit_loop, clone, move_assign, is_inline, payload,
}
use v2_engine.Actors.Message.Ownership.{held}
use v2_engine.Actors.Message.Runs.{
  make_at, move_old, destroy, run_call, Reach, start, later, no_heap, run_call-done, payloads_owned,
}
use v2_engine.Actors.Message.Cloning.{make-clone-visit}

abbrev small : Class
small = record { id = 5; size = 8; align = 8; nothrow_move = true; copyable = true }

abbrev large : Class
large = record { id = 6; size = 200; align = 8; nothrow_move = true; copyable = true }

-- A message with a large payload in block 7.
abbrev one_message : (h : Heap ℕ) × Reach 16 h
unfolding make is_inline
one_message = (_, later (make_at 0 large 41 7) start (refl, refl) refl)

-- Another with a small one, which is then assigned to it: the payload in block 7 is destroyed.
abbrev assigned : (h : Heap ℕ) × Reach 16 h
unfolding make is_inline move_assign
assigned =
    let two = later (make_at 1 small 42 8) one_message.1 (refl, refl) refl in
    (_, later (move_old 0 1) two ((_, refl), (_, refl)) refl)

run_call-done_example : (h' : Heap ℕ) × (run_call 16 (destroy 0) assigned.0 ≡ done h')
unfolding make is_inline move_assign
run_call-done_example = run_call-done 16 {h = assigned.0} (destroy 0) assigned.1 (_, refl)

payloads_owned_example :
    ((p : ℕ) (o : Object ℕ)
      → one_message.0.blocks p ≡ some o
      → (a : ℕ) × (held (one_message.0.messages a) ≡ some p)
        × ((b : ℕ) → held (one_message.0.messages b) ≡ some p → b ≡ a))
    × (((a : ℕ) → one_message.0.messages a ≡ none)
        → (a : ℕ) → (one_message.0.inlined a ≡ none) × (one_message.0.blocks a ≡ none))
payloads_owned_example = payloads_owned 16 {h = one_message.0} one_message.1

assigned_value : payload 0 assigned.0 ≡ some (record { class = small; value = 42 })
unfolding make is_inline move_assign payload
assigned_value = refl

assigned_freed : assigned.0.blocks 7 ≡ none
unfolding make is_inline move_assign
assigned_freed = refl

abbrev nothing : Heap ℕ
nothing = no_heap

make-clone-visit_example :
    (h' : Heap ℕ) × ((make 16 1 large 41 (some 7) false nothing >>= clone 16 0 1 (some 8) false)
      ≡ done h')
    × (visit (small ∷ large ∷ []) 0 h' ≡ some (large, record { class = large; value = 41 }))
    × (visit (small ∷ large ∷ []) 1 h' ≡ some (large, record { class = large; value = 41 }))
unfolding visit_loop
make-clone-visit_example =
    make-clone-visit 16 nothing 0 1 7 8 large 41 (small ∷ large ∷ []) (omega arith) (omega arith)
      refl refl
