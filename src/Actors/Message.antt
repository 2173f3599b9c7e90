-- ===== src/Actors/Message.antt =====
-- src/core/actor_system/messages/message.hpp: a payload of any class, stored in the message itself or
-- in a block of the pool. A heap says which payload is alive in which place; what the code does with a
-- place that holds none is undefined behaviour.
pub mod Ownership
pub mod Lifetime
pub mod Placing
pub mod TakeOver
pub mod Moves
pub mod Copies
pub mod Runs
pub mod Visit
pub mod Cloning
mod Tests
use v2_engine.Common.{
  ℕ, ◌≤◌, Bool, true, false, not, ◌&&◌, ◌||◌, Option, none, some, List, [], ◌∷◌, update, leb, ltb,
  ◌==◌, if◌then◌else◌,
}

pub data StorageMode : Type 0 where
  empty inline pool : StorageMode

-- What the code asks of a payload's type, with its `kId`.
pub record Class : Type 0 where
  pub id : ℕ
  pub size : ℕ
  pub align : ℕ
  pub nothrow_move : Bool
  pub copyable : Bool

pub record Message : Type 0 where
  pub id : ℕ
  pub mode : StorageMode
  -- `ops_`, by the class whose operations it points to.
  pub ops : Option Class
  pub allocator : Bool
  -- `storage_.ptr`; `none` while it is not initialised.
  pub ptr : Option ℕ

abbrev pub empty_message : Message
empty_message = record { id = 0; mode = empty; ops = none; allocator = false; ptr = none }

-- A payload that is alive.
pub record Object (V : Type 0) : Type 0 where
  pub class : Class
  pub value : V

-- The message objects by address, and the payloads in their inline storage and in the blocks.
pub record Heap (V : Type 0) : Type 0 where
  pub messages : ℕ → Option Message
  pub inlined : ℕ → Option (Object V)
  pub blocks : ℕ → Option (Object V)

-- An operation returns, throws, or has undefined behaviour.
pub data Result (V : Type 0) : Type 0 where
  done thrown : Heap V → Result V
  undefined : Result V

-- The pointer is copied in pool mode only.
pub moved_ptr : StorageMode → Option ℕ → Option ℕ → Option ℕ
moved_ptr pool mine others = others
moved_ptr _ mine others = mine

pub emptied : Message → Message
emptied m = record m { id = 0; mode = empty; ops = none; allocator = false }

-- The choice of `make`, with `alignof(std::max_align_t)`.
pub is_inline : ℕ → Class → Bool
is_inline max_align c = leb c.size 64 && leb c.align max_align && c.nothrow_move

-- `isPool` of `opsFor`.
pub is_pool : ℕ → Class → Bool
is_pool max_align c = ltb 64 c.size || ltb max_align c.align || not c.nothrow_move

pub made : Class → StorageMode → Message
made c mode = record { id = c.id; mode = mode; ops = some c; allocator = false; ptr = none }

-- The first class of `visit` with the message's id.
pub visit_loop : List Class → ℕ → Option Class
visit_loop [] id = none
visit_loop (c ∷ cs) id = let rest = visit_loop cs id in if id == c.id then some c else rest

module _ {V : Type 0} where
  infixl 5 ◌>>=◌
  abbrev pub ◌>>=◌ : Result V → (Heap V → Result V) → Result V
  done h >>= f = f h
  thrown h >>= f = thrown h
  undefined >>= f = undefined

  abbrev pub with_message : ℕ → Option Message → Heap V → Heap V
  with_message a m h = record h { messages = update h.messages a m }

  abbrev pub with_inlined : ℕ → Option (Object V) → Heap V → Heap V
  with_inlined a o h = record h { inlined = update h.inlined a o }

  abbrev pub with_block : ℕ → Option (Object V) → Heap V → Heap V
  with_block p o h = record h { blocks = update h.blocks p o }

  -- What `data()` points to.
  pub data_at : StorageMode → ℕ → Option ℕ → Heap V → Option (Object V)
  data_at inline a ptr h = h.inlined a
  data_at empty a none h = none
  data_at empty a (some p) h = h.blocks p
  data_at pool a none h = none
  data_at pool a (some p) h = h.blocks p

  pub payload : ℕ → Heap V → Option (Object V)
  unfolding data_at
  payload a h = elim (h.messages a) [ none ↦ none | some m ↦ data_at m.mode a m.ptr h ]

  -- `ops_->destroy`: the place must hold a payload.
  pub destroy_inline : ℕ → Option (Object V) → Heap V → Result V
  destroy_inline a none h = undefined
  destroy_inline a (some o) h = done (with_inlined a none h)

  pub destroy_block : Option ℕ → Heap V → Result V
  destroy_block none h = undefined
  destroy_block (some p) h = elim (h.blocks p) [
    | none ↦ undefined
    | some o ↦ done (with_block p none h)
  ]

  pub destroy_payload : StorageMode → Option Class → ℕ → Option ℕ → Heap V → Result V
  unfolding destroy_inline destroy_block
  destroy_payload empty ops a ptr h = done h
  destroy_payload inline none a ptr h = done h
  destroy_payload inline (some c) a ptr h = destroy_inline a (h.inlined a) h
  destroy_payload pool none a ptr h = done h
  destroy_payload pool (some c) a ptr h = destroy_block ptr h

  pub destroy : ℕ → Message → Heap V → Result V
  unfolding destroy_payload
  destroy a m h = destroy_payload m.mode m.ops a m.ptr h

  pub on_message : ℕ → (Message → Heap V → Result V) → Heap V → Result V
  on_message a f h = elim (h.messages a) [ none ↦ undefined | some m ↦ f m h ]

  -- `~Message()`.
  pub destruct : ℕ → Heap V → Result V
  unfolding on_message destroy
  destruct a = on_message a (λ m h. destroy a m h >>= λ h'. done (with_message a none h'))

  -- `ops_->move` of an inline payload, or the pointer of a block.
  pub move_inline : ℕ → ℕ → Option (Object V) → Heap V → Result V
  move_inline a b none h = undefined
  move_inline a b (some o) h = done (with_inlined b none (with_inlined a (some o) h))

  pub move_payload : StorageMode → Option Class → ℕ → ℕ → Heap V → Result V
  unfolding move_inline
  move_payload inline none a b h = undefined
  move_payload inline (some c) a b h = move_inline a b (h.inlined b) h
  move_payload _ ops a b h = done h

  -- What the message at `a`, whose pointer was `ptr`, takes from that at `b`.
  pub take_over : ℕ → ℕ → Option ℕ → Message → Heap V → Result V
  unfolding move_payload moved_ptr emptied
  take_over a b ptr other h =
      move_payload other.mode other.ops a b
        (with_message a (some (record other { ptr = moved_ptr other.mode ptr other.ptr })) h)
      >>= λ h'. done (with_message b (some (emptied other)) h')

  -- `Message(Message&&)` at an address where there is no message yet.
  pub move_construct : ℕ → ℕ → Heap V → Result V
  unfolding on_message take_over
  move_construct a b = on_message b (λ other. take_over a b none other)

  pub move_assign : ℕ → ℕ → Heap V → Result V
  unfolding on_message destroy take_over
  move_assign a b = on_message a (λ mine.
      on_message b
        (λ other h. if a == b then done h else destroy a mine h >>= take_over a b mine.ptr other))

  -- The arguments of a construction: the block that the allocator returns, and whether the payload's
  -- constructor throws.
  module _ (max_align : ℕ) where
    -- Where `make` throws, its `msg` is destroyed on the way out.
    pub unwind : ℕ → Message → Heap V → Result V
    unfolding destroy
    unwind a m h = destroy a m h >>= λ h'. thrown h'

    pub make : ℕ → Class → V → Option ℕ → Bool → Heap V → Result V
    unfolding is_inline unwind made
    make a c v memory throws h =
        if is_inline max_align c
        then (if throws
            then unwind a (made c inline) h
            else done (
                with_message a (some (made c inline))
                  (with_inlined a (some (record { class = c; value = v })) h)))
        else elim memory [
          | none ↦ unwind a (made c pool) h
          | some p ↦
              if throws
              then unwind a (made c pool) h
              else done (
                  with_message a (some (record (made c pool) { ptr = some p; allocator = true }))
                    (with_block p (some (record { class = c; value = v })) h))
        ]

    pub clone_inline : ℕ → Message → Bool → Option (Object V) → Heap V → Result V
    clone_inline a m throws none h = undefined
    clone_inline a m throws (some o) h =
        if throws
        then thrown h
        else done (
            with_message a
              (some
                (record { id = m.id; mode = inline; ops = m.ops; allocator = false; ptr = none }))
              (with_inlined a (some o) h))

    pub clone_block : ℕ → Message → Option ℕ → Bool → Option (Object V) → Heap V → Result V
    clone_block a m memory throws none h = undefined
    clone_block a m none throws (some o) h = thrown h
    clone_block a m (some p) throws (some o) h =
        if throws
        then thrown h
        else done (
            with_message a
              (some
                (record { id = m.id; mode = pool; ops = m.ops; allocator = true; ptr = some p }))
              (with_block p (some o) h))

    pub clone_payload :
        ℕ
        → Message
        → StorageMode
        → Option Class
        → Option ℕ
        → Bool
        → Option (Object V)
        → Heap V
        → Result V
    unfolding clone_inline clone_block
    clone_payload a m empty ops memory throws source h =
        done (with_message a (some empty_message) h)
    clone_payload a m inline none memory throws source h = undefined
    clone_payload a m inline (some c) memory throws source h =
        if not (is_pool max_align c) && c.copyable
        then clone_inline a m throws source h
        else done (with_message a (some empty_message) h)
    clone_payload a m pool none memory throws source h = undefined
    clone_payload a m pool (some c) memory throws source h =
        if is_pool max_align c && c.copyable
        then clone_block a m memory throws source h
        else done (with_message a (some empty_message) h)

    pub clone : ℕ → ℕ → Option ℕ → Bool → Heap V → Result V
    unfolding on_message clone_payload payload is_pool
    clone a b memory throws =
        on_message b (λ m h. clone_payload a m m.mode m.ops memory throws (payload b h) h)

  -- `as<T>()` reads whatever lies there as a `T`: the class that it is read as, and the payload.
  pub visit_as : Option Class → Option (Object V) → Option (Class × Object V)
  visit_as none o = none
  visit_as (some c) none = none
  visit_as (some c) (some o) = some (c, o)

  pub visit : List Class → ℕ → Heap V → Option (Class × Object V)
  unfolding visit_loop visit_as payload
  visit classes a h = elim (h.messages a) [
    | none ↦ none
    | some m ↦ visit_as (visit_loop classes m.id) (payload a h)
  ]
