-- ===== src/Container/RingBuffer/Fifo.antt =====
-- A bounded FIFO of bytes, and that a valid buffer implements it.
use v2_engine.Common.{
  ℕ, ◌+◌, ◌-◌, ◌≤◌, ◌<◌, ◌≡◌, Option, List, [], ◌∷◌, ◌++◌, length, arith, take, drop, some, none,
  Bool, true, false, ◌∙◌, ap, ap₂, sym, refl, ltb, ◌==◌, if◌then◌else◌, Bool-cases, ltb→ge,
  length-replicate, ◌^◌, inl, inr,
}
use v2_engine.Container.RingBuffer.{
  RingBuffer, create, Status, ok, fail, invalid_arg, push, pop, reset, read, write, free_space,
}
use v2_engine.Container.RingBuffer.Invariant.{
  IsValid, create-IsValid, contents, length-contents, free_space_lem, write-IsValid, read-IsValid,
}
use native.Mathlib.Nat.{zero-mod}
use v2_engine.Container.RingBuffer.Gather.{gather}
use v2_engine.Container.RingBuffer.Bytes.{contents-write, contents-read, length-read, length-write}

unfoldable pub fifo_push : ℕ → List ℕ → Option (List ℕ) → ℕ → Status × List ℕ
fifo_push cap q none size = (invalid_arg, q)
fifo_push cap q (some bytes) size =
    if size == 0
    then (invalid_arg, q)
    else if ltb cap (length q + size)
    then (fail, q)
    else (ok, q ++ take size bytes)

unfoldable pub fifo_pop : List ℕ → Bool → ℕ → Status × List ℕ × List ℕ
fifo_pop q out size =
    if out
    then if size == 0
      then (invalid_arg, [], q)
      else if ltb (length q) size
      then (fail, [], q)
      else (ok, take size q, drop size q)
    else (invalid_arg, [], q)

-- The caller's memory holds as many bytes as the call names.
abbrev pub Readable : Option (List ℕ) → ℕ → Type 0
Readable none size = Unit
Readable (some bytes) size = size ≤ length bytes

take-append-length : (xs ys : List ℕ) (n : ℕ) → length xs ≡ n → take n (xs ++ ys) ≡ xs
take-append-length xs ys n e = rw (← e) (go xs)
  where
    go : (zs : List ℕ) → take (length zs) (zs ++ ys) ≡ zs
    go [] = refl
    go (z ∷ zs) = ap (◌∷◌ z) (go zs)

drop-append-length : (xs ys : List ℕ) (n : ℕ) → length xs ≡ n → drop n (xs ++ ys) ≡ ys
drop-append-length xs ys n e = rw (← e) (go xs)
  where
    go : (zs : List ℕ) → drop (length zs) (zs ++ ys) ≡ ys
    go [] = refl
    go (z ∷ zs) = go zs

-- What a call leaves: a valid buffer of the same size that holds the list.
pub record Holds (cap : ℕ) (r : RingBuffer) (q : List ℕ) : Type 0 where
  pub valid : IsValid r
  pub size : length r.buffer ≡ cap
  pub bytes : contents r ≡ q

module _ {cap : ℕ} {r : RingBuffer} {q : List ℕ} (holds : Holds cap r q) where
  open holds use {valid}

  length_held : length q ≡ r.count
  length_held = ap length (sym holds.bytes) ∙ length-contents r

  same_room : (size : ℕ) → ltb (free_space r) size ≡ ltb cap (length q + size)
  same_room size = ground (arith, free_space_lem valid, length_held, holds.size, valid.count_in)

  written :
      (bytes : List ℕ) (size : ℕ)
      → size ≤ length bytes
      → ltb cap (length q + size) ≡ false
      → Holds cap (write r bytes size) (q ++ take size bytes)
  written bytes size readable room =
      let fits : size ≤ length r.buffer - r.count =
        omega (arith, ltb→ge _ _ room, length_held, holds.size) in
      record {
        valid = write-IsValid bytes size valid fits;
        size = length-write r bytes size ∙ holds.size;
        bytes =
            contents-write bytes size valid fits readable
            ∙ ap (λ xs. xs ++ take size bytes) holds.bytes;
      }

  abbrev PushRefines : Status × RingBuffer → Status × List ℕ → Type 0
  PushRefines (s, r') (s', q') = (s ≡ s') × Holds cap r' q'

  -- `push` returns what the FIFO returns and leaves the buffer holding what the FIFO holds, on each
  -- branch: a null pointer, a size of zero, too little room, and a write.
  pub push_refines :
      (src : Option (List ℕ)) (size : ℕ)
      → Readable src size
      → PushRefines (push r src size) (fifo_push cap q src size)
  unfolding push fifo_push
  push_refines none size readable = (refl, holds)
  push_refines (some bytes) size readable = elim (Bool-cases (size == 0)) [
    | inl zero_size ↦ rw zero_size (refl, holds)
    | inr positive ↦
        rw (positive, same_room size)
          (elim (Bool-cases (ltb cap (length q + size))) [
            | inl full ↦ rw full (refl, holds)
            | inr room ↦ rw room (refl, written bytes size readable room)
          ])
  ]

  same_count : (size : ℕ) → ltb r.count size ≡ ltb (length q) size
  same_count size = ap (λ n. ltb n size) (sym (length-contents r) ∙ ap length holds.bytes)

  fifo_read :
      (size : ℕ)
      → ltb (length q) size ≡ false
      → ((read r size).0 ≡ take size q) × Holds cap (read r size).1 (drop size q)
  fifo_read size room =
      let fits : size ≤ r.count = omega (arith, ltb→ge _ _ room, length_held) in
      let split : q ≡ (read r size).0 ++ contents (read r size).1 =
        sym holds.bytes ∙ contents-read size valid fits in
      let long : length (read r size).0 ≡ size = length-read size valid fits in
      (
        sym (ap (take size) split ∙ take-append-length (read r size).0 _ size long),
        record {
          valid = read-IsValid size valid fits;
          size = unfold read in holds.size;
          bytes = sym (ap (drop size) split ∙ drop-append-length (read r size).0 _ size long);
        },
      )

  -- So does `pop`, with the bytes that are copied out.
  pub pop_refines :
      (out : Bool) (size : ℕ)
      → let (s, got, r') = pop r out size in
        let (s', got', q') = fifo_pop q out size in (s ≡ s') × (got ≡ got') × Holds cap r' q'
  unfolding pop fifo_pop
  pop_refines false size = (refl, refl, holds)
  pop_refines true size = elim (Bool-cases (size == 0)) [
    | inl zero_size ↦ rw zero_size (refl, refl, holds)
    | inr positive ↦
        rw (positive, same_count size)
          (elim (Bool-cases (ltb (length q) size)) [
            | inl short ↦ rw short (refl, refl, holds)
            | inr room ↦ rw room (let (got, kept) = fifo_read size room in (refl, got, kept))
          ])
  ]

  -- `reset` empties it.
  pub reset_refines : Holds cap (reset r) []
  unfolding reset contents gather
  reset_refines = record {
    valid = record {
      room = valid.room;
      small = valid.small;
      tail_in = valid.room;
      count_in = omega arith;
      head_at = omega (arith, zero-mod (length r.buffer));
    };
    size = holds.size;
    bytes = refl;
  }

-- The calls of a client, and what it sees of each.
pub data Call : Type 0 where
  pushes : Option (List ℕ) → ℕ → Call
  pops : Bool → ℕ → Call
  resets : Call

abbrev pub Reply : Type 0
Reply = Status × List ℕ

pub run : RingBuffer → List Call → List Reply
run r [] = []
run r (pushes src size ∷ calls) = let (s, r') = push r src size in (s, []) ∷ run r' calls
run r (pops out size ∷ calls) = let (s, got, r') = pop r out size in (s, got) ∷ run r' calls
run r (resets ∷ calls) = (ok, []) ∷ run (reset r) calls

unfoldable pub run_fifo : ℕ → List ℕ → List Call → List Reply
run_fifo cap q [] = []
run_fifo cap q (pushes src size ∷ calls) =
    let (s, q') = fifo_push cap q src size in (s, []) ∷ run_fifo cap q' calls
run_fifo cap q (pops out size ∷ calls) =
    let (s, got, q') = fifo_pop q out size in (s, got) ∷ run_fifo cap q' calls
run_fifo cap q (resets ∷ calls) = (ok, []) ∷ run_fifo cap [] calls

abbrev pub AllReadable : List Call → Type 0
AllReadable [] = Unit
AllReadable (pushes src size ∷ calls) = Readable src size × AllReadable calls
AllReadable (pops out size ∷ calls) = AllReadable calls
AllReadable (resets ∷ calls) = AllReadable calls

-- For each list of calls whose sources hold the bytes that they name, a buffer that holds `q` in a
-- valid state gives the replies of the bounded FIFO that holds `q`.
pub ring_run_refines :
    (cap : ℕ) (calls : List Call) (r : RingBuffer) (q : List ℕ)
    → Holds cap r q
    → AllReadable calls
    → run r calls ≡ run_fifo cap q calls
unfolding run run_fifo
ring_run_refines cap [] r q holds readable = refl
ring_run_refines cap (pushes src size ∷ calls) r q holds readable =
    let (s, kept) = push_refines holds src size readable.0 in
    ap₂ ◌∷◌ (ap (λ t. (t, [])) s) (ring_run_refines cap calls _ _ kept readable.1)
ring_run_refines cap (pops out size ∷ calls) r q holds readable =
    let (s, got, kept) = pop_refines holds out size in
    ap₂ ◌∷◌ (ap₂ (λ t g. (t, g)) s got) (ring_run_refines cap calls _ _ kept readable)
ring_run_refines cap (resets ∷ calls) r q holds readable =
    ap (◌∷◌ (ok, [])) (ring_run_refines cap calls (reset r) [] (reset_refines holds) readable)

-- The constructor's buffer holds no byte.
pub create-Holds : (size : ℕ) → 0 < size → size < 2 ^ 63 → Holds size (create size) []
unfolding create contents gather
create-Holds size h k = record {
  valid = create-IsValid size h k;
  size = length-replicate size (the_zero);
  bytes = refl;
}
  where
    the_zero : ℕ
    the_zero = 0
