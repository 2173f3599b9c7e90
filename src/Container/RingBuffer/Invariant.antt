-- ===== src/Container/RingBuffer/Invariant.antt =====
-- The representation invariant of `RingBuffer`, and the bytes that a valid buffer holds.
use v2_engine.Common.{
  ℕ, ◌+◌, ◌-◌, ◌%◌, ◌^◌, ◌≤◌, ◌<◌, ◌≡◌, List, length, get_or, arith, length-replicate, replicate,
  ◌∙◌, ap, ap₂, sym,
}
use native.Mathlib.Nat.{mod-lt, mod-add-mod, zero-mod}
use v2_engine.Container.RingBuffer.{RingBuffer, create, capacity, free_space, write, read, add_size}
use v2_engine.Container.RingBuffer.Gather.{gather, length-gather, length-blit}

-- No vector of bytes is longer than `2 ^ 63 - 1`.
pub record IsValid (r : RingBuffer) : Type 0 where
  pub room : 0 < length r.buffer
  pub small : length r.buffer < 2 ^ 63
  pub tail_in : r.tail < length r.buffer
  pub count_in : r.count ≤ length r.buffer
  pub head_at : r.head ≡ (r.tail + r.count) % length r.buffer

-- The byte at distance `i` from the oldest.
abbrev pub byte_at : RingBuffer → ℕ → ℕ
byte_at r i = get_or r.buffer ((r.tail + i) % length r.buffer) 0

-- Oldest first.
unfoldable pub contents : RingBuffer → List ℕ
contents r = gather (byte_at r) r.count

pub length-contents : (r : RingBuffer) → length (contents r) ≡ r.count
unfolding contents
length-contents r = length-gather r.count (byte_at r)

pub free_space_lem : {r : RingBuffer} → IsValid r → free_space r ≡ length r.buffer - r.count
unfolding free_space capacity
free_space_lem v = omega arith

-- The constructor's buffer is valid.
pub create-IsValid : (size : ℕ) → 0 < size → size < 2 ^ 63 → IsValid (create size)
unfolding create
create-IsValid size h k =
    let len : length (replicate {A = ℕ} size 0) ≡ size = length-replicate {A = ℕ} size 0 in
    record {
      room = omega arith;
      small = omega arith;
      tail_in = omega arith;
      count_in = omega arith;
      head_at = omega (arith, zero-mod (length (replicate {A = ℕ} size 0)));
    }

-- A write of at most the free space leaves a valid buffer.
pub write-IsValid :
    {r : RingBuffer} (bytes : List ℕ) (size : ℕ)
    → IsValid r
    → size ≤ length r.buffer - r.count
    → IsValid (write r bytes size)
unfolding write capacity
write-IsValid {r} bytes size v h = rebuild (length-blit _ 0 _ ∙ length-blit r.buffer r.head _)
  where
    cap : ℕ
    cap = length r.buffer

    head_in : r.head < cap
    head_in = rw (v.head_at) (mod-lt (r.tail + r.count) v.room)

    moved : add_size r.head size % cap ≡ (r.tail + (r.count + size)) % cap
    moved =
        ap (λ k. k % cap) {y = r.head + size} (omega (arith, v.small, v.count_in))
        ∙ ap (λ k. (k + size) % cap) v.head_at
        ∙ mod-add-mod (r.tail + r.count) cap size
        ∙ ap (λ k. k % cap) (omega arith)

    rebuild : length (write r bytes size).buffer ≡ cap → IsValid (write r bytes size)
    rebuild e = record {
      room = omega (arith, e, v.room);
      small = omega (arith, e, v.small);
      tail_in = omega (arith, e, v.tail_in);
      count_in = omega (arith, e, v.small, v.count_in);
      head_at = moved ∙ ap₂ (λ a b. (r.tail + a) % b) (omega (arith, v.small, v.count_in)) (sym e);
    }

-- So does a read of at most the count.
pub read-IsValid :
    {r : RingBuffer} (size : ℕ) → IsValid r → size ≤ r.count → IsValid (read r size).1
unfolding read capacity
read-IsValid {r} size v h = record {
  room = v.room;
  small = v.small;
  tail_in = mod-lt _ v.room;
  count_in = omega (arith, v.count_in);
  head_at =
      v.head_at
      ∙ ap (λ k. k % length r.buffer) {y = r.tail + size + (r.count - size)} (omega arith)
      ∙ sym (mod-add-mod (r.tail + size) (length r.buffer) (r.count - size))
      ∙ ap (λ k. (k % length r.buffer + (r.count - size)) % length r.buffer)
          {y = add_size r.tail size} (omega (arith, v.small, v.tail_in, v.count_in));
}
