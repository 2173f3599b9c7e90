-- ===== src/Container/RingBuffer.antt =====
-- src/core/common/container/ring_buffer.hpp and ring_buffer.cpp: a byte FIFO over a fixed vector.
-- A `memcpy` between the buffer and the caller's memory is `blit` or `slice`; a null pointer is
-- `none`. `size_t` sums keep their wrap-around.
pub mod Gather
pub mod Invariant
pub mod Bytes
pub mod Fifo
mod Tests
use v2_engine.Common.{
  ℕ, zero, suc, ◌+◌, ◌-◌, ◌%◌, ◌^◌, min, Bool, Option, none, some, List, [], ◌∷◌, ◌++◌, length,
  get_or, set, take, drop, replicate, ltb, ◌==◌, if◌then◌else◌,
}

-- `enum Result` of return.hpp, as far as this class returns it.
pub data Status : Type 0 where
  ok fail invalid_arg : Status

pub record RingBuffer : Type 0 where
  pub buffer : List ℕ
  pub head : ℕ
  pub tail : ℕ
  pub count : ℕ

abbrev pub add_size : ℕ → ℕ → ℕ
add_size a b = (a + b) % 2 ^ 64

-- `std::vector<uint8_t>(size)`: `size` zero bytes.
pub create : ℕ → RingBuffer
create size = record { buffer = replicate size 0; head = 0; tail = 0; count = 0 }

pub capacity : RingBuffer → ℕ
capacity r = length r.buffer

pub free_space : RingBuffer → ℕ
unfolding capacity
free_space r = (capacity r + 2 ^ 64 - r.count) % 2 ^ 64

-- `memcpy(&buffer_[at], bytes, …)`.
pub blit : List ℕ → ℕ → List ℕ → List ℕ
blit buffer at [] = buffer
blit buffer at (x ∷ xs) = blit (set buffer at x) (suc at) xs

-- `memcpy(…, &buffer_[at], n)`.
pub slice : List ℕ → ℕ → ℕ → List ℕ
slice buffer at n = take n (drop at buffer)

-- The first chunk reaches to the end of the vector at most, the rest goes to its front.
pub write : RingBuffer → List ℕ → ℕ → RingBuffer
unfolding capacity
write r bytes size =
    let first_chunk = min size (capacity r - r.head) in
    record {
      buffer =
          blit (blit r.buffer r.head (take first_chunk bytes)) 0
            (take (size - first_chunk) (drop first_chunk bytes));
      head = add_size r.head size % capacity r;
      tail = r.tail;
      count = add_size r.count size;
    }

pub push : RingBuffer → Option (List ℕ) → ℕ → Status × RingBuffer
unfolding free_space write
push r none size = (invalid_arg, r)
push r (some bytes) size =
    if size == 0
    then (invalid_arg, r)
    else if ltb (free_space r) size
    then (fail, r)
    else (ok, write r bytes size)

pub read : RingBuffer → ℕ → List ℕ × RingBuffer
unfolding capacity slice
read r size =
    let first_chunk = min size (capacity r - r.tail) in
    (
      slice r.buffer r.tail first_chunk ++ slice r.buffer 0 (size - first_chunk),
      record r { tail = add_size r.tail size % capacity r; count = r.count - size },
    )

-- The flag says whether `out` is a valid pointer; the list is what is copied to it.
pub pop : RingBuffer → Bool → ℕ → Status × List ℕ × RingBuffer
unfolding read
pop r out size =
    if out
    then if size == 0
      then (invalid_arg, [], r)
      else if ltb r.count size
      then (fail, [], r)
      else (let (bytes, r') = read r size in (ok, bytes, r'))
    else (invalid_arg, [], r)

pub reset : RingBuffer → RingBuffer
reset r = record r { head = 0; tail = 0; count = 0 }

pub is_empty : RingBuffer → Bool
is_empty r = r.count == 0

pub is_full : RingBuffer → Bool
unfolding capacity
is_full r = r.count == capacity r
