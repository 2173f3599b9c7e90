-- ===== src/Container/RingBuffer/Bytes.antt =====
-- What a write and a read do to the bytes that a valid buffer holds.
use v2_engine.Common.{
  ℕ, ◌+◌, ◌-◌, ◌%◌, ◌≤◌, ◌<◌, ◌≡◌, List, ◌++◌, length, get_or, arith, take, drop, min, ◌∙◌, ap, ap₂,
  sym, length-take, length-drop, ◌⊎◌, inl, inr,
}
use native.Mathlib.Nat.{mod-add-mod}
use v2_engine.Common.Modular.{mod_once}
use v2_engine.Container.RingBuffer.{RingBuffer, capacity, blit, write, read, add_size}
use v2_engine.Container.RingBuffer.Invariant.{IsValid, byte_at, contents}
use v2_engine.Container.RingBuffer.Gather.{
  gather, gather_ext, length-gather, gather-add, take-gather, slice-gather, get_or-blit_outside,
  get_or-blit_inside, get_or-drop, get_or-take, length-blit,
}

-- Two copies, the second to the front of the buffer and short of the first.
module _ (buf : List ℕ) (head : ℕ) (xs ys : List ℕ) (first : head + length xs ≤ length buf)
    (second : length ys ≤ head) where
  two_copies_old :
      (p : ℕ)
      → length ys ≤ p
      → (p < head) ⊎ (head + length xs ≤ p)
      → get_or (blit (blit buf head xs) 0 ys) p 0 ≡ get_or buf p 0
  two_copies_old p h out =
      get_or-blit_outside (blit buf head xs) 0 ys p (omega (arith, length-blit buf head xs))
        (inr (omega arith))
      ∙ get_or-blit_outside buf head xs p first out

  two_copies_first :
      (i : ℕ) → i < length xs → get_or (blit (blit buf head xs) 0 ys) (head + i) 0 ≡ get_or xs i 0
  two_copies_first i lt =
      get_or-blit_outside (blit buf head xs) 0 ys (head + i)
        (omega (arith, length-blit buf head xs)) (inr (omega arith))
      ∙ get_or-blit_inside buf head xs i first lt

  two_copies_second :
      (i : ℕ) → i < length ys → get_or (blit (blit buf head xs) 0 ys) i 0 ≡ get_or ys i 0
  two_copies_second i lt =
      ap (λ k. get_or (blit (blit buf head xs) 0 ys) k 0) {y = 0 + i} (omega arith)
      ∙ get_or-blit_inside (blit buf head xs) 0 ys i (omega (arith, length-blit buf head xs)) lt

pub length-write :
    (r : RingBuffer) (bytes : List ℕ) (size : ℕ)
    → length (write r bytes size).buffer ≡ length r.buffer
unfolding write
length-write r bytes size = length-blit _ 0 _ ∙ length-blit r.buffer r.head _

module _ {r : RingBuffer} (bytes : List ℕ) (size : ℕ) (v : IsValid r)
    (h : size ≤ length r.buffer - r.count) (hb : size ≤ length bytes) where
  chunk : ℕ
  chunk = min size (length r.buffer - r.head)

  pieces :
      (length (take chunk bytes) ≡ chunk)
      × (length (take (size - chunk) (drop chunk bytes)) ≡ size - chunk)
  unfolding chunk
  pieces = omega (
    arith,
    length-take chunk bytes,
    length-take (size - chunk) (drop chunk bytes),
    length-drop chunk bytes,
  )

  -- Where the head stands: at most once round from the tail.
  head_cases :
      ((r.head ≡ r.tail + r.count) × (r.tail + r.count < length r.buffer))
      ⊎ ((r.head + length r.buffer ≡ r.tail + r.count) × (length r.buffer ≤ r.tail + r.count))
  head_cases =
      elim (mod_once (r.tail + r.count) (length r.buffer) (omega (arith, v.tail_in, v.count_in))) [
        | inl q ↦ inl (v.head_at ∙ q.0, q.1)
        | inr q ↦ inr (omega (arith, v.head_at, q.0), q.1)
      ]

  fits :
      (r.head + length (take chunk bytes) ≤ length r.buffer)
      × (length (take (size - chunk) (drop chunk bytes)) ≤ r.head)
  unfolding chunk
  fits = omega (arith, pieces, head_cases, v.tail_in, v.count_in)

  place_old :
      (i : ℕ)
      → i < r.count
      → let p = (r.tail + i) % length r.buffer in
        (length (take (size - chunk) (drop chunk bytes)) ≤ p)
        × ((p < r.head) ⊎ (r.head + length (take chunk bytes) ≤ p))
  unfolding chunk
  place_old i lt = ground (
    arith,
    pieces,
    head_cases,
    v,
    mod_once (r.tail + i) (length r.buffer) (omega (arith, v.tail_in, v.count_in)),
  )

  -- Bytes that are held keep their place under a write.
  byte_at-write_old : (i : ℕ) → i < r.count → byte_at (write r bytes size) i ≡ byte_at r i
  unfolding write capacity chunk
  byte_at-write_old i lt =
      ap (λ c. get_or (write r bytes size).buffer ((r.tail + i) % c) 0) (length-write r bytes size)
      ∙ two_copies_old r.buffer r.head _ _ fits.0 fits.1 _ (place_old i lt).0 (place_old i lt).1

  place_new :
      (k : ℕ)
      → k < size
      → let p = (r.tail + (r.count + k)) % length r.buffer in
        ((k < chunk) × (p ≡ r.head + k)) ⊎ ((chunk ≤ k) × (p ≡ k - chunk))
  unfolding chunk
  place_new k lt = ground (
    arith,
    head_cases,
    v,
    mod_once (r.tail + (r.count + k)) (length r.buffer) (omega (arith, v.tail_in, v.count_in)),
  )

  -- The bytes that are written follow them.
  byte_at-write_new :
      (k : ℕ) → k < size → byte_at (write r bytes size) (r.count + k) ≡ get_or bytes k 0
  unfolding write capacity chunk
  byte_at-write_new k lt =
      ap (λ c. get_or (write r bytes size).buffer ((r.tail + (r.count + k)) % c) 0)
        (length-write r bytes size)
      ∙ elim (place_new k lt) [
        | inl (below, e) ↦
            ap (λ p. get_or (write r bytes size).buffer p 0) e
            ∙ two_copies_first r.buffer r.head _ _ fits.0 fits.1 k (omega (arith, pieces))
            ∙ get_or-take chunk k bytes below
        | inr (above, e) ↦
            ap (λ p. get_or (write r bytes size).buffer p 0) e
            ∙ two_copies_second r.buffer r.head _ _ fits.0 fits.1 (k - chunk)
                (omega (arith, pieces))
            ∙ get_or-take (size - chunk) (k - chunk) (drop chunk bytes) (omega arith)
            ∙ get_or-drop chunk (k - chunk) bytes
            ∙ ap (λ p. get_or bytes p 0) (omega arith)
      ]

  pub contents-write : contents (write r bytes size) ≡ contents r ++ take size bytes
  unfolding contents
  contents-write =
      ap (gather (byte_at (write r bytes size))) count
      ∙ gather-add r.count size (byte_at (write r bytes size))
      ∙ ap₂ ◌++◌ (gather_ext r.count _ _ byte_at-write_old)
          (gather_ext size _ _ byte_at-write_new ∙ sym (take-gather size bytes hb))
    where
      count : (write r bytes size).count ≡ r.count + size
      count = unfold write in omega (arith, v.small, v.count_in)

-- A read takes the oldest bytes and leaves the others.
module _ {r : RingBuffer} (size : ℕ) (v : IsValid r) (h : size ≤ r.count) where
  chunk_out : ℕ
  chunk_out = min size (length r.buffer - r.tail)

  bytes-read : (read r size).0 ≡ gather (byte_at r) size
  unfolding read capacity chunk_out
  bytes-read =
      ap₂ ◌++◌
        (slice-gather r.buffer r.tail chunk_out (omega (arith, v.tail_in))
          ∙ gather_ext chunk_out _ (byte_at r) near)
        (slice-gather r.buffer 0 (size - chunk_out) (omega (arith, v.tail_in, v.count_in))
          ∙ gather_ext (size - chunk_out) _ (λ i. byte_at r (chunk_out + i)) far)
      ∙ sym (gather-add chunk_out (size - chunk_out) (byte_at r))
      ∙ ap (gather (byte_at r)) (omega arith)
    where
      near : (i : ℕ) → i < chunk_out → get_or r.buffer (r.tail + i) 0 ≡ byte_at r i
      near i lt =
          ap (λ p. get_or r.buffer p 0)
            (omega (
              arith,
              v.tail_in,
              mod_once (r.tail + i) (length r.buffer) (omega (arith, v.tail_in)),
            ))

      far : (i : ℕ) → i < size - chunk_out → get_or r.buffer (0 + i) 0 ≡ byte_at r (chunk_out + i)
      far i lt =
          ap (λ p. get_or r.buffer p 0)
            (omega (
              arith,
              v.tail_in,
              v.count_in,
              mod_once (r.tail + (chunk_out + i)) (length r.buffer)
                  (omega (arith, v.tail_in, v.count_in)),
            ))

  pub contents-read : contents r ≡ (read r size).0 ++ contents (read r size).1
  unfolding contents
  contents-read =
      ap (gather (byte_at r)) {y = size + (r.count - size)} (omega arith)
      ∙ gather-add size (r.count - size) (byte_at r)
      ∙ ap₂ ◌++◌ (sym bytes-read) (unfold read capacity in gather_ext (r.count - size) _ _ later)
    where
      later : (i : ℕ) → i < r.count - size → byte_at r (size + i) ≡ byte_at (read r size).1 i
      later i lt =
          unfold read capacity in
          ap (λ p. get_or r.buffer p 0)
            (ap (λ k. k % length r.buffer) {y = r.tail + size + i} (omega arith)
              ∙ sym (mod-add-mod (r.tail + size) (length r.buffer) i)
              ∙ ap (λ k. (k % length r.buffer + i) % length r.buffer) {y = add_size r.tail size}
                  (omega (arith, v.small, v.tail_in, v.count_in)))

  pub length-read : length (read r size).0 ≡ size
  length-read = ap length bytes-read ∙ length-gather size (byte_at r)
