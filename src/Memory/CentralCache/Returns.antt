-- ===== src/Memory/CentralCache/Returns.antt =====
-- The loops of the central cache end: one new slab, and for a batch at most as many as its blocks.
use v2_engine.Common.{
  ℕ, zero, suc, ◌+◌, ◌-◌, ◌%◌, ◌^◌, ◌≤◌, ◌<◌, ◌≡◌, refl, ap, ◌∙◌, true, false, Option, some, List,
  [], ◌∷◌, ◌++◌, length, length-append, arith, Bool-cases, inl, inr,
}
use v2_engine.Memory.FreeList.{pop, pop_batch, is_empty}
use v2_engine.Memory.Slab.{Slab, create, power_of_two, initial}
use v2_engine.Memory.Slab
use v2_engine.Memory.CentralCache.{
  CentralCache, change, transition_state, fetch_partial, add_slab, choose_slab, allocate, fetch_new,
  fetch_batch,
}
use v2_engine.Memory.CentralCache.Invariant.{
  IsValid, extended, allocate-IsValid, fetch_batch-IsValid,
}

length-pop_batch :
    (n : ℕ) (bs : List ℕ) (c : ℕ) → length (pop_batch n (record { blocks = bs; count = c })).0 ≤ n
unfolding pop_batch pop
length-pop_batch zero bs c = omega arith
length-pop_batch (suc n) [] c = omega arith
length-pop_batch (suc n) (b ∷ bs) c = omega (arith, length-pop_batch n bs (c - 1))

-- A batch that leaves a block took one.
some-pop_batch :
    (n : ℕ) (bs : List ℕ) (c : ℕ)
    → is_empty (pop_batch (suc n) (record { blocks = bs; count = c })).1 ≡ false
    → 0 < length (pop_batch (suc n) (record { blocks = bs; count = c })).0
unfolding pop_batch pop is_empty
some-pop_batch n [] c h = cc
some-pop_batch n (b ∷ bs) c h = omega arith

length-allocate_batch : (n : ℕ) (s : Slab) → length (Slab.allocate_batch n s).0 ≤ n
unfolding Slab.allocate_batch
length-allocate_batch n s = length-pop_batch n s.free_list.blocks s.free_list.count

some-allocate_batch :
    (n : ℕ) (s : Slab)
    → Slab.is_full (Slab.allocate_batch (suc n) s).1 ≡ false
    → 0 < length (Slab.allocate_batch (suc n) s).0
unfolding Slab.allocate_batch Slab.is_full
some-allocate_batch n s h = some-pop_batch n s.free_list.blocks s.free_list.count h

length-fetch_partial :
    (raws : List ℕ) (n : ℕ) (c : CentralCache) → length (fetch_partial raws n c).0 ≤ n
unfolding fetch_partial
length-fetch_partial [] n c = omega arith
length-fetch_partial (raw ∷ raws) zero c = omega arith
length-fetch_partial (raw ∷ raws) (suc n) c =
    let (out, s) = Slab.allocate_batch (suc n) (c.slab raw) in
    omega (
      arith,
      length-append out (fetch_partial raws (suc n - length out) (change raw s c)).0,
      length-allocate_batch (suc n) (c.slab raw),
      length-fetch_partial raws (suc n - length out) (change raw s c),
    )

slab_size-fetch_partial :
    (raws : List ℕ) (n : ℕ) (c : CentralCache) → (fetch_partial raws n c).1.slab_size ≡ c.slab_size
unfolding fetch_partial change transition_state
slab_size-fetch_partial [] n c = refl
slab_size-fetch_partial (raw ∷ raws) zero c = refl
slab_size-fetch_partial (raw ∷ raws) (suc n) c =
    let (out, s) = Slab.allocate_batch (suc n) (c.slab raw) in
    slab_size-fetch_partial raws (suc n - length out) (change raw s c)

module _ (new : ℕ → ℕ) where
  add_slab-some :
      (c : CentralCache)
      → power_of_two c.slab_size ≡ true
      → add_slab new c ≡ some (c.slabs, extended c (initial (new c.slabs) c.block_size c.slab_size))
  unfolding add_slab create
  add_slab-some c h = rw (h, add_slab) refl

  -- The result of a batch of at most `n` blocks.
  record Fetches (n : ℕ) (result : Option (List ℕ × CentralCache)) : Type 0 where
    out : List ℕ
    left : CentralCache
    returns : result ≡ some (out, left)
    bounded : length out ≤ n

  fetch_new-Fetches :
      (fuel n : ℕ) (c : CentralCache)
      → n < fuel
      → power_of_two c.slab_size ≡ true
      → Fetches n (fetch_new new fuel n c)
  unfolding fetch_new change transition_state
  fetch_new-Fetches fuel zero c h p = record {
    out = [];
    left = c;
    returns = refl;
    bounded = omega arith;
  }
  fetch_new-Fetches zero (suc n) c h p = absurd (omega arith)
  fetch_new-Fetches (suc fuel) (suc n) c h p =
      let added : CentralCache = extended c (initial (new c.slabs) c.block_size c.slab_size) in
      let fetched : List ℕ = (Slab.allocate_batch (suc n) (added.slab c.slabs)).0 in
      let s : Slab = (Slab.allocate_batch (suc n) (added.slab c.slabs)).1 in
      let small : length fetched ≤ suc n = length-allocate_batch (suc n) (added.slab c.slabs) in
      elim (Bool-cases (Slab.is_full s)) [
        | inl full ↦ record {
          out = fetched;
          left = change c.slabs s added;
          returns = rw (add_slab-some c p, fetch_new) (rw full refl);
          bounded = small;
        }
        | inr more ↦
            let positive : 0 < length fetched = some-allocate_batch n (added.slab c.slabs) more in
            let rest =
              fetch_new-Fetches fuel (suc n - length fetched) (change c.slabs s added) (omega arith)
                p in
            record {
              out = fetched ++ rest.out;
              left = rest.left;
              returns = rw (add_slab-some c p, fetch_new) (rw more (rw rest.returns refl));
              bounded = omega (arith, length-append fetched rest.out, rest.bounded);
            }
      ]

  -- Where the slab size is a power of two, `fetchBatch` returns with the fuel that it is given: at most
  -- as many blocks as were asked for, and a cache that keeps the invariant.
  pub fetch_batch-returns :
      (n : ℕ) (c : CentralCache)
      → power_of_two c.slab_size ≡ true
      → IsValid c
      → (out : List ℕ) × (c' : CentralCache) × (fetch_batch new n c ≡ some (out, c'))
        × (length out ≤ n)
        × IsValid c'
  unfolding fetch_batch
  fetch_batch-returns n c p v =
      let first : CentralCache = (fetch_partial c.partial_slabs n c).1 in
      let got : List ℕ = (fetch_partial c.partial_slabs n c).0 in
      let few : length got ≤ n = length-fetch_partial c.partial_slabs n c in
      let f =
        fetch_new-Fetches (suc n) (n - length got) first (omega arith)
          (ap power_of_two (slab_size-fetch_partial c.partial_slabs n c) ∙ p) in
      let e : fetch_batch new n c
          ≡ some (
            got ++ f.out,
            record f.left {
              allocated_blocks = (f.left.allocated_blocks + length (got ++ f.out)) % 2 ^ 64;
            },
          ) =
        rw (f.returns, fetch_batch) refl in
      (_, _, e, omega (arith, length-append got f.out, f.bounded), fetch_batch-IsValid new n v e)

  -- Where the slab size is a power of two, `allocate` returns and keeps the invariant, whether it takes a
  -- partial slab or adds one.
  pub allocate-returns :
      (c : CentralCache)
      → power_of_two c.slab_size ≡ true
      → IsValid c
      → (ptr : Option ℕ) × (c' : CentralCache) × (allocate new c ≡ some (ptr, c')) × IsValid c'
  unfolding allocate choose_slab
  allocate-returns c p v = go c.partial_slabs refl
    where
      through :
          (raw : ℕ) (d : CentralCache)
          → choose_slab new c.partial_slabs c ≡ some (raw, d)
          → (ptr : Option ℕ) × (c' : CentralCache) × (allocate new c ≡ some (ptr, c')) × IsValid c'
      through raw d chosen =
          let s : Slab = (Slab.allocate (d.slab raw)).1 in
          let d' : CentralCache =
            change raw s (record d { allocated_blocks = (d.allocated_blocks + 1) % 2 ^ 64 }) in
          let returned : allocate new c ≡ some ((Slab.allocate (d.slab raw)).0, d') =
            rw (chosen, allocate) refl in
          (_, d', returned, allocate-IsValid new v returned)

      go :
          (raws : List ℕ)
          → c.partial_slabs ≡ raws
          → (ptr : Option ℕ) × (c' : CentralCache) × (allocate new c ≡ some (ptr, c')) × IsValid c'
      go [] e =
          let s : Slab = initial (new c.slabs) c.block_size c.slab_size in
          let chosen : choose_slab new c.partial_slabs c ≡ some (c.slabs, extended c s) =
            ap (λ raws. choose_slab new raws c) e ∙ add_slab-some c p in
          through c.slabs (extended c s) chosen
      go (raw ∷ raws) e = through raw c (ap (λ raws. choose_slab new raws c) e)
