-- ===== src/Memory/SizeClass/Search.antt =====
-- `index` finds the smallest class that fits.
use v2_engine.Common.{
  ℕ, zero, suc, ◌+◌, ◌≤◌, ◌<◌, ◌≡◌, refl, some, List, [], ◌∷◌, get_elem?, arith, false, Bool-cases,
  inl, inr, leb, leb→le,
}
use v2_engine.Memory.SizeClass.{Entry, table, max_alloc_size, index_from, index}

-- The entry found fits, and no entry before it does.
record Finds (i : ℕ) (es : List Entry) (size k : ℕ) : Type 0 where
  found : index_from i es size ≡ some (i + k)
  e : Entry
  at : get_elem? es k ≡ some e
  fits : size ≤ e.block_size
  first : (j : ℕ) (d : Entry) → j < k → get_elem? es j ≡ some d → d.block_size < size

-- Some entry is large enough.
abbrev Reaches : List Entry → ℕ → Type 0
Reaches [] size = ⊥
Reaches (e ∷ []) size = size ≤ e.block_size
Reaches (e ∷ d ∷ es) size = Reaches (d ∷ es) size

index_from-Finds :
    (i : ℕ) (es : List Entry) (size : ℕ) → Reaches es size → (k : ℕ) × Finds i es size k
unfolding index_from
index_from-Finds i [] size h = absurd h
index_from-Finds i (e ∷ []) size h = (
  0,
  record {
    found = ground arith;
    e = e;
    at = refl;
    fits = h;
    first = λ j d lt _. absurd (omega arith);
  },
)
index_from-Finds i (e ∷ d ∷ es) size h = elim (Bool-cases (leb size e.block_size)) [
  | inl here ↦ (
    0,
    record {
      found = ground arith;
      e = e;
      at = refl;
      fits = leb→le _ _ here;
      first = λ j c lt _. absurd (omega arith);
    },
  )
  | inr on ↦
      let (k, f) = index_from-Finds (suc i) (d ∷ es) size h in
      (
        suc k,
        record {
          found = ground (arith, f.found, on);
          e = f.e;
          at = f.at;
          fits = f.fits;
          first = later k f on;
        },
      )
]
  where
    later :
        (k : ℕ)
        → Finds (suc i) (d ∷ es) size k
        → leb size e.block_size ≡ false
        → (j : ℕ) (c : Entry) → j < suc k
        → get_elem? (e ∷ d ∷ es) j ≡ some c
        → c.block_size < size
    later k f on zero c lt q = ground arith
    later k f on (suc j) c lt q = f.first j c (omega arith) q

-- For a size from 1 to the maximum `index` returns a class of the table whose blocks hold the size,
-- while those of every class before it are too small.
pub index-smallest :
    (size : ℕ)
    → 0 < size
    → size ≤ max_alloc_size
    → (k : ℕ) × (e : Entry) × (index size ≡ some k)
      × (get_elem? table k ≡ some e)
      × (size ≤ e.block_size)
      × ((j : ℕ) (d : Entry) → j < k → get_elem? table j ≡ some d → d.block_size < size)
unfolding index
index-smallest size h m =
    let (k, f) = index_from-Finds 0 table size m in
    (k, f.e, ground (arith, f.found), f.at, f.fits, f.first)
