-- ===== src/Memory/CentralCache/Listed.antt =====
-- `partialSlabs_` lists each partial slab once, and no other slab.
use v2_engine.Common.{
  ℕ, ◌+◌, ◌≡◌, ◌∙◌, List, [], ◌∷◌, ◌++◌, arith, ◌==◌, ==_refl, if◌then◌else◌, update, inl, inr,
  Bool-cases,
}
use v2_engine.Memory.Slab.{Slab, SlabState, empty, partial, full, state}
use v2_engine.Memory.CentralCache.{
  CentralCache, remove, relist, same_state, transition_state, change,
}

unfoldable pub occurs : ℕ → List ℕ → ℕ
occurs x [] = 0
occurs x (y ∷ ys) = (if y == x then 1 else 0) + occurs x ys

abbrev pub weight : SlabState → ℕ
weight empty = 0
weight partial = 1
weight full = 0

-- How often each slab is listed.
abbrev pub Listed : CentralCache → Type 0
Listed c = (raw : ℕ) → occurs raw c.partial_slabs ≡ weight (state (c.slab raw))

occurs-remove :
    (x y : ℕ) (ys : List ℕ) → occurs x (remove y ys) ≡ (if y == x then 0 else occurs x ys)
unfolding occurs remove
occurs-remove x y [] = ground arith
occurs-remove x y (z ∷ zs) = ground (arith, occurs-remove x y zs)

occurs-snoc :
    (x y : ℕ) (ys : List ℕ) → occurs x (ys ++ y ∷ []) ≡ occurs x ys + (if y == x then 1 else 0)
unfolding occurs
occurs-snoc x y [] = ground arith
occurs-snoc x y (z ∷ zs) = ground (arith, occurs-snoc x y zs)

occurs-relist :
    (before after : SlabState) (raw x : ℕ) (slabs : List ℕ)
    → occurs raw slabs ≡ weight before
    → occurs x (relist before after raw slabs) ≡ (if x == raw then weight after else occurs x slabs)
unfolding relist same_state
occurs-relist empty empty raw x slabs h = ground arith
occurs-relist empty partial raw x slabs h = ground (arith, occurs-snoc x raw slabs)
occurs-relist empty full raw x slabs h = ground arith
occurs-relist partial empty raw x slabs h = ground (arith, occurs-remove x raw slabs)
occurs-relist partial partial raw x slabs h = ground arith
occurs-relist partial full raw x slabs h = ground (arith, occurs-remove x raw slabs)
occurs-relist full empty raw x slabs h = ground arith
occurs-relist full partial raw x slabs h = ground (arith, occurs-snoc x raw slabs)
occurs-relist full full raw x slabs h = ground arith

-- Any change of one slab keeps the list right.
pub change-Listed : (raw : ℕ) (s : Slab) (c : CentralCache) → Listed c → Listed (change raw s c)
unfolding change transition_state
change-Listed raw s c h x =
    occurs-relist (state (c.slab raw)) (state (update c.slab raw s raw)) raw x c.partial_slabs
      (h raw)
    ∙ elim (Bool-cases (x == raw)) [ inl e ↦ rw (e, ==_refl raw) | inr e ↦ rw e (h x) ]
