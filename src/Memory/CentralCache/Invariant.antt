-- ===== src/Memory/CentralCache/Invariant.antt =====
-- The invariant of the central cache, and that each operation keeps it.
use v2_engine.Common.{
  ℕ, zero, suc, ◌+◌, ◌-◌, ◌%◌, ◌^◌, ◌≤◌, ◌<◌, ◌≡◌, ◌≢◌, refl, ap, ◌∙◌, sym, subst, Option, none,
  some, List, [], ◌∷◌, ◌++◌, length, arith, ◌==◌, update, update_ne, Option-cases, inl, inr,
  Bool-cases, All, ==_iff,
}
use native.Mathlib.Decide.{dec_lt}
use v2_engine.Common.Maps.{lookup, lookup-insert, nat_key}
use v2_engine.Memory.Slab.{Slab, SlabState, empty, partial, full, state}
use v2_engine.Memory.Slab
use v2_engine.Memory.Slab.Invariant.{create-used}
use v2_engine.Memory.CentralCache.{
  CentralCache, change, deallocate, return_each, transition_state, return_batch, fetch_partial,
  add_slab, choose_slab, allocate, fetch_new, fetch_batch, find_slab, emplace,
}
use v2_engine.Memory.CentralCache.Listed.{occurs, weight, change-Listed}

-- Each partial slab is listed once and no other is; no slab is in use before it is added; the map
-- leads to slabs that have been added.
pub record IsValid (c : CentralCache) : Type 0 where
  pub listed : (raw : ℕ) → occurs raw c.partial_slabs ≡ weight (state (c.slab raw))
  pub unused : (raw : ℕ) → c.slabs ≤ raw → (c.slab raw).used_count ≡ 0
  pub mapped : (p raw : ℕ) → lookup p c.slab_map ≡ some raw → raw < c.slabs

pub counting : {c : CentralCache} (n : ℕ) → IsValid c → IsValid (record c { allocated_blocks = n })
counting n v = record { listed = v.listed; unused = v.unused; mapped = v.mapped }

change_fields :
    (raw : ℕ) (s : Slab) (c : CentralCache)
    → ((change raw s c).slabs ≡ c.slabs)
      × ((change raw s c).slab ≡ update c.slab raw s)
      × ((change raw s c).slab_map ≡ c.slab_map)
unfolding change transition_state
change_fields raw s c = (refl, refl, refl)

pub change-IsValid :
    (raw : ℕ) (s : Slab) {c : CentralCache} → raw < c.slabs → IsValid c → IsValid (change raw s c)
unfolding change transition_state
change-IsValid raw s {c} h v = record {
  listed = change-Listed raw s c v.listed;
  unused = λ r q. ap Slab.used_count (update_ne c.slab raw r s (ne r q)) ∙ v.unused r q;
  mapped = v.mapped;
}
  where
    ne : (r : ℕ) → c.slabs ≤ r → r ≢ raw
    ne r q = omega arith

weight_unused : (s : Slab) → s.used_count ≡ 0 → weight (state s) ≡ 0
unfolding state
weight_unused s h = ground arith

-- What is listed has been added.
listed-below :
    {c : CentralCache} → IsValid c → (raw : ℕ) → 0 < occurs raw c.partial_slabs → raw < c.slabs
listed-below {c} v raw h = elim (dec_lt raw c.slabs) [
  | yes q ↦ q
  | no q ↦
      absurd (omega (arith, v.listed raw, weight_unused (c.slab raw) (v.unused raw (omega arith))))
]

below-All :
    (n : ℕ) (raws : List ℕ) → ((raw : ℕ) → 0 < occurs raw raws → raw < n) → All (λ r. r < n) raws
unfolding occurs
below-All n [] h = tt
below-All n (r ∷ raws) h = (h r (ground arith), below-All n raws (λ raw q. h raw (omega arith)))

pub listed-All : {c : CentralCache} → IsValid c → All (λ r. r < c.slabs) c.partial_slabs
listed-All {c} v = below-All c.slabs c.partial_slabs (listed-below v)

-- `deallocate` keeps the invariant, also for a pointer that no slab holds.
pub deallocate-IsValid : (ptr : ℕ) {c : CentralCache} → IsValid c → IsValid (deallocate ptr c)
unfolding deallocate find_slab
deallocate-IsValid ptr {c} v = elim (Option-cases (find_slab ptr c)) [
  | inl e ↦ rw (e, deallocate) v
  | inr (raw, e) ↦ rw (e, deallocate) (change-IsValid raw _ (v.mapped _ raw e) (counting _ v))
]

return_each-IsValid : (ps : List ℕ) {c : CentralCache} → IsValid c → IsValid (return_each ps c).1
unfolding return_each find_slab
return_each-IsValid [] v = v
return_each-IsValid (p ∷ ps) {c} v = elim (Option-cases (find_slab p c)) [
  | inl e ↦ rw (e, return_each) (return_each-IsValid ps v)
  | inr (raw, e) ↦
      rw (e, return_each) (return_each-IsValid ps (change-IsValid raw _ (v.mapped _ raw e) v))
]

-- So does `returnBatch`.
pub return_batch-IsValid :
    (ps : List ℕ) {c : CentralCache} → IsValid c → IsValid (return_batch ps c).1
unfolding return_batch
return_batch-IsValid ps v = counting _ (return_each-IsValid ps v)

fetch_partial-IsValid :
    (raws : List ℕ) (n : ℕ) {c : CentralCache}
    → All (λ r. r < c.slabs) raws
    → IsValid c
    → IsValid (fetch_partial raws n c).1
unfolding fetch_partial
fetch_partial-IsValid [] n a v = v
fetch_partial-IsValid (raw ∷ raws) zero a v = v
fetch_partial-IsValid (raw ∷ raws) (suc n) {c} a v =
    fetch_partial-IsValid raws _ (rw (change_fields raw _ c).0 a.1) (change-IsValid raw _ a.0 v)

-- What `addSlab` leaves, with the new slab in place.
abbrev pub extended : CentralCache → Slab → CentralCache
extended c s = record c {
  slabs = suc c.slabs;
  slab = update c.slab c.slabs s;
  slab_map = emplace s.memory c.slabs c.slab_map;
}

extended-IsValid :
    {c : CentralCache} (s : Slab) → s.used_count ≡ 0 → IsValid c → IsValid (extended c s)
unfolding emplace
extended-IsValid {c} s h v = record {
  listed = λ raw. v.listed raw ∙ elim (Bool-cases (raw == c.slabs)) [
    | inl e ↦ rw e (
        ap (λ r. weight (state (c.slab r))) ((==_iff raw c.slabs).0 e)
        ∙ weight_unused (c.slab c.slabs) (v.unused c.slabs (omega arith))
        ∙ sym (weight_unused s h))
    | inr e ↦ rw e
  ];
  unused = λ raw q.
      ap Slab.used_count (update_ne c.slab c.slabs raw s (λ e. absurd (omega (arith, e))))
      ∙ v.unused raw (omega arith);
  mapped = λ p raw e. elim (Option-cases (lookup s.memory c.slab_map)) [
    | inl none_there ↦
        ground (arith, none_there, lookup-insert s.memory p c.slabs c.slab_map, v.mapped p raw, e)
    | inr (w, there) ↦ ground (arith, there, v.mapped p raw, e)
  ];
}

module _ (new : ℕ → ℕ) where
  pub add_slab_cases :
      (c : CentralCache) {c' : CentralCache} {raw : ℕ}
      → add_slab new c ≡ some (raw, c')
      → (s : Slab) × (Slab.create (new c.slabs) c.block_size c.slab_size ≡ some s)
        × (raw ≡ c.slabs)
        × (c' ≡ extended c s)
  unfolding add_slab
  add_slab_cases c e = elim (Option-cases (Slab.create (new c.slabs) c.block_size c.slab_size)) [
    | inl q ↦ absurd (none_case q)
    | inr (s, q) ↦ (s, q, ground (arith, q, e), ground (arith, q, e))
  ]
    where
      none_case : Slab.create (new c.slabs) c.block_size c.slab_size ≡ none → ⊥
      none_case q = ground (arith, q, e)

  add_slab-IsValid :
      {c c' : CentralCache} {raw : ℕ}
      → IsValid c
      → add_slab new c ≡ some (raw, c')
      → IsValid c' × (raw < c'.slabs)
  add_slab-IsValid {c} {c'} {raw} v e =
      let (s, q, at, is) = add_slab_cases c e in
      rw (is, at) (extended-IsValid s (create-used _ _ _ q) v, omega arith)

  choose_slab-IsValid :
      (raws : List ℕ) {c d : CentralCache} {raw : ℕ}
      → All (λ r. r < c.slabs) raws
      → IsValid c
      → choose_slab new raws c ≡ some (raw, d)
      → IsValid d × (raw < d.slabs)
  unfolding choose_slab
  choose_slab-IsValid [] a v e = add_slab-IsValid v e
  choose_slab-IsValid (r ∷ rs) {c} {d} {raw} a v e =
      let same : d ≡ c = ground (arith, e) in
      let first : raw ≡ r = ground (arith, e) in rw (same, first) (v, a.0)

  -- `allocate` keeps the invariant, whether it takes a partial slab or adds one.
  pub allocate-IsValid :
      {c c' : CentralCache} {ptr : Option ℕ}
      → IsValid c
      → allocate new c ≡ some (ptr, c')
      → IsValid c'
  unfolding allocate
  allocate-IsValid {c} {c'} v e = elim (Option-cases (choose_slab new c.partial_slabs c)) [
    | inl q ↦ absurd (nothing q)
    | inr ((raw, d), q) ↦
        let (w, h) = choose_slab-IsValid c.partial_slabs (listed-All v) v q in
        subst IsValid (sym (result raw d q)) (change-IsValid raw _ h (counting _ w))
  ]
    where
      nothing : choose_slab new c.partial_slabs c ≡ none → ⊥
      nothing q = ground (arith, q, e)

      result :
          (raw : ℕ) (d : CentralCache)
          → choose_slab new c.partial_slabs c ≡ some (raw, d)
          → c'
            ≡ change raw
                (Slab.allocate (d.slab raw)).1
                (record d { allocated_blocks = (d.allocated_blocks + 1) % 2 ^ 64 })
      result raw d q = ground (arith, q, e)

  fetch_new-IsValid :
      (fuel n : ℕ) {c c' : CentralCache} {out : List ℕ}
      → IsValid c
      → fetch_new new fuel n c ≡ some (out, c')
      → IsValid c'
  unfolding fetch_new
  fetch_new-IsValid fuel zero {c} v e = subst IsValid (ground (arith, e)) v
  fetch_new-IsValid zero (suc n) v e = cc
  fetch_new-IsValid (suc fuel) (suc n) {c} {c'} v e = elim (Option-cases (add_slab new c)) [
    | inl q ↦ absurd (nothing q)
    | inr ((raw, d), q) ↦
        let (w, h) = add_slab-IsValid v q in
        let s : Slab = (Slab.allocate_batch (suc n) (d.slab raw)).1 in
        let left : ℕ = suc n - length (Slab.allocate_batch (suc n) (d.slab raw)).0 in
        let changed : IsValid (change raw s d) = change-IsValid raw s h w in
        elim (Bool-cases (Slab.is_full s)) [
          | inl b ↦ subst IsValid {x = change raw s d} {y = c'} (ground (arith, q, b, e)) changed
          | inr b ↦ elim (Option-cases (fetch_new new fuel left (change raw s d))) [
            | inl r ↦ absurd (ground (arith, q, b, r, e))
            | inr ((outs, rest), r) ↦
                subst IsValid {x = rest} {y = c'} (ground (arith, q, b, r, e))
                  (fetch_new-IsValid fuel left changed r)
          ]
        ]
  ]
    where
      nothing : add_slab new c ≡ none → ⊥
      nothing q = ground (arith, q, e)

  -- `fetchBatch` keeps the invariant, through the partial slabs that it empties and the slabs that it
  -- adds.
  pub fetch_batch-IsValid :
      (n : ℕ) {c c' : CentralCache} {out : List ℕ}
      → IsValid c
      → fetch_batch new n c ≡ some (out, c')
      → IsValid c'
  unfolding fetch_batch
  fetch_batch-IsValid n {c} {c'} v e =
      let first : CentralCache = (fetch_partial c.partial_slabs n c).1 in
      let got : List ℕ = (fetch_partial c.partial_slabs n c).0 in
      let w : IsValid first = fetch_partial-IsValid c.partial_slabs n (listed-All v) v in
      elim (Option-cases (fetch_new new (suc n) (n - length got) first)) [
        | inl q ↦ absurd (ground (arith, q, e))
        | inr ((outs, d), q) ↦
            subst IsValid
              {x = record d {
                allocated_blocks = (d.allocated_blocks + length (got ++ outs)) % 2 ^ 64;
              }}
              {y = c'} (ground (arith, q, e))
              (counting _ (fetch_new-IsValid (suc n) (n - length got) w q))
      ]
