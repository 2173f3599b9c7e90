-- ===== src/Common/Modular.antt =====
-- Positions in a ring of variable size.
use Prim.Native.Nat.{ℕ, ◌+◌, ◌-◌, ◌%◌, ◌≤◌, ◌<◌}
use mathlib.Core.Path.{◌≡◌, ◌∙◌, ap}
use mathlib.Core.Logic.{◌⊎◌, inl, inr, ◌≢◌}
use native.Mathlib.Decide.{dec_lt}
use native.Mathlib.Nat.{mod-eq_of_lt, mod-eq-sub-mod, mod-add-mod, mod-lt}
use native.Mathlib.Omega.{arith}

-- A position that has gone round at most once.
pub mod_once :
    (x cap : ℕ) → x < cap + cap → ((x % cap ≡ x) × (x < cap)) ⊎ ((x % cap + cap ≡ x) × (cap ≤ x))
mod_once x cap lt = elim (dec_lt x cap) [
  | yes below ↦ inl (mod-eq_of_lt below, below)
  | no above ↦ inr (
    omega (
      arith,
      mod-eq-sub-mod {n = x} {m = cap} (omega arith),
      mod-eq_of_lt {n = x - cap} {m = cap} (omega arith),
    ),
    omega arith,
  )
]

-- Fewer than `cap` steps round the ring do not come back to the same place.
pub mod_ne : (p q cap : ℕ) → p < q → q < p + cap → p % cap ≢ q % cap
mod_ne p q cap lt near e = omega (
  arith,
  e,
  mod-lt p {m = cap} (omega arith),
  moved,
  mod_once (p % cap + (q - p)) cap (omega (arith, mod-lt p {m = cap} (omega arith))),
)
  where
    moved : (p % cap + (q - p)) % cap ≡ q % cap
    moved = mod-add-mod p cap (q - p) ∙ ap (λ k. k % cap) (omega arith)
