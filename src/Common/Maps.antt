-- ===== src/Common/Maps.antt =====
-- `std::unordered_map` as an association list. The code never depends on the order of iteration.
use mathlib.Core.Path.{◌≡◌, refl}
use mathlib.Core.Logic.{◌↔◌}
use mathlib.Core.Bool.{Bool, true}
use mathlib.Core.List.{List, [], ◌∷◌}
use mathlib.Core.Option.{Option, none, some}
use Prim.Native.Nat.{ℕ}
use Prim.Native.String.{String}
use native.Mathlib.Omega.{arith}
use text.Mathlib.Text.{◌==◌ as str_eq}
use text.Mathlib.TextEquality.{eq_iff}
use v2_engine.Common.Tests.{◌==◌, ==_iff, if◌then◌else◌}

-- Equality of keys.
pub record Key {ℓ} (K : Type ℓ) : Type ℓ where
  pub same : K → K → Bool
  pub same_iff : (a b : K) → (same a b ≡ true) ↔ (a ≡ b)

instance abbrev pub nat_key : Key ℕ
nat_key = record { same = ◌==◌; same_iff = ==_iff }

instance abbrev pub string_key : Key String
string_key = record { same = str_eq; same_iff = eq_iff }

abbrev pub AssocMap {ℓ κ} : Type ℓ → Type κ → Type (ℓ ⊔ κ)
AssocMap K V = List (K × V)

pub same_refl {ℓ} : {K : Type ℓ} ⦃key : Key K⦄ (k : K) → key.same k k ≡ true
same_refl ⦃key⦄ k = (key.same_iff k k).1 refl

module _ {ℓ κ} {K : Type ℓ} {V : Type κ} ⦃key : Key K⦄ where
  unfoldable pub lookup : K → AssocMap K V → Option V
  lookup k [] = none
  lookup k ((j, v) ∷ m) = if key.same j k then some v else lookup k m

  unfoldable pub erase : K → AssocMap K V → AssocMap K V
  erase k [] = []
  erase k ((j, v) ∷ m) = if key.same j k then erase k m else (j, v) ∷ erase k m

  unfoldable pub insert : K → V → AssocMap K V → AssocMap K V
  insert k v m = (k, v) ∷ erase k m

  pub lookup-erase :
      (k j : K) (m : AssocMap K V)
      → lookup j (erase k m) ≡ (if key.same k j then none else lookup j m)
  unfolding lookup erase
  lookup-erase k j [] = ground arith
  lookup-erase k j ((i, v) ∷ m) =
      ground (arith, key.same_iff k j, key.same_iff i k, key.same_iff i j, lookup-erase k j m)

  pub lookup-insert :
      (k j : K) (v : V) (m : AssocMap K V)
      → lookup j (insert k v m) ≡ (if key.same k j then some v else lookup j m)
  unfolding lookup insert
  lookup-insert k j v m = ground (arith, lookup-erase k j m)
