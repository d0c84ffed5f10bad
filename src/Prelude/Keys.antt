-- ===== src/Prelude/Keys.antt =====
-- Keys with a decided equality, and Go's `map[string]string` as a list of entries.
use Prim.Native.Nat.{ℕ}
use Prim.Native.String.{String}
use mathlib.Core.Path.{◌≡◌, refl, ap, ap₂}
use mathlib.Core.Logic.{◌↔◌}
use mathlib.Core.Bool.{Bool, true, ◌&&◌}
use mathlib.Core.Option.{Option, none, some}
use mathlib.Core.List.{List, [], ◌∷◌}
use native.Mathlib.Omega.{arith}
use text.Mathlib.Text.{◌==◌ as str_eq}
use text.Mathlib.TextEquality.{eq_iff}
use kubernetes_style_orchest.Prelude.Int.{ℤ, eqb_ℤ, int_beq_iff}
use kubernetes_style_orchest.Prelude.Tests.{nat_beq, nat_beq_iff, if◌then◌else◌}

-- A type whose values the program compares.
pub record Key {ℓ} (K : Type ℓ) : Type ℓ where
  pub same : K → K → Bool
  pub same_iff : (k j : K) → (same k j ≡ true) ↔ (k ≡ j)

instance abbrev pub string_eq : Key String
string_eq = record { same = str_eq; same_iff = eq_iff }

instance abbrev pub nat_eq : Key ℕ
nat_eq = record { same = nat_beq; same_iff = nat_beq_iff }

instance abbrev pub int_eq : Key ℤ
int_eq = record { same = eqb_ℤ; same_iff = int_beq_iff }

abbrev pair_beq : String × String → String × String → Bool
pair_beq (a, b) (c, d) = str_eq a c && str_eq b d

pub pair_beq_iff : (p q : String × String) → (pair_beq p q ≡ true) ↔ (p ≡ q)
pair_beq_iff (a, b) (c, d) = (
  (λ h. ap₂ (λ x y. (x, y)) ((eq_iff a c).0 (ground arith)) ((eq_iff b d).0 (ground arith))),
  (λ h. ground (
    arith,
    (eq_iff a c).1 (ap (λ (t : String × String). t.0) h),
    (eq_iff b d).1 (ap (λ (t : String × String). t.1) h),
  )),
)

-- The key of a table with the primary key `(scope, name)`.
instance abbrev pub pair_eq : Key (String × String)
pair_eq = record { same = pair_beq; same_iff = pair_beq_iff }

infix 50 ◌==◌
abbrev pub ◌==◌ {ℓ} : {K : Type ℓ} ⦃key : Key K⦄ → K → K → Bool
◌==◌ ⦃key⦄ k j = key.same k j

pub ==_iff {ℓ} : {K : Type ℓ} ⦃key : Key K⦄ (k j : K) → ((k == j) ≡ true) ↔ (k ≡ j)
==_iff ⦃key⦄ k j = key.same_iff k j

pub ==_refl {ℓ} : {K : Type ℓ} ⦃key : Key K⦄ (k : K) → (k == k) ≡ true
==_refl ⦃key⦄ k = (key.same_iff k k).1 refl

-- A Go map with string keys; `nil` is the empty list.
abbrev pub StringMap {ℓ} : Type ℓ → Type ℓ
StringMap V = List (String × V)

module _ {ℓ} {V : Type ℓ} where
  -- `v, ok := m[k]`
  abbrev pub lookup : String → StringMap V → Option V
  lookup k [] = none
  lookup k ((j, v) ∷ m) = let rest = lookup k m in if j == k then some v else rest

  -- `m[k] = v`
  abbrev pub insert : String → V → StringMap V → StringMap V
  insert k v [] = (k, v) ∷ []
  insert k v ((j, w) ∷ m) = let rest = insert k v m in if j == k then (k, v) ∷ m else (j, w) ∷ rest

  pub lookup-insert :
      (k j : String) (v : V) (m : StringMap V)
      → lookup j (insert k v m) ≡ (if k == j then some v else lookup j m)
  lookup-insert k j v [] = refl
  lookup-insert k j v ((i, w) ∷ m) =
      ground (arith, eq_iff k j, eq_iff i k, eq_iff i j, lookup-insert k j v m)

-- `m[k]`, which is "" where the key is missing.
abbrev pub value_at : StringMap String → String → String
value_at m k = elim (lookup k m) [ none ↦ "" | some v ↦ v ]
