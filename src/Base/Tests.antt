-- ===== src/Base/Tests.antt =====
-- Boolean tests and the branches on them, as Python's `==`, `<` and `if`.
use Prim.Native.Nat.{ℕ, compare, Ordering}
use Prim.Native.String.{String}
use mathlib.Core.Path.{◌≡◌, refl}
use mathlib.Core.Logic.{◌⊎◌, ◌↔◌, inl, inr}
use mathlib.Core.Bool.{Bool, true, false, ◌&&◌}
use native.Mathlib.Omega.{arith}
use text.Mathlib.Text.{◌==◌ as text_eq}
use text.Mathlib.TextEquality.{eq_iff}

abbrev pub ltb : ℕ → ℕ → Bool
ltb a b = elim (compare a b) [ Ordering.lt ↦ true | _ ↦ false ]

abbrev pub leb : ℕ → ℕ → Bool
leb a b = elim (compare a b) [ Ordering.gt ↦ false | _ ↦ true ]

abbrev pub nat_equal : ℕ → ℕ → Bool
nat_equal a b = elim (compare a b) [ Ordering.eq ↦ true | _ ↦ false ]

infix 1 if◌then◌else◌
abbrev pub if◌then◌else◌ {ℓ} : {A : Type ℓ} → Bool → A → A → A
if true then x else y = x
if false then x else y = y

pub Bool-cases : (b : Bool) → (b ≡ true) ⊎ (b ≡ false)
Bool-cases true = inl refl
Bool-cases false = inr refl

pub nat_equal_iff : (a b : ℕ) → (nat_equal a b ≡ true) ↔ (a ≡ b)
nat_equal_iff a b = (λ h. ground arith, λ h. ground arith)

-- Keys that `==` compares, with the law of the comparison.
pub record Comparable {ℓ} (A : Type ℓ) : Type ℓ where
  pub equal : A → A → Bool
  pub equal_iff : (a b : A) → (equal a b ≡ true) ↔ (a ≡ b)

infix 50 ◌==◌
abbrev pub ◌==◌ {ℓ} : {A : Type ℓ} ⦃keys : Comparable A⦄ → A → A → Bool
◌==◌ ⦃keys⦄ = keys.equal

instance abbrev pub comparable_nat : Comparable ℕ
comparable_nat = record { equal = nat_equal; equal_iff = nat_equal_iff }

instance abbrev pub comparable_string : Comparable String
comparable_string = record { equal = text_eq; equal_iff = eq_iff }

module _ {ℓ} {A : Type ℓ} ⦃keys : Comparable A⦄ where
  pub equal_self : (a : A) → (a == a) ≡ true
  equal_self a = (keys.equal_iff a a).1 refl

-- A text that Python's truth test takes for false.
abbrev pub is_empty : String → Bool
is_empty s = s == ""

module _ {ℓ κ} {A : Type ℓ} {B : Type κ} ⦃left : Comparable A⦄ ⦃right : Comparable B⦄ where
  abbrev pair_equal : A × B → A × B → Bool
  pair_equal (a, b) (c, d) = left.equal a c && right.equal b d

  pub pair_equal_iff : (p q : A × B) → (pair_equal p q ≡ true) ↔ (p ≡ q)
  pair_equal_iff (a, b) (c, d) = (
    λ h. ground (arith, left.equal_iff a c, right.equal_iff b d),
    λ h. ground (arith, left.equal_iff a c, right.equal_iff b d),
  )

  instance abbrev pub comparable_pair : Comparable (A × B)
  comparable_pair = record { equal = pair_equal; equal_iff = pair_equal_iff }
