-- ===== src/Base/Lists.antt =====
-- Lists under the native numbers, and Python's `in` and `all`.
use Prim.Native.Nat.{ℕ, suc, ◌+◌}
use mathlib.Core.Path.{subst, ◌≡◌, refl}
use mathlib.Core.Logic.{◌≢◌, ◌↔◌, inl, inr}
use mathlib.Core.Bool.{Bool, true, false, ◌&&◌, ◌||◌}
use mathlib.Core.List.{List, [], ◌∷◌, ◌++◌}
use native.Mathlib.Omega.{arith}
use ftc_designosaurs.Base.Tests.{Comparable, ◌==◌, Bool-cases, if◌then◌else◌}

module _ {ℓ} {A : Type ℓ} where
  abbrev pub length : List A → ℕ
  length [] = 0
  length (x ∷ xs) = suc (length xs)

  pub length-append : (xs ys : List A) → length (xs ++ ys) ≡ length xs + length ys
  length-append [] ys = omega arith
  length-append (x ∷ xs) ys = omega (arith, length-append xs ys)

  abbrev pub All {κ} : (A → Type κ) → List A → Type κ
  All P [] = Unit
  All P (x ∷ xs) = P x × All P xs

  pub All-append {κ} : (P : A → Type κ) (xs ys : List A) → All P xs → All P ys → All P (xs ++ ys)
  All-append P [] ys p q = q
  All-append P (x ∷ xs) ys p q = (p.0, All-append P xs ys p.1 q)

  pub append-cons-ne-nil : (xs : List A) (y : A) (ys : List A) → xs ++ y ∷ ys ≢ []
  append-cons-ne-nil [] y ys h = cc
  append-cons-ne-nil (x ∷ xs) y ys h = cc

  -- A list comprehension with a condition.
  unfoldable pub keep : (A → Bool) → List A → List A
  keep p [] = []
  keep p (x ∷ xs) = let rest = keep p xs in if p x then x ∷ rest else rest

module _ {ℓ} {A : Type ℓ} ⦃keys : Comparable A⦄ where
  unfoldable pub contains : List A → A → Bool
  contains [] a = false
  contains (x ∷ xs) a = (x == a) || contains xs a

  pub contains-append :
      (xs ys : List A) (a : A) → contains (xs ++ ys) a ≡ (contains xs a || contains ys a)
  unfolding contains
  contains-append [] ys a = refl
  contains-append (x ∷ xs) ys a = ground (arith, contains-append xs ys a)

  pub contains-keep :
      (p : A → Bool) (xs : List A) (a : A) → contains (keep p xs) a ≡ (p a && contains xs a)
  unfolding contains keep
  contains-keep p [] a = ground arith
  contains-keep p (x ∷ xs) a = ground (arith, contains-keep p xs a, keys.equal_iff x a)

  -- Every element that `in` finds.
  abbrev pub AllIn {κ} : (A → Type κ) → List A → Type (ℓ ⊔ κ)
  AllIn P xs = (x : A) → contains xs x ≡ true → P x

  pub AllIn→All {κ} : (P : A → Type κ) (xs : List A) → AllIn P xs → All P xs
  unfolding contains
  AllIn→All P [] h = tt
  AllIn→All P (x ∷ xs) h =
      (h x (ground (arith, keys.equal_iff x x)), AllIn→All P xs (λ y m. h y (ground arith)))

  pub All→AllIn {κ} : (P : A → Type κ) (xs : List A) → All P xs → AllIn P xs
  unfolding contains
  All→AllIn P [] h x m = absurd (cc)
  All→AllIn P (y ∷ xs) h x m = elim (Bool-cases (y == x)) [
    | inl q ↦ subst P ((keys.equal_iff y x).0 q) h.0
    | inr n ↦ All→AllIn P xs h.1 x (rw n at m)
  ]

  abbrev list_equal : List A → List A → Bool
  list_equal [] [] = true
  list_equal (x ∷ xs) (y ∷ ys) = (x == y) && list_equal xs ys
  list_equal _ _ = false

  pub list_equal_iff : (xs ys : List A) → (list_equal xs ys ≡ true) ↔ (xs ≡ ys)
  list_equal_iff [] [] = (λ h. refl, λ h. refl)
  list_equal_iff [] (y ∷ ys) = (λ h. cc, λ h. cc)
  list_equal_iff (x ∷ xs) [] = (λ h. cc, λ h. cc)
  list_equal_iff (x ∷ xs) (y ∷ ys) = (
    λ h. ground (arith, keys.equal_iff x y, list_equal_iff xs ys),
    λ h. ground (arith, keys.equal_iff x y, list_equal_iff xs ys),
  )

  instance abbrev pub comparable_list : Comparable (List A)
  comparable_list = record { equal = list_equal; equal_iff = list_equal_iff }
