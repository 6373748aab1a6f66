-- ===== src/Forwarder/Ports.antt =====
-- The texts that forwarder.py reads: str.split(':') and int(token).
use Prim.Native.Nat.{ℕ}
use ftc_designosaurs.Base.{
  zero, suc, ℕ, Bool, true, false, ◌≡◌, ◌↔◌, ◌&&◌, arith, List, [], ◌∷◌, Option, none, some,
  Comparable, ◌==◌, comparable_nat, leb, if◌then◌else◌, ◌+◌, ◌-◌,
}
use Prim.Native.Nat.{◌*◌}
use mathlib.Core.Option
use ftc_designosaurs.Flags.Chars.{Text, strip}

-- Python's int.
pub data ℤ : Type 0 where
  pos : ℕ → ℤ
  negsuc : ℕ → ℤ

abbrev int_equal : ℤ → ℤ → Bool
int_equal (pos a) (pos b) = a == b
int_equal (negsuc a) (negsuc b) = a == b
int_equal _ _ = false

pub int_equal_iff : (a b : ℤ) → (int_equal a b ≡ true) ↔ (a ≡ b)
int_equal_iff (pos a) (pos b) = (λ h. ground arith, λ h. ground arith)
int_equal_iff (pos a) (negsuc b) = (λ h. cc, λ h. cc)
int_equal_iff (negsuc a) (pos b) = (λ h. cc, λ h. cc)
int_equal_iff (negsuc a) (negsuc b) = (λ h. ground arith, λ h. ground arith)

instance abbrev pub comparable_int : Comparable ℤ
comparable_int = record { equal = int_equal; equal_iff = int_equal_iff }

abbrev add_char : ℕ → List Text → List Text
add_char c [] = (c ∷ []) ∷ []
add_char c (t ∷ ts) = (c ∷ t) ∷ ts

-- text.split(':')
unfoldable pub split_colon : Text → List Text
split_colon [] = [] ∷ []
split_colon (c ∷ cs) = let rest = split_colon cs in if c == 58 then [] ∷ rest else add_char c rest

abbrev is_digit : ℕ → Bool
is_digit c = leb 48 c && leb c 57

-- The digits behind the ones that make up n.
unfoldable pub digits_from : ℕ → Text → Option ℕ
digits_from n [] = some n
digits_from n (c ∷ cs) =
    let rest = digits_from (n * 10 + (c - 48)) cs in if is_digit c then rest else none

unfoldable pub digits : Text → Option ℕ
digits [] = none
digits (c ∷ cs) = digits_from 0 (c ∷ cs)

abbrev negate : ℕ → ℤ
negate zero = pos zero
negate (suc n) = negsuc n

-- A sign, if there is one, and digits.
unfoldable pub signed : Text → Option ℤ
signed [] = none
signed (c ∷ cs) =
    if c == 45
    then Option.map negate (digits cs)
    else if c == 43
    then Option.map pos (digits cs)
    else Option.map pos (digits (c ∷ cs))

-- int(text), which raises ValueError where this is none.
unfoldable pub int : Text → Option ℤ
int t = signed (strip t)
