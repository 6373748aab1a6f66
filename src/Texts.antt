-- ===== src/Texts.antt =====
-- The str methods that several files call.
use Prim.Native.String.{String}
use Prim.Native.Char.{code}
use ftc_designosaurs.Base.{
  ℕ, zero, suc, Bool, true, false, ◌&&◌, ◌||◌, ◌+◌, List, [], ◌∷◌, Option, none, some, ◌==◌,
  comparable_nat, leb, if◌then◌else◌,
}
use ftc_designosaurs.Flags.Chars.{Text}

-- A literal of the source.
unfoldable pub text : String → Text
text String.[] = []
text (String.◌∷◌ c s) = code c ∷ text s

unfoldable pub is_prefix : Text → Text → Bool
is_prefix [] t = true
is_prefix (c ∷ cs) [] = false
is_prefix (c ∷ cs) (d ∷ ds) = (c == d) && is_prefix cs ds

-- part in whole
unfoldable pub is_in : Text → Text → Bool
is_in part [] = is_prefix part []
is_in part (c ∷ cs) = is_prefix part (c ∷ cs) || is_in part cs

abbrev pub add_front : ℕ → Text × Text → Text × Text
add_front c (k, v) = (c ∷ k, v)

-- line.split(':', 1) of a line that has a colon
unfoldable pub split_first : Text → Text × Text
split_first [] = ([], [])
split_first (c ∷ cs) = let rest = split_first cs in if c == 58 then ([], cs) else add_front c rest

abbrev add_char : ℕ → List Text → List Text
add_char c [] = (c ∷ []) ∷ []
add_char c (t ∷ ts) = (c ∷ t) ∷ ts

-- line.split(',')
unfoldable pub split_comma : Text → List Text
split_comma [] = [] ∷ []
split_comma (c ∷ cs) = let rest = split_comma cs in if c == 44 then [] ∷ rest else add_char c rest

-- text.lower()
unfoldable pub lower : Text → Text
lower [] = []
lower (c ∷ cs) = (if leb 65 c && leb c 90 then c + 32 else c) ∷ lower cs

-- row[i]
unfoldable pub at : {A : Type 0} → List A → ℕ → Option A
at [] n = none
at (a ∷ l) zero = some a
at (a ∷ l) (suc n) = at l n
