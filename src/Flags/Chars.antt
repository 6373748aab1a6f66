-- ===== src/Flags/Chars.antt =====
-- Texts of flag_changer.py as lists of byte values, with the str methods that the file calls.
use ftc_designosaurs.Base.{
  ℕ, ◌≡◌, refl, ◌≢◌, Bool, true, false, not, ◌&&◌, ◌||◌, Option, none, some, List, [], ◌∷◌, ◌++◌,
  arith, leb, ◌==◌, comparable_nat, if◌then◌else◌,
}

abbrev pub Text : Type 0
Text = List ℕ

-- _QUOTES
abbrev pub is_quote : ℕ → Bool
is_quote c = (c == 34) || (c == 39)

-- c.isspace()
abbrev pub is_space : ℕ → Bool
is_space c = (c == 32) || (leb 9 c && leb c 13)

-- A character that the class [^\w-] of _RE_NEEDS_QUOTING leaves out.
abbrev pub is_word : ℕ → Bool
is_word c =
    (leb 48 c && leb c 57)
    || (leb 65 c && leb c 90)
    || (leb 97 c && leb c 122)
    || (c == 95)
    || (c == 45)

-- _RE_NEEDS_QUOTING.search(text)
unfoldable pub needs_quoting : Text → Bool
needs_quoting [] = false
needs_quoting (c ∷ cs) = not (is_word c) || needs_quoting cs

-- text[-1], which raises on an empty text.
unfoldable pub last_char : Text → Option ℕ
last_char [] = none
last_char (c ∷ []) = some c
last_char (c ∷ d ∷ cs) = last_char (d ∷ cs)

-- text[:-1]
unfoldable pub but_last : Text → Text
but_last [] = []
but_last (c ∷ []) = []
but_last (c ∷ d ∷ cs) = c ∷ but_last (d ∷ cs)

-- text.lstrip() and text.rstrip(), whose composition is text.strip().
unfoldable pub lstrip : Text → Text
lstrip [] = []
lstrip (c ∷ cs) = if is_space c then lstrip cs else c ∷ cs

abbrev pub is_nil : Text → Bool
is_nil [] = true
is_nil (c ∷ cs) = false

unfoldable pub rstrip : Text → Text
rstrip [] = []
rstrip (c ∷ cs) = let rest = rstrip cs in if is_space c && is_nil rest then [] else c ∷ rest

unfoldable pub strip : Text → Text
unfolding lstrip rstrip
strip t = lstrip (rstrip t)

-- ' '.join(args)
unfoldable pub join_spaces : List Text → Text
join_spaces [] = []
join_spaces (t ∷ []) = t
join_spaces (t ∷ u ∷ ts) = t ++ (32 ∷ join_spaces (u ∷ ts))

pub last_char-append : (t : Text) (c : ℕ) → last_char (t ++ c ∷ []) ≡ some c
unfolding last_char
last_char-append [] c = refl
last_char-append (b ∷ []) c = refl
last_char-append (b ∷ d ∷ t) c = last_char-append (d ∷ t) c

pub but_last-append : (t : Text) (c : ℕ) → but_last (t ++ c ∷ []) ≡ t
unfolding but_last
but_last-append [] c = refl
but_last-append (b ∷ []) c = refl
but_last-append (b ∷ d ∷ t) c = ground (arith, but_last-append (d ∷ t) c)

-- The end of a text decides whether rstrip() changes it.
pub rstrip-append : (t u : Text) → rstrip u ≡ u → u ≢ [] → rstrip (t ++ u) ≡ t ++ u
unfolding rstrip
rstrip-append [] u h k = h
rstrip-append (c ∷ []) [] h k = absurd (k refl)
rstrip-append (c ∷ []) (d ∷ u) h k = ground arith
rstrip-append (c ∷ b ∷ t) u h k = ground (arith, rstrip-append (b ∷ t) u h k)

pub rstrip-word : (t : Text) → needs_quoting t ≡ false → rstrip t ≡ t
unfolding rstrip needs_quoting
rstrip-word [] h = refl
rstrip-word (c ∷ t) h = ground (arith, rstrip-word t)
