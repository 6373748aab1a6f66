-- ===== src/Flags/Quote.antt =====
-- _QuoteFlag and _SerializeFlags of flag_changer.py.
use ftc_designosaurs.Base.{
  append-cons-ne-nil, inr, inl, Bool-cases, false, ℕ, ◌≡◌, refl, ◌≢◌, ◌||◌, Option, none, some,
  List, [], ◌∷◌, ◌++◌, map, arith, ◌==◌, comparable_nat, if◌then◌else◌,
}
use ftc_designosaurs.Flags.Chars.{
  rstrip-word, Text, is_nil, is_space, needs_quoting, join_spaces, rstrip, rstrip-append,
}

-- text.replace('"', r'\"')
unfoldable pub escape : Text → Text
escape [] = []
escape (c ∷ cs) = let rest = escape cs in if c == 34 then 92 ∷ 34 ∷ rest else c ∷ rest

-- '"%s"' % text.replace('"', r'\"')
unfoldable pub wrap : Text → Text
unfolding escape
wrap t = 34 ∷ (escape t ++ 34 ∷ [])

abbrev push : ℕ → Text × Option Text → Text × Option Text
push c (key, value) = (c ∷ key, value)

-- flag.split('=', 1) if '=' in flag, and (flag, None) otherwise.
unfoldable pub split_key : Text → Text × Option Text
split_key [] = ([], none)
split_key (c ∷ cs) = let rest = split_key cs in if c == 61 then ([], some cs) else push c rest

abbrev pub quote_value : Text → Option Text → Text
quote_value key none = key
quote_value key (some value) = key ++ (61 ∷ (if needs_quoting value then wrap value else value))

unfoldable pub quote_flag : Text → Text
unfolding split_key wrap needs_quoting
quote_flag flag =
    if is_nil flag || needs_quoting (split_key flag).0
    then wrap flag
    else quote_value (split_key flag).0 (split_key flag).1

-- The program name that the line starts with.
abbrev pub program : Text
program = 95 ∷ []

unfoldable pub serialize_flags : List Text → Option Text
unfolding quote_flag join_spaces
serialize_flags [] = none
serialize_flags (f ∷ fs) = some (join_spaces (program ∷ map quote_flag (f ∷ fs)))

-- What the two parts of a split stand for.
abbrev pub unsplit : Text × Option Text → Text
unsplit (key, none) = key
unsplit (key, some value) = key ++ (61 ∷ value)

pub split_key_lem : (f : Text) → unsplit (split_key f) ≡ f
unfolding split_key
split_key_lem [] = refl
split_key_lem (c ∷ f) = ground (arith, split_key_lem f)

wrap-IsSolid : (t : Text) → (rstrip (wrap t) ≡ wrap t) × (wrap t ≢ [])
unfolding wrap rstrip
wrap-IsSolid t = (rstrip-append (34 ∷ escape t) (34 ∷ []) refl (λ h. cc), λ h. cc)

-- A text that is not empty and that rstrip() leaves alone.
abbrev pub IsSolid : Text → Type 0
IsSolid t = (rstrip t ≡ t) × (t ≢ [])

rstrip-cons : (c : ℕ) (t : Text) → is_space c ≡ false → rstrip t ≡ t → rstrip (c ∷ t) ≡ c ∷ t
unfolding rstrip
rstrip-cons c t h e = ground arith

pub rstrip-space : (t : Text) → IsSolid t → IsSolid (32 ∷ t)
rstrip-space t (e, n) = (rstrip-append (32 ∷ []) t e n, λ h. cc)

quote_value-IsSolid :
    (key : Text) (value : Option Text)
    → needs_quoting key ≡ false
    → unsplit (key, value) ≢ []
    → IsSolid (quote_value key value)
quote_value-IsSolid key none h n = (rstrip-word key h, n)
quote_value-IsSolid key (some v) h n = elim (Bool-cases (needs_quoting v)) [
  | inl e ↦ rw e (tail_solid (wrap v) (wrap-IsSolid v).0)
  | inr e ↦ rw e (tail_solid v (rstrip-word v e))
]
  where
    tail_solid : (w : Text) → rstrip w ≡ w → IsSolid (key ++ (61 ∷ w))
    tail_solid w e = (
      rstrip-append key (61 ∷ w) (rstrip-cons 61 w refl e) (λ x. cc),
      append-cons-ne-nil key 61 w,
    )

pub quote_flag-IsSolid : (f : Text) → IsSolid (quote_flag f)
unfolding quote_flag
quote_flag-IsSolid [] = wrap-IsSolid []
quote_flag-IsSolid (c ∷ f) = elim (Bool-cases (needs_quoting (split_key (c ∷ f)).0)) [
  | inl e ↦ rw e (wrap-IsSolid (c ∷ f))
  | inr n ↦ rw n (
      quote_value-IsSolid (split_key (c ∷ f)).0 (split_key (c ∷ f)).1 n
        (λ h. cc (split_key_lem (c ∷ f))))
]
