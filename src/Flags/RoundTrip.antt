-- ===== src/Flags/RoundTrip.antt =====
-- A flag that is written to the command line file is read back from it.
use mathlib.Core.Option
use ftc_designosaurs.Base.{
  All, map, ◌≡◌, refl, ap, sym, subst, ◌∙◌, false, Option, none, some, List, [], ◌∷◌, ◌++◌, inl,
  inr, Bool-cases, append_assoc, append-nil, arith, comparable_nat, if◌then◌else◌,
}
use ftc_designosaurs.Flags.Chars.{
  lstrip, strip, rstrip-append, join_spaces, Text, needs_quoting, last_char, last_char-append,
}
use ftc_designosaurs.Flags.Parse.{start, drop_program, parse_flags, finish, or_empty, scan_line}
use ftc_designosaurs.Flags.Quote.{
  serialize_flags, program, wrap, escape, IsSolid, quote_flag-IsSolid, rstrip-space, quote_flag,
  quote_value, split_key, split_key_lem, unsplit,
}
use ftc_designosaurs.Flags.Steps.{
  at, extend, IsOpen, quote_char, scan_step, scan_inside, scan_word, word_char,
}

-- A flag with a last character that is no backslash.
abbrev pub Survives : Text → Type 0
Survives f = IsOpen (some f)

pub extend-some : (t f : Text) → extend (some t) f ≡ some (t ++ f)
extend-some t [] = rw append-nil
extend-some t (c ∷ f) = refl

pub or_empty-extend : (f : Text) → or_empty (extend none f) ≡ f
or_empty-extend [] = refl
or_empty-extend (c ∷ f) = refl

not-Survives-nil : ¬ Survives []
unfolding last_char
not-Survives-nil (l, e, k) = cc

extend-none : (f : Text) → Survives f → extend none f ≡ some f
extend-none [] o = absurd (not-Survives-nil o)
extend-none (c ∷ f) o = refl

module _ (fs : List Text) where
  scan_wrap :
      (g : Option Text) (f rest : Text)
      → IsOpen g
      → IsOpen (extend g f)
      → scan_line (at fs none g) (wrap f ++ rest) ≡ scan_line (at fs none (extend g f)) rest
  unfolding wrap
  scan_wrap g f rest o p =
      scan_step fs _ _ 34 _ (quote_char fs none g (inl refl) o)
      ∙ ap (scan_line (at fs (some 34) g)) (append_assoc (escape f) (34 ∷ []) rest)
      ∙ scan_inside fs g f (34 ∷ rest)
      ∙ scan_step fs _ _ 34 rest (quote_char fs (some 34) (extend g f) (inr refl) p)

  scan_value :
      (t v rest : Text)
      → IsOpen (some t)
      → IsOpen (some (t ++ v))
      → scan_line (at fs none (some t)) ((if needs_quoting v then wrap v else v) ++ rest)
        ≡ scan_line (at fs none (some (t ++ v))) rest
  scan_value t v rest o p = elim (Bool-cases (needs_quoting v)) [
    | inl e ↦ rw (e, ← extend-some t v) (scan_wrap (some t) v rest o (rw extend-some p))
    | inr n ↦ rw (n, ← extend-some t v) (scan_word fs (some t) v rest n)
  ]

  scan_parts :
      (key : Text) (value : Option Text) (f rest : Text)
      → unsplit (key, value) ≡ f
      → needs_quoting key ≡ false
      → Survives f
      → scan_line (at fs none none) (quote_value key value ++ rest)
        ≡ scan_line (at fs none (some f)) rest
  scan_parts key none f rest e n o =
      scan_word fs none key rest n
      ∙ ap (λ x. scan_line (at fs none x) rest) (ap (extend none) e ∙ extend-none f o)
  scan_parts key (some v) f rest e n o =
      let w : Text = if needs_quoting v then wrap v else v in
      let t : Text = or_empty (extend none key) ++ 61 ∷ [] in
      let whole : t ++ v ≡ f = rw (or_empty-extend, append_assoc) e in
      ap (scan_line (at fs none none)) (append_assoc key (61 ∷ w) rest)
      ∙ scan_word fs none key (61 ∷ (w ++ rest)) n
      ∙ scan_step fs _ _ 61 (w ++ rest) (word_char fs (extend none key) 61 refl)
      ∙ scan_value t v rest (61, last_char-append _ 61, omega arith) (subst Survives (sym whole) o)
      ∙ ap (λ x. scan_line (at fs none (some x)) rest) whole

  -- Scanning the quoted flag makes it the current flag.
  pub scan_quoted :
      (f rest : Text)
      → Survives f
      → scan_line (at fs none none) (quote_flag f ++ rest) ≡ scan_line (at fs none (some f)) rest
  unfolding quote_flag
  scan_quoted [] rest (l, e, k) = absurd (not-Survives-nil (l, e, k))
  scan_quoted (c ∷ f) rest o = elim (Bool-cases (needs_quoting (split_key (c ∷ f)).0)) [
    | inl e ↦ rw e (scan_wrap none (c ∷ f) rest tt o)
    | inr n ↦ rw n (
        scan_parts (split_key (c ∷ f)).0 (split_key (c ∷ f)).1 (c ∷ f) rest (split_key_lem (c ∷ f))
          n o)
  ]

append-eq-nil : (t u : Text) → t ++ u ≡ [] → u ≡ []
append-eq-nil [] u e = e
append-eq-nil (c ∷ t) u e = cc

-- The line behind the program name.
abbrev pub spaced : List Text → Text
spaced [] = []
spaced (f ∷ fs) = 32 ∷ (quote_flag f ++ spaced fs)

pub join_spaces-cons :
    (t : Text) (fs : List Text) → join_spaces (t ∷ map quote_flag fs) ≡ t ++ spaced fs
unfolding join_spaces
join_spaces-cons t [] = sym (append-nil t)
join_spaces-cons t (f ∷ fs) = ap (λ u. t ++ (32 ∷ u)) (join_spaces-cons (quote_flag f) fs)

spaced-IsSolid : (t : Text) (fs : List Text) → IsSolid t → IsSolid (t ++ spaced fs)
spaced-IsSolid t [] h = rw append-nil h
spaced-IsSolid t (f ∷ fs) h =
    let (e, n) = rstrip-space _ (spaced-IsSolid (quote_flag f) fs (quote_flag-IsSolid f)) in
    (rstrip-append t _ e n, λ x. n (append-eq-nil t _ x))

scan_spaced :
    (done : List Text) (current : Text) (fs : List Text)
    → All Survives fs
    → Option.map finish (scan_line (at done none (some current)) (spaced fs))
      ≡ some (drop_program (done ++ current ∷ fs))
unfolding finish scan_line
scan_spaced done current [] h = refl
scan_spaced done current (f ∷ fs) h =
    ap (Option.map finish) (scan_quoted (done ++ current ∷ []) f (spaced fs) h.0)
    ∙ scan_spaced (done ++ current ∷ []) f fs h.1
    ∙ ap (λ x. some (drop_program x)) (append_assoc done (current ∷ []) (f ∷ fs))

parse-line : (fs : List Text) → All Survives fs → parse_flags (program ++ spaced fs) ≡ some fs
unfolding parse_flags
parse-line fs h =
    ap (Option.map finish) (scan_step [] start _ 95 (spaced fs) (word_char [] none 95 refl))
    ∙ scan_spaced [] program fs h

-- strip() leaves a serialized line alone.
pub strip-line : (fs : List Text) → strip (program ++ spaced fs) ≡ program ++ spaced fs
unfolding strip
strip-line fs = ap lstrip (spaced-IsSolid program fs (refl, λ e. cc)).0

-- Flags that each have a last character other than a backslash, once serialized, stripped and
-- parsed, come back unchanged and in order: the line exists, and the tokenizer does not fail on it.
pub parse-serialize :
    (f : Text) (fs : List Text)
    → All Survives (f ∷ fs)
    → (line : Text) × (serialize_flags (f ∷ fs) ≡ some line)
      × (parse_flags (strip line) ≡ some (f ∷ fs))
unfolding serialize_flags
parse-serialize f fs h = (
  program ++ spaced (f ∷ fs),
  ap some (join_spaces-cons program (f ∷ fs)),
  ap parse_flags (strip-line (f ∷ fs)) ∙ parse-line (f ∷ fs) h,
)
