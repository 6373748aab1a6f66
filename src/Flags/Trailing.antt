-- ===== src/Flags/Trailing.antt =====
-- A flag that ends in a backslash is not read back: its closing quote is taken for an escaped one.
use mathlib.Core.Option
use ftc_designosaurs.Base.{
  append-cons-ne-nil, ℕ, ◌≡◌, refl, ap, sym, ◌∙◌, ◌≢◌, false, true, Option, none, some, List, [],
  ◌∷◌, ◌++◌, inl, inr, Bool-cases, All, append_assoc, append-nil, arith, comparable_nat,
}
use ftc_designosaurs.Flags.Chars.{Text, last_char, but_last, strip, needs_quoting, last_char-append}
use ftc_designosaurs.Flags.Parse.{
  Scan, start, or_empty, scan_char, scan_line, parse_flags, finish, drop_program,
}
use ftc_designosaurs.Flags.Quote.{
  wrap, quote_flag, quote_value, split_key, split_key_lem, unsplit, serialize_flags, program,
}
use ftc_designosaurs.Flags.Steps.{
  at, extend, IsOpen, quote_char, scan_step, scan_inside, scan_word, word_char, escaped_quote,
}
use ftc_designosaurs.Flags.RoundTrip.{
  Survives, spaced, join_spaces-cons, strip-line, scan_quoted, extend-some, or_empty-extend,
}

last_char_split : (t : Text) (c : ℕ) → last_char t ≡ some c → t ≡ but_last t ++ c ∷ []
unfolding last_char but_last
last_char_split [] c e = cc
last_char_split (b ∷ []) c e = cc
last_char_split (b ∷ d ∷ t) c e = ap (λ x. b ∷ x) (last_char_split (d ∷ t) c e)

last_char_tail : (t : Text) (c : ℕ) (u : Text) → last_char (t ++ c ∷ u) ≡ last_char (c ∷ u)
unfolding last_char
last_char_tail [] c u = refl
last_char_tail (b ∷ []) c u = refl
last_char_tail (b ∷ d ∷ t) c u = last_char_tail (d ∷ t) c u

needs_quoting-last : (t : Text) → last_char t ≡ some 92 → needs_quoting t ≡ true
unfolding last_char needs_quoting
needs_quoting-last [] e = cc
needs_quoting-last (c ∷ []) e = ground arith
needs_quoting-last (c ∷ d ∷ t) e = ground (arith, needs_quoting-last (d ∷ t) e)

-- The flag with its last character replaced by the quote.
abbrev pub lost : Text → Text
lost f = but_last f ++ 34 ∷ []

scan_nil : (s : Scan) → scan_line s [] ≡ some s
unfolding scan_line
scan_nil s = refl

module _ (fs : List Text) where
  wrap-lost :
      (g : Option Text) (v f : Text)
      → IsOpen g
      → extend g v ≡ some f
      → last_char f ≡ some 92
      → scan_line (at fs none g) (wrap v) ≡ some (at fs (some 34) (some (lost f)))
  unfolding wrap
  wrap-lost g v f o x e =
      scan_step fs _ _ 34 _ (quote_char fs none g (inl refl) o)
      ∙ scan_inside fs g v (34 ∷ [])
      ∙ ap (λ y. scan_line (at fs (some 34) y) (34 ∷ [])) (x ∙ ap some (last_char_split f 92 e))
      ∙ scan_step fs _ _ 34 [] (escaped_quote fs (but_last f))
      ∙ scan_nil _

  value_lost :
      (key v f : Text)
      → key ++ (61 ∷ v) ≡ f
      → needs_quoting key ≡ false
      → last_char f ≡ some 92
      → scan_line (at fs none none) (quote_value key (some v))
        ≡ some (at fs (some 34) (some (lost f)))
  value_lost key [] f whole n e =
      let clash : ◌≡◌ {A = Option ℕ} (some 61) (some 92) =
        sym (last_char-append key 61) ∙ ap last_char whole ∙ e in
      absurd (ground arith)
  value_lost key (c ∷ v) f whole n e =
      let v' : Text = c ∷ v in
      let ends : last_char v' ≡ some 92 =
        sym (last_char_tail (key ++ 61 ∷ []) c v)
        ∙ ap last_char (append_assoc key (61 ∷ []) v' ∙ whole)
        ∙ e in
      let t : Text = or_empty (extend none key) ++ 61 ∷ [] in
      let whole' : t ++ v' ≡ f = rw (or_empty-extend, append_assoc) whole in
      rw (needs_quoting-last v' ends) (
        scan_word fs none key (61 ∷ wrap v') n
        ∙ scan_step fs _ _ 61 (wrap v') (word_char fs (extend none key) 61 refl)
        ∙ wrap-lost (some t) v' f (61, last_char-append _ 61, omega arith)
            (extend-some t v' ∙ ap some whole') e)

  parts_lost :
      (key : Text) (value : Option Text) (f : Text)
      → unsplit (key, value) ≡ f
      → needs_quoting key ≡ false
      → last_char f ≡ some 92
      → scan_line (at fs none none) (quote_value key value) ≡ some (at fs (some 34) (some (lost f)))
  parts_lost key none f whole n e = absurd (cc (needs_quoting-last key (ap last_char whole ∙ e)))
  parts_lost key (some v) f whole n e = value_lost key v f whole n e

  quoted_lost :
      (f : Text)
      → last_char f ≡ some 92
      → scan_line (at fs none none) (quote_flag f) ≡ some (at fs (some 34) (some (lost f)))
  unfolding quote_flag
  quoted_lost [] e = absurd (unfold last_char in cc)
  quoted_lost (c ∷ f) e = elim (Bool-cases (needs_quoting (split_key (c ∷ f)).0)) [
    | inl q ↦ rw q (wrap-lost none (c ∷ f) (c ∷ f) tt refl e)
    | inr n ↦
        rw n (
          parts_lost (split_key (c ∷ f)).0 (split_key (c ∷ f)).1 (c ∷ f) (split_key_lem (c ∷ f)) n
            e)
  ]

flush_space :
    (done : List Text) (current : Text)
    → scan_char (at done none (some current)) 32 ≡ some (at (done ++ current ∷ []) none none)
unfolding scan_char
flush_space done current = refl

serialize-spaced : (fs : List Text) → fs ≢ [] → serialize_flags fs ≡ some (program ++ spaced fs)
unfolding serialize_flags
serialize-spaced [] h = absurd (h refl)
serialize-spaced (f ∷ fs) h = ap some (join_spaces-cons program (f ∷ fs))

spaced-lost :
    (done : List Text) (current : Text) (fs : List Text) (f : Text)
    → All Survives fs
    → last_char f ≡ some 92
    → Option.map finish (scan_line (at done none (some current)) (spaced (fs ++ f ∷ [])))
      ≡ some (drop_program ((done ++ current ∷ fs) ++ lost f ∷ []))
unfolding finish
spaced-lost done current [] f h e =
    ap (λ q. Option.map finish (scan_line (at done none (some current)) (32 ∷ q)))
      (append-nil (quote_flag f))
    ∙ ap (Option.map finish) (
        scan_step [] _ _ 32 (quote_flag f) (flush_space done current)
        ∙ quoted_lost (done ++ current ∷ []) f e)
spaced-lost done current (g ∷ fs) f h e =
    ap (Option.map finish) (
      scan_step [] _ _ 32 _ (flush_space done current)
      ∙ scan_quoted (done ++ current ∷ []) g (spaced (fs ++ f ∷ [])) h.0)
    ∙ spaced-lost (done ++ current ∷ []) g fs f h.1 e
    ∙ ap (λ x. some (drop_program (x ++ lost f ∷ []))) (append_assoc done (current ∷ []) (g ∷ fs))

-- Behind flags that survive, a flag that ends in a backslash is serialized to a line that is
-- parsed with a double quote in the place of that backslash.
pub parse-serialize_backslash :
    (fs : List Text) (f : Text)
    → All Survives fs
    → last_char f ≡ some 92
    → (line : Text) × (serialize_flags (fs ++ f ∷ []) ≡ some line)
      × (parse_flags (strip line) ≡ some (fs ++ lost f ∷ []))
unfolding parse_flags
parse-serialize_backslash fs f h e = (
  program ++ spaced (fs ++ f ∷ []),
  serialize-spaced (fs ++ f ∷ []) (append-cons-ne-nil fs f []),
  ap parse_flags (strip-line (fs ++ f ∷ []))
      ∙ ap (Option.map finish)
          (scan_step [] start _ 95 (spaced (fs ++ f ∷ [])) (word_char [] none 95 refl))
      ∙ spaced-lost [] program fs f h e,
)
