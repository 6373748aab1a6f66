-- ===== src/Flags/Steps.antt =====
-- What the tokenizer does on each kind of character that a serialized flag holds.
use ftc_designosaurs.Base.{
  ℕ, ◌≡◌, refl, ap, ◌∙◌, ◌≢◌, ◌⊎◌, true, false, ◌||◌, Option, none, some, List, [], ◌∷◌, ◌++◌, inl,
  inr, Bool-cases, append_assoc, arith, ◌==◌, comparable_nat, nat_equal_iff, if◌then◌else◌,
}
use ftc_designosaurs.Flags.Chars.{
  Text, is_word, needs_quoting, last_char, last_char-append, but_last-append,
}
use ftc_designosaurs.Flags.Parse.{Scan, or_empty, scan_char, scan_line, is_none}
use ftc_designosaurs.Flags.Quote.{escape}

-- The flags so far, the open quote and the current flag.
abbrev pub at : List Text → Option ℕ → Option Text → Scan
at fs q g = record { flags = fs; current_quote = q; current_flag = g }

abbrev pub extend : Option Text → Text → Option Text
extend g [] = g
extend g (c ∷ cs) = some (or_empty g ++ c ∷ cs)

extend_snoc :
    (g : Option Text) (c : ℕ) (f : Text) → extend (some (or_empty g ++ c ∷ [])) f ≡ extend g (c ∷ f)
extend_snoc g c [] = refl
extend_snoc g c (d ∷ f) = rw append_assoc

-- The flag, if there is one, does not end in a backslash.
abbrev pub IsOpen : Option Text → Type 0
IsOpen none = Unit
IsOpen (some t) = (l : ℕ) × (last_char t ≡ some l) × (l ≢ 92)

module _ (fs : List Text) where
  plain_char :
      (g : Option Text) (c : ℕ)
      → c ≢ 34
      → scan_char (at fs (some 34) g) c ≡ some (at fs (some 34) (some (or_empty g ++ c ∷ [])))
  unfolding scan_char
  plain_char g c h = ground arith

  pub word_char :
      (g : Option Text) (c : ℕ)
      → (is_word c || (c == 61)) ≡ true
      → scan_char (at fs none g) c ≡ some (at fs none (some (or_empty g ++ c ∷ [])))
  unfolding scan_char
  word_char g c h = ground arith

  pub escaped_quote :
      (t : Text)
      → scan_char (at fs (some 34) (some (t ++ 92 ∷ []))) 34
        ≡ some (at fs (some 34) (some (t ++ 34 ∷ [])))
  unfolding scan_char
  escaped_quote t = rw (last_char-append t 92, but_last-append t 92)

  pub quote_char :
      (q : Option ℕ) (g : Option Text)
      → (q ≡ none) ⊎ (q ≡ some 34)
      → IsOpen g
      → scan_char (at fs q g) 34 ≡ some (at fs (if is_none q then some 34 else none) g)
  unfolding scan_char
  quote_char q none h o = ground arith
  quote_char q (some t) h (l, e, k) = ground arith

  pub scan_step :
      (s t : Scan) (c : ℕ) (cs : Text)
      → scan_char s c ≡ some t
      → scan_line s (c ∷ cs) ≡ scan_line t cs
  unfolding scan_line
  scan_step s t c cs e = rw e

  -- One character of the flag, whichever way it is escaped.
  escape_char :
      (g : Option Text) (c : ℕ) (f rest : Text)
      → scan_line (at fs (some 34) g) (escape (c ∷ f) ++ rest)
        ≡ scan_line (at fs (some 34) (some (or_empty g ++ c ∷ []))) (escape f ++ rest)
  unfolding escape
  escape_char g c f rest = elim (Bool-cases (c == 34)) [
    | inl e ↦
        let q : c ≡ 34 = (nat_equal_iff c 34).0 e in
        rw q (
          scan_step _ _ 92 _ (plain_char g 92 (omega arith))
          ∙ scan_step _ _ 34 _ (escaped_quote (or_empty g)))
    | inr n ↦ rw n (scan_step _ _ c _ (plain_char g c (ground arith)))
  ]

  pub scan_inside :
      (g : Option Text) (f rest : Text)
      → scan_line (at fs (some 34) g) (escape f ++ rest)
        ≡ scan_line (at fs (some 34) (extend g f)) rest
  unfolding escape
  scan_inside g [] rest = refl
  scan_inside g (c ∷ f) rest =
      escape_char g c f rest
      ∙ scan_inside (some (or_empty g ++ c ∷ [])) f rest
      ∙ ap (λ x. scan_line (at fs (some 34) x) rest) (extend_snoc g c f)

  pub scan_word :
      (g : Option Text) (f rest : Text)
      → needs_quoting f ≡ false
      → scan_line (at fs none g) (f ++ rest) ≡ scan_line (at fs none (extend g f)) rest
  unfolding needs_quoting
  scan_word g [] rest h = refl
  scan_word g (c ∷ f) rest h =
      scan_step _ _ c _ (word_char g c (ground arith))
      ∙ scan_word (some (or_empty g ++ c ∷ [])) f rest (ground arith)
      ∙ ap (λ x. scan_line (at fs none x) rest) (extend_snoc g c f)
