-- ===== src/Flags/Returns.antt =====
-- A serialized line has no carriage return that is not in a flag.
use ftc_designosaurs.Base.{
  All, Bool, true, false, ◌||◌, Option, none, some, List, [], ◌∷◌, ◌++◌, contains, contains-append,
  comparable_nat, if◌then◌else◌, ◌≡◌, refl, sym, ap, subst, ◌∙◌, arith,
}
use ftc_designosaurs.Python.{some-injective}
use ftc_designosaurs.Flags.Chars.{Text, needs_quoting, is_nil}
use ftc_designosaurs.Flags.Quote.{
  escape, wrap, split_key, quote_value, quote_flag, program, serialize_flags, unsplit,
  split_key_lem,
}
use ftc_designosaurs.Flags.RoundTrip.{spaced, join_spaces-cons}

-- A text that a file gives back as it was written, but for the end of its last line.
abbrev pub HasNoReturn : Text → Type 0
HasNoReturn t = contains t 13 ≡ false

contains-escape : (t : Text) → contains (escape t) 13 ≡ contains t 13
unfolding escape contains
contains-escape [] = refl
contains-escape (c ∷ t) = ground (arith, contains-escape t)

contains-wrap : (t : Text) → contains (wrap t) 13 ≡ contains t 13
unfolding wrap contains
contains-wrap t = ground (arith, contains-append (escape t) (34 ∷ []) 13, contains-escape t)

quote_value-HasNoReturn :
    (key : Text) (value : Option Text)
    → HasNoReturn (unsplit (key, value))
    → HasNoReturn (quote_value key value)
unfolding contains
quote_value-HasNoReturn key none h = h
quote_value-HasNoReturn key (some v) h = by_test (needs_quoting v)
  where
    by_test : (b : Bool) → HasNoReturn (key ++ (61 ∷ (if b then wrap v else v)))
    by_test true = ground (
      arith,
      h,
      contains-append key (61 ∷ v) 13,
      contains-append key (61 ∷ wrap v) 13,
      contains-wrap v,
    )
    by_test false = h

quote_flag-HasNoReturn : (f : Text) → HasNoReturn f → HasNoReturn (quote_flag f)
unfolding quote_flag
quote_flag-HasNoReturn f h = by_test (is_nil f || needs_quoting (split_key f).0)
  where
    by_test :
        (b : Bool) → HasNoReturn (if b then wrap f else quote_value (split_key f).0 (split_key f).1)
    by_test true = contains-wrap f ∙ h
    by_test false =
        quote_value-HasNoReturn (split_key f).0 (split_key f).1
          (subst HasNoReturn (sym (split_key_lem f)) h)

spaced-HasNoReturn : (fs : List Text) → All HasNoReturn fs → HasNoReturn (spaced fs)
unfolding contains
spaced-HasNoReturn [] h = refl
spaced-HasNoReturn (f ∷ fs) h = ground (
  arith,
  contains-append (quote_flag f) (spaced fs) 13,
  quote_flag-HasNoReturn f h.0,
  spaced-HasNoReturn fs h.1,
)

-- The line that flags without carriage returns make has none.
pub serialize_flags-HasNoReturn :
    (f : Text) (fs : List Text) (line : Text)
    → All HasNoReturn (f ∷ fs)
    → serialize_flags (f ∷ fs) ≡ some line
    → HasNoReturn line
unfolding serialize_flags contains
serialize_flags-HasNoReturn f fs line h e =
    subst HasNoReturn (some-injective (ap some (sym (join_spaces-cons program (f ∷ fs))) ∙ e))
      (spaced-HasNoReturn (f ∷ fs) h)
