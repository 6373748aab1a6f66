-- ===== src/Flags/Total.antt =====
-- The tokenizer of flag_changer.py never takes the last character of an empty flag.
use mathlib.Core.Option
use ftc_designosaurs.Base.{
  ℕ, ◌≡◌, refl, ap, ◌&&◌, Option, none, some, List, [], ◌∷◌, ◌++◌, inl, inr, Bool-cases, ◌==◌,
  comparable_nat,
}
use ftc_designosaurs.Flags.Chars.{Text, last_char, but_last, is_space}
use ftc_designosaurs.Flags.Parse.{
  Scan, start, toggle, or_empty, flush, is_edge, is_none, escape_or_toggle, scan_edge, scan_char,
  scan_line, parse_flags, finish,
}

-- The invariant of the loop: a current flag has a character.
abbrev HasChar : Option Text → Type 0
HasChar none = Unit
HasChar (some []) = ⊥
HasChar (some (c ∷ cs)) = Unit

HasChar-snoc : (t : Text) (c : ℕ) → HasChar (some (t ++ c ∷ []))
HasChar-snoc [] c = tt
HasChar-snoc (d ∷ t) c = tt

last_char_total : (t : Text) → HasChar (some t) → (c : ℕ) × (last_char t ≡ some c)
unfolding last_char
last_char_total [] h = absurd h
last_char_total (c ∷ []) h = (c, refl)
last_char_total (c ∷ d ∷ t) h = last_char_total (d ∷ t) tt

abbrev Keeps : Option Scan → Type 0
Keeps r = (t : Scan) × (r ≡ some t) × HasChar t.current_flag

escape_or_toggle-Keeps :
    (s : Scan) (f : Text) (l c : ℕ)
    → HasChar s.current_flag
    → Keeps (escape_or_toggle s f (some l) c)
escape_or_toggle-Keeps s f l c h = elim (Bool-cases (l == 92)) [
  | inl e ↦ rw e (_, refl, HasChar-snoc (but_last f) c)
  | inr n ↦ rw n (_, refl, h)
]

scan_edge-Keeps :
    (s : Scan) (g : Option Text) (c : ℕ)
    → HasChar g
    → HasChar s.current_flag
    → Keeps (scan_edge s g c)
unfolding scan_edge
scan_edge-Keeps s none c h k = (toggle s c, refl, k)
scan_edge-Keeps s (some f) c h k =
    let (l, e) = last_char_total f h in rw e (escape_or_toggle-Keeps s f l c k)

flush-HasChar : (s : Scan) (g : Option Text) → s.current_flag ≡ g → HasChar (flush s g).current_flag
flush-HasChar s none e = rw e tt
flush-HasChar s (some f) e = tt

scan_char-Keeps : (s : Scan) (c : ℕ) → HasChar s.current_flag → Keeps (scan_char s c)
unfolding scan_char
scan_char-Keeps s c h = elim (Bool-cases (is_edge s.current_quote c)) [
  | inl e ↦ rw e (scan_edge-Keeps s s.current_flag c h h)
  | inr n ↦ rw n (elim (Bool-cases (is_none s.current_quote && is_space c)) [
    | inl e ↦ rw e (_, refl, flush-HasChar s s.current_flag refl)
    | inr m ↦ rw m (_, refl, HasChar-snoc (or_empty s.current_flag) c)
  ])
]

scan_line-Keeps : (s : Scan) (line : Text) → HasChar s.current_flag → Keeps (scan_line s line)
unfolding scan_line
scan_line-Keeps s [] h = (s, refl, h)
scan_line-Keeps s (c ∷ line) h =
    let (t, e, k) = scan_char-Keeps s c h in rw e (scan_line-Keeps t line k)

-- On every line, well formed or not, the tokenizer returns a list of flags: it never raises the
-- IndexError of `current_flag[-1]` on an empty flag.
pub parse_flags_total : (line : Text) → (flags : List Text) × (parse_flags line ≡ some flags)
unfolding parse_flags
parse_flags_total line =
    let (t, e, k) = scan_line-Keeps start line tt in (finish t, ap (Option.map finish) e)
