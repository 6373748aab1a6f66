-- ===== src/Flags/Parse.antt =====
-- _ParseFlags of flag_changer.py: the tokenizer, one character at a time.
use mathlib.Core.Option
use ftc_designosaurs.Base.{
  ℕ, Bool, true, false, ◌&&◌, Option, none, some, List, [], ◌∷◌, ◌++◌, ◌==◌, comparable_nat,
  if◌then◌else◌,
}
use ftc_designosaurs.Flags.Chars.{Text, is_quote, is_space, last_char, but_last}

-- The local variables of the loop.
pub record Scan : Type 0 where
  pub flags : List Text
  pub current_quote : Option ℕ
  pub current_flag : Option Text

abbrev pub start : Scan
start = record { flags = []; current_quote = none; current_flag = none }

-- (current_quote is None and c in _QUOTES) or c == current_quote
abbrev pub is_edge : Option ℕ → ℕ → Bool
is_edge none c = is_quote c
is_edge (some q) c = c == q

abbrev pub is_none {ℓ} : {A : Type ℓ} → Option A → Bool
is_none none = true
is_none (some a) = false

-- current_quote = c if current_quote is None else None
abbrev pub toggle : Scan → ℕ → Scan
toggle s c = record s { current_quote = if is_none s.current_quote then some c else none }

-- The branch on `current_flag[-1] == _ESCAPE`; `none` is the IndexError of an empty flag.
abbrev pub escape_or_toggle : Scan → Text → Option ℕ → ℕ → Option Scan
escape_or_toggle s flag none c = none
escape_or_toggle s flag (some l) c =
    if l == 92
    then some (record s { current_flag = some (but_last flag ++ c ∷ []) })
    else some (toggle s c)

unfoldable pub scan_edge : Scan → Option Text → ℕ → Option Scan
unfolding last_char but_last
scan_edge s none c = some (toggle s c)
scan_edge s (some flag) c = escape_or_toggle s flag (last_char flag) c

abbrev pub or_empty : Option Text → Text
or_empty none = []
or_empty (some t) = t

abbrev pub flush : Scan → Option Text → Scan
flush s none = s
flush s (some flag) = record s { flags = s.flags ++ flag ∷ []; current_flag = none }

-- The body of the loop over the characters.
unfoldable pub scan_char : Scan → ℕ → Option Scan
unfolding scan_edge
scan_char s c =
    if is_edge s.current_quote c
    then scan_edge s s.current_flag c
    else if is_none s.current_quote && is_space c
    then some (flush s s.current_flag)
    else some (record s { current_flag = some (or_empty s.current_flag ++ c ∷ []) })

abbrev pub and_then : Option Scan → (Scan → Option Scan) → Option Scan
and_then none f = none
and_then (some s) f = f s

unfoldable pub scan_line : Scan → Text → Option Scan
unfolding scan_char
scan_line s [] = some s
scan_line s (c ∷ cs) = and_then (scan_char s c) (λ s'. scan_line s' cs)

-- flags[1:], after the last flag has been appended.
abbrev pub drop_program : List Text → List Text
drop_program [] = []
drop_program (f ∷ fs) = fs

unfoldable pub finish : Scan → List Text
finish s = drop_program (flush s s.current_flag).flags

unfoldable pub parse_flags : Text → Option (List Text)
unfolding scan_line finish
parse_flags line = Option.map finish (scan_line start line)
