-- ===== src/Expect/Matcher.antt =====
-- TestExpectationParser.MATCHER: what each part of the pattern can match, in the order in which it is
-- tried.
use ftc_designosaurs.Base.{
  String, ℕ, Bool, true, false, not, ◌&&◌, ◌||◌, Option, none, some, List, [], ◌∷◌, ◌++◌, ◌==◌,
  comparable_nat, if◌then◌else◌,
}
use ftc_designosaurs.Flags.Chars.{Text, is_space, is_nil}
use ftc_designosaurs.Texts.{text}
use ftc_designosaurs.Usb.Lines.{after, is_digit}

-- A group, and what is left of the line
abbrev pub Matches : Type 0 → Type 0
Matches A = List (A × Text)

unfoldable pub each : {A B : Type 0} → List A → (A → List B) → List B
each [] f = []
each (a ∷ l) f = f a ++ each l f

abbrev pub one : {A : Type 0} → A → Option Text → Matches A
one a none = []
one a (some rest) = (a, rest) ∷ []

-- The longest front of which each character passes, and the rest
unfoldable pub span : (ℕ → Bool) → Text → Text × Text
span p [] = ([], [])
span p (c ∷ cs) = let rest = span p cs in if p c then (c ∷ rest.0, rest.1) else ([], c ∷ cs)

-- The fronts of which each character passes, longest first, with the rests
unfoldable pub fronts : (ℕ → Bool) → Text → List (Text × Text)
fronts p [] = ([], []) ∷ []
fronts p (c ∷ cs) =
    let longer = each (fronts p cs) (λ s. (c ∷ s.0, s.1) ∷ []) in
    if p c then longer ++ ([], c ∷ cs) ∷ [] else ([], c ∷ cs) ∷ []

-- (p+) before a literal
abbrev pub greedy : (ℕ → Bool) → String → Text → Matches Text
greedy p s t = each (fronts p t) (λ f. if is_nil f.0 then [] else one f.0 (after (text s) f.1))

-- What follows the / of a bug, its digits and a blank
abbrev pub bug_digits : Text → Text → Matches (Option Text)
bug_digits front t =
    if is_nil (span is_digit t).0
    then []
    else one (some (front ++ (span is_digit t).0)) (after (text " ") (span is_digit t).1)

abbrev pub bug_host : ℕ → Option Text → Matches (Option Text)
bug_host dot none = []
bug_host dot (some t) = bug_digits (text "crbug" ++ dot ∷ text "com/") t

abbrev pub bug_dot : Option Text → Matches (Option Text)
bug_dot none = []
bug_dot (some []) = []
bug_dot (some (dot ∷ t)) = bug_host dot (after (text "com/") t)

-- (?:(crbug.com/\d+) )?
abbrev pub bug : Text → Matches (Option Text)
bug t = bug_dot (after (text "crbug") t) ++ (none, t) ∷ []

abbrev pub any_char : ℕ → Bool
any_char c = true

abbrev pub conditions_in : Option Text → Matches (Option Text)
conditions_in none = []
conditions_in (some t) = each (greedy any_char " ] " t) (λ m. (some m.0, m.1) ∷ [])

-- (?:\[ (.+) \] )?
abbrev pub label : Text → Matches (Option Text)
label t = conditions_in (after (text "[ ") t) ++ (none, t) ∷ []

-- (\S+) and a blank
abbrev pub test_path : Text → Matches Text
test_path t = greedy (λ c. not (is_space c)) " " t

abbrev pub is_result_char : ℕ → Bool
is_result_char c = not (c == 91) && not (c == 46)

abbrev pub results_in : Option Text → Matches Text
results_in none = []
results_in (some t) = greedy is_result_char " ]" t

-- \[ ([^\[.]+) \]
abbrev pub outcomes : Text → Matches Text
outcomes t = results_in (after (text "[ ") t)

-- (\s+#.*)?$
abbrev pub is_comment : Text × Text → Bool
is_comment (blanks, []) = false
is_comment (blanks, c ∷ cs) = not (is_nil blanks) && (c == 35)

abbrev pub line_end : Text → Matches Text
line_end t = if is_comment (span is_space t) || is_nil t then (t, []) ∷ [] else []

-- The groups of a match; the last one is what follows the outcomes.
pub record Groups : Type 0 where
  pub reason : Option Text
  pub raw_conditions : Option Text
  pub test : Text
  pub results : Text
  pub comment : Text

-- The matches of the whole pattern
unfoldable pub matches : Text → List Groups
matches line = each (bug line) (λ b. each (label b.1) (λ l. each (test_path l.1) (λ t.
    each (outcomes t.1) (λ o. each (line_end o.1) (λ e.
      record { reason = b.0; raw_conditions = l.0; test = t.0; results = o.0; comment = e.0 }
      ∷ [])))))

abbrev pub first : List Groups → Option Groups
first [] = none
first (g ∷ gs) = some g

-- MATCHER.match(line)
abbrev pub match_line : Text → Option Groups
match_line line = first (matches line)
