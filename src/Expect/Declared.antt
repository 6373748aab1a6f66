-- ===== src/Expect/Declared.antt =====
-- Which conditions the expectations of a parser have.
use ftc_designosaurs.Base.{
  All, All-append, Bool, true, false, ◌||◌, Option, none, some, List, [], ◌∷◌, ◌++◌, contains,
  comparable_list, comparable_nat, if◌then◌else◌, ◌≡◌, refl, sym, subst,
}
use ftc_designosaurs.Python.{parse_error, Result, ok, err, ok-injective}
use ftc_designosaurs.Flags.Chars.{Text, is_nil}
use ftc_designosaurs.Texts.{text, is_prefix}
use ftc_designosaurs.Usb.Lines.{after}
use ftc_designosaurs.Expect.Matcher.{Groups, match_line}
use ftc_designosaurs.Expect.Parser.{
  has_none, Expectation, Parser, split, split_if_any, all_declared, check_conditions,
  expectation_of, parse_expectation_line, add_tags, append_expectation, read_other, read_words,
  read_line, and_read, read_lines, init_parser,
}

-- Each condition is one of the tags.
abbrev pub IsDeclared : List Text → Expectation → Type 0
IsDeclared tags x = All (λ c. contains tags c ≡ true) x.conditions

abbrev pub AreDeclared : Parser → Type 0
AreDeclared p = All (IsDeclared p.tags) p.expectations

abbrev Holds : Result Parser → Type 0
Holds out = (p : Parser) → out ≡ ok p → AreDeclared p

all_declared-All :
    (tags cs : List Text) → all_declared tags cs ≡ true → All (λ c. contains tags c ≡ true) cs
unfolding all_declared
all_declared-All tags [] h = tt
all_declared-All tags (d ∷ cs) h = by_test (contains tags d) refl h (all_declared-All tags cs)
  where
    by_test :
        (b : Bool)
        → contains tags d ≡ b
        → (if b then all_declared tags cs else false) ≡ true
        → (all_declared tags cs ≡ true → All (λ c. contains tags c ≡ true) cs)
        → All (λ c. contains tags c ≡ true) (d ∷ cs)
    by_test true e k ih = (e, ih k)
    by_test false e k ih = absurd (cc)

check_conditions-IsDeclared :
    (tags : List Text) (g : Groups) (b : Bool) (x : Expectation)
    → all_declared tags (split_if_any g.raw_conditions) ≡ b
    → check_conditions tags g b ≡ ok x
    → IsDeclared tags x
check_conditions-IsDeclared tags g true x h e =
    subst (IsDeclared tags) (ok-injective e)
      (all_declared-All tags (split_if_any g.raw_conditions) h)
check_conditions-IsDeclared tags g false x h e = absurd (cc)

parse_expectation_line-IsDeclared :
    (line : Text) (tags : List Text) (x : Expectation)
    → parse_expectation_line line tags ≡ ok x
    → IsDeclared tags x
unfolding parse_expectation_line
parse_expectation_line-IsDeclared line tags x = by_match (match_line line)
  where
    by_match : (o : Option Groups) → expectation_of tags o ≡ ok x → IsDeclared tags x
    by_match none e = absurd (cc)
    by_match (some g) e =
        check_conditions-IsDeclared tags g (all_declared tags (split_if_any g.raw_conditions)) x
          refl e

append_expectation-Holds :
    (p : Parser) (r : Result Expectation)
    → AreDeclared p
    → ((x : Expectation) → r ≡ ok x → IsDeclared p.tags x)
    → Holds (append_expectation p r)
append_expectation-Holds p (err e) h g q k = absurd (cc)
append_expectation-Holds p (ok x) h g q k =
    subst AreDeclared (ok-injective k)
      (All-append (IsDeclared p.tags) p.expectations (x ∷ []) h (g x refl, tt))

-- A tag is added only where there is no expectation yet.
add_tags-Holds : (words : List Text) (p : Parser) → AreDeclared p → Holds (add_tags words p)
unfolding add_tags
add_tags-Holds [] p h = λ q k. subst AreDeclared (ok-injective k) h
add_tags-Holds (word ∷ words) p h = by_none p.expectations refl (add_tags-Holds words longer)
  where
    longer : Parser
    longer = record p { tags = p.tags ++ word ∷ [] }

    by_none :
        (xs : List Expectation)
        → p.expectations ≡ xs
        → (AreDeclared longer → Holds (add_tags words longer))
        → Holds (if has_none xs then add_tags words longer else err parse_error)
    by_none [] e ih = ih (subst (λ l. All (IsDeclared longer.tags) l) (sym e) tt)
    by_none (x ∷ xs) e ih = λ q k. absurd (cc)

read_other-Holds : (line : Text) (p : Parser) → AreDeclared p → Holds (read_other line p)
read_other-Holds line p h = by_test (is_prefix (text "#") line || is_nil line)
  where
    by_test :
        (b : Bool)
        → Holds (if b then ok p else append_expectation p (parse_expectation_line line p.tags))
    by_test true = λ q k. subst AreDeclared (ok-injective k) h
    by_test false =
        append_expectation-Holds p (parse_expectation_line line p.tags) h
          (parse_expectation_line-IsDeclared line p.tags)

read_line-Holds : (line : Text) (p : Parser) → AreDeclared p → Holds (read_line line p)
read_line-Holds line p h = by_words (after (text "# tags:") line)
  where
    by_words : (o : Option Text) → Holds (read_words line o p)
    by_words none = read_other-Holds line p h
    by_words (some words) = add_tags-Holds (split words) p h

read_lines-Holds : (lines : List Text) (r : Result Parser) → Holds r → Holds (read_lines lines r)
unfolding read_lines
read_lines-Holds [] r h = h
read_lines-Holds (line ∷ lines) r h =
    read_lines-Holds lines (and_read r (read_line line)) (by_result r h)
  where
    by_result : (o : Result Parser) → Holds o → Holds (and_read o (read_line line))
    by_result (err e) k = λ q m. absurd (cc)
    by_result (ok p) k = read_line-Holds line p (k p refl)

-- Where the lines of a file are parsed, each condition of each expectation is one of the tags.
pub init_parser-AreDeclared :
    (lines : List Text) (p : Parser) → init_parser lines ≡ ok p → AreDeclared p
init_parser-AreDeclared lines p =
    read_lines-Holds lines (ok (record { tags = []; expectations = [] }))
      (λ q k. subst AreDeclared (ok-injective k) tt) p
