-- ===== src/Expect/Parser.antt =====
-- The class TestExpectationParser of expectations_parser.py.
use ftc_designosaurs.Base.{
  Bool, true, false, ◌||◌, Option, none, some, List, [], ◌∷◌, ◌++◌, contains, comparable_list,
  comparable_nat, if◌then◌else◌,
}
use ftc_designosaurs.Python.{Result, ok, err, parse_error}
use ftc_designosaurs.Flags.Chars.{Text, is_space, is_nil}
use ftc_designosaurs.Texts.{text, is_prefix}
use ftc_designosaurs.Usb.Lines.{after}
use ftc_designosaurs.Expect.Matcher.{Groups, match_line}

pub record Expectation : Type 0 where
  pub reason : Option Text
  pub test : Text
  pub conditions : List Text
  pub results : List Text

-- _tags and _expectations
pub record Parser : Type 0 where
  pub tags : List Text
  pub expectations : List Expectation

abbrev add_word : Text → List Text → List Text
add_word [] ws = ws
add_word (c ∷ w) ws = (c ∷ w) ∷ ws

-- The first word, if the text starts in one, and the words behind it
unfoldable pub split_words : Text → Text × List Text
split_words [] = ([], [])
split_words (c ∷ cs) =
    let rest = split_words cs in
    if is_space c then ([], add_word rest.0 rest.1) else (c ∷ rest.0, rest.1)

-- text.split()
abbrev pub split : Text → List Text
split t = let words = split_words t in add_word words.0 words.1

abbrev pub split_if_any : Option Text → List Text
split_if_any none = []
split_if_any (some t) = split t

-- for c in conditions: if c not in tags
unfoldable pub all_declared : List Text → List Text → Bool
all_declared tags [] = true
all_declared tags (c ∷ cs) =
    let rest = all_declared tags cs in if contains tags c then rest else false

abbrev pub check_conditions : List Text → Groups → Bool → Result Expectation
check_conditions tags g false = err parse_error
check_conditions tags g true = ok (record {
  reason = g.reason;
  test = g.test;
  conditions = split_if_any g.raw_conditions;
  results = split g.results;
})

abbrev pub expectation_of : List Text → Option Groups → Result Expectation
expectation_of tags none = err parse_error
expectation_of tags (some g) =
    check_conditions tags g (all_declared tags (split_if_any g.raw_conditions))

-- _ParseExpectationLine
unfoldable pub parse_expectation_line : Text → List Text → Result Expectation
parse_expectation_line line tags = expectation_of tags (match_line line)

abbrev pub has_none : List Expectation → Bool
has_none [] = true
has_none (x ∷ xs) = false

-- The loop over the words of a line of tags
unfoldable pub add_tags : List Text → Parser → Result Parser
add_tags [] p = ok p
add_tags (word ∷ words) p =
    let rest = add_tags words (record p { tags = p.tags ++ word ∷ [] }) in
    if has_none p.expectations then rest else err parse_error

abbrev pub append_expectation : Parser → Result Expectation → Result Parser
append_expectation p (err e) = err e
append_expectation p (ok x) = ok (record p { expectations = p.expectations ++ x ∷ [] })

abbrev pub read_other : Text → Parser → Result Parser
read_other line p =
    if is_prefix (text "#") line || is_nil line
    then ok p
    else append_expectation p (parse_expectation_line line p.tags)

abbrev pub read_words : Text → Option Text → Parser → Result Parser
read_words line none p = read_other line p
read_words line (some words) p = add_tags (split words) p

-- The body of the loop, with TAG_TOKEN
abbrev pub read_line : Text → Parser → Result Parser
read_line line p = read_words line (after (text "# tags:") line) p

abbrev pub and_read : Result Parser → (Parser → Result Parser) → Result Parser
and_read (ok p) f = f p
and_read (err e) f = err e

-- _ParseRawExpectationData, of the lines
unfoldable pub read_lines : List Text → Result Parser → Result Parser
read_lines [] p = p
read_lines (line ∷ lines) p = read_lines lines (and_read p (read_line line))

-- TestExpectationParser(raw_data)
abbrev pub init_parser : List Text → Result Parser
init_parser lines = read_lines lines (ok (record { tags = []; expectations = [] }))
