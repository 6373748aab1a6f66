-- ===== src/Expect/Tests.antt =====
-- Small inputs for the theorems about expectations.
use ftc_designosaurs.Base.{
  none, some, List, [], ◌∷◌, ◌≡◌, refl, contains, comparable_list, comparable_nat,
}
use ftc_designosaurs.Flags.Chars.{Text}
use ftc_designosaurs.Texts.{text, is_prefix}
use ftc_designosaurs.Usb.Lines.{after}
use ftc_designosaurs.Expect.Matcher.{Groups, each, span, fronts, matches}
use ftc_designosaurs.Expect.Parser.{
  Parser, split_words, all_declared, parse_expectation_line, add_tags, read_lines,
}
use ftc_designosaurs.Expect.Printed.{printed, match_line-printed}
use ftc_designosaurs.Expect.Declared.{AreDeclared, init_parser-AreDeclared}

abbrev line : Text
line = text "crbug.com/12 [ Win ] bench/a [ Skip ] # slow"

abbrev groups : Groups
groups = record {
  reason = some (text "crbug.com/12");
  raw_conditions = some (text "Win");
  test = text "bench/a";
  results = text "Skip";
  comment = text " # slow";
}

match_line-printed_example : line ≡ printed groups
unfolding matches text after each fronts span
match_line-printed_example = match_line-printed line groups refl

abbrev lines : List Text
lines = text "# tags: Mac Win" ∷ text "" ∷ text "[ Win ] b/a [ Skip ]" ∷ []

abbrev parsed : Parser
parsed = record {
  tags = text "Mac" ∷ text "Win" ∷ [];
  expectations =
      record {
        reason = none;
        test = text "b/a";
        conditions = text "Win" ∷ [];
        results = text "Skip" ∷ [];
      }
      ∷ [];
}

init_parser-AreDeclared_example : AreDeclared parsed
unfolding matches text after each fronts span split_words all_declared parse_expectation_line
    add_tags read_lines is_prefix contains
init_parser-AreDeclared_example = init_parser-AreDeclared lines parsed refl
