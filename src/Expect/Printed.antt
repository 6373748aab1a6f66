-- ===== src/Expect/Printed.antt =====
-- What the groups of TestExpectationParser.MATCHER are of the line.
use ftc_designosaurs.Base.{
  ◌||◌, All, All-append, Bool, true, false, not, Option, none, some, List, [], ◌∷◌, ◌++◌,
  append_assoc, comparable_nat, if◌then◌else◌, ◌≡◌, refl, sym, ap, subst, ◌∙◌,
}
use ftc_designosaurs.Flags.Chars.{Text, is_space, is_nil}
use ftc_designosaurs.Texts.{text}
use ftc_designosaurs.Usb.Lines.{after, is_digit}
use ftc_designosaurs.Python.{some-injective}
use ftc_designosaurs.Expect.Matcher.{
  one, span, greedy, bug_digits, bug_host, bug_dot, bug, any_char, conditions_in, label, test_path,
  is_result_char, results_in, outcomes, is_comment, line_end, Groups, matches, first, match_line,
}
use ftc_designosaurs.Expect.Parts.{
  Reads, each-All, after-append, span-append, one-Reads, greedy-Reads, each-one,
}

abbrev print_reason : Option Text → Text
print_reason none = []
print_reason (some r) = r ++ text " "

abbrev print_conditions : Option Text → Text
print_conditions none = []
print_conditions (some c) = text "[ " ++ (c ++ text " ] ")

-- The line that the groups make up.
abbrev pub printed : Groups → Text
printed g =
    print_reason g.reason
    ++ (print_conditions g.raw_conditions
        ++ ((g.test ++ text " ") ++ ((text "[ " ++ (g.results ++ text " ]")) ++ g.comment)))

bug_digits-Reads : (t front v : Text) → t ≡ front ++ v → Reads print_reason t (bug_digits front v)
bug_digits-Reads t front v e = by_test (is_nil (span is_digit v).0)
  where
    by_test :
        (b : Bool)
        → Reads print_reason t (
            if b
            then []
            else one (some (front ++ (span is_digit v).0)) (after (text " ") (span is_digit v).1))
    by_test true = tt
    by_test false =
        one-Reads print_reason t (front ++ (span is_digit v).0) (span is_digit v).1
          (some (front ++ (span is_digit v).0))
          (e
            ∙ ap (λ l. front ++ l) (span-append is_digit v)
            ∙ sym (append_assoc front (span is_digit v).0 (span is_digit v).1))
          (text " ") refl

bug_dot-Reads :
    (t : Text) (o : Option Text) → after (text "crbug") t ≡ o → Reads print_reason t (bug_dot o)
bug_dot-Reads t none h = tt
bug_dot-Reads t (some []) h = tt
bug_dot-Reads t (some (dot ∷ u)) h = by_host (after (text "com/") u) refl
  where
    by_host : (o : Option Text) → after (text "com/") u ≡ o → Reads print_reason t (bug_host dot o)
    by_host none k = tt
    by_host (some v) k = bug_digits-Reads t (text "crbug" ++ dot ∷ text "com/") v (
        after-append (text "crbug") t (dot ∷ u) h
        ∙ ap (λ l. text "crbug" ++ dot ∷ l) (after-append (text "com/") u v k)
        ∙ sym (append_assoc (text "crbug") (dot ∷ text "com/") v))

bug-Reads : (t : Text) → Reads print_reason t (bug t)
bug-Reads t =
    All-append (λ m. t ≡ print_reason m.0 ++ m.1) (bug_dot (after (text "crbug") t))
      ((none, t) ∷ []) (bug_dot-Reads t (after (text "crbug") t) refl) (refl, tt)

label-Reads : (t : Text) → Reads print_conditions t (label t)
label-Reads t =
    All-append (λ m. t ≡ print_conditions m.0 ++ m.1) (conditions_in (after (text "[ ") t))
      ((none, t) ∷ []) (by_after (after (text "[ ") t) refl) (refl, tt)
  where
    by_after :
        (o : Option Text) → after (text "[ ") t ≡ o → Reads print_conditions t (conditions_in o)
    by_after none h = tt
    by_after (some u) h =
        each-All (λ m. u ≡ (m.0 ++ text " ] ") ++ m.1) (λ m. t ≡ print_conditions m.0 ++ m.1)
          (greedy any_char " ] " u) (λ m. (some m.0, m.1) ∷ []) (greedy-Reads any_char " ] " u)
          (λ m e. (
            after-append (text "[ ") t u h
                ∙ ap (λ l. text "[ " ++ l) e
                ∙ sym (append_assoc (text "[ ") (m.0 ++ text " ] ") m.1),
            tt,
          ))

outcomes-Reads : (t : Text) → Reads (λ m. text "[ " ++ (m ++ text " ]")) t (outcomes t)
outcomes-Reads t = by_after (after (text "[ ") t) refl
  where
    by_after :
        (o : Option Text)
        → after (text "[ ") t ≡ o
        → Reads (λ m. text "[ " ++ (m ++ text " ]")) t (results_in o)
    by_after none h = tt
    by_after (some u) h =
        subst (λ l. All (λ m. t ≡ (text "[ " ++ (m.0 ++ text " ]")) ++ m.1) l) (each-one _)
          (each-All (λ m. u ≡ (m.0 ++ text " ]") ++ m.1)
            (λ m. t ≡ (text "[ " ++ (m.0 ++ text " ]")) ++ m.1) (greedy is_result_char " ]" u)
            (λ m. m ∷ []) (greedy-Reads is_result_char " ]" u)
            (λ m e. (
              after-append (text "[ ") t u h
                  ∙ ap (λ l. text "[ " ++ l) e
                  ∙ sym (append_assoc (text "[ ") (m.0 ++ text " ]") m.1),
              tt,
            )))

line_end-Reads : (t : Text) → All (λ (m : Text × Text). t ≡ m.0) (line_end t)
line_end-Reads t = by_test (is_comment (span is_space t) || is_nil t)
  where
    by_test : (b : Bool) → All (λ (m : Text × Text). t ≡ m.0) (if b then (t, []) ∷ [] else [])
    by_test true = (refl, tt)
    by_test false = tt

matches-All : (line : Text) → All (λ g. line ≡ printed g) (matches line)
unfolding matches
matches-All line =
    each-All (λ m. line ≡ print_reason m.0 ++ m.1) (λ g. line ≡ printed g) (bug line) _
      (bug-Reads line)
      (λ b eb.
        each-All (λ m. b.1 ≡ print_conditions m.0 ++ m.1) (λ g. line ≡ printed g) (label b.1) _
          (label-Reads b.1)
          (λ l el.
            each-All (λ m. l.1 ≡ (m.0 ++ text " ") ++ m.1) (λ g. line ≡ printed g) (test_path l.1) _
              (greedy-Reads (λ c. not (is_space c)) " " l.1)
              (λ t et.
                each-All (λ m. t.1 ≡ (text "[ " ++ (m.0 ++ text " ]")) ++ m.1)
                  (λ g. line ≡ printed g) (outcomes t.1) _ (outcomes-Reads t.1)
                  (λ o eo.
                    each-All (λ m. o.1 ≡ m.0) (λ g. line ≡ printed g) (line_end o.1) _
                      (line_end-Reads o.1)
                      (λ e ee. (
                        eb
                            ∙ ap (λ x. print_reason b.0 ++ x)
                                (el
                                  ∙ ap (λ x. print_conditions l.0 ++ x)
                                      (et
                                        ∙ ap (λ x. (t.0 ++ text " ") ++ x)
                                            (eo
                                              ∙ ap (λ x. (text "[ " ++ (o.0 ++ text " ]")) ++ x)
                                                  ee))),
                        tt,
                      ))))))

-- The groups of a match, with the words and blanks of the pattern between them, are the line, whichever
-- of its parts are there.
pub match_line-printed : (line : Text) (g : Groups) → match_line line ≡ some g → line ≡ printed g
match_line-printed line g = by_matches (matches line) (matches-All line)
  where
    by_matches :
        (l : List Groups) → All (λ x. line ≡ printed x) l → first l ≡ some g → line ≡ printed g
    by_matches [] h e = absurd (cc)
    by_matches (x ∷ l) h e = subst (λ y. line ≡ printed y) (some-injective e) h.0
