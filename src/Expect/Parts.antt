-- ===== src/Expect/Parts.antt =====
-- What a part of the pattern of expectations_parser.py reads, and what it leaves.
use ftc_designosaurs.Base.{
  All, All-append, String, ℕ, Bool, true, false, Option, none, some, List, [], ◌∷◌, ◌++◌,
  append_assoc, ◌==◌, comparable_nat, if◌then◌else◌, ◌≡◌, refl, sym, ap, ◌∙◌,
}
use ftc_designosaurs.Flags.Chars.{Text, is_nil}
use ftc_designosaurs.Texts.{text}
use ftc_designosaurs.Usb.Lines.{after}
use ftc_designosaurs.Expect.Matcher.{Matches, each, one, span, fronts, greedy}

pub each-All :
    {A B : Type 0} (P : A → Type 0) (Q : B → Type 0) (l : List A) (f : A → List B)
    → All P l
    → ((a : A) → P a → All Q (f a))
    → All Q (each l f)
unfolding each
each-All P Q [] f h g = tt
each-All P Q (a ∷ l) f h g = All-append Q (f a) (each l f) (g a h.0) (each-All P Q l f h.1 g)

pub after-append : (part t rest : Text) → after part t ≡ some rest → t ≡ part ++ rest
unfolding after
after-append [] t rest h = cc
after-append (c ∷ cs) [] rest h = absurd (cc)
after-append (c ∷ cs) (d ∷ ds) rest h = by_test (c == d) refl h (after-append cs ds rest)
  where
    by_test :
        (b : Bool)
        → (c == d) ≡ b
        → (if b then after cs ds else none) ≡ some rest
        → (after cs ds ≡ some rest → ds ≡ cs ++ rest)
        → d ∷ ds ≡ c ∷ (cs ++ rest)
    by_test true e k ih =
        ap (λ x. x ∷ ds) (sym ((comparable_nat.equal_iff c d).0 e)) ∙ ap (λ l. c ∷ l) (ih k)
    by_test false e k ih = absurd (cc)

pub span-append : (p : ℕ → Bool) (t : Text) → t ≡ (span p t).0 ++ (span p t).1
unfolding span
span-append p [] = refl
span-append p (c ∷ cs) = by_test (p c) (span-append p cs)
  where
    by_test :
        (b : Bool)
        → cs ≡ (span p cs).0 ++ (span p cs).1
        → (let cut : Text × Text = if b then (c ∷ (span p cs).0, (span p cs).1) else ([], c ∷ cs) in
            c ∷ cs ≡ cut.0 ++ cut.1)
    by_test true e = ap (λ l. c ∷ l) e
    by_test false e = refl

fronts-All : (p : ℕ → Bool) (t : Text) → All (λ s. t ≡ s.0 ++ s.1) (fronts p t)
unfolding fronts
fronts-All p [] = (refl, tt)
fronts-All p (c ∷ cs) = by_test (p c) (
    each-All (λ s. cs ≡ s.0 ++ s.1) (λ s. c ∷ cs ≡ s.0 ++ s.1) (fronts p cs)
      (λ s. (c ∷ s.0, s.1) ∷ []) (fronts-All p cs) (λ s e. (ap (λ l. c ∷ l) e, tt)))
  where
    longer : List (Text × Text)
    longer = each (fronts p cs) (λ s. (c ∷ s.0, s.1) ∷ [])

    by_test :
        (b : Bool)
        → All (λ s. c ∷ cs ≡ s.0 ++ s.1) longer
        → All
            (λ s. c ∷ cs ≡ s.0 ++ s.1)
            (if b then longer ++ ([], c ∷ cs) ∷ [] else ([], c ∷ cs) ∷ [])
    by_test true h = All-append (λ s. c ∷ cs ≡ s.0 ++ s.1) longer (([], c ∷ cs) ∷ []) h (refl, tt)
    by_test false h = (refl, tt)

-- A part that is read and what is left are the text.
abbrev pub Reads : {A : Type 0} → (A → Text) → Text → Matches A → Type 0
Reads show t l = All (λ m. t ≡ show m.0 ++ m.1) l

pub one-Reads :
    {A : Type 0} (show : A → Text) (t part back : Text) (a : A)
    → t ≡ part ++ back
    → (s : Text) → show a ≡ part ++ s
    → Reads show t (one a (after s back))
one-Reads show t part back a e s shown = by_after (after s back) refl
  where
    by_after : (o : Option Text) → after s back ≡ o → Reads show t (one a o)
    by_after none h = tt
    by_after (some rest) h = (
      e
          ∙ ap (λ l. part ++ l) (after-append s back rest h)
          ∙ sym (append_assoc part s rest)
          ∙ ap (λ l. l ++ rest) (sym shown),
      tt,
    )

pub greedy-Reads :
    (p : ℕ → Bool) (s : String) (t : Text) → Reads (λ m. m ++ text s) t (greedy p s t)
greedy-Reads p s t =
    each-All (λ f. t ≡ f.0 ++ f.1) (λ m. t ≡ (m.0 ++ text s) ++ m.1) (fronts p t)
      (λ f. if is_nil f.0 then [] else one f.0 (after (text s) f.1)) (fronts-All p t)
      (λ f e. by_test f e (is_nil f.0))
  where
    by_test :
        (f : Text × Text)
        → t ≡ f.0 ++ f.1
        → (b : Bool) → Reads (λ m. m ++ text s) t (if b then [] else one f.0 (after (text s) f.1))
    by_test f e true = tt
    by_test f e false = one-Reads (λ m. m ++ text s) t f.0 f.1 f.0 e (text s) refl

pub each-one : (l : Matches Text) → each l (λ m. m ∷ []) ≡ l
unfolding each
each-one [] = refl
each-one (m ∷ l) = ap (λ k. m ∷ k) (each-one l)
