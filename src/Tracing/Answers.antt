-- ===== src/Tracing/Answers.antt =====
-- What the calls that a loop of tracing_controller.py makes answer, and what is chosen by it.
use ftc_designosaurs.Base.{
  List, [], ◌∷◌, Bool, true, false, ◌≡◌, refl, ap, Option, none, some, length, arith, ◌≤◌,
}
use ftc_designosaurs.Python.{Exec, ok}

-- Calls for the elements of a list in its order, each from the state that the one before it left,
-- return the answers and lead from the first state to the last.
abbrev pub Answers : {S X B : Type 0} → (X → Exec S B) → List X → S → List B → S → Type 0
Answers call [] s [] u = s ≡ u
Answers call [] s (b ∷ bs) u = ⊥
Answers call (x ∷ xs) s [] u = ⊥
Answers {S} call (x ∷ xs) s (b ∷ bs) u = (t : S) × (call x s ≡ (ok b, t)) × Answers call xs t bs u

-- The elements at the positions of true.
abbrev pub chosen : {A : Type 0} → List A → List Bool → List A
chosen [] bs = []
chosen (x ∷ xs) [] = []
chosen (x ∷ xs) (true ∷ bs) = x ∷ chosen xs bs
chosen (x ∷ xs) (false ∷ bs) = chosen xs bs

-- What the present options hold.
abbrev pub present : {A : Type 0} → List (Option A) → List A
present [] = []
present (none ∷ os) = present os
present (some x ∷ os) = x ∷ present os

module _ {A : Type 0} where
  pub length-chosen : (xs : List A) (bs : List Bool) → length (chosen xs bs) ≤ length xs
  length-chosen [] bs = omega arith
  length-chosen (x ∷ xs) [] = omega arith
  length-chosen (x ∷ xs) (true ∷ bs) = omega (arith, length-chosen xs bs)
  length-chosen (x ∷ xs) (false ∷ bs) = omega (arith, length-chosen xs bs)

  -- What is chosen is shorter, or it is all.
  pub chosen_all :
      (xs : List A) (bs : List Bool) → length xs ≤ length (chosen xs bs) → chosen xs bs ≡ xs
  chosen_all [] bs h = refl
  chosen_all (x ∷ xs) [] h = absurd (omega (arith, h))
  chosen_all (x ∷ xs) (true ∷ bs) h = ap (λ l. x ∷ l) (chosen_all xs bs (omega (arith, h)))
  chosen_all (x ∷ xs) (false ∷ bs) h = absurd (omega (arith, h, length-chosen xs bs))
