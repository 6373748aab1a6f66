-- ===== src/Flags/Sets.antt =====
-- Membership in the sets of FlagChanger.
use ftc_designosaurs.Base.{
  ◌≡◌, not, ◌&&◌, ◌||◌, List, [], ◌∷◌, arith, inl, inr, Bool-cases, contains, contains-keep,
  comparable_list, comparable_nat, list_equal_iff,
}
use ftc_designosaurs.Flags.Chars.{Text}
use ftc_designosaurs.Flags.Changer.{FlagSet, update, to_set, difference}

pub contains-update :
    (s : FlagSet) (fs : List Text) (x : Text)
    → contains (update s fs) x ≡ (contains s x || contains fs x)
unfolding update contains
contains-update s [] x = ground arith
contains-update s (f ∷ fs) x = elim (Bool-cases (contains s f)) [
  | inl e ↦ rw e (ground (arith, contains-update s fs x, list_equal_iff f x))
  | inr n ↦ rw n (ground (arith, contains-update (f ∷ s) fs x))
]

pub contains-to_set : (fs : List Text) (x : Text) → contains (to_set fs) x ≡ contains fs x
unfolding to_set contains
contains-to_set fs x = contains-update [] fs x

pub contains-difference :
    (s : FlagSet) (fs : List Text) (x : Text)
    → contains (difference s fs) x ≡ (not (contains fs x) && contains s x)
unfolding difference
contains-difference s fs x = contains-keep (λ f. not (contains fs f)) s x
