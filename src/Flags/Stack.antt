-- ===== src/Flags/Stack.antt =====
-- What FlagChanger leaves on the device and on its stack.
use ftc_designosaurs.Base.{
  if◌then◌else◌, ◌⊎◌, inr, true, inl, Bool, sym, ◌≡◌, refl, ap, ◌∙◌, not, ◌&&◌, ◌||◌, List, [], ◌∷◌,
  some, none, All, AllIn, AllIn→All, arith, contains, comparable_list, comparable_nat,
}
use ftc_designosaurs.Flags.Chars.{strip, Text}
use ftc_designosaurs.Flags.Device.{Device, SetOrder}
use ftc_designosaurs.Flags.Changer.{
  FlagSet, Changer, returned, write_line, get_current_flags, update_command_line_file,
  set_permissive, reset_enforce, replace_flags, push_flags, restore, update, to_set, difference,
  ◌>>=◌,
}
use ftc_designosaurs.Flags.Total.{parse_flags_total}
use ftc_designosaurs.Flags.Sets.{contains-update, contains-to_set, contains-difference}
use ftc_designosaurs.Flags.RoundTrip.{Survives, parse-serialize}
use ftc_designosaurs.Flags.Returns.{HasNoReturn, serialize_flags-HasNoReturn}
use ftc_designosaurs.Flags.Parse.{parse_flags}
use ftc_designosaurs.Flags.Quote.{serialize_flags}

serialize-nil : serialize_flags [] ≡ none
unfolding serialize_flags
serialize-nil = refl

parse-nil : parse_flags [] ≡ some []
unfolding parse_flags
parse-nil = refl

or_cases : (n a b : Bool) → (n && (a || b)) ≡ true → (a ≡ true) ⊎ (b ≡ true)
or_cases n a b h = ground arith

module _ (dev : Device) (sets : SetOrder) where
  refresh :
      (c : Changer dev.State) (fs : List Text)
      → All Survives fs
      → All HasNoReturn fs
      → get_current_flags dev sets (write_line dev sets c (serialize_flags fs))
        ≡ returned (fs, record (write_line dev sets c (serialize_flags fs)) { top = to_set fs })
  unfolding get_current_flags
  refresh c [] h k = rw (serialize-nil, dev.exists-remove, parse-nil)
  refresh c (f ∷ fs) h k =
      let (line, e, p) = parse-serialize f fs h in
      let back =
        dev.read-write c.cmdline_path line c.device (serialize_flags-HasNoReturn f fs line k e) in
      rw (e, dev.exists-write, back, p)

  -- The changer once its top set is on the device.
  abbrev written : Changer dev.State → Changer dev.State
  written c = record (write_line dev sets c (serialize_flags (sets.iterate c.top))) {
    top = to_set (sets.iterate c.top);
  }

  update_file :
      (c : Changer dev.State)
      → AllIn Survives c.top
      → AllIn HasNoReturn c.top
      → update_command_line_file dev sets c ≡ returned (sets.iterate c.top, written c)
  unfolding update_command_line_file
  update_file c h k =
      refresh c (sets.iterate c.top)
        (AllIn→All Survives _ (λ x m. h x (sym (sets.iterate-contains c.top x) ∙ m)))
        (AllIn→All HasNoReturn _ (λ x m. k x (sym (sets.iterate-contains c.top x) ∙ m)))

  written-below : (c : Changer dev.State) → (written c).below ≡ c.below
  written-below c =
      elim (serialize_flags (sets.iterate c.top))
        as (λ o. (write_line dev sets c o).below ≡ c.below) [ none ↦ refl | some l ↦ refl ]

  set_permissive_keeps :
      (c : Changer dev.State)
      → ((set_permissive dev sets c).top ≡ c.top) × ((set_permissive dev sets c).below ≡ c.below)
  unfolding set_permissive
  set_permissive_keeps c = ground arith

  pushed_members :
      (s : FlagSet) (add remove : List Text) (x : Text)
      → contains (to_set (sets.iterate (difference (update s add) remove))) x
        ≡ (not (contains remove x) && (contains s x || contains add x))
  pushed_members s add remove x =
      contains-to_set _ x
      ∙ sets.iterate-contains _ x
      ∙ contains-difference (update s add) remove x
      ∙ ap (λ b. not (contains remove x) && b) (contains-update s add x)

  -- From a state whose flags survive serialization and have no carriage return, a push of such flags
  -- returns the flags of
  -- the top state and the added ones without the removed ones, and puts the old top state on the
  -- stack.
  pub push_flags_lem :
      (add remove : List Text) (c : Changer dev.State)
      → AllIn Survives c.top
      → AllIn HasNoReturn c.top
      → AllIn Survives add
      → AllIn HasNoReturn add
      → (flags : List Text) × (c' : Changer dev.State) × (push_flags dev sets add remove c
          ≡ returned (flags, c'))
        × ((x : Text)
            → contains flags x ≡ (not (contains remove x) && (contains c.top x || contains add x)))
        × (c'.below ≡ c.top ∷ c.below)
  unfolding push_flags replace_flags
  push_flags_lem add remove c h h' k k' =
      let new = sets.iterate (difference (update c.top add) remove) in
      let c1 = set_permissive dev sets (record c { top = to_set new; below = c.top ∷ c.below }) in
      let (top_kept, below_kept) =
        set_permissive_keeps (record c { top = to_set new; below = c.top ∷ c.below }) in
      let members : (x : Text)
          → contains c1.top x ≡ (not (contains remove x) && (contains c.top x || contains add x)) =
        λ x. ap (λ s. contains s x) top_kept ∙ pushed_members c.top add remove x in
      let fits : AllIn Survives c1.top = λ x m. elim (or_cases _ _ _ (sym (members x) ∙ m)) [
        | inl old ↦ h x old
        | inr new' ↦ k x new'
      ] in
      let plain : AllIn HasNoReturn c1.top = λ x m. elim (or_cases _ _ _ (sym (members x) ∙ m)) [
        | inl old ↦ h' x old
        | inr new' ↦ k' x new'
      ] in
      (
        sets.iterate c1.top,
        written c1,
        update_file c1 fits plain,
        λ x. sets.iterate-contains c1.top x ∙ members x,
        written-below c1 ∙ below_kept,
      )

  get_current_total :
      (c : Changer dev.State)
      → (flags : List Text) × (get_current_flags dev sets c
          ≡ returned (flags, record c { top = to_set flags }))
  unfolding get_current_flags
  get_current_total c =
      let (flags, e) = parse_flags_total (
        if dev.path_exists c.cmdline_path c.device
        then strip (dev.read_file c.cmdline_path c.device)
        else []) in
      (flags, rw e)

  restore_pop :
      (c : Changer dev.State) (s : FlagSet) (rest : List FlagSet)
      → c.below ≡ s ∷ rest
      → (c1 : Changer dev.State) × (restore dev sets c ≡ update_command_line_file dev sets c1)
        × (c1.top ≡ s)
        × (c1.below ≡ rest)
  unfolding restore reset_enforce
  restore_pop c s [] e =
      (reset_enforce dev sets (record c { top = s; below = [] }), rw e, ground arith, ground arith)
  restore_pop c s (t ∷ rest) e = (record c { top = s; below = t ∷ rest }, rw e, refl, refl)

  -- Restore takes back any replacement, also one whose own flags do not survive serialization: from a
  -- state whose flags survive and have no carriage return, both calls succeed, the flags read back are those of the state, and
  -- the stack below is the one from before.
  pub restore-replace_flags :
      (new : List Text) (c : Changer dev.State)
      → AllIn Survives c.top
      → AllIn HasNoReturn c.top
      → (flags : List Text) × (c' : Changer dev.State) × ((replace_flags dev sets new c >>= λ r.
            restore dev sets r.1)
          ≡ returned (flags, c'))
        × ((x : Text) → contains flags x ≡ contains c.top x)
        × (c'.below ≡ c.below)
  unfolding replace_flags update_command_line_file
  restore-replace_flags new c h k =
      let pushed =
        set_permissive dev sets (record c { top = to_set new; below = c.top ∷ c.below }) in
      let c1 = write_line dev sets pushed (serialize_flags (sets.iterate pushed.top)) in
      let (seen, e) = get_current_total c1 in
      let under : c1.below ≡ c.top ∷ c.below = written-below pushed ∙ (set_permissive_keeps _).1 in
      let (c2, e2, top2, below2) =
        restore_pop (record c1 { top = to_set seen }) c.top c.below under in
      (
        sets.iterate c2.top,
        written c2,
        rw e (e2 ∙ update_file c2 (rw top2 h) (rw top2 k)),
        λ x. sets.iterate-contains c2.top x ∙ ap (λ s. contains s x) top2,
        written-below c2 ∙ below2,
      )
