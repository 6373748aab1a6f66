-- ===== src/Flags/Enforce.antt =====
-- The SELinux mode of the device across any sequence of replacements and restores.
use ftc_designosaurs.Base.{
  subst, inr, inl, Bool-cases, Option, Bool, true, false, not, ◌&&◌, ◌≡◌, refl, sym, ◌∙◌, List, [],
  ◌∷◌, some, none, arith,
}
use ftc_designosaurs.Flags.Chars.{Text}
use ftc_designosaurs.Flags.Device.{Device, SetOrder}
use ftc_designosaurs.Flags.Changer.{
  bind-eq-returned, raised, Changer, Outcome, returned, store_flags, write_line, get_current_flags,
  update_command_line_file, set_permissive, reset_enforce, replace_flags, restore, to_set, pop,
}
use ftc_designosaurs.Flags.Quote.{serialize_flags}

module _ (dev : Device) (sets : SetOrder) where
  -- A call that changes the stack and returns; AddFlags, RemoveFlags and PushFlags are replacements.
  pub data Step : Changer dev.State → Changer dev.State → Type 0 where
    replaced :
        (new : List Text) (c : Changer dev.State) (flags : List Text) (c' : Changer dev.State)
        → replace_flags dev sets new c ≡ returned (flags, c')
        → Step c c'
    restored :
        (c : Changer dev.State) (flags : List Text) (c' : Changer dev.State)
        → restore dev sets c ≡ returned (flags, c')
        → Step c c'

  pub data Reach (c : Changer dev.State) : Changer dev.State → Type 0 where
    here : Reach c c
    next : {c1 c2 : Changer dev.State} → Reach c c1 → Step c1 c2 → Reach c c2

  -- The mode is the original one unless the changer has to reset it, and at the bottom of the stack
  -- it does not.
  abbrev HasMode : Bool → Changer dev.State → Type 0
  HasMode mode c =
      (dev.get_enforce c.device ≡ (mode && not c.should_reset_enforce))
      × ((c.should_reset_enforce && not mode) ≡ false)

  abbrev IsBalanced : Changer dev.State → Type 0
  IsBalanced c = c.below ≡ [] → c.should_reset_enforce ≡ false

  record SameButTop (c c' : Changer dev.State) : Type 0 where
    mode : dev.get_enforce c'.device ≡ dev.get_enforce c.device
    reset : c'.should_reset_enforce ≡ c.should_reset_enforce
    below : c'.below ≡ c.below

  store_flags-same :
      (c : Changer dev.State) (o : Option (List Text)) {flags : List Text} {c' : Changer dev.State}
      → store_flags dev sets c o ≡ returned (flags, c')
      → SameButTop c c'
  store_flags-same c none e = absurd (cc)
  store_flags-same c (some seen) e = record {
    mode = ground arith;
    reset = ground arith;
    below = ground arith;
  }

  get_current-same :
      (c : Changer dev.State) {flags : List Text} {c' : Changer dev.State}
      → get_current_flags dev sets c ≡ returned (flags, c')
      → SameButTop c c'
  unfolding get_current_flags
  get_current-same c e = store_flags-same c _ e

  write_line-same :
      (c : Changer dev.State) (o : Option Text) → SameButTop c (write_line dev sets c o)
  write_line-same c none = record { mode = dev.enforce-remove _ _; reset = refl; below = refl }
  write_line-same c (some line) = record {
    mode = dev.enforce-write _ _ _;
    reset = refl;
    below = refl;
  }

  update_file-same :
      (c : Changer dev.State) {flags : List Text} {c' : Changer dev.State}
      → update_command_line_file dev sets c ≡ returned (flags, c')
      → SameButTop c c'
  unfolding update_command_line_file
  update_file-same c e =
      let w = write_line-same c (serialize_flags (sets.iterate c.top)) in
      let s = get_current-same (write_line dev sets c (serialize_flags (sets.iterate c.top))) e in
      record { mode = s.mode ∙ w.mode; reset = s.reset ∙ w.reset; below = s.below ∙ w.below }

  set_permissive-HasMode :
      (mode : Bool) (c : Changer dev.State)
      → HasMode mode c
      → HasMode mode (set_permissive dev sets c)
  unfolding set_permissive
  set_permissive-HasMode mode c h = ground (arith, dev.enforce-set false c.device)

  abbrev Popped : Bool → Outcome (Changer dev.State) → Type 0
  Popped mode (returned c) = HasMode mode c × IsBalanced c
  Popped mode (raised e) = Unit

  pop-Popped :
      (mode : Bool) (below : List (List Text)) (c : Changer dev.State)
      → HasMode mode c
      → Popped mode (pop dev sets below c)
  unfolding reset_enforce
  pop-Popped mode [] c h = tt
  pop-Popped mode (s ∷ []) c h = elim (Bool-cases c.should_reset_enforce) [
    | inl e ↦ rw e ((dev.enforce-set true c.device ∙ ground arith, refl), λ _. refl)
    | inr n ↦ rw n ((ground arith, ground arith), λ _. refl)
  ]
  pop-Popped mode (s ∷ t ∷ ts) c h = (h, λ x. cc)

  carry :
      (mode : Bool) {c c' : Changer dev.State}
      → SameButTop c c'
      → HasMode mode c × IsBalanced c
      → HasMode mode c' × IsBalanced c'
  carry mode s h =
      ((s.mode ∙ rw s.reset h.0.0, rw s.reset h.0.1), λ x. s.reset ∙ h.1 (sym s.below ∙ x))

  restore-HasMode :
      (mode : Bool) (c : Changer dev.State) {flags : List Text} {c' : Changer dev.State}
      → HasMode mode c
      → restore dev sets c ≡ returned (flags, c')
      → HasMode mode c' × IsBalanced c'
  unfolding restore
  restore-HasMode mode c h e =
      let (c1, popped, rest) =
        bind-eq-returned (pop dev sets c.below c) (update_command_line_file dev sets) e in
      carry mode (update_file-same c1 rest)
        (subst (Popped mode) popped (pop-Popped mode c.below c h))

  Step-HasMode :
      (mode : Bool) {c c' : Changer dev.State}
      → Step c c'
      → HasMode mode c
      → HasMode mode c' × IsBalanced c'
  unfolding replace_flags
  Step-HasMode mode (replaced new c flags c' e) h =
      let pushed = record c { top = to_set new; below = c.top ∷ c.below } in
      carry mode (update_file-same (set_permissive dev sets pushed) e)
        (set_permissive-HasMode mode pushed h, λ x. absurd (unfold set_permissive in ground arith))
  Step-HasMode mode (restored c flags c' e) h = restore-HasMode mode c h e

  Reach-HasMode :
      (mode : Bool) {c c' : Changer dev.State}
      → HasMode mode c × IsBalanced c
      → Reach c c'
      → HasMode mode c' × IsBalanced c'
  Reach-HasMode mode h here = h
  Reach-HasMode mode h (next r st) = Step-HasMode mode st (Reach-HasMode mode h r).0

  -- From a changer with nothing to reset, whatever flags are pushed and restored by calls that
  -- return: whenever only one state is on the stack again, the device enforces SELinux exactly if
  -- it did at the start.
  pub Reach-enforce :
      (c c' : Changer dev.State)
      → c.should_reset_enforce ≡ false
      → Reach c c'
      → c'.below ≡ []
      → dev.get_enforce c'.device ≡ dev.get_enforce c.device
  Reach-enforce c c' clean r bottom =
      let (h, balanced) =
        Reach-HasMode (dev.get_enforce c.device)
          ((rw clean (ground arith), rw clean refl), λ _. clean) r in
      ground (arith, balanced bottom)
