-- ===== src/Flags/Init.antt =====
-- The constructor of FlagChanger.
use ftc_designosaurs.Base.{
  subst, Bool, true, false, ◌≡◌, refl, List, [], ◌++◌, some, none, Option, contains, comparable_nat,
  if◌then◌else◌, inl, inr, Bool-cases,
}
use ftc_designosaurs.Flags.Chars.{Text}
use ftc_designosaurs.Flags.Device.{Device, SetOrder}
use ftc_designosaurs.Flags.Changer.{
  Changer, Outcome, returned, raised, store_flags, get_current_flags, init_changer, open_changer,
  remove_alternate, cmdline_dir, cmdline_dir_legacy,
}

module _ (dev : Device) (sets : SetOrder) where
  record IsFresh (alternate : Text) (c : Changer dev.State) : Type 0 where
    pub gone : dev.path_exists alternate c.device ≡ false
    pub bottom : c.below ≡ []
    pub clean : c.should_reset_enforce ≡ false

  abbrev Opened : Text → Outcome (List Text × Changer dev.State) → Type 0
  Opened alternate (returned (flags, c)) = IsFresh alternate c
  Opened alternate (raised e) = Unit

  remove_alternate-gone :
      (p : Text) (d : dev.State) → dev.path_exists p (remove_alternate dev sets p d) ≡ false
  remove_alternate-gone p d = elim (Bool-cases (dev.path_exists p d)) [
    | inl e ↦ rw e (dev.exists-remove p d)
    | inr n ↦ rw (n, n) refl
  ]

  store_flags-Opened :
      (alternate : Text) (c : Changer dev.State) (o : Option (List Text))
      → IsFresh alternate c
      → Opened alternate (store_flags dev sets c o)
  store_flags-Opened alternate c none h = tt
  store_flags-Opened alternate c (some flags) h = record {
    gone = h.gone;
    bottom = h.bottom;
    clean = h.clean;
  }

  open_changer-Opened :
      (p alternate : Text) (d : dev.State) → Opened alternate (open_changer dev sets p alternate d)
  unfolding get_current_flags
  open_changer-Opened p alternate d =
      store_flags-Opened alternate
        (record {
          device = remove_alternate dev sets alternate d;
          cmdline_path = p;
          top = [];
          below = [];
          should_reset_enforce = false;
        })
        _ (record { gone = remove_alternate-gone alternate d; bottom = refl; clean = refl })

  -- The path that the constructor clears: the current one for a legacy changer, and the legacy one
  -- otherwise.
  abbrev pub alternate_path : Text → Bool → Text
  alternate_path file legacy =
      if legacy then cmdline_dir dev sets ++ file else cmdline_dir_legacy dev sets ++ file

  abbrev Ready : dev.State → Text → Bool → Outcome (List Text × Changer dev.State) → Type 0
  Ready d file legacy (returned (flags, c)) =
      (contains file 47 ≡ false)
      × (legacy ≡ true → dev.has_root d ≡ true)
      × IsFresh (alternate_path file legacy) c
  Ready d file legacy (raised e) = Unit

  Opened→Ready :
      (d : dev.State) (file : Text) (legacy : Bool) (r : Outcome (List Text × Changer dev.State))
      → contains file 47 ≡ false
      → (legacy ≡ true → dev.has_root d ≡ true)
      → Opened (alternate_path file legacy) r
      → Ready d file legacy r
  Opened→Ready d file legacy (returned (flags, c)) p r h = (p, r, h)
  Opened→Ready d file legacy (raised e) p r h = tt

  init_changer-Ready :
      (d : dev.State) (file : Text) (legacy : Bool)
      → Ready d file legacy (init_changer dev sets d file legacy)
  unfolding init_changer
  init_changer-Ready d file false = elim (Bool-cases (contains file 47)) [
    | inl e ↦ rw e tt
    | inr n ↦ rw n (Opened→Ready d file false _ n (λ x. cc) (open_changer-Opened _ _ d))
  ]
  init_changer-Ready d file true = elim (Bool-cases (contains file 47)) [
    | inl e ↦ rw e tt
    | inr n ↦ rw n (elim (Bool-cases (dev.has_root d)) [
      | inl r ↦ rw r (Opened→Ready d file true _ n (λ x. r) (open_changer-Opened _ _ d))
      | inr u ↦ rw u tt
    ])
  ]

  -- Where the constructor returns, the file name has no path separator, a legacy changer has a rooted
  -- device, no file is left at the alternate path, and the changer has a single state and no SELinux
  -- mode to reset.
  pub init_changer_lem :
      (d : dev.State) (file : Text) (legacy : Bool) (flags : List Text) (c : Changer dev.State)
      → init_changer dev sets d file legacy ≡ returned (flags, c)
      → (contains file 47 ≡ false)
        × (legacy ≡ true → dev.has_root d ≡ true)
        × (dev.path_exists (alternate_path file legacy) c.device ≡ false)
        × (c.below ≡ [])
        × (c.should_reset_enforce ≡ false)
  init_changer_lem d file legacy flags c e =
      let (plain, rooted, fresh) =
        subst (Ready d file legacy) e (init_changer-Ready d file legacy) in
      (plain, rooted, fresh.gone, fresh.bottom, fresh.clean)
