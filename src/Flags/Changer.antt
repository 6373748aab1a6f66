-- ===== src/Flags/Changer.antt =====
-- The class FlagChanger of flag_changer.py.
use ftc_designosaurs.Base.{
  ◌≡◌, refl, Bool, true, false, not, ◌&&◌, Option, none, some, List, [], ◌∷◌, ◌++◌, leb, contains,
  keep, comparable_list, comparable_nat, if◌then◌else◌,
}
use ftc_designosaurs.Flags.Chars.{Text, strip}
use ftc_designosaurs.Flags.Parse.{parse_flags}
use ftc_designosaurs.Flags.Quote.{serialize_flags}
use ftc_designosaurs.Flags.Device.{Device, SetOrder}

pub data Error : Type 0 where
  value_error assertion_error index_error : Error

pub data Outcome (A : Type 0) : Type 0 where
  returned : A → Outcome A
  raised : Error → Outcome A

-- The statements behind a call, which a raise skips.
infixl 5 ◌>>=◌
abbrev pub ◌>>=◌ : {A B : Type 0} → Outcome A → (A → Outcome B) → Outcome B
call >>= rest = elim call [ returned value ↦ rest value | raised error ↦ raised error ]

-- A sequence that returns has a first part that does.
pub bind-eq-returned :
    {A B : Type 0} (call : Outcome A) (rest : A → Outcome B) {last : B}
    → (call >>= rest) ≡ returned last
    → (value : A) × (call ≡ returned value) × (rest value ≡ returned last)
bind-eq-returned (raised error) rest ends = cc
bind-eq-returned (returned value) rest ends = (value, refl, ends)

-- A set of flags, read only by `in` and by iteration.
abbrev pub FlagSet : Type 0
FlagSet = List Text

-- set(flags), a.update(b) and a.difference_update(b)
unfoldable pub update : FlagSet → List Text → FlagSet
update s [] = s
update s (f ∷ fs) = update (if contains s f then s else f ∷ s) fs

unfoldable pub to_set : List Text → FlagSet
to_set fs = update [] fs

unfoldable pub difference : FlagSet → List Text → FlagSet
difference s fs = keep (λ f. not (contains fs f)) s

-- `top` is _state_stack[-1], and `below` the rest of the stack, the next one down first: the stack
-- always holds the initial state.
pub record Changer (D : Type 0) : Type 0 where
  pub device : D
  pub cmdline_path : Text
  pub top : FlagSet
  pub below : List FlagSet
  pub should_reset_enforce : Bool

module _ (dev : Device) (sets : SetOrder) where
  open dev use {
    State, path_exists, read_file, write_file, remove_path, has_root, build_version_sdk,
    get_enforce, set_enforce,
  }
  open sets use {iterate}

  abbrev pub store_flags : Changer State → Option (List Text) → Outcome (List Text × Changer State)
  store_flags c none = raised index_error
  store_flags c (some flags) = returned (flags, record c { top = to_set flags })

  -- GetCurrentFlags
  unfoldable pub get_current_flags : Changer State → Outcome (List Text × Changer State)
  get_current_flags c =
      let line =
        if path_exists c.cmdline_path c.device
        then strip (read_file c.cmdline_path c.device)
        else [] in
      store_flags c (parse_flags line)

  abbrev pub write_line : Changer State → Option Text → Changer State
  write_line c (some line) = record c { device = write_file c.cmdline_path line c.device }
  write_line c none = record c { device = remove_path c.cmdline_path c.device }

  -- _UpdateCommandLineFile
  unfoldable pub update_command_line_file : Changer State → Outcome (List Text × Changer State)
  update_command_line_file c = get_current_flags (write_line c (serialize_flags (iterate c.top)))

  -- _SetPermissive, where 24 is version_codes.NOUGAT
  unfoldable pub set_permissive : Changer State → Changer State
  set_permissive c =
      if not (has_root c.device)
      then c
      else if leb 24 (build_version_sdk c.device) && get_enforce c.device
      then record c { device = set_enforce false c.device; should_reset_enforce = true }
      else c

  -- _ResetEnforce
  unfoldable pub reset_enforce : Changer State → Changer State
  reset_enforce c =
      if c.should_reset_enforce
      then record c { device = set_enforce true c.device; should_reset_enforce = false }
      else c

  -- ReplaceFlags
  unfoldable pub replace_flags : List Text → Changer State → Outcome (List Text × Changer State)
  replace_flags flags c =
      update_command_line_file
        (set_permissive (record c { top = to_set flags; below = c.top ∷ c.below }))

  -- `if add:` and `if remove:` pass over an argument that is missing or empty.
  -- PushFlags
  unfoldable pub push_flags :
      List Text → List Text → Changer State → Outcome (List Text × Changer State)
  push_flags add remove c = replace_flags (iterate (difference (update c.top add) remove)) c

  -- AddFlags and RemoveFlags
  unfoldable pub add_flags : List Text → Changer State → Outcome (List Text × Changer State)
  add_flags flags c = push_flags flags [] c

  unfoldable pub remove_flags : List Text → Changer State → Outcome (List Text × Changer State)
  remove_flags flags c = push_flags [] flags c

  abbrev pub pop : List FlagSet → Changer State → Outcome (Changer State)
  pop [] c = raised assertion_error
  pop (s ∷ []) c = returned (reset_enforce (record c { top = s; below = [] }))
  pop (s ∷ t ∷ ts) c = returned (record c { top = s; below = t ∷ ts })

  -- Restore
  unfoldable pub restore : Changer State → Outcome (List Text × Changer State)
  restore c = pop c.below c >>= update_command_line_file

  -- _CMDLINE_DIR and _CMDLINE_DIR_LEGACY, each with a separator behind it
  abbrev pub cmdline_dir : Text
  cmdline_dir =
      47 ∷ 100 ∷ 97 ∷ 116 ∷ 97 ∷ 47 ∷ 108 ∷ 111 ∷ 99 ∷ 97 ∷ 108 ∷ 47 ∷ 116 ∷ 109 ∷ 112 ∷ 47 ∷ []

  abbrev pub cmdline_dir_legacy : Text
  cmdline_dir_legacy = 47 ∷ 100 ∷ 97 ∷ 116 ∷ 97 ∷ 47 ∷ 108 ∷ 111 ∷ 99 ∷ 97 ∷ 108 ∷ 47 ∷ []

  abbrev pub remove_alternate : Text → State → State
  remove_alternate p d = if path_exists p d then remove_path p d else d

  abbrev pub open_changer : Text → Text → State → Outcome (List Text × Changer State)
  open_changer path alternate d = get_current_flags (record {
    device = remove_alternate alternate d;
    cmdline_path = path;
    top = [];
    below = [];
    should_reset_enforce = false;
  })

  -- __init__; the `top` that it starts with stands for the None that GetCurrentFlags overwrites.
  unfoldable pub init_changer : State → Text → Bool → Outcome (List Text × Changer State)
  init_changer d file use_legacy_path =
      if contains file 47
      then raised value_error
      else if use_legacy_path && not (has_root d)
      then raised value_error
      else if use_legacy_path
      then open_changer (cmdline_dir_legacy ++ file) (cmdline_dir ++ file) d
      else open_changer (cmdline_dir ++ file) (cmdline_dir_legacy ++ file) d
