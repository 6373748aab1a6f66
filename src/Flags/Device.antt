-- ===== src/Flags/Device.antt =====
-- What FlagChanger uses of a DeviceUtils object, as an interface with its documented behaviour.
-- The operations are taken to succeed: their adb errors are not modelled here.
use ftc_designosaurs.Base.{
  ℕ, Bool, true, false, ◌≡◌, List, contains, comparable_list, comparable_nat,
}
use ftc_designosaurs.Flags.Chars.{Text, strip}

pub record Device : Type 1 where
  pub State : Type 0
  pub path_exists : Text → State → Bool
  pub read_file : Text → State → Text
  pub write_file : Text → Text → State → State
  pub remove_path : Text → State → State
  pub has_root : State → Bool
  pub build_version_sdk : State → ℕ
  pub get_enforce : State → Bool
  pub set_enforce : Bool → State → State
  pub exists-write : (p t : Text) (d : State) → path_exists p (write_file p t d) ≡ true
  -- ReadFile ends the last line, and turns each carriage return into the end of a line.
  pub read-write :
      (p t : Text) (d : State)
      → contains t 13 ≡ false
      → strip (read_file p (write_file p t d)) ≡ strip t
  pub exists-remove : (p : Text) (d : State) → path_exists p (remove_path p d) ≡ false
  pub enforce-write : (p t : Text) (d : State) → get_enforce (write_file p t d) ≡ get_enforce d
  pub enforce-remove : (p : Text) (d : State) → get_enforce (remove_path p d) ≡ get_enforce d
  pub enforce-set : (b : Bool) (d : State) → get_enforce (set_enforce b d) ≡ b

-- The order in which Python walks over a set: any order of its members.
pub record SetOrder : Type 0 where
  pub iterate : List Text → List Text
  pub iterate-contains : (s : List Text) (x : Text) → contains (iterate s) x ≡ contains s x
