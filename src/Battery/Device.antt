-- ===== src/Battery/Device.antt =====
-- What battery_utils.py asks of a device, and what it keeps of one.
use ftc_designosaurs.Base.{ℕ, String, Bool, Option, List}
use ftc_designosaurs.Base.Dict.{Dict}
use ftc_designosaurs.Python.{Exec, Result}
use ftc_designosaurs.Flags.Chars.{Text}

-- The argument of RunShellCommand: a list of words, or a command line for the shell.
pub data Command : Type 0 where
  words : List String → Command
  shell : Text → Command

pub record Device : Type 1 where
  pub State : Type 0
  pub product_model : Text
  pub build_version_sdk : ℕ
  -- RunShellCommand with check_return, and ReadFile
  pub run : Command → Exec State (List Text)
  pub read_file : Text → Exec State Text
  pub wait_until_fully_booted : Exec State Unit
  -- What becomes of the device in some seconds of sleep.
  pub pass_time : ℕ → State → State
  -- The seconds that calls have taken since the last sleep.
  pub spent : State → ℕ
  -- float(text), and the comparison with 0.0
  pub Number : Type 0
  pub float : Text → Result Number
  pub is_zero : Number → Bool

-- An entry of _DEVICE_PROFILES.
pub record Profile : Type 0 where
  pub name : List Text
  pub enable_command : Option Text
  pub disable_command : Option Text
  pub charge_counter : Option Text
  pub voltage : Option Text
  pub current : Option Text

-- The cache of BatteryUtils, and the seconds that the thread group had left after the last sleep.
pub record Battery : Type 0 where
  pub profile : Option Profile
  pub uids : Dict Text Text
  pub remaining : ℕ
