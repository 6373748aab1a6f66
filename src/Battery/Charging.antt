-- ===== src/Battery/Charging.antt =====
-- The methods of battery_utils.py that turn charging on and off.
use ftc_designosaurs.Base.{
  String, ℕ, Bool, true, false, not, ltb, List, [], ◌∷◌, length, Option, none, some, contains,
  comparable_list, comparable_nat, ◌==◌, if◌then◌else◌,
}
use ftc_designosaurs.Python.{
  finally, Exec, Result, ok, err, pure, raise, ◌>>=◌, ◌>>◌, command_failed_error, type_error,
  device_version_error,
}
use ftc_designosaurs.Flags.Chars.{Text, is_nil}
use ftc_designosaurs.Texts.{text, split_comma, at}
use ftc_designosaurs.Battery.Device.{words, shell, Device, Profile}
use ftc_designosaurs.Battery.Wait.{wait_for}
use ftc_designosaurs.Battery.Info.{
  Self, run_shell_command, sleep, remaining_of, get_charging, discover_device_profile, profile_of,
}

-- == between two truth values
abbrev pub same : Bool → Bool → Bool
same true b = b
same false b = not b

-- bool(command)
abbrev pub is_set : Option Text → Bool
is_set none = false
is_set (some t) = not (is_nil t)

module _ (dev : Device) where
  open dev use {State, build_version_sdk, Number, float, is_zero}

  abbrev run_words : List String → Exec (Self dev) Unit
  run_words command = run_shell_command dev (words command) >> pure tt

  abbrev pub wait_until : ℕ → Exec (Self dev) Bool → Exec (Self dev) Unit
  wait_until period condition = wait_for (remaining_of dev) (sleep dev period) condition

  -- A row with power in it, or the error of float
  abbrev pub has_power : List Text → Result Bool
  has_power l =
      if ltb 5 (length l)
      then elim (at l 3) [
        | none ↦ ok false
        | some kind ↦
            if kind == text "pwi"
            then elim (at l 5) [
              | none ↦ ok false
              | some amount ↦ elim (float amount) [ ok n ↦ ok (not (is_zero n)) | err e ↦ err e ]
            ]
            else ok false
      ]
      else ok false

  abbrev pub stop_at : Result Bool → Result Bool → Result Bool
  stop_at (err e) rest = err e
  stop_at (ok true) rest = ok false
  stop_at (ok false) rest = rest

  -- The loop over battery_data
  unfoldable pub all_clear : List Text → Result Bool
  all_clear [] = ok true
  all_clear (line ∷ lines) = stop_at (has_power (split_comma line)) (all_clear lines)

  abbrev pub test_if_clear : Exec (Self dev) Bool
  test_if_clear = do
    run_words ("dumpsys" ∷ "batterystats" ∷ "--reset" ∷ [])
    data_lines ←
        run_shell_command dev (words ("dumpsys" ∷ "batterystats" ∷ "--charged" ∷ "-c" ∷ []))
    λ self. (all_clear data_lines, self)

  abbrev pub reset_battery : Exec (Self dev) Unit
  reset_battery = run_words ("dumpsys" ∷ "battery" ∷ "reset" ∷ [])

  abbrev pub clear_supported : Exec (Self dev) Bool
  clear_supported = do
    run_words ("dumpsys" ∷ "battery" ∷ "set" ∷ "usb" ∷ "1" ∷ [])
    run_words ("dumpsys" ∷ "battery" ∷ "set" ∷ "ac" ∷ "1" ∷ [])
    finally (do wait_until 1 test_if_clear; pure true) reset_battery

  -- _ClearPowerData
  unfoldable pub clear_power_data : Exec (Self dev) Bool
  clear_power_data = if ltb build_version_sdk 21 then pure false else clear_supported

  abbrev pub is_charging : Bool → Exec (Self dev) Bool
  is_charging enabled = do charging ← get_charging dev; pure (same charging enabled)

  -- DisableBatteryUpdates
  unfoldable pub disable_battery_updates : Exec (Self dev) Unit
  disable_battery_updates = do
    clear_power_data
    run_words ("dumpsys" ∷ "battery" ∷ "set" ∷ "ac" ∷ "0" ∷ [])
    run_words ("dumpsys" ∷ "battery" ∷ "set" ∷ "usb" ∷ "0" ∷ [])
    wait_until 1 (is_charging false)

  abbrev pub updates_on : Bool → Exec (Self dev) Bool
  updates_on true = pure true
  updates_on false = do
    lines ← run_shell_command dev (words ("dumpsys" ∷ "battery" ∷ []))
    pure (not (contains lines (text "UPDATES STOPPED")))

  -- EnableBatteryUpdates
  unfoldable pub enable_battery_updates : Exec (Self dev) Unit
  enable_battery_updates = do reset_battery; wait_until 1 (get_charging dev >>= updates_on)

  abbrev pub command_for : Bool → Profile → Option Text
  command_for enabled p = if enabled then p.enable_command else p.disable_command

  abbrev pub shell_command : Option Text → Exec (Self dev) Unit
  shell_command none = raise type_error
  shell_command (some command) = run_shell_command dev (shell command) >> pure tt

  abbrev pub set_hardware : Bool → Profile → Exec (Self dev) Unit
  set_hardware enabled p =
      if is_set p.enable_command
      then (do shell_command (command_for enabled p); wait_until 1 (is_charging enabled))
      else raise command_failed_error

  -- _HardwareSetCharging
  unfoldable pub hardware_set_charging : Bool → Exec (Self dev) Unit
  hardware_set_charging enabled = do
    discover_device_profile dev
    p ← profile_of dev
    set_hardware enabled p

  abbrev pub set_by : Bool → Bool → Exec (Self dev) Unit
  set_by true true = hardware_set_charging true
  set_by true false = enable_battery_updates
  set_by false true = do clear_power_data; hardware_set_charging false
  set_by false false = disable_battery_updates

  abbrev pub change_charging : Bool → Exec (Self dev) Unit
  change_charging enabled = do
    discover_device_profile dev
    p ← profile_of dev
    set_by enabled (is_set p.enable_command)

  abbrev pub set_unless : Bool → Bool → Exec (Self dev) Unit
  set_unless enabled true = pure tt
  set_unless enabled false = change_charging enabled

  -- SetCharging
  unfoldable pub set_charging : Bool → Exec (Self dev) Unit
  set_charging enabled = is_charging enabled >>= set_unless enabled

  -- PowerMeasurement around a body
  unfoldable pub power_measurement : {A : Type 0} → Exec (Self dev) A → Exec (Self dev) A
  power_measurement body = finally (set_charging false >> body) (set_charging true)

  -- BatteryMeasurement around a body
  unfoldable pub battery_measurement : {A : Type 0} → Exec (Self dev) A → Exec (Self dev) A
  battery_measurement body =
      if ltb build_version_sdk 21
      then raise device_version_error
      else finally (disable_battery_updates >> body) enable_battery_updates
