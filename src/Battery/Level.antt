-- ===== src/Battery/Level.antt =====
-- The methods of battery_utils.py that wait for a level or a temperature of the battery.
use ftc_designosaurs.Base.{
  ℕ, suc, Bool, true, false, not, ◌&&◌, ltb, leb, ◌+◌, Option, none, some, contains,
  comparable_list, comparable_nat, if◌then◌else◌,
}
use ftc_designosaurs.Base.Dict.{lookup}
use ftc_designosaurs.Python.{
  Exec, Result, ok, err, pure, raise, ◌>>=◌, ◌>>◌, type_error, value_error, device_charging_error,
}
use ftc_designosaurs.Flags.Chars.{Text}
use ftc_designosaurs.Forwarder.Ports.{ℤ, pos, negsuc, int}
use ftc_designosaurs.Texts.{text}
use ftc_designosaurs.Battery.Device.{Device, Profile}
use ftc_designosaurs.Battery.Wait.{wait_for}
use ftc_designosaurs.Battery.Info.{
  Self, sleep, remaining_of, get_battery_info, discover_device_profile, profile_of,
}
use ftc_designosaurs.Battery.Charging.{
  wait_until, set_charging, hardware_set_charging, enable_battery_updates,
}

-- charge_status
pub record ChargeStatus : Type 0 where
  pub charge_failure_count : ℕ
  pub last_charge_value : ℕ

abbrev pub failed_once : ChargeStatus → ChargeStatus
failed_once c = record c { charge_failure_count = c.charge_failure_count + 1 }

-- The comparison of a level with the last one
abbrev pub note_level : ℤ → ChargeStatus → ChargeStatus
note_level (pos n) c =
    if ltb c.last_charge_value n
    then record { charge_failure_count = 0; last_charge_value = n }
    else failed_once c
note_level (negsuc n) c = failed_once c

-- battery_level >= level
abbrev pub reaches : ℤ → ℕ → Bool
reaches (pos n) level = leb level n
reaches (negsuc n) level = false

-- int(value), which None makes a TypeError
abbrev pub int_or_type_error : Option Text → Result ℤ
int_or_type_error none = err type_error
int_or_type_error (some t) = elim (int t) [ none ↦ err value_error | some n ↦ ok n ]

-- A missing value is the default, without a call of int.
abbrev pub int_or : ℕ → Option Text → Result ℤ
int_or default none = ok (pos default)
int_or default (some t) = int_or_type_error (some t)

-- a - b >= n
abbrev pub drops_by : ℤ → ℤ → ℕ → Bool
drops_by (pos a) (pos b) n = leb (b + n) a
drops_by (pos a) (negsuc b) n = leb n (suc (a + b))
drops_by (negsuc a) (pos b) n = leb (suc (a + b) + n) 0
drops_by (negsuc a) (negsuc b) n = leb (a + n) b

-- percent >= level - 10
abbrev pub is_too_low : ℕ → ℤ → Bool
is_too_low percent (pos level) = leb level (percent + 10)
is_too_low percent (negsuc level) = true

module _ (dev : Device) where
  open dev use {State}

  abbrev pub known : {A : Type 0} → Result A → Exec (Self dev) A
  known r self = (r, self)

  -- charge_status, which the closure device_charged keeps between the checks
  abbrev pub Charge : Type 0
  Charge = ChargeStatus × Self dev

  abbrev pub aside : {A : Type 0} → Exec (Self dev) A → Exec Charge A
  aside call (c, self) = let (r, left) = call self in (r, (c, left))

  -- int(self.GetBatteryInfo().get('level')) with 100 for None
  abbrev pub charge_level : Exec (Self dev) ℤ
  charge_level = do info ← get_battery_info dev; known (int_or 100 (lookup (text "level") info))

  abbrev pub judge : Bool → Exec Charge Bool
  judge true = pure true
  judge false = λ (c, self).
      if leb 20 c.charge_failure_count
      then (err device_charging_error, (c, self))
      else (ok false, (c, self))

  abbrev pub check_charge : ℕ → ℤ → Exec Charge Bool
  check_charge level battery_level (c, self) =
      judge (reaches battery_level level) (note_level battery_level c, self)

  -- device_charged
  abbrev pub device_charged : ℕ → Exec Charge Bool
  device_charged level = do battery_level ← aside charge_level; check_charge level battery_level

  abbrev pub charge_status : ChargeStatus
  charge_status = record { charge_failure_count = 0; last_charge_value = 0 }

  -- The wait at the end of ChargeDeviceToLevel
  unfoldable pub charge_until : ℕ → ℕ → Exec (Self dev) Unit
  charge_until level wait_period self =
      let out =
        wait_for (λ (c, self). remaining_of dev self) (aside (sleep dev wait_period))
          (device_charged level) (charge_status, self) in
      (out.0, out.1.1)

  -- ChargeDeviceToLevel
  unfoldable pub charge_device_to_level : ℕ → ℕ → Exec (Self dev) Unit
  charge_device_to_level level wait_period = set_charging dev true >> charge_until level wait_period

  abbrev pub current_level : Exec (Self dev) ℤ
  current_level = do
    info ← get_battery_info dev
    known (int_or_type_error (lookup (text "level") info))

  abbrev pub discharge_again : Bool → Exec (Self dev) Bool
  discharge_again true = pure true
  discharge_again false = do hardware_set_charging dev false; pure false

  -- device_discharged
  abbrev pub device_discharged : ℕ → ℤ → Exec (Self dev) Bool
  device_discharged percent battery_level = do
    hardware_set_charging dev true
    level ← current_level
    discharge_again (drops_by battery_level level percent)

  abbrev pub discharge_from : ℕ → ℕ → ℤ → Exec (Self dev) Unit
  discharge_from percent wait_period battery_level =
      if not (ltb 0 percent && ltb percent 100)
      then raise value_error
      else if is_too_low percent battery_level
      then pure tt
      else (do
        hardware_set_charging dev false
        wait_until dev wait_period (device_discharged percent battery_level))

  -- _DischargeDevice
  unfoldable pub discharge_device : ℕ → ℕ → Exec (Self dev) Unit
  discharge_device percent wait_period = current_level >>= discharge_from percent wait_period

  abbrev pub is_at_most : ℤ → ℕ → Bool
  is_at_most (pos n) target = leb n target
  is_at_most (negsuc n) target = true

  abbrev pub discharge_nexus_5 : Profile → Exec (Self dev) Unit
  discharge_nexus_5 p = if contains p.name (text "Nexus 5") then discharge_device 1 120 else pure tt

  abbrev pub cool_unless : Bool → Exec (Self dev) Bool
  cool_unless true = pure true
  cool_unless false = do p ← profile_of dev; discharge_nexus_5 p; pure false

  -- cool_device
  abbrev pub cool_device : ℕ → Exec (Self dev) Bool
  cool_device target_temp = do
    info ← get_battery_info dev
    temp ← known (int_or 0 (lookup (text "temperature") info))
    cool_unless (is_at_most temp target_temp)

  -- LetBatteryCoolToTemperature
  unfoldable pub let_battery_cool_to_temperature : ℕ → ℕ → Exec (Self dev) Unit
  let_battery_cool_to_temperature target_temp wait_period = do
    discover_device_profile dev
    enable_battery_updates dev
    wait_until dev wait_period (cool_device target_temp)
