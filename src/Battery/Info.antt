-- ===== src/Battery/Info.antt =====
-- What battery_utils.py reads of a device, and RetryOnSystemCrash of crash_handler.py.
use ftc_designosaurs.Base.{
  ℕ, zero, suc, Bool, true, false, not, ◌&&◌, ◌||◌, ◌-◌, ltb, List, [], ◌∷◌, Option, none, some,
  contains, comparable_list, comparable_nat, if◌then◌else◌,
}
use ftc_designosaurs.Base.Dict.{Dict, lookup, insert}
use ftc_designosaurs.Python.{
  Exec, ok, err, Error, pure, raise, try_except, ◌>>=◌, ◌>>◌, timeout_error,
  device_unreachable_error, command_failed_error, device_version_error, device_charging_error,
  value_error, type_error, key_error,
}
use ftc_designosaurs.Flags.Chars.{Text, strip}
use ftc_designosaurs.Forwarder.Ports.{ℤ, int}
use ftc_designosaurs.Texts.{text, is_in, split_first, lower}
use ftc_designosaurs.Battery.Device.{Command, words, Device, Profile, Battery}
use ftc_designosaurs.Battery.Profiles.{device_profiles}

abbrev pub BatteryInfo : Type 0
BatteryInfo = Dict Text Text

abbrev pub but_first : List Text → List Text
but_first [] = []
but_first (t ∷ ts) = ts

abbrev pub add_entry : Text × Text → BatteryInfo → BatteryInfo
add_entry (k, v) result = insert (strip k) (strip v) result

abbrev pub add_line : Text → BatteryInfo → BatteryInfo
add_line line result =
    if is_in (text "UPDATES STOPPED") line || not (is_in (text ":") line)
    then result
    else add_entry (split_first line) result

-- The loop over the lines of dumpsys battery
unfoldable pub add_lines : List Text → BatteryInfo → BatteryInfo
add_lines [] result = result
add_lines (line ∷ lines) result = add_lines lines (add_line line result)

-- battery_info[k].lower() in ('true', '1', 'yes'), for a key that may be missing
abbrev pub is_powered : Text → BatteryInfo → Bool
is_powered k info = elim (lookup k info) [
  | none ↦ false
  | some v ↦ contains (text "true" ∷ text "1" ∷ text "yes" ∷ []) (lower v)
]

abbrev pub powered : BatteryInfo → Bool
powered info =
    is_powered (text "AC powered") info
    || is_powered (text "USB powered") info
    || is_powered (text "Wireless powered") info

abbrev pub no_profile : Profile
no_profile = record {
  name = [];
  enable_command = none;
  disable_command = none;
  charge_counter = none;
  voltage = none;
  current = none;
}

unfoldable pub find_profile : Text → List Profile → Option Profile
find_profile model [] = none
find_profile model (p ∷ ps) =
    let rest = find_profile model ps in if contains p.name model then some p else rest

-- The exceptions that are a BaseError
abbrev pub is_base_error : Error → Bool
is_base_error command_failed_error = true
is_base_error device_unreachable_error = true
is_base_error device_version_error = true
is_base_error device_charging_error = true
is_base_error timeout_error = true
is_base_error e = false

abbrev pub is_missing : Option Text → Bool
is_missing none = true
is_missing (some t) = false

module _ (dev : Device) where
  open dev use {State, product_model, run, read_file, wait_until_fully_booted, pass_time, spent}

  -- The object of the class and the device, which a method changes.
  abbrev pub Self : Type 0
  Self = Battery × State

  abbrev pub outside : {A : Type 0} → Exec State A → Exec Self A
  outside call (b, s) = let (r, t) = call s in (r, (b, t))

  abbrev pub run_shell_command : Command → Exec Self (List Text)
  run_shell_command command = outside (run command)

  -- GetRemainingTime(period) and time.sleep(period)
  abbrev pub sleep : ℕ → Exec Self Unit
  sleep period (b, s) =
      let left = b.remaining - spent s in
      if ltb left period
      then (err timeout_error, (b, s))
      else (ok tt, (record b { remaining = left - period }, pass_time period s))

  abbrev pub remaining_of : Self → ℕ
  remaining_of (b, s) = b.remaining

  -- GetBatteryInfo
  unfoldable pub get_battery_info : Exec Self BatteryInfo
  get_battery_info = do
    lines ← run_shell_command (words ("dumpsys" ∷ "battery" ∷ []))
    pure (add_lines (but_first lines) [])

  -- device.ClearCache(), which empties the cache of BatteryUtils too
  abbrev pub clear_cache : Exec Self Unit
  clear_cache (b, s) = (ok tt, (record b { profile = none; uids = [] }, s))

  abbrev pub ignore_base_error : Error → Exec Self Unit
  ignore_base_error e self = if is_base_error e then (ok tt, self) else (err e, self)

  abbrev pub recover_device : Exec Self Unit
  recover_device = try_except (clear_cache >> outside wait_until_fully_booted) ignore_base_error

  abbrev pub retry_unreachable : {A : Type 0} → Exec Self A → Error → Exec Self A
  retry_unreachable again device_unreachable_error = do recover_device; again
  retry_unreachable again e = raise e

  -- RetryOnSystemCrash, with so many retries left
  unfoldable pub retry_on_system_crash : {A : Type 0} → Exec Self A → ℕ → Exec Self A
  retry_on_system_crash f zero = f
  retry_on_system_crash f (suc n) =
      let again = retry_on_system_crash f n in try_except f (retry_unreachable again)

  -- GetCharging
  unfoldable pub get_charging : Exec Self Bool
  get_charging = do info ← retry_on_system_crash get_battery_info 3; pure (powered info)

  abbrev pub store_profile : Option Profile → Exec Self Bool
  store_profile (some p) (b, s) = (ok true, (record b { profile = some p }, s))
  store_profile none (b, s) = (ok false, (record b { profile = some no_profile }, s))

  abbrev pub discover_unless : Option Profile → Exec Self Bool
  discover_unless (some p) = pure true
  discover_unless none = store_profile (find_profile product_model device_profiles)

  -- _DiscoverDeviceProfile
  unfoldable pub discover_device_profile : Exec Self Bool
  discover_device_profile (b, s) = discover_unless b.profile (b, s)

  -- self._cache['profile'], which is there after a call of _DiscoverDeviceProfile
  abbrev pub profile_of : Exec Self Profile
  profile_of (b, s) = elim b.profile [ some p ↦ (ok p, (b, s)) | none ↦ (err key_error, (b, s)) ]

  abbrev pub has_fuel_gauge : Profile → Bool
  has_fuel_gauge p = not (is_missing p.enable_command) && not (is_missing p.charge_counter)

  -- SupportsFuelGauge
  unfoldable pub supports_fuel_gauge : Exec Self Bool
  supports_fuel_gauge = do discover_device_profile; p ← profile_of; pure (has_fuel_gauge p)

  abbrev pub int_of : Text → Exec Self ℤ
  int_of t = elim (int t) [ none ↦ raise value_error | some n ↦ pure n ]

  abbrev pub read_int : Option Text → Exec Self ℤ
  read_int none = raise type_error
  read_int (some path) = outside (read_file path) >>= int_of

  abbrev pub read_counter : Bool → Exec Self ℤ
  read_counter false = raise command_failed_error
  read_counter true = do p ← profile_of; read_int p.charge_counter

  -- GetFuelGaugeChargeCounter
  unfoldable pub get_fuel_gauge_charge_counter : Exec Self ℤ
  get_fuel_gauge_charge_counter = supports_fuel_gauge >>= read_counter
