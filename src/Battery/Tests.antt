-- ===== src/Battery/Tests.antt =====
-- Small inputs for the theorems about the battery.
use ftc_designosaurs.Base.{true, some, contains, false, ◌≡◌, refl, List, [], ◌∷◌, none}
use ftc_designosaurs.Python.{ok, Ensures}
use ftc_designosaurs.Flags.Chars.{Text, strip}
use ftc_designosaurs.Texts.{text, at, is_in, is_prefix, split_first}
use ftc_designosaurs.Base.{true}
use ftc_designosaurs.Texts.{lower}
use ftc_designosaurs.Flags.Chars.{lstrip, rstrip}
use ftc_designosaurs.Battery.Wait.{wait_for, checks}
use ftc_designosaurs.Battery.Charging.{hardware_set_charging}
use ftc_designosaurs.Battery.Device.{Device, Battery}
use ftc_designosaurs.Battery.Info.{
  retry_on_system_crash, get_charging, find_profile, discover_device_profile, Self, add_lines,
  get_battery_info,
}
use ftc_designosaurs.Base.Dict.{lookup, insert}
use ftc_designosaurs.Battery.Csv.{csv_reader, read_char, read_line, rows_from}
use ftc_designosaurs.Battery.Power.{get_power_data, read_entries}
use ftc_designosaurs.Battery.Charged.{Switched, hardware_set_charging-Switched}

-- A device on which every command shows the same lines.
abbrev phone : List Text → Device
phone lines = record {
  State = Unit;
  product_model = text "Nexus 6";
  build_version_sdk = 23;
  run = λ command s. (ok lines, s);
  read_file = λ path s. (ok [], s);
  wait_until_fully_booted = λ s. (ok tt, s);
  pass_time = λ period s. s;
  spent = λ s. 1;
  Number = Text;
  float = ok;
  is_zero = λ t. false;
}

abbrev charging : List Text
charging =
    text "Current Battery Service state:" ∷ text "  USB powered: true" ∷ text "  level: 50" ∷ []

abbrev battery : Battery
battery = record { profile = none; uids = []; remaining = 2600 }

abbrev known : Self (phone charging)
known = (discover_device_profile (phone charging) (battery, tt)).1

hardware_set_charging-Switched_example :
    Ensures
      (Switched (phone charging) true known.0.profile known.1)
      (hardware_set_charging (phone charging) true (battery, tt))
hardware_set_charging-Switched_example =
    hardware_set_charging-Switched (phone charging) true (battery, tt)

hardware_set_charging_test : (hardware_set_charging (phone charging) true (battery, tt)).0 ≡ ok tt
unfolding hardware_set_charging discover_device_profile find_profile contains text wait_for checks
    get_charging retry_on_system_crash get_battery_info lookup add_lines is_in is_prefix insert
    strip split_first lower lstrip rstrip
hardware_set_charging_test = refl

csv_reader_test :
    csv_reader (text "9,\"a,b\",c" ∷ text "" ∷ text "x," ∷ [])
    ≡ (text "9" ∷ text "a,b" ∷ text "c" ∷ []) ∷ [] ∷ (text "x" ∷ [] ∷ []) ∷ []
unfolding read_char read_line rows_from text
csv_reader_test = refl

get_power_data_test :
    (get_power_data
      (phone (text "9,0,i,uid,10,app" ∷ text "9,10,l,pwi,uid,2.5" ∷ text "9,0,l,pws,7,1" ∷ []))
      (battery, tt)).0
    ≡ ok (some (text "1"), (text "app", (text "10", text "2.5" ∷ [])) ∷ [])
unfolding read_char read_line rows_from text get_power_data read_entries at contains lookup insert
get_power_data_test = refl
