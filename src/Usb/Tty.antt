-- ===== src/Usb/Tty.antt =====
-- The ttyUSB part of find_usb_devices.py.
use ftc_designosaurs.Base.{
  keep, ℕ, Option, none, some, List, [], ◌∷◌, ◌==◌, comparable_nat, comparable_pair, if◌then◌else◌,
}
use ftc_designosaurs.Base.Dict.{Dict, insert}
use ftc_designosaurs.Python.{Result, ok, err, value_error}
use ftc_designosaurs.Flags.Chars.{Text}
use ftc_designosaurs.Texts.{text, is_in}
use ftc_designosaurs.Forwarder.Ports.{ℤ, comparable_int, int}
use ftc_designosaurs.Usb.Lines.{after, is_digit}

abbrev pub TtyMap : Type 0
TtyMap = Dict (ℤ × ℤ) Text

-- GetTTYList, with the lines of ls /dev
abbrev pub get_tty_list : List Text → List Text
get_tty_list names = keep (is_in (text "ttyUSB")) names

abbrev add_digit : ℕ → Option Text → Option Text
add_digit c none = none
add_digit c (some t) = some (c ∷ t)

-- (\d*)"
unfoldable pub quoted : Text → Option Text
quoted [] = none
quoted (c ∷ cs) =
    let rest = add_digit c (quoted cs) in
    if c == 34 then some [] else if is_digit c then rest else none

abbrev quoted_behind : Option Text → Option Text
quoted_behind none = none
quoted_behind (some t) = quoted t

abbrev or_this : Option Text → Option Text → Option Text
or_this none here = here
or_this (some t) here = some t

-- The group of .*name(\d*)".*, of which the first .* takes as much as it can
unfoldable pub last_attr : Text → Text → Option Text
last_attr name [] = none
last_attr name (c ∷ cs) = or_this (last_attr name cs) (quoted_behind (after name (c ∷ cs)))

-- _BUS_NUM_REGEX and _DEVICE_NUM_REGEX
abbrev pub bus_match : Text → Option Text
bus_match line = last_attr (text "ATTRS{busnum}==\"") line

abbrev pub device_match : Text → Option Text
device_match line = last_attr (text "ATTRS{devnum}==\"") line

abbrev read_int : Option ℤ → Result (Option ℤ)
read_int none = err value_error
read_int (some n) = ok (some n)

-- if match and num is None: num = int(match.group(1))
abbrev pub read_unless : Option Text → Option ℤ → Result (Option ℤ)
read_unless found (some n) = ok (some n)
read_unless none none = ok none
read_unless (some t) none = read_int (int t)

abbrev pub found_or : Option ℤ → Option ℤ → Result (ℤ × ℤ)
found_or (some b) (some d) = ok (b, d)
found_or (some b) none = err value_error
found_or none d = err value_error

abbrev both :
    Result (Option ℤ) → Result (Option ℤ) → (Option ℤ → Option ℤ → Result (ℤ × ℤ)) → Result (ℤ × ℤ)
both (err e) d f = err e
both (ok b) (err e) f = err e
both (ok b) (ok d) f = f b d

-- The loop over the lines of udevadm
unfoldable pub read_attrs : List Text → Option ℤ → Option ℤ → Result (ℤ × ℤ)
read_attrs [] b d = found_or b d
read_attrs (line ∷ lines) b d =
    both (read_unless (bus_match line) b) (read_unless (device_match line) d) (read_attrs lines)

-- GetBusDeviceFromTTY, with the lines of udevadm
abbrev pub get_bus_device_from_tty : List Text → Result (ℤ × ℤ)
get_bus_device_from_tty lines = read_attrs lines none none

abbrev then_add : Result (ℤ × ℤ) → (ℤ × ℤ → Result TtyMap) → Result TtyMap
then_add (err e) f = err e
then_add (ok k) f = f k

-- The loop of GetBusDeviceToTTYMap, with what udevadm says of each tty
unfoldable pub add_ttys : (Text → List Text) → List Text → TtyMap → Result TtyMap
add_ttys info [] result = ok result
add_ttys info (tty ∷ ttys) result =
    then_add (get_bus_device_from_tty (info tty)) (λ k. add_ttys info ttys (insert k tty result))

-- GetBusDeviceToTTYMap
abbrev pub get_bus_device_to_tty_map : (Text → List Text) → List Text → Result TtyMap
get_bus_device_to_tty_map info names = add_ttys info (get_tty_list names) []
