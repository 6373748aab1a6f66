-- ===== src/Usb/Reading.antt =====
-- GetBusNumberToDeviceTreeMap of find_usb_devices.py.
use ftc_designosaurs.Base.{
  ℕ, ◌+◌, Option, none, some, List, [], ◌∷◌, ◌==◌, comparable_nat, comparable_pair, if◌then◌else◌,
}
use ftc_designosaurs.Base.Dict.{Dict, lookup, insert}
use ftc_designosaurs.Python.{Result, ok, err, value_error, key_error}
use ftc_designosaurs.Flags.Chars.{Text}
use ftc_designosaurs.Texts.{text}
use ftc_designosaurs.Forwarder.Ports.{ℤ, pos, comparable_int, int}
use ftc_designosaurs.Usb.Nodes.{bus, device, Node, node, no_children, add_child, call_found}
use ftc_designosaurs.Usb.Lines.{TLine, t_line, s_line, lsusb_line}

-- The desc that lsusb has of a device, if the info of the device has one.
abbrev pub InfoMap : Type 0
InfoMap = Dict (ℕ × ℤ) (Option Text)

abbrev pub Tree : Type 0
Tree = Dict ℕ Node

-- tree, and bus_num with device_num of the last T line; none stands for the bus number -1
pub record Reading : Type 0 where
  pub tree : Tree
  pub last : Option (ℕ × ℤ)

abbrev add_info : Option (ℕ × ℕ × Text) → InfoMap → InfoMap
add_info none infos = infos
add_info (some (b, d, desc)) infos = insert (b, pos d) (some desc) infos

-- The loop over the lines of lsusb, where fast is set
unfoldable pub fast_info_map : List Text → InfoMap → InfoMap
fast_info_map [] infos = infos
fast_info_map (line ∷ lines) infos = fast_info_map lines (add_info (lsusb_line line) infos)

abbrev or_not_available : Option (Option Text) → Option Text
or_not_available none = some (text "NOT AVAILABLE")
or_not_available (some desc) = desc

abbrev pub new_device : InfoMap → ℕ → ℤ → Node
new_device infos b n =
    node
      (device (record {
        bus_num = b;
        device_num = n;
        serial = none;
        desc = or_not_available (lookup (b, n) infos);
      }))
      no_children

abbrev pub or_new_bus : ℕ → Option Node → Node
or_new_bus b none = node (bus b) no_children
or_new_bus b (some n) = n

abbrev pub bus_of : ℕ → Tree → Node
bus_of b tree = or_new_bus b (lookup b tree)

-- The device goes below its parent, or below the bus where there is no parent.
abbrev pub add_device : ℕ → ℕ → Node → Node → Result Node
add_device parent port d n =
    if parent == 0 then add_child port d n else call_found (pos parent) (add_child port d) n

abbrev pub put_bus : Tree → ℕ → ℤ → Result Node → Result Reading
put_bus tree b n (ok root) = ok (record { tree = insert b root tree; last = some (b, n) })
put_bus tree b n (err e) = err e

abbrev pub read_device : InfoMap → TLine → Reading → Option ℤ → Result Reading
read_device infos t r none = err value_error
read_device infos t r (some n) = put_bus r.tree t.line_bus n (
    add_device t.line_parent (t.line_port + 1) (new_device infos t.line_bus n)
      (bus_of t.line_bus r.tree))

abbrev pub read_t : InfoMap → Option TLine → Reading → Result Reading
read_t infos none r = ok r
read_t infos (some t) r = read_device infos t r (int t.line_device)

abbrev pub set_serial : Text → Node → Result Node
set_serial serial (node (bus b) cs) = ok (node (bus b) cs)
set_serial serial (node (device d) cs) = ok (node (device (record d { serial = some serial })) cs)

abbrev pub serial_in : Text → Reading → ℕ → ℤ → Option Node → Result Reading
serial_in serial r b n none = err key_error
serial_in serial r b n (some root) = put_bus r.tree b n (call_found n (set_serial serial) root)

abbrev pub store_serial : Text → Reading → Option (ℕ × ℤ) → Result Reading
store_serial serial r none = err value_error
store_serial serial r (some (b, n)) = serial_in serial r b n (lookup b r.tree)

abbrev pub read_s : Option Text → Reading → Result Reading
read_s none r = ok r
read_s (some serial) r = store_serial serial r r.last

abbrev pub then_read : Result Reading → (Reading → Result Reading) → Result Reading
then_read (ok r) f = f r
then_read (err e) f = err e

abbrev pub read_line : InfoMap → Text → Reading → Result Reading
read_line infos line r = then_read (read_t infos (t_line line) r) (read_s (s_line line))

-- The loop over the lines of usb-devices
unfoldable pub read_lines : InfoMap → List Text → Result Reading → Result Reading
read_lines infos [] r = r
read_lines infos (line ∷ lines) r = read_lines infos lines (then_read r (read_line infos line))

abbrev pub tree_of : Result Reading → Result Tree
tree_of (ok r) = ok r.tree
tree_of (err e) = err e

-- GetBusNumberToDeviceTreeMap, with the info map
unfoldable pub get_bus_number_to_device_tree_map : InfoMap → List Text → Result Tree
get_bus_number_to_device_tree_map infos lines =
    tree_of (read_lines infos lines (ok (record { tree = []; last = none })))
