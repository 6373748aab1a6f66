-- ===== src/Usb/Tests.antt =====
-- Small inputs for the theorems about USB devices.
use ftc_designosaurs.Base.{
  ℕ, ◌≤◌, true, none, some, List, [], ◌∷◌, ◌==◌, comparable_nat, comparable_pair, comparable_string,
  String, ◌≡◌, refl,
}
use ftc_designosaurs.Base.Dict.{Dict, lookup, insert}
use ftc_designosaurs.Python.{Result, ok, err}
use ftc_designosaurs.Flags.Chars.{Text, strip}
use ftc_designosaurs.Texts.{text, is_prefix, is_in}
use ftc_designosaurs.Forwarder.Ports.{
  pos, comparable_int, int, signed, digits as all_digits, digits_from,
}
use ftc_designosaurs.Usb.Nodes.{
  Device, device, Node, node, child, no_children, child_at, is_some, change_found, put_child,
}
use ftc_designosaurs.Usb.Hubs.{get_hub_type, plugable_7port}
use ftc_designosaurs.Usb.Lines.{t_line, s_line, after, digits, chars}
use ftc_designosaurs.Usb.Reading.{
  Tree, read_lines, get_bus_number_to_device_tree_map, fast_info_map,
}
use ftc_designosaurs.Usb.Ports.{get_physical_port_to_node_map}
use ftc_designosaurs.Usb.Paths.{path_to, node_on, node_at}
use ftc_designosaurs.Usb.Mapped.{get_physical_port_to_node_map_lem}
use ftc_designosaurs.Usb.Counted.{total}
use ftc_designosaurs.Usb.Total.{t_lines, get_bus_number_to_device_tree_map-total}

abbrev numbered : ℕ → String → Device
numbered n desc = record { bus_num = 1; device_num = pos n; serial = none; desc = some (text desc) }

-- A hub with a hub inside, and a phone behind the inner port 2.
abbrev phone : Node
phone = node (device (numbered 9 "phone")) no_children

abbrev hub : Node
hub =
    node (device (numbered 3 "ID 1a40:0101"))
      (child 4 (node (device (numbered 4 "ID 1a40:0101")) (child 2 phone no_children)) no_children)

get_physical_port_to_node_map_lem_example :
    (d : Dict ℕ Node) × (get_physical_port_to_node_map plugable_7port hub ≡ ok d)
    × ((port : ℕ) → lookup port d ≡ node_on (path_to port plugable_7port.v2p_port) hub)
    × ((port : ℕ) → 1 ≤ port → port ≤ 7 → is_some (path_to port plugable_7port.v2p_port) ≡ true)
unfolding get_hub_type is_prefix is_in text child_at
get_physical_port_to_node_map_lem_example =
    get_physical_port_to_node_map_lem "plugable_7port" plugable_7port hub refl refl

-- The phone is at the physical port 3.
phone_at_three : node_on (path_to 3 plugable_7port.v2p_port) hub ≡ some phone
unfolding path_to node_at child_at
phone_at_three = refl

abbrev lines : List Text
lines =
    text "T:  Bus=01 Lev=00 Prnt=00 Port=00 Cnt=00 Dev#=  1 Spd=480"
    ∷ text "S:  SerialNumber=0000"
    ∷ text "T:  Bus=01 Lev=01 Prnt=01 Port=03 Cnt=01 Dev#= 42 Spd=480"
    ∷ text "S:  SerialNumber=abc"
    ∷ []

abbrev reads : Result Tree
reads =
    get_bus_number_to_device_tree_map (fast_info_map (text "Bus 001 Device 042: ID 18d1" ∷ []) [])
      lines

abbrev or_no_tree : Result Tree → Tree
or_no_tree (ok tree) = tree
or_no_tree (err e) = []

get_bus_number_to_device_tree_map-total_example :
    total (λ b n. n == pos 42) (or_no_tree reads) ≡ t_lines (λ b n. n == pos 42) lines
unfolding get_bus_number_to_device_tree_map read_lines t_line after text digits chars int signed
    strip all_digits digits_from child_at lookup s_line insert change_found put_child
get_bus_number_to_device_tree_map-total_example =
    get_bus_number_to_device_tree_map-total (λ b n. n == pos 42)
      (fast_info_map (text "Bus 001 Device 042: ID 18d1" ∷ []) []) lines (or_no_tree reads) refl
