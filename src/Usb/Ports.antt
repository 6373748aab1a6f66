-- ===== src/Usb/Ports.antt =====
-- The maps from physical ports of find_usb_devices.py, and the search for hubs.
use ftc_designosaurs.Base.{
  map, ℕ, Bool, true, false, Option, none, some, List, [], ◌∷◌, ◌++◌, comparable_nat,
  comparable_pair,
}
use ftc_designosaurs.Base.Dict.{Dict, lookup, insert}
use ftc_designosaurs.Python.{Result, ok, err, Error}
use ftc_designosaurs.Flags.Chars.{Text}
use ftc_designosaurs.Forwarder.Ports.{ℤ, pos, comparable_int}
use ftc_designosaurs.Usb.Nodes.{Kind, bus, device, Node, kind, device_num, all_nodes, map_ok}
use ftc_designosaurs.Usb.Reading.{Tree}
use ftc_designosaurs.Usb.Hubs.{HubType, get_physical_port_to_node_tuples}
use ftc_designosaurs.Usb.Tty.{TtyMap}

module _ {B : Type 0} where
  -- {port: value for (port, value) in tuples}
  unfoldable pub dict_of : Dict ℕ B → List (ℕ × B) → Dict ℕ B
  dict_of d [] = d
  dict_of d ((port, b) ∷ tuples) = dict_of (insert port b d) tuples

abbrev pub kind_bus : Kind → ℕ
kind_bus (bus b) = b
kind_bus (device d) = d.bus_num

abbrev pub bus_num : Node → ℕ
bus_num n = kind_bus (kind n)

-- device.serial; a bus, which has none, is never below a node
abbrev pub kind_serial : Kind → Option Text
kind_serial (bus b) = none
kind_serial (device d) = d.serial

-- GetPhysicalPortToNodeMap
unfoldable pub get_physical_port_to_node_map : HubType → Node → Result (Dict ℕ Node)
get_physical_port_to_node_map hub n = map_ok (dict_of []) (get_physical_port_to_node_tuples hub n)

abbrev pub bus_device : Node → ℕ × ℤ
bus_device n = (bus_num n, device_num n)

abbrev to_bus_device : ℕ × Node → ℕ × (ℕ × ℤ)
to_bus_device (port, n) = (port, bus_device n)

-- GetPhysicalPortToBusDeviceMap
unfoldable pub get_physical_port_to_bus_device_map : HubType → Node → Result (Dict ℕ (ℕ × ℤ))
get_physical_port_to_bus_device_map hub n =
    map_ok (λ l. dict_of [] (map to_bus_device l)) (get_physical_port_to_node_tuples hub n)

-- The tuples for which there is a value
unfoldable pub with_value : {B : Type 0} → (Node → Option B) → List (ℕ × Node) → List (ℕ × B)
with_value f [] = []
with_value f ((port, n) ∷ l) =
    let rest = with_value f l in elim (f n) [ none ↦ rest | some b ↦ (port, b) ∷ rest ]

abbrev non_empty : Option Text → Option Text
non_empty none = none
non_empty (some []) = none
non_empty (some (c ∷ cs)) = some (c ∷ cs)

-- GetPhysicalPortToSerialMap
unfoldable pub get_physical_port_to_serial_map : HubType → Node → Result (Dict ℕ Text)
get_physical_port_to_serial_map hub n =
    map_ok (λ l. dict_of [] (with_value (λ d. non_empty (kind_serial (kind d))) l))
      (get_physical_port_to_node_tuples hub n)

abbrev tty_of : TtyMap → Node → Option Text
tty_of ttys n = lookup (pos (bus_num n), device_num n) ttys

-- GetPhysicalPortToTTYMap, with what GetBusDeviceToTTYMap returns
unfoldable pub get_physical_port_to_tty_map : TtyMap → HubType → Node → Result (Dict ℕ Text)
get_physical_port_to_tty_map ttys hub n =
    map_ok (λ l. dict_of [] (with_value (tty_of ttys) l)) (get_physical_port_to_node_tuples hub n)

-- What a generator yields, and what it raises in the end
abbrev pub Yielded : Type 0 → Type 0
Yielded A = List A × Option Error

abbrev pub then_yield : {A : Type 0} → Yielded A → Yielded A → Yielded A
then_yield (l, some e) rest = (l, some e)
then_yield (l, none) (m, e) = (l ++ m, e)

abbrev pub yield_first : {B : Type 0} → Result B → Yielded B → Yielded B
yield_first (err e) rest = ([], some e)
yield_first (ok b) (l, e) = (b ∷ l, e)

-- for a in generator: yield f(a)
unfoldable pub yield_each : {A B : Type 0} → (A → Result B) → List A → Option Error → Yielded B
yield_each f [] e = ([], e)
yield_each f (a ∷ l) e = yield_first (f a) (yield_each f l e)

abbrev pub yield_if : Node → HubType → Result Bool → Yielded (Node × HubType)
yield_if n hub (err e) = ([], some e)
yield_if n hub (ok true) = ((n, hub) ∷ [], none)
yield_if n hub (ok false) = ([], none)

unfoldable pub types_of : Node → List HubType → Yielded (Node × HubType)
types_of n [] = ([], none)
types_of n (hub ∷ hubs) = then_yield (yield_if n hub (hub.id_func n)) (types_of n hubs)

unfoldable pub hubs_among : List HubType → List Node → Yielded (Node × HubType)
hubs_among hub_types [] = ([], none)
hubs_among hub_types (n ∷ ns) = then_yield (types_of n hub_types) (hubs_among hub_types ns)

-- GetHubsOnBus
abbrev pub get_hubs_on_bus : Node → List HubType → Yielded (Node × HubType)
get_hubs_on_bus root hub_types = hubs_among hub_types (all_nodes root)

-- CollectHubMaps, of a tree that is there
unfoldable pub collect_hub_maps :
    {B : Type 0} → List HubType → (HubType → Node → Result B) → Tree → Yielded B
collect_hub_maps hub_types map_func [] = ([], none)
collect_hub_maps hub_types map_func ((b, root) ∷ tree) =
    then_yield
      (yield_each (λ found. map_func found.1 found.0) (get_hubs_on_bus root hub_types).0
        (get_hubs_on_bus root hub_types).1)
      (collect_hub_maps hub_types map_func tree)
