-- ===== src/Usb/Hubs.antt =====
-- usb_hubs.py: the kinds of hub, and their ports.
use ftc_designosaurs.Base.{
  ℕ, String, Bool, true, false, ◌||◌, Option, none, some, List, [], ◌∷◌, ◌++◌, ◌==◌, comparable_nat,
  comparable_string, if◌then◌else◌,
}
use ftc_designosaurs.Python.{Result, ok, err, value_error, type_error}
use ftc_designosaurs.Flags.Chars.{Text}
use ftc_designosaurs.Texts.{text, is_in}
use ftc_designosaurs.Usb.Nodes.{Node, node_desc, port_to_device}

-- A map from virtual ports to physical ports or to such maps.
pub data Layout : Type 0 where
  no_ports : Layout
  to_port : ℕ → ℕ → Layout → Layout
  to_hub : ℕ → Layout → Layout → Layout

pub record HubType : Type 0 where
  pub id_func : Node → Result Bool
  pub v2p_port : Layout

abbrev plugable_7port_layout : Layout
plugable_7port_layout = to_port 1 7 (
    to_port 2 6 (
      to_port 3 5
        (to_hub 4 (to_port 1 4 (to_port 2 3 (to_port 3 2 (to_port 4 1 no_ports)))) no_ports)))

abbrev plugable_7port_usb3_layout : Layout
plugable_7port_usb3_layout =
    to_hub 1 (to_port 1 1 (to_port 2 2 (to_port 3 3 (to_port 4 4 no_ports))))
      (to_port 2 5 (to_port 3 6 (to_port 4 7 no_ports)))

abbrev keedox_layout : Layout
keedox_layout = to_port 1 1 (
    to_port 2 2 (
      to_port 3 3
        (to_hub 4 (to_port 1 4 (to_port 2 5 (to_port 3 6 (to_port 4 7 no_ports)))) no_ports)))

abbrev via_layout : Layout
via_layout = to_port 1 1 (
    to_port 2 2 (
      to_port 3 3
        (to_hub 4 (to_port 1 4 (to_port 2 5 (to_port 3 6 (to_port 4 7 no_ports)))) no_ports)))

-- id in node.desc, where no desc is None
abbrev has_id : String → Option Text → Result Bool
has_id id none = err type_error
has_id id (some desc) = ok (is_in (text id) desc)

abbrev either_id : String → String → Option Text → Result Bool
either_id a b none = err type_error
either_id a b (some desc) = ok (is_in (text a) desc || is_in (text b) desc)

abbrev inner_has : (Option Text → Result Bool) → Option Node → Result Bool
inner_has has none = ok false
inner_has has (some n) = has (node_desc n)

abbrev and_inner : Result Bool → Result Bool → Result Bool
and_inner (err e) inner = err e
and_inner (ok false) inner = ok false
and_inner (ok true) inner = inner

-- A hub with the id, and with a hub of the same id at one of its ports
abbrev hub_with : (Option Text → Result Bool) → ℕ → Node → Result Bool
hub_with has port n = and_inner (has (node_desc n)) (inner_has has (port_to_device port n))

abbrev pub is_plugable_7port_hub : Node → Result Bool
is_plugable_7port_hub = hub_with (has_id "1a40:0101") 4

abbrev pub is_plugable_7port_usb3_part2_hub : Node → Result Bool
is_plugable_7port_usb3_part2_hub = hub_with (has_id "2109:2811") 1

abbrev pub is_plugable_7port_usb3_part3_hub : Node → Result Bool
is_plugable_7port_usb3_part3_hub = hub_with (has_id "2109:8110") 1

abbrev pub is_keedox_hub : Node → Result Bool
is_keedox_hub = hub_with (has_id "0bda:5411") 4

abbrev pub is_via_hub : Node → Result Bool
is_via_hub = hub_with (either_id "2109:2812" "2109:0812") 4

abbrev pub plugable_7port : HubType
plugable_7port = record { id_func = is_plugable_7port_hub; v2p_port = plugable_7port_layout }

abbrev pub plugable_7port_usb3_part2 : HubType
plugable_7port_usb3_part2 = record {
  id_func = is_plugable_7port_usb3_part2_hub;
  v2p_port = plugable_7port_usb3_layout;
}

abbrev pub plugable_7port_usb3_part3 : HubType
plugable_7port_usb3_part3 = record {
  id_func = is_plugable_7port_usb3_part3_hub;
  v2p_port = plugable_7port_usb3_layout;
}

abbrev pub keedox : HubType
keedox = record { id_func = is_keedox_hub; v2p_port = keedox_layout }

abbrev pub via : HubType
via = record { id_func = is_via_hub; v2p_port = via_layout }

-- ALL_HUBS
abbrev pub all_hubs : List HubType
all_hubs =
    plugable_7port ∷ plugable_7port_usb3_part2 ∷ plugable_7port_usb3_part3 ∷ keedox ∷ via ∷ []

-- GetHubType
unfoldable pub get_hub_type : String → Result HubType
get_hub_type type_name =
    if type_name == "plugable_7port"
    then ok plugable_7port
    else if type_name == "plugable_7port_usb3_part2"
    then ok plugable_7port_usb3_part2
    else if type_name == "plugable_7port_usb3_part3"
    then ok plugable_7port_usb3_part3
    else if type_name == "keedox"
    then ok keedox
    else if type_name == "via"
    then ok via
    else err value_error

abbrev pub one_tuple : ℕ → Option Node → List (ℕ × Node)
one_tuple physical none = []
one_tuple physical (some n) = (physical, n) ∷ []

abbrev pub inner_tuples : (Node → List (ℕ × Node)) → Option Node → List (ℕ × Node)
inner_tuples inner none = []
inner_tuples inner (some n) = inner n

-- _GppHelper
unfoldable pub gpp_helper : Layout → Node → List (ℕ × Node)
gpp_helper no_ports n = []
gpp_helper (to_port virtual physical rest) n =
    one_tuple physical (port_to_device virtual n) ++ gpp_helper rest n
gpp_helper (to_hub virtual inner rest) n =
    inner_tuples (gpp_helper inner) (port_to_device virtual n) ++ gpp_helper rest n

abbrev pub tuples_if : HubType → Node → Result Bool → Result (List (ℕ × Node))
tuples_if hub n (err e) = err e
tuples_if hub n (ok true) = ok (gpp_helper hub.v2p_port n)
tuples_if hub n (ok false) = err value_error

-- GetPhysicalPortToNodeTuples
abbrev pub get_physical_port_to_node_tuples : HubType → Node → Result (List (ℕ × Node))
get_physical_port_to_node_tuples hub n = tuples_if hub n (hub.id_func n)
