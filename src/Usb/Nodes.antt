-- ===== src/Usb/Nodes.antt =====
-- The classes USBNode, USBDeviceNode and USBBusNode of find_usb_devices.py.
use ftc_designosaurs.Base.{
  ℕ, zero, suc, ◌+◌, Bool, true, false, Option, none, some, List, [], ◌∷◌, ◌++◌, ltb, ◌==◌,
  comparable_nat, if◌then◌else◌,
}
use Prim.Native.Nat.{◌/◌, ◌%◌}
use ftc_designosaurs.Python.{Result, ok, err, value_error, attribute_error}
use ftc_designosaurs.Flags.Chars.{Text}
use ftc_designosaurs.Texts.{text}
use ftc_designosaurs.Forwarder.Ports.{ℤ, negsuc, comparable_int}

-- What a device has of its own; no desc stands for an info without that key.
pub record Device : Type 0 where
  pub bus_num : ℕ
  pub device_num : ℤ
  pub serial : Option Text
  pub desc : Option Text

pub data Kind : Type 0 where
  bus : ℕ → Kind
  device : Device → Kind

-- A node and, under their port numbers, the nodes of _port_to_node
mutual
  pub data Node : Type 0 where
    node : Kind → Children → Node

  pub data Children : Type 0 where
    no_children : Children
    child : ℕ → Node → Children → Children

abbrev pub kind : Node → Kind
kind (node k cs) = k

abbrev pub children : Node → Children
children (node k cs) = cs

abbrev pub kind_num : Kind → ℤ
kind_num (bus b) = negsuc zero
kind_num (device d) = d.device_num

abbrev pub device_num : Node → ℤ
device_num n = kind_num (kind n)

-- '%d' % n; a number has no more digits than its fuel, which is the number and one
unfoldable pub decimal : ℕ → ℕ → Text
decimal zero n = []
decimal (suc fuel) n =
    let front = decimal fuel (n / 10) in
    if ltb n 10 then (48 + n) ∷ [] else front ++ (48 + n % 10) ∷ []

-- desc
abbrev pub kind_desc : Kind → Option Text
kind_desc (bus b) = some (text "BUS " ++ decimal (suc b) b)
kind_desc (device d) = d.desc

abbrev pub node_desc : Node → Option Text
node_desc n = kind_desc (kind n)

unfoldable pub child_at : ℕ → Children → Option Node
child_at port no_children = none
child_at port (child p n cs) = if p == port then some n else child_at port cs

-- PortToDevice, of a port that may be missing
abbrev pub port_to_device : ℕ → Node → Option Node
port_to_device port n = child_at port (children n)

abbrev pub is_some : {A : Type 0} → Option A → Bool
is_some none = false
is_some (some a) = true

-- HasPort
abbrev pub has_port : ℕ → Node → Bool
has_port port n = is_some (port_to_device port n)

-- self._port_to_node[port] = device
unfoldable pub put_child : ℕ → Node → Children → Children
put_child port d no_children = child port d no_children
put_child port d (child p n cs) =
    let rest = put_child port d cs in if p == port then child port d cs else child p n rest

-- AddChild
abbrev pub add_child : ℕ → Node → Node → Result Node
add_child port d n =
    if has_port port n then err value_error else ok (node (kind n) (put_child port d (children n)))

-- AllNodes
unfoldable mutual
  pub all_nodes : Node → List Node
  all_nodes (node k cs) = node k cs ∷ descendants cs

  pub descendants : Children → List Node
  descendants no_children = []
  descendants (child p n cs) = all_nodes n ++ descendants cs

unfoldable pub first_with : ℤ → List Node → Option Node
first_with findnum [] = none
first_with findnum (n ∷ ns) = if device_num n == findnum then some n else first_with findnum ns

-- FindDeviceNumber
abbrev pub find_device_number : ℤ → Node → Option Node
find_device_number findnum n = first_with findnum (all_nodes n)

abbrev pub map_ok : {A B : Type 0} → (A → B) → Result A → Result B
map_ok f (ok a) = ok (f a)
map_ok f (err e) = err e

abbrev pub in_child :
    ℕ → Children → Option (Result Node) → Option (Result Children) → Node → Option (Result Children)
in_child p cs (some r) later n = some (map_ok (λ m. child p m cs) r)
in_child p cs none (some r) n = some (map_ok (child p n) r)
in_child p cs none none n = none

abbrev pub below : Kind → Option (Result Children) → Option (Result Node)
below k none = none
below k (some r) = some (map_ok (node k) r)

-- The tree in which the node that FindDeviceNumber finds has been changed
unfoldable mutual
  pub change_found : ℤ → (Node → Result Node) → Node → Option (Result Node)
  change_found findnum f (node k cs) =
      let rest = change_below findnum f cs in
      if kind_num k == findnum then some (f (node k cs)) else below k rest

  pub change_below : ℤ → (Node → Result Node) → Children → Option (Result Children)
  change_below findnum f no_children = none
  change_below findnum f (child p n cs) =
      in_child p cs (change_found findnum f n) (change_below findnum f cs) n

abbrev pub or_attribute_error : Option (Result Node) → Result Node
or_attribute_error none = err attribute_error
or_attribute_error (some r) = r

-- tree.FindDeviceNumber(findnum).method(), where None has no method
abbrev pub call_found : ℤ → (Node → Result Node) → Node → Result Node
call_found findnum f n = or_attribute_error (change_found findnum f n)
