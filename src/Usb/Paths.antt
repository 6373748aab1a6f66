-- ===== src/Usb/Paths.antt =====
-- What the map from the physical ports of a hub has, by the layout of the hub.
use ftc_designosaurs.Base.{
  contains-append, ◌||◌, contains, All, ℕ, Bool, true, false, Option, none, some, List, [], ◌∷◌,
  ◌++◌, ◌==◌, comparable_nat, comparable_string, if◌then◌else◌, ◌≡◌, refl, ap, ◌∙◌, arith,
}
use ftc_designosaurs.Base.Dict.{Dict, lookup, insert, lookup-insert}
use ftc_designosaurs.Usb.Nodes.{Node, port_to_device}
use ftc_designosaurs.Usb.Hubs.{Layout, no_ports, to_port, to_hub}
use ftc_designosaurs.Usb.Ports.{dict_of}

-- The virtual ports that lead to a physical port.
unfoldable pub path_to : ℕ → Layout → Option (List ℕ)
path_to port no_ports = none
path_to port (to_port virtual physical rest) =
    if physical == port then some (virtual ∷ []) else path_to port rest
path_to port (to_hub virtual inner rest) = elim (path_to port inner) [
  | some path ↦ some (virtual ∷ path)
  | none ↦ path_to port rest
]

-- The node that a path of virtual ports leads to.
unfoldable pub node_at : List ℕ → Option Node → Option Node
node_at [] n = n
node_at (virtual ∷ path) none = none
node_at (virtual ∷ path) (some n) = node_at path (port_to_device virtual n)

abbrev pub node_on : Option (List ℕ) → Node → Option Node
node_on none n = none
node_on (some path) n = node_at path (some n)

unfoldable pub physical_ports : Layout → List ℕ
physical_ports no_ports = []
physical_ports (to_port virtual physical rest) = physical ∷ physical_ports rest
physical_ports (to_hub virtual inner rest) = physical_ports inner ++ physical_ports rest

-- No physical port stands twice.
unfoldable pub IsLayout : Layout → Type 0
IsLayout no_ports = Unit
IsLayout (to_port virtual physical rest) = (path_to physical rest ≡ none) × IsLayout rest
IsLayout (to_hub virtual inner rest) =
    All (λ port. path_to port rest ≡ none) (physical_ports inner) × IsLayout inner × IsLayout rest

abbrev pub later : Option Node → Option Node → Option Node
later here none = here
later here (some n) = some n

-- What the last tuple for a port has.
unfoldable pub last_for : ℕ → List (ℕ × Node) → Option Node
last_for port [] = none
last_for port ((p, n) ∷ l) = later (if p == port then some n else none) (last_for port l)

pub lookup-dict_of :
    (port : ℕ) (d : Dict ℕ Node) (l : List (ℕ × Node))
    → lookup port (dict_of d l) ≡ later (lookup port d) (last_for port l)
unfolding dict_of last_for
lookup-dict_of port d [] = refl
lookup-dict_of port d ((p, n) ∷ l) =
    lookup-dict_of port (insert p n d) l
    ∙ ap (λ o. later o (last_for port l)) (lookup-insert p port n d)
    ∙ by_test (p == port) (last_for port l)
  where
    by_test :
        (b : Bool) (o : Option Node)
        → later (if b then some n else lookup port d) o
          ≡ later (lookup port d) (later (if b then some n else none) o)
    by_test true none = refl
    by_test true (some m) = refl
    by_test false none = refl
    by_test false (some m) = refl

pub last_for-append :
    (port : ℕ) (l m : List (ℕ × Node))
    → last_for port (l ++ m) ≡ later (last_for port l) (last_for port m)
unfolding last_for
last_for-append port [] m = by_last (last_for port m)
  where
    by_last : (o : Option Node) → o ≡ later none o
    by_last none = refl
    by_last (some n) = refl
last_for-append port ((p, n) ∷ l) m =
    ap (later (if p == port then some n else none)) (last_for-append port l m)
    ∙ later_assoc (if p == port then some n else none) (last_for port l) (last_for port m)
  where
    later_assoc : (a b c : Option Node) → later a (later b c) ≡ later (later a b) c
    later_assoc a b none = refl
    later_assoc a b (some n) = refl

pub node_at-none : (path : List ℕ) → node_at path none ≡ none
unfolding node_at
node_at-none [] = refl
node_at-none (v ∷ path) = refl

pub path_to-physical_ports :
    (port : ℕ) (layout : Layout) (path : List ℕ)
    → path_to port layout ≡ some path
    → contains (physical_ports layout) port ≡ true
unfolding path_to physical_ports contains
path_to-physical_ports port no_ports path h = absurd (cc)
path_to-physical_ports port (to_port virtual physical rest) path h =
    ground (arith, path_to-physical_ports port rest path)
path_to-physical_ports port (to_hub virtual inner rest) path h =
    contains-append (physical_ports inner) (physical_ports rest) port
    ∙ by_inner (path_to port inner) refl h (path_to-physical_ports port inner)
        (path_to-physical_ports port rest)
  where
    by_inner :
        (o : Option (List ℕ))
        → path_to port inner ≡ o
        → (let found : Option (List ℕ) = elim o [
          | some p ↦ some (virtual ∷ p)
          | none ↦ path_to port rest
        ] in
            found ≡ some path)
        → ((p : List ℕ) → path_to port inner ≡ some p → contains (physical_ports inner) port ≡ true)
        → ((p : List ℕ) → path_to port rest ≡ some p → contains (physical_ports rest) port ≡ true)
        → (contains (physical_ports inner) port || contains (physical_ports rest) port) ≡ true
    by_inner none e k in_inner in_rest = ground (arith, in_rest path k)
    by_inner (some p) e k in_inner in_rest = ground (arith, in_inner p e)
