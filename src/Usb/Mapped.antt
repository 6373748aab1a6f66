-- ===== src/Usb/Mapped.antt =====
-- The map from the physical ports of each kind of hub.
use ftc_designosaurs.Base.{
  All→AllIn, ℕ, zero, suc, ◌≤◌, String, Bool, true, false, Option, none, some, List, [], ◌∷◌, ◌==◌,
  comparable_nat, comparable_string, if◌then◌else◌, ◌≡◌, refl, sym, ap, subst, ◌∙◌, arith,
}
use ftc_designosaurs.Base.Dict.{Dict, lookup}
use ftc_designosaurs.Python.{value_error, ok-injective, Result, ok, err}
use ftc_designosaurs.Usb.Nodes.{is_some, Node, port_to_device, map_ok}
use ftc_designosaurs.Usb.Hubs.{
  via, tuples_if, plugable_7port_usb3_part3, keedox, plugable_7port_usb3_part2, plugable_7port,
  Layout, no_ports, to_port, to_hub, HubType, get_hub_type, one_tuple, inner_tuples, gpp_helper,
}
use ftc_designosaurs.Usb.Paths.{
  path_to, node_at, node_on, physical_ports, IsLayout, later, last_for, lookup-dict_of,
  last_for-append, node_at-none, path_to-physical_ports,
}
use ftc_designosaurs.Usb.Ports.{dict_of, get_physical_port_to_node_map}

last_for-one_tuple :
    (port physical : ℕ) (o : Option Node)
    → last_for port (one_tuple physical o) ≡ (if physical == port then o else none)
unfolding last_for
last_for-one_tuple port physical none = ground arith
last_for-one_tuple port physical (some n) = ground arith

nothing_later : (o : Option Node) → later none o ≡ o
nothing_later none = refl
nothing_later (some n) = refl

last_for-gpp_helper :
    (port : ℕ) (layout : Layout) (n : Node)
    → IsLayout layout
    → last_for port (gpp_helper layout n) ≡ node_on (path_to port layout) n
unfolding gpp_helper last_for path_to IsLayout node_at
last_for-gpp_helper port no_ports n h = refl
last_for-gpp_helper port (to_port virtual physical rest) n h =
    last_for-append port (one_tuple physical (port_to_device virtual n)) (gpp_helper rest n)
    ∙ ap (later (last_for port (one_tuple physical (port_to_device virtual n))))
        (last_for-gpp_helper port rest n h.1)
    ∙ ap (λ o. later o (node_on (path_to port rest) n))
        (last_for-one_tuple port physical (port_to_device virtual n))
    ∙ by_test (physical == port) refl
  where
    by_test :
        (b : Bool)
        → (physical == port) ≡ b
        → later (if b then port_to_device virtual n else none) (node_on (path_to port rest) n)
          ≡ node_on (if b then some (virtual ∷ []) else path_to port rest) n
    by_test true e =
        ap (λ o. later (port_to_device virtual n) (node_on o n))
          (subst (λ p. path_to p rest ≡ none) ((comparable_nat.equal_iff physical port).0 e) h.0)
    by_test false e = nothing_later (node_on (path_to port rest) n)
last_for-gpp_helper port (to_hub virtual inner rest) n h =
    last_for-append port (inner_tuples (gpp_helper inner) (port_to_device virtual n))
      (gpp_helper rest n)
    ∙ ap (later (last_for port (inner_tuples (gpp_helper inner) (port_to_device virtual n))))
        (last_for-gpp_helper port rest n h.2)
    ∙ ap (λ o. later o (node_on (path_to port rest) n))
        (of_inner (port_to_device virtual n) (λ m. last_for-gpp_helper port inner m h.1))
    ∙ by_path (path_to port inner) refl
  where
    of_inner :
        (o : Option Node)
        → ((m : Node) → last_for port (gpp_helper inner m) ≡ node_on (path_to port inner) m)
        → last_for port (inner_tuples (gpp_helper inner) o)
          ≡ elim (path_to port inner) [ some p ↦ node_at p o | none ↦ none ]
    of_inner none ih = none_inner (path_to port inner)
      where
        none_inner :
            (o : Option (List ℕ))
            → none ≡ (
                let found : Option Node = elim o [ some p ↦ node_at p none | none ↦ none ] in found)
        none_inner none = refl
        none_inner (some p) = sym (node_at-none p)
    of_inner (some m) ih = ih m ∙ some_inner (path_to port inner)
      where
        some_inner :
            (o : Option (List ℕ))
            → node_on o m ≡ elim o [ some p ↦ node_at p (some m) | none ↦ none ]
        some_inner none = refl
        some_inner (some p) = refl

    by_path :
        (o : Option (List ℕ))
        → path_to port inner ≡ o
        → later
            (elim o [ some p ↦ node_at p (port_to_device virtual n) | none ↦ none ])
            (node_on (path_to port rest) n)
          ≡ node_on (elim o [ some p ↦ some (virtual ∷ p) | none ↦ path_to port rest ]) n
    by_path none e = nothing_later (node_on (path_to port rest) n)
    by_path (some p) e =
        ap (λ q. later (node_at p (port_to_device virtual n)) (node_on q n))
          (All→AllIn (λ q. path_to q rest ≡ none) (physical_ports inner) h.0 port
            (path_to-physical_ports port inner p e))

seven_cases :
    (P : ℕ → Type 0) → P 1 → P 2 → P 3 → P 4 → P 5 → P 6 → P 7 → (p : ℕ) → 1 ≤ p → p ≤ 7 → P p
seven_cases P a b c d e f g zero low high = absurd (omega arith)
seven_cases P a b c d e f g (suc zero) low high = a
seven_cases P a b c d e f g (suc (suc zero)) low high = b
seven_cases P a b c d e f g (suc (suc (suc zero))) low high = c
seven_cases P a b c d e f g (suc (suc (suc (suc zero)))) low high = d
seven_cases P a b c d e f g (suc (suc (suc (suc (suc zero))))) low high = e
seven_cases P a b c d e f g (suc (suc (suc (suc (suc (suc zero)))))) low high = f
seven_cases P a b c d e f g (suc (suc (suc (suc (suc (suc (suc zero))))))) low high = g
seven_cases P a b c d e f g (suc (suc (suc (suc (suc (suc (suc (suc p)))))))) low high =
    absurd (omega arith)

-- The physical ports are 1 to 7, each at one place.
abbrev HasSeven : HubType → Type 0
HasSeven hub =
    IsLayout hub.v2p_port
    × ((port : ℕ) → 1 ≤ port → port ≤ 7 → is_some (path_to port hub.v2p_port) ≡ true)

choose-HasSeven :
    (b : Bool) (a : HubType) (r : Result HubType)
    → HasSeven a
    → ((hub : HubType) → r ≡ ok hub → HasSeven hub)
    → (hub : HubType) → (if b then ok a else r) ≡ ok hub
    → HasSeven hub
choose-HasSeven true a r h rest hub e = subst HasSeven (ok-injective e) h
choose-HasSeven false a r h rest hub e = rest hub e

plugable_7port-HasSeven : HasSeven plugable_7port
unfolding path_to IsLayout physical_ports
plugable_7port-HasSeven = (
  (
    refl,
    (refl, (refl, ((refl, (refl, (refl, (refl, tt)))), (refl, (refl, (refl, (refl, tt)))), tt))),
  ),
  seven_cases (λ p. is_some (path_to p plugable_7port.v2p_port) ≡ true) refl refl refl refl refl
      refl refl,
)

plugable_7port_usb3_part2-HasSeven : HasSeven plugable_7port_usb3_part2
unfolding path_to IsLayout physical_ports
plugable_7port_usb3_part2-HasSeven = (
  (
    (refl, (refl, (refl, (refl, tt)))),
    (refl, (refl, (refl, (refl, tt)))),
    (refl, (refl, (refl, tt))),
  ),
  seven_cases (λ p. is_some (path_to p plugable_7port_usb3_part2.v2p_port) ≡ true) refl refl refl
      refl refl refl refl,
)

keedox-HasSeven : HasSeven keedox
unfolding path_to IsLayout physical_ports
keedox-HasSeven = (
  (
    refl,
    (refl, (refl, ((refl, (refl, (refl, (refl, tt)))), (refl, (refl, (refl, (refl, tt)))), tt))),
  ),
  seven_cases (λ p. is_some (path_to p keedox.v2p_port) ≡ true) refl refl refl refl refl refl refl,
)

get_hub_type-HasSeven :
    (type_name : String) (hub : HubType) → get_hub_type type_name ≡ ok hub → HasSeven hub
unfolding get_hub_type
get_hub_type-HasSeven type_name =
    choose-HasSeven (type_name == "plugable_7port") plugable_7port _ plugable_7port-HasSeven (
      choose-HasSeven (type_name == "plugable_7port_usb3_part2") plugable_7port_usb3_part2 _
        plugable_7port_usb3_part2-HasSeven
        (choose-HasSeven (type_name == "plugable_7port_usb3_part3") plugable_7port_usb3_part3 _
          plugable_7port_usb3_part2-HasSeven
          (choose-HasSeven (type_name == "keedox") keedox _ keedox-HasSeven (
            choose-HasSeven (type_name == "via") via (err value_error) keedox-HasSeven
              (λ hub e. absurd (cc))))))

-- On a node that is a hub of a kind that GetHubType knows, GetPhysicalPortToNodeMap has, for every
-- physical port, the node at the end of the virtual ports that lead to it by the layout, and no node
-- where there is none. These ports are 1 to 7.
pub get_physical_port_to_node_map_lem :
    (type_name : String) (hub : HubType) (n : Node)
    → get_hub_type type_name ≡ ok hub
    → hub.id_func n ≡ ok true
    → (d : Dict ℕ Node) × (get_physical_port_to_node_map hub n ≡ ok d)
      × ((port : ℕ) → lookup port d ≡ node_on (path_to port hub.v2p_port) n)
      × ((port : ℕ) → 1 ≤ port → port ≤ 7 → is_some (path_to port hub.v2p_port) ≡ true)
unfolding get_physical_port_to_node_map lookup
get_physical_port_to_node_map_lem type_name hub n known is_hub =
    let (layout, seven) = get_hub_type-HasSeven type_name hub known in
    (
      dict_of [] (gpp_helper hub.v2p_port n),
      ap (λ r. map_ok (dict_of []) (tuples_if hub n r)) is_hub,
      (λ port.
          lookup-dict_of port [] (gpp_helper hub.v2p_port n)
          ∙ nothing_later (last_for port (gpp_helper hub.v2p_port n))
          ∙ last_for-gpp_helper port hub.v2p_port n layout),
      seven,
    )
