-- ===== src/Usb/Counted.antt =====
-- How many devices a tree of find_usb_devices.py has, after each of its changes.
use ftc_designosaurs.Base.{
  ℕ, ◌+◌, Bool, true, false, Option, none, some, List, [], ◌∷◌, ◌++◌, ◌==◌, comparable_nat,
  if◌then◌else◌, ◌≡◌, refl, ap, subst, ◌∙◌, arith,
}
use ftc_designosaurs.Python.{value_error, Result, ok, err, ok-injective, some-injective}
use ftc_designosaurs.Forwarder.Ports.{ℤ, pos, comparable_int}
use ftc_designosaurs.Usb.Nodes.{
  child_at, is_some, or_attribute_error, Kind, bus, device, Node, node, Children, no_children,
  child, kind, kind_num, put_child, add_child, all_nodes, descendants, in_child, below,
  change_found, change_below, call_found,
}
use ftc_designosaurs.Usb.Reading.{Tree, add_device}

-- A test on the bus number and the device number of a device.
module _ (q : ℕ → ℤ → Bool) where
  abbrev pub count_kind : Kind → ℕ
  count_kind (bus b) = 0
  count_kind (device d) = if q d.bus_num d.device_num then 1 else 0

  unfoldable pub count_nodes : List Node → ℕ
  count_nodes [] = 0
  count_nodes (n ∷ ns) = count_kind (kind n) + count_nodes ns

  -- The devices that AllNodes yields and that have such numbers.
  abbrev pub count : Node → ℕ
  count n = count_nodes (all_nodes n)

  unfoldable pub total : Tree → ℕ
  total [] = 0
  total ((b, n) ∷ tree) = count n + total tree

  count_nodes-append :
      (ns ms : List Node) → count_nodes (ns ++ ms) ≡ count_nodes ns + count_nodes ms
  unfolding count_nodes
  count_nodes-append [] ms = omega arith
  count_nodes-append (n ∷ ns) ms = omega (arith, count_nodes-append ns ms)

  count-put_child :
      (port : ℕ) (d : Node) (cs : Children)
      → child_at port cs ≡ none
      → count_nodes (descendants (put_child port d cs)) ≡ count_nodes (descendants cs) + count d
  unfolding put_child child_at all_nodes count_nodes
  count-put_child port d no_children h = count_nodes-append (all_nodes d) [] ∙ (omega arith)
  count-put_child port d (child p n cs) h = by_test (p == port) h (count-put_child port d cs)
    where
      by_test :
          (b : Bool)
          → (if b then some n else child_at port cs) ≡ none
          → (child_at port cs ≡ none
              → count_nodes (descendants (put_child port d cs))
                ≡ count_nodes (descendants cs) + count d)
          → count_nodes
              (descendants (if b then child port d cs else child p n (put_child port d cs)))
            ≡ count_nodes (descendants (child p n cs)) + count d
      by_test true k ih = absurd (cc)
      by_test false k ih = omega (
        arith,
        ih k,
        count_nodes-append (all_nodes n) (descendants (put_child port d cs)),
        count_nodes-append (all_nodes n) (descendants cs),
      )

  -- A change adds as many devices with such numbers.
  abbrev pub Grows : ℕ → (Node → Result Node) → Type 0
  Grows k f = (n m : Node) → f n ≡ ok m → count m ≡ count n + k

  pub add_child-Grows : (port : ℕ) (d : Node) → Grows (count d) (add_child port d)
  unfolding all_nodes count_nodes
  add_child-Grows port d (node k cs) m = by_child (child_at port cs) refl
    where
      by_child :
          (o : Option Node)
          → child_at port cs ≡ o
          → (if is_some o then err value_error else ok (node k (put_child port d cs))) ≡ ok m
          → count m ≡ count (node k cs) + count d
      by_child (some n) e h = absurd (cc)
      by_child none e h =
          subst (λ x. count x ≡ count (node k cs) + count d) (ok-injective h)
            (omega (arith, count-put_child port d cs e))

  module _ (k : ℕ) (findnum : ℤ) (f : Node → Result Node) (grows : Grows k f) where
    abbrev Below : Children → Option (Result Children) → Type 0
    Below cs o =
        (cs' : Children)
        → o ≡ some (ok cs')
        → count_nodes (descendants cs') ≡ count_nodes (descendants cs) + k

    abbrev Here : Node → Option (Result Node) → Type 0
    Here n o = (m : Node) → o ≡ some (ok m) → count m ≡ count n + k

    below-Here :
        (i : Kind) (cs : Children) (o : Option (Result Children))
        → Below cs o
        → Here (node i cs) (below i o)
    unfolding all_nodes count_nodes
    below-Here i cs none h m e = absurd (cc)
    below-Here i cs (some (err x)) h m e = absurd (cc)
    below-Here i cs (some (ok cs')) h m e =
        subst (λ x. count x ≡ count (node i cs) + k) (ok-injective (some-injective e))
          (omega (arith, h cs' refl))

    in_child-Below :
        (p : ℕ) (n : Node) (cs : Children) (o : Option (Result Node)) (l : Option (Result Children))
        → Here n o
        → Below cs l
        → Below (child p n cs) (in_child p cs o l n)
    unfolding all_nodes count_nodes
    in_child-Below p n cs (some (err x)) l h g cs' e = absurd (cc)
    in_child-Below p n cs (some (ok m)) l h g cs' e =
        subst (λ x. count_nodes (descendants x) ≡ count_nodes (descendants (child p n cs)) + k)
          (ok-injective (some-injective e))
          (omega (
            arith,
            h m refl,
            count_nodes-append (all_nodes m) (descendants cs),
            count_nodes-append (all_nodes n) (descendants cs),
          ))
    in_child-Below p n cs none (some (err x)) h g cs' e = absurd (cc)
    in_child-Below p n cs none (some (ok ds)) h g cs' e =
        subst (λ x. count_nodes (descendants x) ≡ count_nodes (descendants (child p n cs)) + k)
          (ok-injective (some-injective e))
          (omega (
            arith,
            g ds refl,
            count_nodes-append (all_nodes n) (descendants ds),
            count_nodes-append (all_nodes n) (descendants cs),
          ))
    in_child-Below p n cs none none h g cs' e = absurd (cc)

    if-Here :
        (b : Bool) (n : Node) (o : Option (Result Node))
        → Here n o
        → Here n (if b then some (f n) else o)
    if-Here true n o h m e = grows n m (some-injective e)
    if-Here false n o h m e = h m e

    mutual
      unfolding change_found

      change_found-Here : (n : Node) → Here n (change_found findnum f n)
      change_found-Here (node i cs) =
          if-Here (kind_num i == findnum) (node i cs) (below i (change_below findnum f cs))
            (below-Here i cs (change_below findnum f cs) (change_below-Below cs))

      change_below-Below : (cs : Children) → Below cs (change_below findnum f cs)
      change_below-Below no_children = λ cs' e. absurd (cc)
      change_below-Below (child p n cs) =
          in_child-Below p n cs (change_found findnum f n) (change_below findnum f cs)
            (change_found-Here n) (change_below-Below cs)

    pub call_found-Grows : Grows k (call_found findnum f)
    call_found-Grows n m = by_found (change_found findnum f n) (change_found-Here n)
      where
        by_found :
            (o : Option (Result Node))
            → Here n o
            → or_attribute_error o ≡ ok m
            → count m ≡ count n + k
        by_found none h e = absurd (cc)
        by_found (some r) h e = h m (ap some e)

  pub add_device-Grows : (parent port : ℕ) (d : Node) → Grows (count d) (add_device parent port d)
  add_device-Grows parent port d n m = by_test (parent == 0)
    where
      by_test :
          (b : Bool)
          → (if b then add_child port d n else call_found (pos parent) (add_child port d) n) ≡ ok m
          → count m ≡ count n + count d
      by_test true = add_child-Grows port d n m
      by_test false =
          call_found-Grows (count d) (pos parent) (add_child port d) (add_child-Grows port d) n m
