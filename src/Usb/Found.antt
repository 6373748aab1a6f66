-- ===== src/Usb/Found.antt =====
-- Which node the change of a tree of find_usb_devices.py is made on.
use ftc_designosaurs.Base.{
  sym, ℕ, Bool, true, false, Option, none, some, List, [], ◌∷◌, ◌++◌, ◌==◌, if◌then◌else◌, ◌≡◌,
  refl, ap, ◌∙◌,
}
use ftc_designosaurs.Python.{Result, ok, err, attribute_error}
use ftc_designosaurs.Forwarder.Ports.{ℤ, comparable_int}
use ftc_designosaurs.Usb.Nodes.{
  Kind, Node, node, Children, no_children, child, kind_num, device_num, all_nodes, descendants,
  first_with, find_device_number, in_child, below, change_found, change_below, or_attribute_error,
  call_found, map_ok,
}

abbrev or_second : {A : Type 0} → Option A → Option A → Option A
or_second none b = b
or_second (some a) b = some a

-- How a change ends
abbrev pub forget : {A : Type 0} → Result A → Result Unit
forget r = map_ok (λ x. tt) r

abbrev outcome : {A : Type 0} → Option (Result A) → Option (Result Unit)
outcome none = none
outcome (some r) = some (forget r)

module _ (findnum : ℤ) (f : Node → Result Node) where
  abbrev outcome_at : Option Node → Option (Result Unit)
  outcome_at none = none
  outcome_at (some n) = some (forget (f n))

  first_with-append :
      (ns ms : List Node)
      → first_with findnum (ns ++ ms) ≡ or_second (first_with findnum ns) (first_with findnum ms)
  unfolding first_with
  first_with-append [] ms = refl
  first_with-append (n ∷ ns) ms = by_test (device_num n == findnum) (first_with-append ns ms)
    where
      by_test :
          (b : Bool)
          → first_with findnum (ns ++ ms)
            ≡ or_second (first_with findnum ns) (first_with findnum ms)
          → (if b then some n else first_with findnum (ns ++ ms))
            ≡ or_second (if b then some n else first_with findnum ns) (first_with findnum ms)
      by_test true e = refl
      by_test false e = e

  outcome-below : (k : Kind) (o : Option (Result Children)) → outcome (below k o) ≡ outcome o
  outcome-below k none = refl
  outcome-below k (some (ok cs)) = refl
  outcome-below k (some (err e)) = refl

  outcome-in_child :
      (n : Node) (cs : Children) (p : ℕ) (o : Option (Result Node)) (l : Option (Result Children))
      → outcome (in_child p cs o l n) ≡ or_second (outcome o) (outcome l)
  outcome-in_child n cs p none none = refl
  outcome-in_child n cs p none (some (ok ds)) = refl
  outcome-in_child n cs p none (some (err e)) = refl
  outcome-in_child n cs p (some (ok m)) l = refl
  outcome-in_child n cs p (some (err e)) l = refl

  outcome_at-or_second :
      (a b : Option Node) → outcome_at (or_second a b) ≡ or_second (outcome_at a) (outcome_at b)
  outcome_at-or_second none b = refl
  outcome_at-or_second (some n) b = refl

  outcome-if :
      (b : Bool) (n : Node) (o : Option (Result Node)) (l : Option Node)
      → outcome o ≡ outcome_at l
      → outcome (if b then some (f n) else o) ≡ outcome_at (if b then some n else l)
  outcome-if true n o l e = refl
  outcome-if false n o l e = e

  mutual
    unfolding change_found all_nodes first_with

    outcome-change_found :
        (n : Node)
        → outcome (change_found findnum f n) ≡ outcome_at (first_with findnum (all_nodes n))
    outcome-change_found (node k cs) =
        outcome-if (kind_num k == findnum) (node k cs) (below k (change_below findnum f cs))
          (first_with findnum (descendants cs))
          (outcome-below k (change_below findnum f cs) ∙ outcome-change_below cs)

    outcome-change_below :
        (cs : Children)
        → outcome (change_below findnum f cs) ≡ outcome_at (first_with findnum (descendants cs))
    outcome-change_below no_children = refl
    outcome-change_below (child p n cs) =
        outcome-in_child n cs p (change_found findnum f n) (change_below findnum f cs)
        ∙ ap (λ o. or_second o (outcome (change_below findnum f cs))) (outcome-change_found n)
        ∙ ap (or_second (outcome_at (first_with findnum (all_nodes n)))) (outcome-change_below cs)
        ∙ sym (
            outcome_at-or_second (first_with findnum (all_nodes n))
              (first_with findnum (descendants cs)))
        ∙ ap outcome_at (sym (first_with-append (all_nodes n) (descendants cs)))

  -- How a call on the node of a number ends.
  abbrev pub call_at : Option Node → Result Unit
  call_at none = err attribute_error
  call_at (some n) = forget (f n)

  -- A call on tree.FindDeviceNumber(findnum) ends as the call ends on the node that it finds, and with
  -- AttributeError where there is no such node.
  pub call_found-find_device_number :
      (n : Node) → forget (call_found findnum f n) ≡ call_at (find_device_number findnum n)
  call_found-find_device_number n =
      forget_or (change_found findnum f n)
      ∙ ap or_error (outcome-change_found n)
      ∙ at_or (first_with findnum (all_nodes n))
    where
      or_error : Option (Result Unit) → Result Unit
      or_error none = err attribute_error
      or_error (some r) = r

      forget_or : (o : Option (Result Node)) → forget (or_attribute_error o) ≡ or_error (outcome o)
      forget_or none = refl
      forget_or (some r) = refl

      at_or : (o : Option Node) → or_error (outcome_at o) ≡ call_at o
      at_or none = refl
      at_or (some m) = refl
