-- ===== src/Usb/Total.antt =====
-- Which devices GetBusNumberToDeviceTreeMap has in its trees.
use ftc_designosaurs.Base.{
  ℕ, ◌+◌, Bool, true, false, Option, none, some, List, [], ◌∷◌, ◌==◌, comparable_nat, if◌then◌else◌,
  ◌≡◌, refl, sym, ap, subst, ◌∙◌, arith,
}
use ftc_designosaurs.Base.Dict.{lookup, insert}
use ftc_designosaurs.Python.{Result, ok, err, ok-injective}
use ftc_designosaurs.Flags.Chars.{Text}
use ftc_designosaurs.Forwarder.Ports.{ℤ, comparable_int, int}
use ftc_designosaurs.Usb.Nodes.{bus, device, Node, node, all_nodes, call_found}
use ftc_designosaurs.Usb.Lines.{TLine, t_line, s_line}
use ftc_designosaurs.Usb.Reading.{
  InfoMap, Tree, Reading, or_new_bus, bus_of, new_device, add_device, put_bus, read_device, read_t,
  set_serial, serial_in, store_serial, read_s, then_read, read_line, read_lines,
  get_bus_number_to_device_tree_map, tree_of,
}
use ftc_designosaurs.Usb.Counted.{
  count_nodes, count, total, Grows, call_found-Grows, add_device-Grows,
}

module _ (q : ℕ → ℤ → Bool) where
  abbrev device_count : ℕ → Option ℤ → ℕ
  device_count b none = 0
  device_count b (some n) = if q b n then 1 else 0

  abbrev t_count : Option TLine → ℕ
  t_count none = 0
  t_count (some t) = device_count t.line_bus (int t.line_device)

  -- The T lines with such numbers.
  unfoldable pub t_lines : List Text → ℕ
  t_lines [] = 0
  t_lines (line ∷ lines) = t_count (t_line line) + t_lines lines

  total-insert :
      (b : ℕ) (n : Node) (tree : Tree)
      → total q (insert b n tree) + count q (bus_of b tree) ≡ total q tree + count q n
  unfolding total insert lookup all_nodes count_nodes
  total-insert b n [] = omega arith
  total-insert b n ((j, m) ∷ tree) = by_test (j == b) (total-insert b n tree)
    where
      by_test :
          (t : Bool)
          → total q (insert b n tree) + count q (bus_of b tree) ≡ total q tree + count q n
          → (total q (if t then (b, n) ∷ tree else (j, m) ∷ insert b n tree)
              + count q (or_new_bus b (if t then some m else lookup b tree)))
            ≡ (count q m + total q tree) + count q n
      by_test true ih = omega arith
      by_test false ih = omega (arith, ih)

  -- A reading has as many more such devices in its trees.
  abbrev More : ℕ → Reading → Result Reading → Type 0
  More k r out = (r' : Reading) → out ≡ ok r' → total q r'.tree ≡ total q r.tree + k

  put_bus-More :
      (r : Reading) (b k : ℕ) (n : ℤ) (f : Node → Result Node)
      → Grows q k f
      → More k r (put_bus r.tree b n (f (bus_of b r.tree)))
  put_bus-More r b k n f grows = by_result (f (bus_of b r.tree)) refl
    where
      by_result : (o : Result Node) → f (bus_of b r.tree) ≡ o → More k r (put_bus r.tree b n o)
      by_result (err e) h r' x = absurd (cc)
      by_result (ok m) h r' x =
          subst (λ (s : Reading). total q s.tree ≡ total q r.tree + k) (ok-injective x)
            (omega (arith, grows (bus_of b r.tree) m h, total-insert b m r.tree))

  set_serial-Grows : (serial : Text) → Grows q 0 (set_serial serial)
  unfolding all_nodes count_nodes
  set_serial-Grows serial (node (bus b) cs) m h =
      subst (λ x. count q x ≡ count q (node (bus b) cs) + 0) (ok-injective h) (omega arith)
  set_serial-Grows serial (node (device d) cs) m h =
      subst (λ x. count q x ≡ count q (node (device d) cs) + 0) (ok-injective h) (omega arith)

  count-new_device :
      (infos : InfoMap) (b : ℕ) (n : ℤ) → count q (new_device infos b n) ≡ (if q b n then 1 else 0)
  unfolding all_nodes count_nodes
  count-new_device infos b n = omega arith

  read_t-More :
      (infos : InfoMap) (t : Option TLine) (r : Reading) → More (t_count t) r (read_t infos t r)
  read_t-More infos none r = λ r' e.
      subst (λ (s : Reading). total q s.tree ≡ total q r.tree + 0) (ok-injective e) (omega arith)
  read_t-More infos (some t) r = by_int (int t.line_device)
    where
      by_int : (o : Option ℤ) → More (device_count t.line_bus o) r (read_device infos t r o)
      by_int none = λ r' e. absurd (cc)
      by_int (some n) =
          subst
            (λ k. More k r (
              put_bus r.tree t.line_bus n (
                add_device t.line_parent (t.line_port + 1) (new_device infos t.line_bus n)
                  (bus_of t.line_bus r.tree))))
            (count-new_device infos t.line_bus n)
            (put_bus-More r t.line_bus (count q (new_device infos t.line_bus n)) n
              (add_device t.line_parent (t.line_port + 1) (new_device infos t.line_bus n))
              (add_device-Grows q t.line_parent (t.line_port + 1) (new_device infos t.line_bus n)))

  read_s-More : (serial : Option Text) (r : Reading) → More 0 r (read_s serial r)
  read_s-More none r = λ r' e.
      subst (λ (s : Reading). total q s.tree ≡ total q r.tree + 0) (ok-injective e) (omega arith)
  read_s-More (some serial) r = by_last r.last
    where
      by_root :
          (b : ℕ) (n : ℤ) (o : Option Node)
          → lookup b r.tree ≡ o
          → More 0 r (serial_in serial r b n o)
      by_root b n none h = λ r' e. absurd (cc)
      by_root b n (some root) h =
          subst (λ x. More 0 r (put_bus r.tree b n (call_found n (set_serial serial) x)))
            (ap (or_new_bus b) h)
            (put_bus-More r b 0 n (call_found n (set_serial serial))
              (call_found-Grows q 0 n (set_serial serial) (set_serial-Grows serial)))

      by_last : (o : Option (ℕ × ℤ)) → More 0 r (store_serial serial r o)
      by_last none = λ r' e. absurd (cc)
      by_last (some (b, n)) = by_root b n (lookup b r.tree) refl

  then_read-More :
      (j k : ℕ) (r : Reading) (out : Result Reading) (f : Reading → Result Reading)
      → More j r out
      → ((s : Reading) → More k s (f s))
      → More (j + k) r (then_read out f)
  then_read-More j k r (err e) f h g r' x = absurd (cc)
  then_read-More j k r (ok s) f h g r' x = omega (arith, h s refl, g s r' x)

  read_lines-More :
      (infos : InfoMap) (lines : List Text) (r : Reading) (out : Result Reading) (k : ℕ)
      → More k r out
      → More (k + t_lines lines) r (read_lines infos lines out)
  unfolding read_lines t_lines
  read_lines-More infos [] r out k h r' e = omega (arith, h r' e)
  read_lines-More infos (line ∷ lines) r out k h r' e =
      let m =
        read_lines-More infos lines r (then_read out (read_line infos line))
          (k + t_count (t_line line))
          (then_read-More k (t_count (t_line line)) r out (read_line infos line) h (λ s u x.
            let both =
              then_read-More (t_count (t_line line)) 0 s (read_t infos (t_line line) s)
                (read_s (s_line line)) (read_t-More infos (t_line line) s)
                (read_s-More (s_line line)) u x in
            omega (arith, both)))
          r' e in
      omega (arith, m)

  -- Where GetBusNumberToDeviceTreeMap returns, AllNodes yields on the buses of its map, for any test
  -- on bus and device numbers, as many devices that pass as usb-devices has T lines with such
  -- numbers: each line has become one device, and no device is lost.
  pub get_bus_number_to_device_tree_map-total :
      (infos : InfoMap) (lines : List Text) (tree : Tree)
      → get_bus_number_to_device_tree_map infos lines ≡ ok tree
      → total q tree ≡ t_lines lines
  unfolding get_bus_number_to_device_tree_map total
  get_bus_number_to_device_tree_map-total infos lines tree =
      by_result (read_lines infos lines (ok start)) refl
    where
      start : Reading
      start = record { tree = []; last = none }

      by_result :
          (o : Result Reading)
          → read_lines infos lines (ok start) ≡ o
          → tree_of o ≡ ok tree
          → total q tree ≡ t_lines lines
      by_result (err e) h x = absurd (cc)
      by_result (ok r) h x =
          let grown =
            read_lines-More infos lines start (ok start) 0
              (λ s e. ap (λ (u : Reading). total q u.tree) (sym (ok-injective e)) ∙ (omega arith)) r
              h in
          subst (λ t. total q t ≡ t_lines lines) (ok-injective x) (omega (arith, grown))
