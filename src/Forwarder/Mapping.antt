-- ===== src/Forwarder/Mapping.antt =====
-- What Map of forwarder.py records, and the two ways in which it goes wrong.
use ftc_designosaurs.Base.{
  ◌∙◌, String, none, some, true, false, ◌≡◌, refl, ◌≢◌, ◌⊎◌, inl, inr, arith, contains,
  comparable_string, comparable_pair, List, [], ◌∷◌, ◌==◌,
}
use ftc_designosaurs.Base.Dict.{
  lookup, insert, erase, lookup-insert, lookup-erase, lookup-insert_self, lookup-erase_self,
}
use ftc_designosaurs.Python.{
  ok, err, ◌>>◌, key_error, command_failed_error, device_unreachable_error, unbound_local_error,
}
use ftc_designosaurs.Flags.Chars.{Text}
use ftc_designosaurs.Forwarder.Ports.{ℤ, pos, comparable_int, int, int_equal_iff, split_colon}
use ftc_designosaurs.Forwarder.Host.{Host, exited, map_port, unmap_port}
use ftc_designosaurs.Forwarder.Instance.{
  Forwarder, map_pairs, after_map, fail_map, store_ports, kill_device_locked, map_locked,
  init_device_locked,
}
use ftc_designosaurs.Forwarder.Unmap.{unmap_device_port_locked, unmap_found, run_unmap}
use ftc_designosaurs.Forwarder.Pairing.{without, unmap-without}
use ftc_designosaurs.Forwarder.Process.{
  created, map_ports, device_port_for_host_port, with_instance,
}

module _ (host : Host) where
  open host use {State, run}

  -- What host_forwarder reports by a successful run: the texts of the two ports.
  abbrev pub Reports : Forwarder State → String → ℤ → ℤ → ℤ → ℤ → State → Type 0
  Reports f serial d h device_port host_port s =
      (output : Text) × (device_text : Text) × (host_text : Text) × (run
          (map_port f.host_forwarder_path serial d h) f.world
        ≡ (exited (pos 0) output, s))
      × (split_colon output ≡ device_text ∷ host_text ∷ [])
      × (int device_text ≡ some device_port)
      × (int host_text ≡ some host_port)

  map_pairs_one :
      (serial wrapper : String) (d h device_port host_port : ℤ) (f : Forwarder State) (s : State)
      → Reports f serial d h device_port host_port s
      → map_pairs host serial wrapper ((d, h) ∷ []) f
        ≡ store_ports host serial device_port host_port (record f { world = s })
  unfolding map_pairs after_map store_ports
  map_pairs_one serial wrapper d h device_port host_port f s (output, dt, ht, ran, two, di, hi) =
      rw ran (rw two (rw di (rw hi refl)))

  -- On a device that is initialized, after Map of one pair that host_forwarder serves,
  -- DevicePortForHostPort gives the reported device port for the reported host port.
  pub device_port_for_host_port-map_ports :
      (serial wrapper : String) (d h device_port host_port : ℤ) (f : Forwarder State) (s : State)
      → contains f.initialized_devices serial ≡ true
      → Reports f serial d h device_port host_port s
      → ((map_ports host ((d, h) ∷ []) serial wrapper >> device_port_for_host_port host host_port)
          (created f)).0
        ≡ ok (some device_port)
  unfolding map_ports device_port_for_host_port with_instance map_locked init_device_locked
      store_ports
  device_port_for_host_port-map_ports serial wrapper d h device_port host_port f s known reports =
      rw known (
        rw (map_pairs_one serial wrapper d h device_port host_port f s reports)
          (rw (lookup-insert_self host_port (serial, device_port) f.host_to_device_port_map) refl))

  -- The error that Map ends with where it cannot kill the daemon after a failed run.
  abbrev pub KillFails : String → String → Forwarder State → Type 0
  KillFails serial wrapper f =
      ((kill_device_locked host serial wrapper f).0 ≡ err command_failed_error)
      ⊎ ((kill_device_locked host serial wrapper f).0 ≡ err device_unreachable_error)

  fail_map_unbound :
      (serial wrapper : String) (f : Forwarder State)
      → KillFails serial wrapper f
      → (fail_map host serial wrapper f).0 ≡ err unbound_local_error
  unfolding fail_map
  fail_map_unbound serial wrapper f (inl e) = rw e refl
  fail_map_unbound serial wrapper f (inr e) = rw e refl

  -- Where host_forwarder exits with another code than 0 and the daemon cannot be killed afterwards,
  -- the loop of Map raises UnboundLocalError, whatever pairs follow.
  pub map_pairs_unbound :
      (serial wrapper : String) (d h code : ℤ) (pairs : List (ℤ × ℤ)) (f : Forwarder State)
      (output : Text) (s : State)
      → run (map_port f.host_forwarder_path serial d h) f.world ≡ (exited code output, s)
      → (code == pos 0) ≡ false
      → KillFails serial wrapper (record f { world = s })
      → (map_pairs host serial wrapper ((d, h) ∷ pairs) f).0 ≡ err unbound_local_error
  unfolding map_pairs after_map
  map_pairs_unbound serial wrapper d h code pairs f output s ran failed kill =
      rw ran (rw failed (rw (fail_map_unbound serial wrapper (record f { world = s }) kill) refl))

  missing_host :
      (serial : String) (port host_port : ℤ) (f : Forwarder State)
      → lookup (serial, port) f.device_to_host_port_map ≡ some host_port
      → lookup host_port f.host_to_device_port_map ≡ none
      → (unmap_device_port_locked host serial port f).0 ≡ err key_error
  unfolding unmap_device_port_locked unmap_found
  missing_host serial port host_port f found gone = rw found (rw found (rw gone refl))

  found_first :
      (sp sq : String × ℤ) (h : ℤ) (f : Forwarder State)
      → (sq == sp) ≡ false
      → lookup sp (erase sq (insert sq h (insert sp h f.device_to_host_port_map))) ≡ some h
  found_first sp sq h f differ =
      lookup-erase sq sp (insert sq h (insert sp h f.device_to_host_port_map))
      ∙ rw differ (
          lookup-insert sq sp h (insert sp h f.device_to_host_port_map)
          ∙ rw differ (lookup-insert_self sp h f.device_to_host_port_map))

  abbrev pub share_host : String → ℤ → ℤ → ℤ → Forwarder State → Forwarder State
  share_host serial p q h f = (store_ports host serial q h (store_ports host serial p h f).1).1

  run_unmap_ok :
      (serial : String) (port code : ℤ) (output : Text) (s : State) (f : Forwarder State)
      → run (unmap_port f.host_forwarder_path serial port) f.world ≡ (exited code output, s)
      → run_unmap host serial port f ≡ (ok tt, record f { world = s })
  unfolding run_unmap
  run_unmap_ok serial port code output s f ran = rw ran refl

  other_key :
      (serial : String) (p q : ℤ) → q ≢ p → ◌==◌ {A = String × ℤ} (serial, q) (serial, p) ≡ false
  other_key serial p q n = ground (arith, int_equal_iff q p)

  -- Two device ports that Map recorded with the same host port cannot both be unmapped: after
  -- UnmapDevicePort of the second, whose command exits with any code, that of the first raises
  -- KeyError.
  pub unmap_device_port_locked_shared :
      (serial : String) (p q h code : ℤ) (f : Forwarder State) (output : Text) (s : State)
      → q ≢ p
      → run (unmap_port f.host_forwarder_path serial q) f.world ≡ (exited code output, s)
      → ((unmap_device_port_locked host serial q >> unmap_device_port_locked host serial p)
          (share_host serial p q h f)).0
        ≡ err key_error
  unfolding store_ports
  unmap_device_port_locked_shared serial p q h code f output s differ ran =
      rw
        (unmap-without host serial q h (serial, q) (share_host serial p q h f)
          (lookup-insert_self (serial, q) h (insert (serial, p) h f.device_to_host_port_map))
          (lookup-insert_self h (serial, q) (insert h (serial, p) f.host_to_device_port_map)))
        (rw
          (run_unmap_ok serial q code output s
            (without host (serial, q) h (share_host serial p q h f)) ran)
          (missing_host serial p h
            (record (without host (serial, q) h (share_host serial p q h f)) { world = s })
            (found_first (serial, p) (serial, q) h f (other_key serial p q differ))
            (lookup-erase_self h
              (insert h (serial, q) (insert h (serial, p) f.host_to_device_port_map)))))
