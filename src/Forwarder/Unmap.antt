-- ===== src/Forwarder/Unmap.antt =====
-- The methods of the class Forwarder that take ports out of the maps.
use ftc_designosaurs.Base.{
  String, [], ◌∷◌, Option, none, some, ◌==◌, if◌then◌else◌, comparable_string, comparable_pair,
}
use ftc_designosaurs.Base.Dict.{Dict, lookup, erase}
use ftc_designosaurs.Python.{
  Exec, ok, err, pure, raise, ◌>>=◌, ◌>>◌, key_error, host_forwarder_error, os_error,
}
use ftc_designosaurs.Forwarder.Ports.{ℤ, pos, comparable_int}
use ftc_designosaurs.Forwarder.Host.{
  Host, unmap_port, unmap_all_ports, Run, exited, timed_out, not_found, os_failed,
}
use ftc_designosaurs.Forwarder.Instance.{Forwarder, outside, run_command, kill_device_locked}

module _ (host : Host) where
  open host use {State}

  -- del self._host_to_device_port_map[host_port]
  abbrev pub delete_host : ℤ → Exec (Forwarder State) Unit
  delete_host host_port f = delete_found (lookup host_port f.host_to_device_port_map) f
    where
      delete_found : Option (String × ℤ) → Exec (Forwarder State) Unit
      delete_found none f = (err key_error, f)
      delete_found (some found) f =
          (ok tt, record f { host_to_device_port_map = erase host_port f.host_to_device_port_map })

  -- del self._device_to_host_port_map[serial_with_port]
  abbrev pub delete_device : String × ℤ → Exec (Forwarder State) Unit
  delete_device key f = delete_found (lookup key f.device_to_host_port_map) f
    where
      delete_found : Option ℤ → Exec (Forwarder State) Unit
      delete_found none f = (err key_error, f)
      delete_found (some found) f =
          (ok tt, record f { device_to_host_port_map = erase key f.device_to_host_port_map })

  abbrev pub after_unmap : Run → Exec (Forwarder State) Unit
  after_unmap (exited code output) = pure tt
  after_unmap timed_out = raise host_forwarder_error
  after_unmap not_found = raise os_error
  after_unmap os_failed = raise os_error

  unfoldable pub run_unmap : String → ℤ → Exec (Forwarder State) Unit
  run_unmap serial port f =
      (do
        ran ← outside host (run_command host (unmap_port f.host_forwarder_path serial port))
        after_unmap ran)
        f

  unfoldable pub unmap_found : String → ℤ → Option ℤ → Exec (Forwarder State) Unit
  unmap_found serial port none = pure tt
  unmap_found serial port (some host_port) = do
    delete_device (serial, port)
    delete_host host_port
    run_unmap serial port

  -- _UnmapDevicePortLocked
  unfoldable pub unmap_device_port_locked : String → ℤ → Exec (Forwarder State) Unit
  unmap_device_port_locked serial port f =
      unmap_found serial port (lookup (serial, port) f.device_to_host_port_map) f

  abbrev pub after_unmap_all : Run → Exec (Forwarder State) Unit
  after_unmap_all (exited code output) =
      if code == pos 0 then pure tt else raise host_forwarder_error
  after_unmap_all timed_out = raise host_forwarder_error
  after_unmap_all not_found = raise os_error
  after_unmap_all os_failed = raise os_error

  -- The loop over the items of the device map, which in Python 2 are a copy.
  unfoldable pub delete_entries : String → Dict (String × ℤ) ℤ → Exec (Forwarder State) Unit
  delete_entries serial [] f = (ok tt, f)
  delete_entries serial ((key, host_port) ∷ entries) f =
      if key.0 == serial
      then (do delete_device key; delete_host host_port; delete_entries serial entries) f
      else delete_entries serial entries f

  abbrev pub delete_all : String → Exec (Forwarder State) Unit
  delete_all serial f = delete_entries serial f.device_to_host_port_map f

  -- The body of UnmapAllDevicePorts, whose tool has no wrapper
  unfoldable pub unmap_all_locked : String → Exec (Forwarder State) Unit
  unmap_all_locked serial f =
      (do
        ran ← outside host (run_command host (unmap_all_ports f.host_forwarder_path serial))
        after_unmap_all ran
        delete_all serial
        kill_device_locked host serial "")
        f
