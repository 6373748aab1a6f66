-- ===== src/Forwarder/Tests.antt =====
-- Small inputs for the theorems about the forwarder.
use ftc_designosaurs.Base.{
  ℕ, suc, ◌≢◌, some, Bool, true, false, ◌≡◌, refl, contains, comparable_string, comparable_pair, [],
  ◌∷◌,
}
use ftc_designosaurs.Base.Dict.{lookup, insert}
use ftc_designosaurs.Python.{Result, ok, err, ◌>>◌, command_failed_error, key_error}
use ftc_designosaurs.Flags.Chars.{Text, strip}
use ftc_designosaurs.Forwarder.Ports.{
  ℤ, pos, comparable_int, int, split_colon, signed, digits, digits_from,
}
use ftc_designosaurs.Forwarder.Host.{Host, exited}
use ftc_designosaurs.Forwarder.Instance.{
  Forwarder, store_ports, kill_device_locked, map_locked, map_pairs, init_device_locked,
  start_device, after_map,
}
use ftc_designosaurs.Forwarder.Unmap.{unmap_device_port_locked, unmap_all_locked}
use ftc_designosaurs.Forwarder.Process.{
  created, map_ports, device_port_for_host_port, new_forwarder,
}
use ftc_designosaurs.Forwarder.Pairing.{IsPaired, Unmapped, unmap_device_port_locked_lem}
use ftc_designosaurs.Forwarder.Devices.{Cleared, unmap_all_locked-Cleared}
use ftc_designosaurs.Forwarder.Reach.{Reach, new, mapped, unmapped_all, Reach-IsPaired}
use ftc_designosaurs.Forwarder.MapPairs.{MapsFree}
use ftc_designosaurs.Forwarder.Mapping.{
  device_port_for_host_port-map_ports, share_host, unmap_device_port_locked_shared,
}

-- "5:7"
abbrev five_seven : Text
five_seven = 53 ∷ 58 ∷ 55 ∷ []

-- A host that counts the commands, each of which exits with the code, and a device that answers as
-- given.
abbrev counting : ℤ → Result Bool → Host
counting code answer = record {
  State = ℕ;
  run = λ command n. (exited code five_seven, suc n);
  fetch_host_path = λ n. (ok "host", n);
  fetch_device_path = λ serial n. (ok "device", n);
  exists = λ path n. true;
  is_dir = λ path n. false;
  read_lock_line = λ n. [];
  write_lock = λ line n. n;
  pid_text = λ n. 49 ∷ [];
  start_time_text = λ n. (ok (50 ∷ []), n);
  file_exists = λ serial path n. (answer, n);
  run_shell_command = λ serial cmd n. (ok tt, suc n);
  reboot = λ serial n. (ok tt, n);
  push_changed_files = λ serial from to n. (ok tt, n);
  logcat = λ serial n. (ok tt, n);
}

abbrev host : Host
host = counting (pos 0) (ok true)

abbrev broken : Host
broken = counting (pos 1) (err command_failed_error)

abbrev empty : Forwarder ℕ
empty = new_forwarder host "host" 0

abbrev ready : Forwarder ℕ
ready = record empty { initialized_devices = "phone" ∷ [] }

-- Map starts the daemon on the phone and records the two ports.
abbrev reached : Forwarder ℕ
reached = (map_locked host "phone" "" ((pos 0, pos 7) ∷ []) empty).1

reached_ports : lookup ("phone", pos 5) reached.device_to_host_port_map ≡ some (pos 7)
unfolding map_locked map_pairs init_device_locked start_device kill_device_locked after_map
    store_ports split_colon int contains signed strip digits digits_from lookup insert
reached_ports = refl

all_free : MapsFree host "phone" "" ((pos 0, pos 7) ∷ []) empty
unfolding lookup init_device_locked start_device kill_device_locked contains
all_free e = (λ d h p k found. absurd (cc), λ r. tt)

reached-Reach : Reach host reached
reached-Reach = mapped "phone" "" ((pos 0, pos 7) ∷ []) empty all_free (new "host" 0)

-- Then the ports of another device are unmapped.
Reach-IsPaired_example : IsPaired (unmap_all_locked host "tablet" reached).1
Reach-IsPaired_example =
    Reach-IsPaired host (unmap_all_locked host "tablet" reached).1
      (unmapped_all "tablet" reached reached-Reach)

unmap_device_port_locked_lem_example :
    Unmapped host ("phone", pos 5) reached (unmap_device_port_locked host "phone" (pos 5) reached)
unmap_device_port_locked_lem_example =
    unmap_device_port_locked_lem host "phone" (pos 5) reached
      (Reach-IsPaired host reached reached-Reach)

unmap_all_locked-Cleared_example :
    Cleared host "phone" reached (unmap_all_locked host "phone" reached)
unmap_all_locked-Cleared_example =
    unmap_all_locked-Cleared host "phone" reached five_seven (suc reached.world)
      (Reach-IsPaired host reached reached-Reach) refl

device_port_for_host_port-map_ports_example :
    ((map_ports host ((pos 0, pos 7) ∷ []) "phone" "" >> device_port_for_host_port host (pos 7))
      (created ready)).0
    ≡ ok (some (pos 5))
unfolding split_colon int contains signed strip digits digits_from
device_port_for_host_port-map_ports_example =
    device_port_for_host_port-map_ports host "phone" "" (pos 0) (pos 7) (pos 5) (pos 7) ready 1 refl
      (five_seven, 53 ∷ [], 55 ∷ [], refl, refl, refl, refl)

kill_fails :
    (kill_device_locked broken "phone" "" (new_forwarder broken "host" 1)).0
    ≡ err command_failed_error
unfolding kill_device_locked
kill_fails = refl

six_not_five : pos 6 ≢ pos 5
six_not_five e = cc

unmap_device_port_locked_shared_example :
    ((unmap_device_port_locked host "phone" (pos 6)
        >> unmap_device_port_locked host "phone" (pos 5))
      (share_host host "phone" (pos 5) (pos 6) (pos 7) empty)).0
    ≡ err key_error
unmap_device_port_locked_shared_example =
    unmap_device_port_locked_shared host "phone" (pos 5) (pos 6) (pos 7) (pos 0) empty five_seven 1
      six_not_five refl
