-- ===== src/Forwarder/MapPairs.antt =====
-- What Map of the class Forwarder leaves of the maps.
use ftc_designosaurs.Base.{
  String, List, [], ◌∷◌, Bool, true, false, some, Option, none, ◌≡◌, refl, comparable_string,
  comparable_pair, if◌then◌else◌, ◌==◌,
}
use ftc_designosaurs.Base.Dict.{lookup}
use ftc_designosaurs.Python.{Result, ok, err, and_then}
use ftc_designosaurs.Flags.Chars.{Text}
use ftc_designosaurs.Forwarder.Ports.{ℤ, pos, comparable_int, int, split_colon}
use ftc_designosaurs.Forwarder.Host.{Host, exited, timed_out, not_found, os_failed, map_port, Run}
use ftc_designosaurs.Forwarder.Instance.{
  Forwarder, init_device_locked, map_locked, map_pairs, after_map, fail_map, store_ints,
  store_tokens,
}
use ftc_designosaurs.Forwarder.Pairing.{IsPaired, store_ports-IsPaired}
use ftc_designosaurs.Forwarder.Kept.{init_device_locked-IsPaired, fail_map-IsPaired}

module _ (host : Host) where
  open host use {State, run, fetch_device_path, run_shell_command}

  -- The host port is not recorded for another device port.
  abbrev pub IsFree : ℤ → String × ℤ → Forwarder State → Type 0
  IsFree host_port key f =
      (k : String × ℤ) → lookup host_port f.host_to_device_port_map ≡ some k → k ≡ key

  -- The command exits with 0 and prints the two ports.
  abbrev pub Prints : Run → ℤ → ℤ → Type 0
  Prints (exited code output) device_port host_port =
      (d : Text) × (h : Text) × ((code == pos 0) ≡ true)
      × (split_colon output ≡ d ∷ h ∷ [])
      × (int d ≡ some device_port)
      × (int h ≡ some host_port)
  Prints timed_out device_port host_port = ⊥
  Prints not_found device_port host_port = ⊥
  Prints os_failed device_port host_port = ⊥

  abbrev pub PrintsFree : String → Run → Forwarder State → Type 0
  PrintsFree serial ran f =
      (device_port host_port : ℤ)
      → Prints ran device_port host_port
      → IsFree host_port (serial, device_port) f

  after_map-IsPaired :
      (serial wrapper : String) (ran : Run) (f : Forwarder State)
      → IsPaired f
      → PrintsFree serial ran f
      → IsPaired (after_map host serial wrapper ran f).1
  unfolding after_map
  after_map-IsPaired serial wrapper timed_out f paired free = paired
  after_map-IsPaired serial wrapper not_found f paired free = paired
  after_map-IsPaired serial wrapper os_failed f paired free = paired
  after_map-IsPaired serial wrapper (exited code output) f paired free =
      by_code (code == pos 0) refl
    where
      by_ints :
          (d h : Text) (x y : Option ℤ)
          → (code == pos 0) ≡ true
          → split_colon output ≡ d ∷ h ∷ []
          → int d ≡ x
          → int h ≡ y
          → IsPaired (store_ints host serial x y f).1
      by_ints d h none none zero tokens e k = paired
      by_ints d h none (some y) zero tokens e k = paired
      by_ints d h (some x) none zero tokens e k = paired
      by_ints d h (some x) (some y) zero tokens e k =
          store_ports-IsPaired host serial x y f paired (free x y (d, h, zero, tokens, e, k))

      by_tokens :
          (tokens : List Text)
          → (code == pos 0) ≡ true
          → split_colon output ≡ tokens
          → IsPaired (store_tokens host serial tokens f).1
      by_tokens [] zero e = paired
      by_tokens (d ∷ []) zero e = paired
      by_tokens (d ∷ h ∷ []) zero e = by_ints d h (int d) (int h) zero e refl refl
      by_tokens (d ∷ h ∷ x ∷ rest) zero e = paired

      by_code :
          (b : Bool)
          → (code == pos 0) ≡ b
          → IsPaired
              ((if b
                  then store_tokens host serial (split_colon output)
                  else fail_map host serial wrapper)
                f).1
      by_code true e = by_tokens (split_colon output) e refl
      by_code false e = fail_map-IsPaired host serial wrapper f paired

  -- What each command of the loop of Map prints has a host port that is free when it is recorded.
  abbrev pub PrintFree : String → String → List (ℤ × ℤ) → Forwarder State → Type 0
  PrintFree serial wrapper [] f = Unit
  PrintFree serial wrapper ((device_port, host_port) ∷ pairs) f =
      let (ran, s) = run (map_port f.host_forwarder_path serial device_port host_port) f.world in
      let (r, g) = after_map host serial wrapper ran (record f { world = s }) in
      PrintsFree serial ran f × (r ≡ ok tt → PrintFree serial wrapper pairs g)

  map_pairs-IsPaired :
      (serial wrapper : String) (pairs : List (ℤ × ℤ)) (f : Forwarder State)
      → IsPaired f
      → PrintFree serial wrapper pairs f
      → IsPaired (map_pairs host serial wrapper pairs f).1
  unfolding map_pairs
  map_pairs-IsPaired serial wrapper [] f paired free = paired
  map_pairs-IsPaired serial wrapper ((d, h) ∷ pairs) f paired (here, later) =
      by_result
        (after_map host serial wrapper (run (map_port f.host_forwarder_path serial d h) f.world).0
          (record f { world = (run (map_port f.host_forwarder_path serial d h) f.world).1 }))
        (after_map-IsPaired serial wrapper
          (run (map_port f.host_forwarder_path serial d h) f.world).0
          (record f { world = (run (map_port f.host_forwarder_path serial d h) f.world).1 }) paired
          here)
        later (map_pairs-IsPaired serial wrapper pairs)
    where
      by_result :
          (out : Result Unit × Forwarder State)
          → IsPaired out.1
          → (out.0 ≡ ok tt → PrintFree serial wrapper pairs out.1)
          → ((g : Forwarder State)
              → IsPaired g
              → PrintFree serial wrapper pairs g
              → IsPaired (map_pairs host serial wrapper pairs g).1)
          → IsPaired (and_then out.0 (λ u. map_pairs host serial wrapper pairs) out.1).1
      by_result (ok u, g) p k rest = rest g p (k refl)
      by_result (err e, g) p k rest = p

  -- The same for Map, where the loop is reached.
  abbrev pub MapsFree : String → String → List (ℤ × ℤ) → Forwarder State → Type 0
  MapsFree serial wrapper pairs f =
      let (r, g) = init_device_locked host serial wrapper f in
      r ≡ ok tt → PrintFree serial wrapper pairs g

  pub map_locked-IsPaired :
      (serial wrapper : String) (pairs : List (ℤ × ℤ)) (f : Forwarder State)
      → IsPaired f
      → MapsFree serial wrapper pairs f
      → IsPaired (map_locked host serial wrapper pairs f).1
  unfolding map_locked
  map_locked-IsPaired serial wrapper pairs f paired free =
      by_result (init_device_locked host serial wrapper f)
        (init_device_locked-IsPaired host serial wrapper f paired) free
    where
      by_result :
          (out : Result Unit × Forwarder State)
          → IsPaired out.1
          → (out.0 ≡ ok tt → PrintFree serial wrapper pairs out.1)
          → IsPaired (and_then out.0 (λ u. map_pairs host serial wrapper pairs) out.1).1
      by_result (ok u, g) p k = map_pairs-IsPaired serial wrapper pairs g p (k refl)
      by_result (err e, g) p k = p
