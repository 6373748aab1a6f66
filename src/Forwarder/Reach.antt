-- ===== src/Forwarder/Reach.antt =====
-- The states that the methods of the class Forwarder lead to.
use ftc_designosaurs.Base.{String, List, comparable_string, comparable_pair, []}
use ftc_designosaurs.Base.Dict.{lookup}
use ftc_designosaurs.Forwarder.Ports.{ℤ, comparable_int}
use ftc_designosaurs.Forwarder.Host.{Host}
use ftc_designosaurs.Forwarder.Instance.{Forwarder, kill_device_locked, map_locked}
use ftc_designosaurs.Forwarder.Unmap.{unmap_device_port_locked, unmap_all_locked}
use ftc_designosaurs.Forwarder.Process.{new_forwarder}
use ftc_designosaurs.Forwarder.Inverse.{LeadsBack}
use ftc_designosaurs.Forwarder.Pairing.{IsPaired, unmap_device_port_locked_lem}
use ftc_designosaurs.Forwarder.Kept.{unmap_all_locked-IsPaired, kill_device_locked-IsPaired}
use ftc_designosaurs.Forwarder.MapPairs.{MapsFree, map_locked-IsPaired}

module _ (host : Host) where
  open host use {State}

  -- Any sequence of the steps, however each of them ends: a new instance, a change of the world
  -- around it, Map with its initialisation of the device, where host_forwarder prints free host
  -- ports, the two methods that unmap ports, and a daemon that is killed.
  pub data Reach : Forwarder State → Type 0 where
    new : (path : String) (s : State) → Reach (new_forwarder host path s)
    world_changed : (f : Forwarder State) (s : State) → Reach f → Reach (record f { world = s })
    mapped :
        (serial wrapper : String) (pairs : List (ℤ × ℤ)) (f : Forwarder State)
        → MapsFree host serial wrapper pairs f
        → Reach f
        → Reach (map_locked host serial wrapper pairs f).1
    unmapped :
        (serial : String) (port : ℤ) (f : Forwarder State)
        → Reach f
        → Reach (unmap_device_port_locked host serial port f).1
    unmapped_all :
        (serial : String) (f : Forwarder State) → Reach f → Reach (unmap_all_locked host serial f).1
    killed :
        (serial wrapper : String) (f : Forwarder State)
        → Reach f
        → Reach (kill_device_locked host serial wrapper f).1

  nothing_leads : LeadsBack {K = String × ℤ} {V = ℤ} [] []
  unfolding lookup
  nothing_leads k v e = absurd (cc)

  -- The maps lead back after any sequence of the methods, those that raise included, as long as no
  -- call of Map is given a host port that is recorded for another device port.
  pub Reach-IsPaired : (f : Forwarder State) → Reach f → IsPaired f
  Reach-IsPaired _ (new path s) = (tt, nothing_leads)
  Reach-IsPaired _ (world_changed f s r) = Reach-IsPaired f r
  Reach-IsPaired _ (mapped serial wrapper pairs f free r) =
      map_locked-IsPaired host serial wrapper pairs f (Reach-IsPaired f r) free
  Reach-IsPaired _ (unmapped serial port f r) =
      let (_, _, paired) = unmap_device_port_locked_lem host serial port f (Reach-IsPaired f r) in
      paired
  Reach-IsPaired _ (unmapped_all serial f r) =
      unmap_all_locked-IsPaired host serial f (Reach-IsPaired f r)
  Reach-IsPaired _ (killed serial wrapper f r) =
      kill_device_locked-IsPaired host serial wrapper f (Reach-IsPaired f r)
