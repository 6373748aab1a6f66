-- ===== src/Battery/Charged.antt =====
-- Switching the charging circuit: _HardwareSetCharging of battery_utils.py.
use ftc_designosaurs.Base.{
  ℕ, zero, suc, Bool, true, false, ◌≡◌, refl, ap, ◌∙◌, none, some, Option, List, if◌then◌else◌,
}
use ftc_designosaurs.Python.{
  Exec, Result, ok, err, and_then, ◌>>=◌, ◌>>◌, Ensures, Ensures-after, Ensures-then,
  Ensures-weaken, raise, command_failed_error, key_error, ok-injective,
}
use ftc_designosaurs.Flags.Chars.{Text}
use ftc_designosaurs.Battery.Device.{Device, Profile, Battery, shell}
use ftc_designosaurs.Battery.Wait.{wait_for, checks, sleep_unless}
use ftc_designosaurs.Battery.Info.{
  Self, sleep, remaining_of, get_charging, discover_device_profile, profile_of,
}
use ftc_designosaurs.Battery.Charging.{
  is_charging, hardware_set_charging, set_hardware, shell_command, command_for, wait_until, is_set,
  same,
}

module _ {S : Type 0} (sleep : Exec S Unit) (condition : Exec S Bool) where
  -- A check of the condition that found it true, and left the state.
  abbrev Met : Unit {0} → S → Type 0
  Met x after = (t : S) × (condition t ≡ (ok true, after))

  checks-Met : (n : ℕ) (s : S) → Ensures Met (checks sleep condition n s)
  unfolding checks
  checks-Met zero s = tt
  checks-Met (suc n) s = Ensures-then Met condition _ s λ b t e. by_check b t e (checks-Met n)
    where
      by_check :
          (b : Bool) (t : S)
          → condition s ≡ (ok b, t)
          → ((u : S) → Ensures Met (checks sleep condition n u))
          → Ensures Met (sleep_unless sleep condition (checks sleep condition n) b t)
      by_check true t e h = (s, e)
      by_check false t e h = Ensures-after Met sleep (λ u. checks sleep condition n) t (λ u v. h v)

module _ (dev : Device) where
  open dev use {State, run}

  -- The last reading of the charging state showed what was asked for.
  abbrev Reads : Bool → Self dev → Type 0
  Reads enabled after = (t : Self dev) × (get_charging dev t ≡ (ok enabled, after))

  agrees : (b enabled : Bool) → same b enabled ≡ true → b ≡ enabled
  agrees true true e = refl
  agrees true false e = absurd (cc)
  agrees false true e = absurd (cc)
  agrees false false e = refl

  reads :
      (enabled : Bool) (out : Result Bool × Self dev) (after : Self dev)
      → and_then out.0 (λ charging s. (ok (same charging enabled), s)) out.1 ≡ (ok true, after)
      → out ≡ (ok enabled, after)
  reads enabled (ok b, t) after e =
      ap (λ (x : Bool). (ok x, t))
        (agrees b enabled (ok-injective (ap (λ (o : Result Bool × Self dev). o.0) e)))
      ∙ ap (λ (u : Self dev). (ok enabled, u)) (ap (λ (o : Result Bool × Self dev). o.1) e)
  reads enabled (err x, t) after e = absurd (cc)

  -- The command of the profile for the wanted state was run from the state, and then the charging
  -- state was read until it was the wanted one.
  abbrev pub Switched : Bool → Option Profile → State → Unit {0} → Self dev → Type 0
  Switched enabled known s u after =
      (p : Profile) × (command : Text) × (lines : List Text) × (s' : State) × (known ≡ some p)
      × ((if enabled then p.enable_command else p.disable_command) ≡ some command)
      × (run (shell command) s ≡ (ok lines, s'))
      × Reads enabled after

  shell-Switched :
      (enabled : Bool) (p : Profile) (b : Battery) (s : State) (c : Option Text)
      → b.profile ≡ some p
      → (if enabled then p.enable_command else p.disable_command) ≡ c
      → Ensures
          (Switched enabled b.profile s)
          ((shell_command dev c >> wait_until dev 1 (is_charging dev enabled)) (b, s))
  unfolding wait_for
  shell-Switched enabled p b s none known e = tt
  shell-Switched enabled p b s (some command) known e = by_run (run (shell command) s) refl
    where
      by_run :
          (out : Result (List Text) × State)
          → run (shell command) s ≡ out
          → Ensures (Switched enabled b.profile s) (
              let ran = and_then {B = Unit {0}} out.0 (λ lines t. (ok tt, t)) (b, out.1) in
              and_then ran.0 (λ u. wait_until dev 1 (is_charging dev enabled)) ran.1)
      by_run (err x, t) ran = tt
      by_run (ok lines, t) ran =
          Ensures-weaken _ _ (wait_until dev 1 (is_charging dev enabled) (b, t))
            (λ u after (v, met). (
              p,
              command,
              lines,
              t,
              known,
              e,
              ran,
              (v, reads enabled (get_charging dev v) after met),
            ))
            (checks-Met (sleep dev 1) (is_charging dev enabled) (suc (remaining_of dev (b, t)))
              (b, t))

  set_hardware-Switched :
      (enabled : Bool) (p : Profile) (b : Battery) (s : State)
      → b.profile ≡ some p
      → Ensures (Switched enabled b.profile s) (set_hardware dev enabled p (b, s))
  set_hardware-Switched enabled p b s known = by_test (is_set p.enable_command)
    where
      by_test :
          (b' : Bool)
          → Ensures (Switched enabled b.profile s) (
              (if b'
                  then (do
                    shell_command dev (command_for dev enabled p)
                    wait_until dev 1 (is_charging dev enabled))
                  else raise command_failed_error)
                (b, s))
      by_test true = shell-Switched enabled p b s (command_for dev enabled p) known refl
      by_test false = tt

  with_profile :
      (enabled : Bool) (b : Battery) (s : State)
      → Ensures
          (Switched enabled b.profile s)
          ((profile_of dev >>= set_hardware dev enabled) (b, s))
  with_profile enabled b s = by_profile b.profile refl
    where
      by_profile :
          (o : Option Profile)
          → b.profile ≡ o
          → Ensures (Switched enabled b.profile s) (
              let found : Result Profile × Self dev = elim o [
                | some p ↦ (ok p, (b, s))
                | none ↦ (err key_error, (b, s))
              ] in
              and_then found.0 (set_hardware dev enabled) found.1)
      by_profile none e = tt
      by_profile (some p) e = set_hardware-Switched enabled p b s e

  -- Where _HardwareSetCharging returns, it ran the command that the profile of the device has for the
  -- wanted state, and then the last thing that it did was to read the charging state of the device,
  -- which was the wanted one.
  pub hardware_set_charging-Switched :
      (enabled : Bool) (self : Self dev)
      → let known = (discover_device_profile dev self).1 in
        Ensures (Switched enabled known.0.profile known.1) (hardware_set_charging dev enabled self)
  unfolding hardware_set_charging
  hardware_set_charging-Switched enabled self = by_known (discover_device_profile dev self)
    where
      by_known :
          (out : Result Bool × Self dev)
          → Ensures
              (Switched enabled out.1.0.profile out.1.1)
              (and_then out.0 (λ x. profile_of dev >>= set_hardware dev enabled) out.1)
      by_known (ok x, (b, s)) = with_profile enabled b s
      by_known (err e, known) = tt
