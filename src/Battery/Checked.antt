-- ===== src/Battery/Checked.antt =====
-- What a check of device_charged in ChargeDeviceToLevel of battery_utils.py leaves.
use Prim.Native.Nat.{◌*◌}
use ftc_designosaurs.Base.{
  [], ◌∷◌, comparable_list, comparable_nat, ℕ, suc, Bool, true, false, ltb, leb, ◌+◌, ◌-◌, ◌≤◌, ◌≡◌,
  ◌≢◌, refl, arith, Option, none, some, if◌then◌else◌, List,
}
use ftc_designosaurs.Base.Dict.{lookup}
use ftc_designosaurs.Python.{
  pure, Exec, Result, ok, err, and_then, timeout_error, device_charging_error, value_error,
}
use ftc_designosaurs.Flags.Chars.{Text}
use ftc_designosaurs.Forwarder.Ports.{ℤ, pos, negsuc, int}
use ftc_designosaurs.Texts.{text}
use ftc_designosaurs.Battery.Device.{Device, Battery, Command, words}
use ftc_designosaurs.Battery.Info.{get_battery_info, add_lines, but_first}
use ftc_designosaurs.Battery.Level.{
  ChargeStatus, failed_once, note_level, reaches, int_or, Charge, judge, check_charge,
  device_charged, known,
}

-- The checks that are left: each rise of the level allows 20 more, and each failure takes one.
abbrev pub checks_left : ℕ → ChargeStatus → ℕ
checks_left level c = (level - c.last_charge_value) * 20 + (20 - c.charge_failure_count)

abbrev rise_or_fail : Bool → ChargeStatus → ℕ → ChargeStatus
rise_or_fail b c n =
    if b then record { charge_failure_count = 0; last_charge_value = n } else failed_once c

rise_left :
    (level last n f : ℕ)
    → ltb last n ≡ true
    → leb level n ≡ false
    → leb 20 f ≡ false
    → suc ((level - n) * 20 + 20) ≤ (level - last) * 20 + (20 - f)
rise_left level last n f up low few = ground arith

failure_left : (x f : ℕ) → leb 20 (f + 1) ≡ false → suc (x + (20 - (f + 1))) ≤ x + (20 - f)
failure_left x f few = ground arith

-- A check that goes on takes one of them.
pub fewer_left :
    (level : ℕ) (z : ℤ) (c : ChargeStatus)
    → leb 20 c.charge_failure_count ≡ false
    → reaches z level ≡ false
    → leb 20 (note_level z c).charge_failure_count ≡ false
    → suc (checks_left level (note_level z c)) ≤ checks_left level c
fewer_left level (pos n) c start low few = by_test (ltb c.last_charge_value n) refl few
  where
    by_test :
        (b : Bool)
        → ltb c.last_charge_value n ≡ b
        → leb 20 (rise_or_fail b c n).charge_failure_count ≡ false
        → suc (checks_left level (rise_or_fail b c n)) ≤ checks_left level c
    by_test true up few = rise_left level c.last_charge_value n c.charge_failure_count up low start
    by_test false up few =
        failure_left ((level - c.last_charge_value) * 20) c.charge_failure_count few
fewer_left level (negsuc n) c start low few =
    failure_left ((level - c.last_charge_value) * 20) c.charge_failure_count few

-- int raises no TimeoutError.
int_or_lem : (default : ℕ) (v : Option Text) → int_or default v ≢ err timeout_error
int_or_lem default none e = cc
int_or_lem default (some t) e = by_int (int t) e
  where
    by_int :
        (o : Option ℤ) → (elim o [ none ↦ err value_error | some n ↦ ok n ]) ≢ err timeout_error
    by_int none e = cc
    by_int (some n) e = cc

then_lem :
    {S A B : Type 0} (out : Result A × S) (f : A → Exec S B)
    → out.0 ≢ err timeout_error
    → ((a : A) → out.0 ≡ ok a → (f a out.1).0 ≢ err timeout_error)
    → (and_then out.0 f out.1).0 ≢ err timeout_error
then_lem (ok a, s) f h k = k a refl
then_lem (err x, s) f h k = λ e. h (cc)

module _ (dev : Device) where
  open dev use {State, run}

  -- What a check of device_charged leaves.
  unfoldable pub Checked : ℕ → ChargeStatus → Battery → Result Bool × Charge dev → Type 0
  Checked level c b out =
      (out.0 ≢ err timeout_error)
      × (out.0 ≡ ok false
          → (z : ℤ) × (s : State) × (reaches z level ≡ false)
            × (leb 20 (note_level z c).charge_failure_count ≡ false)
            × (out.1 ≡ (note_level z c, (b, s))))

  check_charge-Checked :
      (level : ℕ) (z : ℤ) (c : ChargeStatus) (b : Battery) (s : State)
      → Checked level c b (check_charge dev level z (c, (b, s)))
  unfolding Checked
  check_charge-Checked level z c b s = by_test (reaches z level) refl
    where
      by_count :
          (few : Bool)
          → reaches z level ≡ false
          → leb 20 (note_level z c).charge_failure_count ≡ few
          → Checked level c b (
              if few
              then (err device_charging_error, (note_level z c, (b, s)))
              else (ok false, (note_level z c, (b, s))))
      by_count true low few = (λ e. cc, λ e. absurd (cc))
      by_count false low few = (λ e. cc, λ e. (z, s, low, few, refl))

      by_test :
          (done : Bool)
          → reaches z level ≡ done
          → Checked level c b (judge dev done (note_level z c, (b, s)))
      by_test true e = (λ f. cc, λ f. absurd (cc))
      by_test false e = by_count (leb 20 (note_level z c).charge_failure_count) e refl

  pub device_charged-Checked :
      (level : ℕ) (c : ChargeStatus) (b : Battery) (s : State)
      → ((command : Command) (t : State) → (run command t).0 ≢ err timeout_error)
      → Checked level c b (device_charged dev level (c, (b, s)))
  unfolding get_battery_info Checked
  device_charged-Checked level c b s prompt =
      by_run (run (words ("dumpsys" ∷ "battery" ∷ [])) s)
        (prompt (words ("dumpsys" ∷ "battery" ∷ [])) s)
    where
      by_level :
          (r : Result ℤ) (t : State)
          → r ≢ err timeout_error
          → Checked level c b (and_then r (check_charge dev level) (c, (b, t)))
      by_level (ok z) t h = check_charge-Checked level z c b t
      by_level (err e) t h = (λ f. h (cc), λ f. absurd (cc))

      by_run :
          (out : Result (List Text) × State)
          → out.0 ≢ err timeout_error
          → Checked level c b (
              let info =
                and_then out.0 (λ lines. pure (add_lines (but_first lines) [])) (b, out.1) in
              let found =
                and_then info.0 (λ i. known dev (int_or 100 (lookup (text "level") i))) info.1 in
              and_then found.0 (check_charge dev level) (c, found.1))
      by_run (ok lines, t) h =
          by_level (int_or 100 (lookup (text "level") (add_lines (but_first lines) []))) t
            (int_or_lem 100 (lookup (text "level") (add_lines (but_first lines) [])))
      by_run (err e, t) h = (λ f. h (cc), λ f. absurd (cc))
