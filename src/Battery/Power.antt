-- ===== src/Battery/Power.antt =====
-- GetPowerData of battery_utils.py.
use ftc_designosaurs.Base.{
  ℕ, Bool, false, not, ◌&&◌, ltb, List, [], ◌∷◌, ◌++◌, map, length, Option, none, some, contains,
  ◌==◌, comparable_list, comparable_nat, if◌then◌else◌,
}
use ftc_designosaurs.Base.Dict.{Dict, lookup, insert}
use ftc_designosaurs.Python.{
  Exec, ok, err, pure, raise, ◌>>=◌, ◌>>◌, index_error, device_version_error, command_failed_error,
  assertion_error,
}
use ftc_designosaurs.Flags.Chars.{Text, is_nil}
use ftc_designosaurs.Texts.{text, at}
use ftc_designosaurs.Battery.Device.{words, Device}
use ftc_designosaurs.Battery.Csv.{csv_reader}
use ftc_designosaurs.Battery.Info.{Self, run_shell_command}

module _ (dev : Device) where
  open dev use {State, Number, float}

  -- pwi_entries and system_total
  pub record Power : Type 0 where
    pub pwi_entries : Dict Text (List Number)
    pub system_total : Option Number

  -- What the method returns: the total, and for each package its uid and its data.
  abbrev pub PowerData : Type 0
  PowerData = Option Number × List (Text × (Text × List Number))

  abbrev pub Reading : Type 0
  Reading = Power × Self dev

  -- entry[i]
  abbrev pub column : List Text → ℕ → Exec Reading Text
  column entry i = elim (at entry i) [ none ↦ raise index_error | some t ↦ pure t ]

  -- entry[i] == t, for a column that may be missing
  abbrev pub is_column : List Text → ℕ → Text → Bool
  is_column entry i t = elim (at entry i) [ none ↦ false | some u ↦ u == t ]

  -- The package has another uid
  abbrev pub conflicts : Option Text → Text → Bool
  conflicts none uid = false
  conflicts (some old) uid = not (is_nil old) && not (old == uid)

  abbrev pub store_uid : Text → Text → Exec Reading Unit
  store_uid name uid (p, (b, s)) =
      if conflicts (lookup name b.uids) uid
      then (err command_failed_error, (p, (b, s)))
      else (ok tt, (p, (record b { uids = insert name uid b.uids }, s)))

  abbrev pub read_uid : List Text → Exec Reading Unit
  read_uid entry = do name ← column entry 5; uid ← column entry 4; store_uid name uid

  abbrev pub number_of : Text → Exec Reading Number
  number_of t self = (float t, self)

  abbrev pub entries_of : Option (List Number) → List Number
  entries_of none = []
  entries_of (some ns) = ns

  abbrev pub append_pwi : Text → Number → Exec Reading Unit
  append_pwi uid n (p, self) = (
    ok tt,
    (
      record p {
        pwi_entries = insert uid (entries_of (lookup uid p.pwi_entries) ++ n ∷ []) p.pwi_entries;
      },
      self,
    ),
  )

  abbrev pub read_pwi : List Text → Exec Reading Unit
  read_pwi entry = do uid ← column entry 1; t ← column entry 5; n ← number_of t; append_pwi uid n

  abbrev pub assert_no_total : Exec Reading Unit
  assert_no_total (p, self) = elim p.system_total [
    | none ↦ (ok tt, (p, self))
    | some n ↦ (err assertion_error, (p, self))
  ]

  abbrev pub store_total : Number → Exec Reading Unit
  store_total n (p, self) = (ok tt, (record p { system_total = some n }, self))

  abbrev pub read_pws : List Text → Exec Reading Unit
  read_pws entry = do assert_no_total; t ← column entry 5; n ← number_of t; store_total n

  abbrev pub read_row : List Text → Exec Reading Unit
  read_row entry =
      if is_column entry 3 (text "uid")
      then read_uid entry
      else if ltb 5 (length entry) && is_column entry 3 (text "pwi") && is_column entry 2 (text "l")
      then read_pwi entry
      else if ltb 5 (length entry) && is_column entry 3 (text "pws") && is_column entry 2 (text "l")
      then read_pws entry
      else pure tt

  abbrev pub read_version : List Text → Text → Exec Reading Unit
  read_version entry version =
      if contains (text "8" ∷ text "9" ∷ []) version
      then read_row entry
      else raise device_version_error

  abbrev pub read_entry : List Text → Exec Reading Unit
  read_entry entry = column entry 0 >>= read_version entry

  -- The loop over the rows
  unfoldable pub read_entries : List (List Text) → Exec Reading Unit
  read_entries [] = pure tt
  read_entries (entry ∷ entries) = let rest = read_entries entries in read_entry entry >> rest

  abbrev pub package_data : Dict Text (List Number) → Text × Text → Text × (Text × List Number)
  package_data pwi (name, uid) = (name, (uid, entries_of (lookup uid pwi)))

  abbrev pub power_data : Exec Reading PowerData
  power_data (p, (b, s)) =
      (ok (p.system_total, map (package_data p.pwi_entries) b.uids), (p, (b, s)))

  abbrev pub no_power : Power
  no_power = record { pwi_entries = []; system_total = none }

  abbrev pub read_output : List Text → Exec (Self dev) PowerData
  read_output lines self =
      let out = (read_entries (csv_reader lines) >> power_data) (no_power, self) in (out.0, out.1.1)

  -- GetPowerData
  unfoldable pub get_power_data : Exec (Self dev) PowerData
  get_power_data =
      run_shell_command dev (words ("dumpsys" ∷ "batterystats" ∷ "-c" ∷ [])) >>= read_output
