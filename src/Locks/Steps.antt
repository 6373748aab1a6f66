-- ===== src/Locks/Steps.antt =====
-- _FileLock of cloud_storage.py: the steps of processes that want one pseudo lock.
use ftc_designosaurs.Base.{ℕ, Option, none, some, ◌==◌, comparable_nat, ◌≡◌, if◌then◌else◌}

-- What the processes share: who has locked _CLOUD_STORAGE_GLOBAL_LOCK, which file is at the path of
-- the pseudo lock, and who has locked each file that was ever there.
pub record Shared : Type 0 where
  pub global : Option ℕ
  pub linked : Option ℕ
  pub locked : ℕ → Option ℕ

-- Where a process is in _AttemptPseudoLockAcquisition, in the body of the with statement, or in
-- _AttemptPseudoLockRelease, with the file that it has open.
pub data Pc : Type 0 where
  idle guarded : Pc
  opened acquired refused inside releasing : ℕ → Pc
  unlocked removed : Pc

abbrev pub update {ℓ} : {A : Type ℓ} → (ℕ → A) → ℕ → A → ℕ → A
update f i a j = if i == j then a else f j

-- What one process does. An attempt that is refused the global lock changes nothing.
pub data Move (i : ℕ) (m : Shared) : Pc → Shared → Pc → Type 0 where
  take_global : m.global ≡ none → Move i m idle (record m { global = some i }) guarded
  open_old : (x : ℕ) → m.linked ≡ some x → Move i m guarded m (opened x)
  open_new :
      (x : ℕ)
      → m.linked ≡ none
      → m.locked x ≡ none
      → Move i m guarded (record m { linked = some x }) (opened x)
  lock_file :
      (x : ℕ)
      → m.locked x ≡ none
      → Move i m (opened x) (record m { locked = update m.locked x (some i) }) (acquired x)
  lock_refused : (x j : ℕ) → m.locked x ≡ some j → Move i m (opened x) m (refused x)
  enter : (x : ℕ) → Move i m (acquired x) (record m { global = none }) (inside x)
  give_up : (x : ℕ) → Move i m (refused x) (record m { global = none }) idle
  start_release :
      (x : ℕ) → m.global ≡ none → Move i m (inside x) (record m { global = some i }) (releasing x)
  unlock_file :
      (x : ℕ) → Move i m (releasing x) (record m { locked = update m.locked x none }) unlocked
  remove_file : Move i m unlocked (record m { linked = none }) removed
  leave : Move i m removed (record m { global = none }) idle

pub record System : Type 0 where
  pub shared : Shared
  pub pc : ℕ → Pc

pub data Step : System → System → Type 0 where
  by_process :
      (i : ℕ) {m m' : Shared} {pc : ℕ → Pc} {p' : Pc}
      → Move i m (pc i) m' p'
      → Step (record { shared = m; pc = pc }) (record { shared = m'; pc = update pc i p' })

-- No process is near the lock; the file of an earlier one may be left, unlocked.
abbrev pub start : Option ℕ → System
start linked = record {
  shared = record { global = none; linked = linked; locked = λ x. none };
  pc = λ i. idle;
}

pub data Reach (linked : Option ℕ) : System → Type 0 where
  here : Reach linked (start linked)
  next : {s t : System} → Reach linked s → Step s t → Reach linked t

-- What any number of steps from a system lead to.
pub data Steps (s : System) : System → Type 0 where
  none_yet : Steps s s
  one_more : {t u : System} → Steps s t → Step t u → Steps s u
