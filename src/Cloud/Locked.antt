-- ===== src/Cloud/Locked.antt =====
-- The rule for a with statement on _FileLock of cloud_storage.py.
use Prim.Native.String.{◌++◌ as concat}
use ftc_designosaurs.Base.{
  String, Bool, true, false, comparable_list, comparable_nat, if◌then◌else◌, ◌≡◌, refl, ◌∙◌,
}
use ftc_designosaurs.Python.{Exec, Result, ok, err, Error, finally, ◌>>◌, Ensures, Ensures-bind}
use ftc_designosaurs.Cloud.Gsutil.{Host}
use ftc_designosaurs.Cloud.Files.{Files}
use ftc_designosaurs.Cloud.Fetch.{create_directory_if_necessary, with_lock}

module _ {S A : Type 0} where
  Ensures-state : (P : S → Type 0) (out : Result A × S) → P out.1 → Ensures (λ (a : A) t. P t) out
  Ensures-state P (ok a, s) h = h
  Ensures-state P (err e, s) h = tt

  Ensures-finally :
      (P : A → S → Type 0) (call : Exec S A) (last : Exec S Unit) (s : S)
      → ((a : A) (t : S) → P a t → P a (last t).1)
      → Ensures P (call s)
      → Ensures P (finally call last s)
  Ensures-finally P call last s keeps h = by_call (call s) h
    where
      by_last :
          (a : A) (out : Result Unit × S)
          → P a out.1
          → Ensures P (elim out.0 [ ok x ↦ ok a | err e ↦ err e ], out.1)
      by_last a (ok x, t) p = p
      by_last a (err e, t) p = tt

      by_error :
          (f : Error) (out : Result Unit × S)
          → (let r : Result A = elim out.0 [ ok x ↦ err f | err e ↦ err e ] in Ensures P (r, out.1))
      by_error f (ok x, t) = tt
      by_error f (err e, t) = tt

      by_call :
          (out : Result A × S)
          → Ensures P out
          → Ensures P (elim (last out.1).0 [ ok x ↦ out.0 | err e ↦ err e ], (last out.1).1)
      by_call (ok a, t) p = by_last a (last t) (keeps a t p)
      by_call (err e, t) p = by_error e (last t)

module _ (host : Host) (files : Files host) where
  open host use {State}
  open files use {
    read, mtime, dirname, dir_exists, lock, unlock, makedirs, float, remove, read-lock, read-unlock,
    read-makedirs, mtime-lock, mtime-makedirs,
  }

  -- The same files, changed at the same times.
  abbrev pub Same : State → State → Type 0
  Same s t = (p : String) → (read p t ≡ read p s) × (mtime p t ≡ mtime p s)

  create-Same : (d : String) (s : State) → Same s (create_directory_if_necessary host files d s).1
  create-Same d s = by_test (dir_exists d s)
    where
      by_test :
          (b : Bool)
          → (let out : Result Unit × State = if b then (ok tt, s) else makedirs d s in Same s out.1)
      by_test true = λ p. (refl, refl)
      by_test false = λ p. (read-makedirs p d s, mtime-makedirs p d s)

  -- The rule for a with statement on a pseudo lock.
  pub Ensures-with_lock :
      {A : Type 0} (P : A → State → Type 0) (path : String) (body : Exec State A) (s : State)
      → ((a : A) (t : State) → P a t → P a (unlock path t).1)
      → ((t : State) → Same s t → Ensures P (body t))
      → Ensures P (with_lock host files path body s)
  Ensures-with_lock P path body s keeps h =
      Ensures-bind (λ (x : Unit {0}) t. Same s t) P
        (create_directory_if_necessary host files (dirname (concat path ".pseudo_lock")))
        (λ x. lock path >> finally body (unlock path)) s
        (Ensures-state (Same s)
          (create_directory_if_necessary host files (dirname (concat path ".pseudo_lock")) s)
          (create-Same (dirname (concat path ".pseudo_lock")) s))
        (λ x t same.
          Ensures-bind (λ (y : Unit {0}) u. Same s u) P (lock path)
            (λ y. finally body (unlock path)) t
            (Ensures-state (Same s) (lock path t)
              (λ p. (read-lock p path t ∙ (same p).0, mtime-lock p path t ∙ (same p).1)))
            (λ y u same'. Ensures-finally P body (unlock path) u keeps (h u same')))
