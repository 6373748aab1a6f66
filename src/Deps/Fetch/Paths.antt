-- ===== src/Deps/Fetch/Paths.antt =====
-- What FetchPathWithVersion, FetchPath and LocalPath return.
use ftc_designosaurs.Base.{
  String, true, false, ◌≡◌, refl, ◌⊎◌, inl, inr, Bool-cases, Option, none, some, arith, is_empty,
  comparable_string,
}
use ftc_designosaurs.Python.{Ensures, Ensures-bind, Ensures-after, ◌>>=◌, pure}
use ftc_designosaurs.Deps.System.{System}
use ftc_designosaurs.Deps.Info.{
  DependencyInfo, get_remote_path_version, get_local_path, get_remote_path_of_info,
}
use ftc_designosaurs.Deps.Manager.{LookupDict, get_dependency_info}
use ftc_designosaurs.Deps.Fetch.{
  is_usable, require_path, or_no_path, fetch_remote, fetch_info, fetch_path_with_version,
}

module _ (sys : System) where
  open sys use {State, exists}

  abbrev Present : String → State → Type 0
  Present p s = (is_empty p ≡ false) × (exists p s ≡ true)

  usable-Present : (p : String) (s : State) → is_usable sys (some p) s ≡ true → Present p s
  usable-Present p s h = (ground arith, ground arith)

  require_path-Present : (o : Option String) (s : State) → Ensures Present (require_path sys o s)
  require_path-Present none s = tt
  require_path-Present (some p) s = elim (Bool-cases (is_usable sys (some p) s)) [
    | inl e ↦ rw e (usable-Present p s e)
    | inr n ↦ rw n tt
  ]

  -- A path and a version that an info may give: the local path, with the state as it was, or a path
  -- from cloud storage where no local path is usable.
  abbrev pub Fetched : DependencyInfo → State → String × Option String → State → Type 0
  Fetched info s (p, version) t =
      Present p t
      × ((get_local_path sys info s ≡ some p) × (version ≡ none) × (t ≡ s)
          ⊎ (is_usable sys (get_local_path sys info s) s ≡ false)
            × (version ≡ get_remote_path_version info))

  fetch_remote-Fetched :
      (info : DependencyInfo) (s : State)
      → is_usable sys (get_local_path sys info s) s ≡ false
      → Ensures (Fetched info s) (fetch_remote sys info s)
  unfolding fetch_remote
  fetch_remote-Fetched info s n =
      Ensures-after (Fetched info s) (get_remote_path_of_info sys info) _ s λ o t.
        Ensures-bind Present (Fetched info s) (require_path sys o) _ t (require_path-Present o t)
          λ p u h. (h, inr (n, refl))

  local-Fetched :
      (info : DependencyInfo) (s : State) (o : Option String)
      → get_local_path sys info s ≡ o
      → is_usable sys o s ≡ true
      → Ensures (Fetched info s) ((or_no_path sys o >>= λ p. pure (p, none)) s)
  local-Fetched info s none e h = tt
  local-Fetched info s (some p) e h = (usable-Present p s h, inl (e, refl, refl))

  fetch_info-Fetched :
      (info : DependencyInfo) (s : State) → Ensures (Fetched info s) (fetch_info sys (some info) s)
  unfolding fetch_info
  fetch_info-Fetched info s = elim (Bool-cases (is_usable sys (get_local_path sys info s) s)) [
    | inl e ↦ rw e (local-Fetched info s (get_local_path sys info s) refl e)
    | inr n ↦ rw n (fetch_remote-Fetched info s n)
  ]

  -- What FetchPathWithVersion may return for what the lookup gives.
  abbrev pub FetchedBy : Option DependencyInfo → State → String × Option String → State → Type 0
  FetchedBy none s found t = ⊥
  FetchedBy (some info) s found t = Fetched info s found t

  fetch_nothing : (s : State) → Ensures (λ found t. ⊥) (fetch_info sys none s)
  unfolding fetch_info
  fetch_nothing s = tt

  -- FetchPathWithVersion returns only for a dependency that the configs name. The path is not empty
  -- and exists. It is the local path, without a version and with nothing changed, where that path is
  -- usable; otherwise it comes with the version in cloud storage.
  pub fetch_path_with_version_lem :
      (d : LookupDict) (dependency platform : String) (s : State)
      → Ensures
          (FetchedBy (get_dependency_info d dependency platform) s)
          (fetch_path_with_version sys d dependency platform s)
  unfolding fetch_path_with_version
  fetch_path_with_version_lem d dependency platform s =
      by_info (get_dependency_info d dependency platform)
    where
      by_info : (o : Option DependencyInfo) → Ensures (FetchedBy o s) (fetch_info sys o s)
      by_info none = fetch_nothing s
      by_info (some info) = fetch_info-Fetched info s
