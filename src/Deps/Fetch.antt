-- ===== src/Deps/Fetch.antt =====
-- The lookups of the class DependencyManager of manager.py.
pub mod Paths
pub mod Prefetch
pub mod Retries
use ftc_designosaurs.Base.{
  ℕ, zero, suc, String, Bool, true, false, not, ◌&&◌, ◌||◌, Option, none, some, List, [], ◌∷◌, ◌++◌,
  map, is_empty, ◌==◌, contains, comparable_string, if◌then◌else◌,
}
use ftc_designosaurs.Python.{
  Error, Exec, Result, ok, err, is_cloud_storage_error, no_path_found_error, pure, raise, and_then,
  ◌>>=◌, ◌>>◌,
}
use ftc_designosaurs.Deps.System.{System}
use ftc_designosaurs.Deps.Info.{
  DependencyInfo, get_remote_path_version, get_local_path, get_remote_path_of_info,
}
use ftc_designosaurs.Deps.Manager.{LookupDict, get_dependency_info}

-- How a round of a `for` loop ends.
pub data Flow : Type 0 where
  break_loop next_round : Flow

-- for _ in range(0, n), over one variable.
module _ {S A : Type 0} where
  abbrev pub go_on : (A → Exec S A) → Flow × A → Exec S A
  go_on rest (break_loop, a) = pure a
  go_on rest (next_round, a) = rest a

  unfoldable pub for_range : ℕ → (A → Exec S (Flow × A)) → A → Exec S A
  for_range zero body a s = (ok a, s)
  for_range (suc n) body a s = let (r, s') = body a s in and_then r (go_on (for_range n body)) s'

-- The lists that PrefetchPaths builds up.
pub record Prefetched : Type 0 where
  pub found : List String
  pub skipped : List String
  pub missing : List String

abbrev pub is_true : Option String → Bool
is_true none = false
is_true (some p) = not (is_empty p)

module _ (sys : System) where
  open sys use {State, exists}

  -- path and os.path.exists(path)
  abbrev pub is_usable : Option String → State → Bool
  is_usable none s = false
  is_usable (some p) s = not (is_empty p) && exists p s

  abbrev pub or_no_path : Option String → Exec State String
  or_no_path none = raise no_path_found_error
  or_no_path (some p) = pure p

  -- raise NoPathFoundError unless the path is usable
  abbrev pub require_path : Option String → Exec State String
  require_path path s = if is_usable path s then or_no_path path s else (err no_path_found_error, s)

  unfoldable pub fetch_remote : DependencyInfo → Exec State (String × Option String)
  fetch_remote info = do
    path ← get_remote_path_of_info sys info
    p ← require_path path
    pure (p, get_remote_path_version info)

  abbrev pub with_no_version : Option String → Exec State (String × Option String)
  with_no_version path = do p ← or_no_path path; pure (p, none)

  unfoldable pub fetch_info : Option DependencyInfo → Exec State (String × Option String)
  fetch_info none s = (err no_path_found_error, s)
  fetch_info (some info) s =
      if is_usable (get_local_path sys info s) s
      then with_no_version (get_local_path sys info s) s
      else fetch_remote info s

  -- FetchPathWithVersion
  unfoldable pub fetch_path_with_version :
      LookupDict → String → String → Exec State (String × Option String)
  fetch_path_with_version d dependency platform =
      fetch_info (get_dependency_info d dependency platform)

  -- FetchPath
  unfoldable pub fetch_path : LookupDict → String → String → Exec State String
  fetch_path d dependency platform = do
    found ← fetch_path_with_version d dependency platform
    pure found.0

  abbrev pub local_path_of_info : Option DependencyInfo → Exec State String
  local_path_of_info none s = (err no_path_found_error, s)
  local_path_of_info (some info) s = require_path (get_local_path sys info s) s

  -- LocalPath
  unfoldable pub local_path : LookupDict → String → String → Exec State String
  local_path d dependency platform = local_path_of_info (get_dependency_info d dependency platform)

  -- The `try` of PrefetchPaths: a CloudStorageError leaves fetched_path as it is.
  abbrev pub catch_cloud :
      Option String → Result (Option String) × State → Result (Flow × Option String) × State
  catch_cloud before (ok path, s) = (ok (break_loop, path), s)
  catch_cloud before (err e, s) =
      if is_cloud_storage_error e then (ok (break_loop, before), s) else (err e, s)

  -- The body of the retry loop, which ends in `break` whether or not the call raised.
  unfoldable pub try_fetch : DependencyInfo → Option String → Exec State (Flow × Option String)
  try_fetch info before s = catch_cloud before (get_remote_path_of_info sys info s)

  abbrev pub note_fetched : String → Prefetched → Option String → Exec State Prefetched
  note_fetched dependency lists path = pure (
      if is_true path
      then record lists { found = lists.found ++ dependency ∷ [] }
      else record lists { missing = lists.missing ++ dependency ∷ [] })

  unfoldable pub prefetch_info :
      ℕ → String → Prefetched → Option DependencyInfo → Exec State Prefetched
  prefetch_info retries dependency lists none s =
      (ok (record lists { skipped = lists.skipped ++ dependency ∷ [] }), s)
  prefetch_info retries dependency lists (some info) s =
      if is_true (get_local_path sys info s)
      then (ok (record lists { found = lists.found ++ dependency ∷ [] }), s)
      else (do
        path ← for_range (suc retries) (try_fetch info) none
        note_fetched dependency lists path)
          s

  unfoldable pub prefetch_all :
      LookupDict → String → ℕ → List String → Prefetched → Exec State Prefetched
  prefetch_all d platform retries [] lists = pure lists
  prefetch_all d platform retries (x ∷ xs) lists = do
    lists' ← prefetch_info retries x lists (get_dependency_info d x platform)
    prefetch_all d platform retries xs lists'

  abbrev pub or_keys : LookupDict → List String → List String
  or_keys d [] = map (λ (k, _). k) d
  or_keys d (x ∷ xs) = x ∷ xs

  abbrev pub report : List String → Prefetched → Exec State (List String × List String)
  report [] lists = pure (lists.found, lists.skipped)
  report (x ∷ xs) lists = raise no_path_found_error

  -- PrefetchPaths
  unfoldable pub prefetch_paths :
      LookupDict → String → List String → ℕ → Exec State (List String × List String)
  prefetch_paths d platform dependencies retries = do
    lists ←
        prefetch_all d platform retries (or_keys d dependencies)
          (record { found = []; skipped = []; missing = [] })
    report lists.missing lists
