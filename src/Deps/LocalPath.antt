-- ===== src/Deps/LocalPath.antt =====
-- The class LocalPathInfo of local_path_info.py.
pub mod Search
pub mod Merge
use ftc_designosaurs.Base.{
  ℕ, String, Bool, true, false, not, ◌||◌, Option, none, some, List, [], ◌∷◌, ◌++◌, ltb, contains,
  keep, comparable_string, if◌then◌else◌,
}

-- _path_priority_groups
abbrev pub Groups : Type 0
Groups = List (List String)

-- An entry of the list that the constructor takes: one path, or a list of paths.
pub data Entry : Type 0 where
  path : String → Entry
  paths : List String → Entry

abbrev pub to_group : Entry → List String
to_group (path p) = p ∷ []
to_group (paths ps) = ps

-- _ParseLocalPaths
unfoldable pub parse_local_paths : Option (List Entry) → Groups
parse_local_paths none = []
parse_local_paths (some []) = []
parse_local_paths (some (e ∷ es)) = to_group e ∷ parse_local_paths (some es)

-- max(paths, key=...) of a list that starts with `best`: the first of the largest.
unfoldable pub max_by : (String → ℕ) → String → List String → String
max_by key best [] = best
max_by key best (p ∷ ps) = max_by key (if ltb (key best) (key p) then p else best) ps

module _ (exists : String → Bool) (mtime : String → ℕ) where
  abbrev pub newest : List String → Option String
  newest [] = none
  newest (p ∷ ps) = some (max_by mtime p ps)

  abbrev pub or_else : Option String → Option String → Option String
  or_else none r = r
  or_else (some p) r = some p

  -- GetLocalPath
  unfoldable pub get_local_path : Groups → Option String
  get_local_path [] = none
  get_local_path (g ∷ gs) = or_else (newest (keep exists g)) (get_local_path gs)

-- IsPathInLocalPaths
unfoldable pub is_path_in_local_paths : Groups → String → Bool
is_path_in_local_paths [] p = false
is_path_in_local_paths (g ∷ gs) p = contains g p || is_path_in_local_paths gs p

-- The paths of one group that the object does not have yet.
abbrev pub group_list : Groups → List String → List String
group_list self g = keep (λ p. not (is_path_in_local_paths self p)) g

abbrev pub append_group : Groups → List String → Groups
append_group self [] = self
append_group self (p ∷ ps) = self ++ ((p ∷ ps) ∷ [])

unfoldable pub update_groups : Groups → Groups → Groups
update_groups self [] = self
update_groups self (g ∷ gs) = update_groups (append_group self (group_list self g)) gs

-- Update
unfoldable pub update : Groups → Option Groups → Groups
update self none = self
update self (some new) = update_groups self new
