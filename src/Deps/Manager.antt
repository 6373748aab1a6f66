-- ===== src/Deps/Manager.antt =====
-- The class DependencyManager of manager.py.
mod Extends
pub mod Precedence
pub mod Keyed
use ftc_designosaurs.Base.{
  ℕ, zero, suc, String, Bool, true, false, not, ◌&&◌, ◌||◌, Option, none, some, List, [], ◌∷◌, ◌++◌,
  is_empty, ◌==◌, contains, comparable_string, if◌then◌else◌,
}
use ftc_designosaurs.Base.Dict.{Dict, lookup, insert}
use ftc_designosaurs.Python.{
  Error, Exec, Result, ok, err, cloud_storage_error, no_path_found_error,
  unsupported_config_format_error, pure, raise, and_then, ◌>>=◌, ◌>>◌,
}
use ftc_designosaurs.Deps.System.{System}
use ftc_designosaurs.Deps.Info
use ftc_designosaurs.Deps.Info.{
  DependencyInfo, get_remote_path_version, get_local_path, get_remote_path_of_info,
}

-- What the manager asks of a BaseConfig: its type, and what IterDependencyInfo yields before it
-- ends or raises.
pub record Config : Type 0 where
  pub config_type : String
  pub yielded : List DependencyInfo
  pub raised : Option Error

-- _lookup_dict
abbrev pub LookupDict : Type 0
LookupDict = Dict String (Dict String DependencyInfo)

abbrev pub platforms : LookupDict → String → Dict String DependencyInfo
platforms d dependency = elim (lookup dependency d) [ none ↦ [] | some p ↦ p ]

-- The entry for a dependency and exactly this platform.
unfoldable pub entry : LookupDict → String → String → Option DependencyInfo
entry d dependency platform = lookup platform (platforms d dependency)

abbrev pub put : DependencyInfo → DependencyInfo → LookupDict → LookupDict
put key info d = insert key.dependency (insert key.platform info (platforms d key.dependency)) d

abbrev pub put_updated : DependencyInfo → Result Unit × DependencyInfo → Exec LookupDict Unit
put_updated key (r, info) d = (r, put key info d)

abbrev pub add_or_update : Option DependencyInfo → DependencyInfo → Exec LookupDict Unit
add_or_update none new d = (ok tt, put new new d)
add_or_update (some old) new d = put_updated new (Info.update new old) d

-- The body of the loop of _UpdateDependencies.
unfoldable pub add_dependency_info : DependencyInfo → Exec LookupDict Unit
add_dependency_info new d = add_or_update (entry d new.dependency new.platform) new d

unfoldable pub add_all : List DependencyInfo → Exec LookupDict Unit
add_all [] = pure tt
add_all (i ∷ is) = do add_dependency_info i; add_all is

abbrev pub reraise : {S : Type 0} → Option Error → Exec S Unit
reraise none = pure tt
reraise (some e) = raise e

abbrev pub is_supported : List String → Config → Bool
is_supported [] c = true
is_supported (t ∷ ts) c = contains (t ∷ ts) c.config_type

-- _UpdateDependencies
unfoldable pub update_dependencies : List String → Config → Exec LookupDict Unit
update_dependencies supported c =
    if is_supported supported c
    then (do add_all c.yielded; reraise c.raised)
    else raise unsupported_config_format_error

unfoldable pub update_all : List String → List Config → Exec LookupDict Unit
update_all supported [] = pure tt
update_all supported (c ∷ cs) = do update_dependencies supported c; update_all supported cs

-- __init__
unfoldable pub init_manager : List String → List Config → Result Unit × LookupDict
init_manager supported configs = update_all supported configs []

abbrev pub has_key : Option DependencyInfo → Bool
has_key none = false
has_key (some i) = true

-- _GetDependencyInfo, with DEFAULT_TYPE
unfoldable pub get_dependency_info : LookupDict → String → String → Option DependencyInfo
get_dependency_info d dependency platform =
    entry d dependency (if has_key (entry d dependency platform) then platform else "default")
