-- ===== src/Deps/Info.antt =====
-- The class DependencyInfo of dependency_info.py.
use ftc_designosaurs.Base.{
  ℕ, String, Bool, true, false, not, ◌&&◌, ◌||◌, Option, none, some, List, [], ◌∷◌, ◌++◌, is_empty,
  ◌==◌, comparable_string, if◌then◌else◌,
}
use ftc_designosaurs.Python.{Exec, Result, ok, err, value_error, pure}
use ftc_designosaurs.Deps.System.{System}
use ftc_designosaurs.Deps.LocalPath
use ftc_designosaurs.Deps.LocalPath.{Groups}
use ftc_designosaurs.Deps.Cloud.{CloudStorageInfo, get_remote_path}

pub record DependencyInfo : Type 0 where
  pub dependency : String
  pub platform : String
  pub config_paths : List String
  pub local_path_info : Option Groups
  pub cloud_storage_info : Option CloudStorageInfo

-- __init__
unfoldable pub init_dependency_info :
    String → String → String → Option Groups → Option CloudStorageInfo → Result DependencyInfo
init_dependency_info dependency platform config_path local cloud =
    if is_empty dependency || is_empty platform
    then err value_error
    else ok (record {
      dependency = dependency;
      platform = platform;
      config_paths = config_path ∷ [];
      local_path_info = local;
      cloud_storage_info = cloud;
    })

abbrev pub has {ℓ} : {A : Type ℓ} → Option A → Bool
has none = false
has (some a) = true

abbrev pub merge_local : Option Groups → Option Groups → Option Groups
merge_local none new = new
merge_local (some self) new = some (LocalPath.update self new)

abbrev pub merge_cloud : Option CloudStorageInfo → Option CloudStorageInfo → Option CloudStorageInfo
merge_cloud self none = self
merge_cloud self (some c) = some c

-- Update; the config paths are there before the first check can raise.
unfoldable pub update : DependencyInfo → Exec DependencyInfo Unit
update new self =
    let s = record self { config_paths = self.config_paths ++ new.config_paths } in
    if not (s.dependency == new.dependency) || not (s.platform == new.platform)
    then (err value_error, s)
    else if has new.cloud_storage_info && has s.cloud_storage_info
    then (err value_error, s)
    else (
      ok tt,
      record s {
        cloud_storage_info = merge_cloud s.cloud_storage_info new.cloud_storage_info;
        local_path_info = merge_local s.local_path_info new.local_path_info;
      },
    )

-- GetRemotePathVersion
abbrev pub version_of : Option CloudStorageInfo → Option String
version_of none = none
version_of (some c) = c.version_in_cs

unfoldable pub get_remote_path_version : DependencyInfo → Option String
get_remote_path_version info = version_of info.cloud_storage_info

abbrev pub first_path : (String → Bool) → (String → ℕ) → Option Groups → Option String
first_path exists mtime none = none
first_path exists mtime (some groups) = LocalPath.get_local_path exists mtime groups

module _ (sys : System) where
  open sys use {State, exists, mtime}

  -- GetLocalPath
  unfoldable pub get_local_path : DependencyInfo → State → Option String
  get_local_path info s = first_path (λ p. exists p s) (λ p. mtime p s) info.local_path_info

  abbrev pub remote_path_of : Option CloudStorageInfo → Exec State (Option String)
  remote_path_of none = pure none
  remote_path_of (some c) = get_remote_path sys c

  -- GetRemotePath
  unfoldable pub get_remote_path_of_info : DependencyInfo → Exec State (Option String)
  get_remote_path_of_info info = remote_path_of info.cloud_storage_info
