-- ===== src/Configs/Opened.antt =====
-- The class BaseConfig of base_config.py: its state, how it is opened and what it reads.
use Prim.Native.String.{◌++◌ as concat}
use ftc_designosaurs.Base.{
  String, Bool, not, ◌&&◌, Option, none, some, List, [], is_empty, ◌==◌, comparable_string,
  if◌then◌else◌, ◌≡◌,
}
use ftc_designosaurs.Base.Dict.{Dict, lookup, insert}
use ftc_designosaurs.Python.{
  Exec, Result, ok, err, pure, ◌>>◌, value_error, read_write_error, empty_config_error,
}
use ftc_designosaurs.Configs.Storage.{Storage, Key}
use ftc_designosaurs.Configs.Uploader.{Uploader}
use ftc_designosaurs.Configs.Data.{
  Platform, Dependency, Data, ConfigFile, is_none, is_empty_platform, is_empty_dependency,
  is_empty_file, dict_equal, dependency_equal, DataType, bucket_data, base_folder_data, set_data,
}

-- What base_config.py asks of the disk. Writing a config leaves cloud storage alone.
pub record Disk (storage : Storage) : Type 0 where
  pub config_exists : String → storage.State → Bool
  pub load_config : String → storage.State → Result ConfigFile
  pub write_config : String → ConfigFile → Exec storage.State Unit
  pub calculate_hash : String → Exec storage.State String
  pub file-write_config :
      (path : String) (f : ConfigFile) (q : Key) (s : storage.State)
      → storage.file q (write_config path f s).1 ≡ storage.file q s

pub record BaseConfig : Type 0 where
  pub config_path : String
  pub writable : Bool
  pub pending_uploads : List Uploader
  pub config_data : Data

abbrev pub or_no_data : Option Data → Data
or_no_data none = []
or_no_data (some deps) = deps

-- _GetJsonDict
abbrev pub get_json_dict : Data → ConfigFile
get_json_dict deps = record { config_type = some "BaseConfig"; dependencies = some deps }

abbrev pub or_empty_text : Option String → String
or_empty_text none = ""
or_empty_text (some x) = x

-- _CloudStorageRemotePath
abbrev pub cloud_storage_remote_path : String → String → Option String → String
cloud_storage_remote_path dependency cs_hash folder =
    let file = concat dependency (concat "_" cs_hash) in
    if is_empty (or_empty_text folder)
    then file
    else concat (or_empty_text folder) (concat "/" file)

-- dependency in self
abbrev pub has_dependency : String → Data → Bool
has_dependency dependency deps = not (is_none (lookup dependency deps))

abbrev pub no_platforms : Option (Dict String Platform) → Dict String Platform
no_platforms none = []
no_platforms (some ps) = ps

-- A dictionary that is there and is not empty, or ValueError.
abbrev pub full_platform : Option Platform → Result Platform
full_platform none = err value_error
full_platform (some p) = if is_empty_platform p then err value_error else ok p

abbrev pub full_dependency : Option Dependency → Result Dependency
full_dependency none = err value_error
full_dependency (some d) = if is_empty_dependency d then err value_error else ok d

abbrev pub platform_of : String → Dependency → Result (Dependency × Platform)
platform_of platform d = elim (full_platform (lookup platform (no_platforms d.file_info))) [
  | ok p ↦ ok (d, p)
  | err e ↦ err e
]

-- _GetPlatformData, with the dictionary of the dependency
unfoldable pub get_platform_data : Data → String → String → Result (Dependency × Platform)
get_platform_data deps dependency platform = elim (full_dependency (lookup dependency deps)) [
  | ok d ↦ platform_of platform d
  | err e ↦ err e
]

-- The assignment at the end of _SetPlatformData
abbrev pub put_data : DataType → String → String → Dependency × Platform → Dependency
put_data bucket_data x platform (d, p) = record d { cloud_storage_bucket = some x }
put_data base_folder_data x platform (d, p) = record d { cloud_storage_base_folder = some x }
put_data t x platform (d, p) = record d {
  file_info = some (insert platform (set_data t x p) (no_platforms d.file_info));
}

module _ (storage : Storage) (disk : Disk storage) where
  open storage use {State}
  open disk use {config_exists, load_config, write_config, calculate_hash}

  -- The config and the world, which a method changes.
  abbrev pub Self : Type 0
  Self = BaseConfig × State

  abbrev pub outside : {A : Type 0} → Exec State A → Exec Self A
  outside call (c, s) = let (r, t) = call s in (r, (c, t))

  abbrev pub known : {A : Type 0} → Result A → Exec Self A
  known r self = (r, self)

  -- _WriteConfigToFile
  abbrev pub write_config_to_file : String → Data → Exec State Unit
  write_config_to_file path deps = write_config path (get_json_dict deps)

  abbrev pub new_config : String → Bool → Data → BaseConfig
  new_config path writable deps = record {
    config_path = path;
    writable = writable;
    pending_uploads = [];
    config_data = deps;
  }

  abbrev pub config_of_file : String → Bool → ConfigFile → Result BaseConfig
  config_of_file path writable f =
      if is_empty_file f
      then err empty_config_error
      else if not (is_none f.config_type) && (or_empty_text f.config_type == "BaseConfig")
      then ok (new_config path writable (or_no_data f.dependencies))
      else err value_error

  abbrev pub config_of_load : String → Bool → Result ConfigFile → Result BaseConfig
  config_of_load path writable (err e) = err e
  config_of_load path writable (ok f) = config_of_file path writable f

  -- __init__
  unfoldable pub init_base_config : String → Bool → Exec State BaseConfig
  init_base_config path writable s =
      if is_empty path
      then (err value_error, s)
      else if config_exists path s
      then (config_of_load path writable (load_config path s), s)
      else if not writable
      then (err empty_config_error, s)
      else (write_config_to_file path [] >> pure (new_config path writable [])) s

  -- _ValidateIsConfigWritable
  abbrev pub validate_is_config_writable : Exec Self Unit
  validate_is_config_writable (c, s) =
      if c.writable then (ok tt, (c, s)) else (err read_write_error, (c, s))

  abbrev pub differs : Data → Result ConfigFile → Result Bool
  differs deps (err e) = err e
  differs deps (ok f) = ok (not (dict_equal dependency_equal deps (or_no_data f.dependencies)))

  -- _IsDirty
  unfoldable pub is_dirty : Exec Self Bool
  is_dirty (c, s) = (differs c.config_data (load_config c.config_path s), (c, s))
