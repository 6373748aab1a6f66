-- ===== src/Configs/Update.antt =====
-- The methods of the class BaseConfig of base_config.py that change a writable config.
use ftc_designosaurs.Base.{
  String, Bool, true, false, not, ◌&&◌, Option, none, some, [], is_empty, comparable_string,
  if◌then◌else◌,
}
use ftc_designosaurs.Base.Dict.{lookup, insert}
use ftc_designosaurs.Python.{
  Exec, Result, ok, err, pure, raise, ◌>>=◌, ◌>>◌, value_error, read_write_error, key_error,
}
use ftc_designosaurs.Configs.Storage.{Storage}
use ftc_designosaurs.Configs.Data.{Platform, Dependency, Data, DataType, version_data, get_data}
use ftc_designosaurs.Configs.Opened.{
  Disk, Self, full_dependency, get_platform_data, has_dependency, is_dirty, or_empty_text, put_data,
  validate_is_config_writable,
}

module _ (storage : Storage) (disk : Disk storage) where
  open storage use {State}
  open disk use {config_exists, load_config, write_config, calculate_hash}

  abbrev pub set_config_data : Data → Exec (Self storage disk) Unit
  set_config_data deps (c, s) = (ok tt, (record c { config_data = deps }, s))

  abbrev pub new_dependency : String → String → Dependency
  new_dependency folder bucket = record {
    cloud_storage_base_folder = some folder;
    cloud_storage_bucket = some bucket;
    file_info = some [];
  }

  abbrev pub put_new : String → String → String → Exec (Self storage disk) Unit
  put_new dependency folder bucket (c, s) =
      if has_dependency dependency c.config_data
      then (err value_error, (c, s))
      else set_config_data (insert dependency (new_dependency folder bucket) c.config_data) (c, s)

  -- AddNewDependency
  unfoldable pub add_new_dependency : String → String → String → Exec (Self storage disk) Unit
  add_new_dependency dependency folder bucket = do
    validate_is_config_writable storage disk
    put_new dependency folder bucket

  abbrev pub empty_platform : Platform
  empty_platform = record {
    cloud_storage_hash = none;
    download_path = none;
    version_in_cs = none;
    path_within_archive = none;
    local_paths = none;
  }

  abbrev pub or_new : Option Platform → Platform
  or_new none = empty_platform
  or_new (some p) = p

  abbrev pub put_download_path :
      String → String → String → Dependency → Exec (Self storage disk) Unit
  put_download_path dependency platform path d (c, s) = elim d.file_info [
    | none ↦ (err key_error, (c, s))
    | some ps ↦
        set_config_data
          (insert dependency
            (record d {
              file_info = some (
                  insert platform
                    (record (or_new (lookup platform ps)) { download_path = some path }) ps);
            })
            c.config_data)
          (c, s)
  ]

  abbrev pub put_path : String → String → String → Option Dependency → Exec (Self storage disk) Unit
  put_path dependency platform path none = raise value_error
  put_path dependency platform path (some d) = put_download_path dependency platform path d

  abbrev pub set_path : String → String → String → Exec (Self storage disk) Unit
  set_path dependency platform path (c, s) =
      put_path dependency platform path (lookup dependency c.config_data) (c, s)

  -- SetDownloadPath
  unfoldable pub set_download_path : String → String → String → Exec (Self storage disk) Unit
  set_download_path dependency platform path = do
    validate_is_config_writable storage disk
    set_path dependency platform path

  abbrev pub put_platform_data :
      String
      → String
      → DataType
      → String
      → Result (Dependency × Platform)
      → Exec (Self storage disk) Unit
  put_platform_data dependency platform t x (err e) self = (err e, self)
  put_platform_data dependency platform t x (ok found) (c, s) =
      set_config_data (insert dependency (put_data t x platform found) c.config_data) (c, s)

  abbrev pub set_found : String → String → DataType → String → Exec (Self storage disk) Unit
  set_found dependency platform t x (c, s) =
      put_platform_data dependency platform t x
        (get_platform_data c.config_data dependency platform) (c, s)

  -- _SetPlatformData
  unfoldable pub set_platform_data :
      String → String → DataType → String → Exec (Self storage disk) Unit
  set_platform_data dependency platform t x = do
    validate_is_config_writable storage disk
    set_found dependency platform t x

  abbrev pub data_of : DataType → Result (Dependency × Platform) → Result (Option String)
  data_of t (err e) = err e
  data_of t (ok (d, p)) = ok (get_data t d p)

  -- _GetPlatformData with a data type
  abbrev pub get_data_of : String → String → DataType → Exec (Self storage disk) (Option String)
  get_data_of dependency platform t (c, s) =
      (data_of t (get_platform_data c.config_data dependency platform), (c, s))

  -- GetVersion
  unfoldable pub get_version : String → String → Exec (Self storage disk) (Option String)
  get_version dependency platform = get_data_of dependency platform version_data

  abbrev pub is_true : Option String → Bool
  is_true none = false
  is_true (some x) = not (is_empty x)

  abbrev pub forget : {A : Type 0} → Result A → Result Unit
  forget (ok a) = ok tt
  forget (err e) = err e

  -- The last two tests of _ValidateIsConfigUpdatable
  abbrev pub check_names : Option String → Option String → Data → Result Unit
  check_names dependency platform deps =
      elim (if is_true dependency
        then forget (full_dependency (lookup (or_empty_text dependency) deps))
        else ok tt) [
          | err e ↦ err e
          | ok u ↦
              if is_true platform
              then forget
                  (get_platform_data deps (or_empty_text dependency) (or_empty_text platform))
              else ok tt
        ]

  abbrev pub check_known : Option String → Option String → Exec (Self storage disk) Unit
  check_known dependency platform (c, s) = (check_names dependency platform c.config_data, (c, s))

  abbrev pub refuse_if : Bool → Exec (Self storage disk) Unit
  refuse_if true = raise read_write_error
  refuse_if false = pure tt

  -- _ValidateIsConfigUpdatable
  unfoldable pub validate_is_config_updatable :
      Bool → Option String → Option String → Exec (Self storage disk) Unit
  validate_is_config_updatable execute_job dependency platform = do
    validate_is_config_writable storage disk
    dirty ← is_dirty storage disk
    refuse_if (dirty && execute_job)
    check_known dependency platform
