-- ===== src/Configs/Infos.antt =====
-- What a BaseConfig of base_config.py yields to the dependency manager.
use Prim.Native.Nat.{zero, suc}
use Prim.Native.Char.{code}
use Prim.Native.String.{String, ◌++◌ as concat}
use ftc_designosaurs.Base.{
  ℕ, not, Option, none, some, List, [], ◌∷◌, ◌++◌, map, is_empty, ◌==◌, comparable_nat,
  comparable_string, if◌then◌else◌,
}
use ftc_designosaurs.Base.Dict.{Dict}
use ftc_designosaurs.Python.{Error, Result, ok, err, read_write_error, attribute_error}
use ftc_designosaurs.Deps.System.{System}
use ftc_designosaurs.Deps.LocalPath.{Groups, path, parse_local_paths}
use ftc_designosaurs.Deps.Cloud.{
  CloudStorageInfo, ArchiveInfo, init_cloud_storage_info, init_archive_info,
}
use ftc_designosaurs.Deps.Info.{DependencyInfo, init_dependency_info}
use ftc_designosaurs.Deps.Manager.{Config}
use ftc_designosaurs.Configs.Data.{Platform, Dependency, Data}
use ftc_designosaurs.Configs.Opened.{
  BaseConfig, cloud_storage_remote_path, or_empty_text, no_platforms,
}

-- path.replace(old, sep), where old is one character
unfoldable pub replace : ℕ → String → String → String
replace old sep String.[] = String.[]
replace old sep (String.◌∷◌ c s) =
    if code c == old then concat sep (replace old sep s) else String.◌∷◌ c (replace old sep s)

-- _FormatPath
unfoldable pub format_path : String → String → String
format_path sep file_path =
    if is_empty file_path
    then file_path
    else if not (sep == "\\")
    then replace 92 sep file_path
    else if not (sep == "/")
    then replace 47 sep file_path
    else file_path

-- text * n
abbrev pub times : ℕ → String → String
times zero text = ""
times (suc n) text = concat text (times n text)

-- '%s_%s_%s'
abbrev pub joined : String → String → String → String
joined a b c = concat a (concat "_" (concat b (concat "_" c)))

abbrev pub or_no_paths : Option (List String) → List String
or_no_paths none = []
or_no_paths (some ps) = ps

-- The infos that are yielded, and the exception after them.
abbrev pub Yielded : Type 0
Yielded = List DependencyInfo × Option Error

abbrev pub yield_first : Result DependencyInfo → Yielded → Yielded
yield_first (err e) rest = ([], some e)
yield_first (ok i) (is, e) = (i ∷ is, e)

-- What follows the infos of a loop that did not raise.
abbrev pub yield_then : Yielded → Yielded → Yielded
yield_then (is, none) (js, e) = (is ++ js, e)
yield_then (is, some e) rest = (is, some e)

module _ (sys : System) (sep : String) where
  open sys use {dirname, abspath, join}

  -- A path of the config file, seen from its folder
  abbrev pub full_path : String → String → String
  full_path base_path p = abspath (join base_path (format_path sep p))

  abbrev pub local_info_of : String → List String → Option Groups
  local_info_of base_path [] = none
  local_info_of base_path (p ∷ ps) =
      some (parse_local_paths (some (map (λ q. path (full_path base_path q)) (p ∷ ps))))

  abbrev pub unzip_to : String → String → String → String → String
  unzip_to download_path dependency platform hash =
      abspath (join (dirname download_path) (joined dependency platform hash))

  abbrev pub some_result : {A : Type 0} → Result A → Result (Option A)
  some_result (ok a) = ok (some a)
  some_result (err e) = err e

  abbrev pub zip_info_of : String → String → String → String → String → Result (Option ArchiveInfo)
  zip_info_of dependency platform hash download_path path_within_archive =
      if is_empty path_within_archive
      then ok none
      else some_result (
          init_archive_info sys download_path (unzip_to download_path dependency platform hash)
            path_within_archive
            (some (unzip_to download_path dependency platform (times 40 "[0-9a-f]"))))

  abbrev pub with_zip_info :
      CloudStorageInfo → Result (Option ArchiveInfo) → Result (Option CloudStorageInfo)
  with_zip_info c (err e) = err e
  with_zip_info c (ok zip_info) =
      some_result (init_cloud_storage_info (record c { archive_info = zip_info }))

  abbrev pub cloud_info_of :
      String → String → Dependency → Platform → String → Result (Option CloudStorageInfo)
  cloud_info_of dependency platform d p download_path =
      let hash = or_empty_text p.cloud_storage_hash in
      if is_empty hash
      then err attribute_error
      else with_zip_info
          (record {
            cs_bucket = or_empty_text d.cloud_storage_bucket;
            cs_hash = hash;
            download_path = download_path;
            cs_remote_path = cloud_storage_remote_path dependency hash d.cloud_storage_base_folder;
            version_in_cs = p.version_in_cs;
            archive_info = none;
          })
          (zip_info_of dependency platform hash download_path (or_empty_text p.path_within_archive))

  abbrev pub cs_info_of :
      String → String → String → Dependency → Platform → Result (Option CloudStorageInfo)
  cs_info_of base_path dependency platform d p =
      if is_empty (or_empty_text p.download_path)
      then ok none
      else cloud_info_of dependency platform d p
          (full_path base_path (or_empty_text p.download_path))

  abbrev pub with_cs_info :
      String
      → String
      → String
      → Option Groups
      → Result (Option CloudStorageInfo)
      → Result DependencyInfo
  with_cs_info config_path dependency platform local_info (err e) = err e
  with_cs_info config_path dependency platform local_info (ok cs_info) =
      init_dependency_info dependency platform config_path local_info cs_info

  -- The body of the inner loop
  unfoldable pub info_of : String → String → Dependency → String → Platform → Result DependencyInfo
  info_of config_path dependency d platform p =
      let base_path = dirname config_path in
      with_cs_info config_path dependency platform
        (local_info_of base_path (or_no_paths p.local_paths))
        (cs_info_of base_path dependency platform d p)

  unfoldable pub iter_platforms : String → String → Dependency → Dict String Platform → Yielded
  iter_platforms config_path dependency d [] = ([], none)
  iter_platforms config_path dependency d ((platform, p) ∷ ps) =
      yield_first (info_of config_path dependency d platform p)
        (iter_platforms config_path dependency d ps)

  -- The loops over the dictionaries, in the order in which they are walked.
  unfoldable pub iter_data : String → Data → Yielded
  iter_data config_path [] = ([], none)
  iter_data config_path ((dependency, d) ∷ deps) =
      yield_then (iter_platforms config_path dependency d (no_platforms d.file_info))
        (iter_data config_path deps)

  -- IterDependencyInfo
  unfoldable pub iter_dependency_info : BaseConfig → Yielded
  iter_dependency_info c =
      if c.writable then ([], some read_write_error) else iter_data c.config_path c.config_data

  -- The config as the dependency manager takes it: GetConfigType and IterDependencyInfo
  abbrev pub manager_config : BaseConfig → Config
  manager_config c = record {
    config_type = "BaseConfig";
    yielded = (iter_dependency_info c).0;
    raised = (iter_dependency_info c).1;
  }
