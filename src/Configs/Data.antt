-- ===== src/Configs/Data.antt =====
-- The dictionary that base_config.py reads from a config file and writes to it.
use ftc_designosaurs.Base.{
  String, Bool, true, false, ◌&&◌, Option, none, some, List, [], ◌∷◌, length, ◌==◌, comparable_nat,
  comparable_string, comparable_list,
}
use ftc_designosaurs.Base.Dict.{Dict, lookup}

-- An entry of "file_info". A key that is missing is none.
pub record Platform : Type 0 where
  pub cloud_storage_hash : Option String
  pub download_path : Option String
  pub version_in_cs : Option String
  pub path_within_archive : Option String
  pub local_paths : Option (List String)

-- An entry of "dependencies".
pub record Dependency : Type 0 where
  pub cloud_storage_base_folder : Option String
  pub cloud_storage_bucket : Option String
  pub file_info : Option (Dict String Platform)

-- The entries, in the order in which Python walks over the dictionary.
abbrev pub Data : Type 0
Data = Dict String Dependency

-- What json.load gives for a config file.
pub record ConfigFile : Type 0 where
  pub config_type : Option String
  pub dependencies : Option Data

abbrev pub is_none {ℓ} : {A : Type ℓ} → Option A → Bool
is_none none = true
is_none (some a) = false

-- The dictionaries that a test takes for false.
abbrev pub is_empty_platform : Platform → Bool
is_empty_platform p =
    is_none p.cloud_storage_hash
    && is_none p.download_path
    && is_none p.version_in_cs
    && is_none p.path_within_archive
    && is_none p.local_paths

abbrev pub is_empty_dependency : Dependency → Bool
is_empty_dependency d =
    is_none d.cloud_storage_base_folder && is_none d.cloud_storage_bucket && is_none d.file_info

abbrev pub is_empty_file : ConfigFile → Bool
is_empty_file f = is_none f.config_type && is_none f.dependencies

module _ {A : Type 0} (equal : A → A → Bool) where
  abbrev pub option_equal : Option A → Option A → Bool
  option_equal none none = true
  option_equal (some a) (some b) = equal a b
  option_equal _ _ = false

  unfoldable pub all_in : Dict String A → Dict String A → Bool
  all_in [] e = true
  all_in ((k, a) ∷ d) e = option_equal (some a) (lookup k e) && all_in d e

  -- == between dictionaries, whatever their order
  unfoldable pub dict_equal : Dict String A → Dict String A → Bool
  dict_equal d e = (length d == length e) && all_in d e

abbrev pub platform_equal : Platform → Platform → Bool
platform_equal p q =
    option_equal (λ a b. a == b) p.cloud_storage_hash q.cloud_storage_hash
    && option_equal (λ a b. a == b) p.download_path q.download_path
    && option_equal (λ a b. a == b) p.version_in_cs q.version_in_cs
    && option_equal (λ a b. a == b) p.path_within_archive q.path_within_archive
    && option_equal (λ a b. a == b) p.local_paths q.local_paths

abbrev pub dependency_equal : Dependency → Dependency → Bool
dependency_equal d e =
    option_equal (λ a b. a == b) d.cloud_storage_base_folder e.cloud_storage_base_folder
    && option_equal (λ a b. a == b) d.cloud_storage_bucket e.cloud_storage_bucket
    && option_equal (dict_equal platform_equal) d.file_info e.file_info

-- The keys that _SetPlatformData and _GetPlatformData take.
pub data DataType : Type 0 where
  bucket_data base_folder_data hash_data download_path_data version_data : DataType

abbrev pub set_data : DataType → String → Platform → Platform
set_data hash_data x p = record p { cloud_storage_hash = some x }
set_data download_path_data x p = record p { download_path = some x }
set_data version_data x p = record p { version_in_cs = some x }
set_data t x p = p

abbrev pub get_data : DataType → Dependency → Platform → Option String
get_data bucket_data d p = d.cloud_storage_bucket
get_data base_folder_data d p = d.cloud_storage_base_folder
get_data hash_data d p = p.cloud_storage_hash
get_data download_path_data d p = p.download_path
get_data version_data d p = p.version_in_cs
