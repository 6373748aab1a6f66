-- ===== src/Configs/Described.antt =====
-- What an info of IterDependencyInfo of base_config.py has of its entry in the config.
use ftc_designosaurs.Base.{
  ◌||◌, String, Bool, true, false, Option, none, some, List, [], ◌∷◌, ◌++◌, map, is_empty,
  if◌then◌else◌, ◌≡◌, refl, ap, ◌∙◌, sym,
}
use ftc_designosaurs.Python.{Error, Result, ok, err, ok-injective, value_error, attribute_error}
use ftc_designosaurs.Deps.System.{System}
use ftc_designosaurs.Deps.LocalPath.{Groups, path, parse_local_paths}
use ftc_designosaurs.Deps.Cloud.{
  CloudStorageInfo, ArchiveInfo, init_cloud_storage_info, init_archive_info,
  archive_has_minimum_data, has_minimum_data,
}
use ftc_designosaurs.Deps.Info.{DependencyInfo, init_dependency_info}
use ftc_designosaurs.Configs.Data.{Platform, Dependency, Data}
use ftc_designosaurs.Configs.Opened.{or_empty_text, no_platforms, cloud_storage_remote_path}
use ftc_designosaurs.Configs.Infos.{
  or_no_paths, local_info_of, some_result, with_zip_info, cloud_info_of, zip_info_of, cs_info_of,
  with_cs_info, info_of, full_path, unzip_to, times,
}

module _ {A : Type 0} where
  -- What a check lets through.
  only_ok : (b : Bool) (e : Error) (x y : A) → (if b then ok x else err e) ≡ ok y → y ≡ x
  only_ok true e x y h = sym (ok-injective h)
  only_ok false e x y h = absurd (cc)

  only_after :
      (b : Bool) (e : Error) (r : Result A) (x y : A)
      → (r ≡ ok y → y ≡ x)
      → (if b then err e else r) ≡ ok y
      → y ≡ x
  only_after true e r x y k h = absurd (cc)
  only_after false e r x y k h = k h

  only_unless :
      (b : Bool) (r : Result (Option A)) (x : A) (o : Option A)
      → (r ≡ ok o → o ≡ some x)
      → (if b then ok none else r) ≡ ok o
      → o ≡ (if b then none else some x)
  only_unless true r x o k h = sym (ok-injective h)
  only_unless false r x o k h = k h

module _ (sys : System) (sep : String) where
  open sys use {dirname, join}

  -- Each path of the list, in a group of its own.
  abbrev pub local_of : String → List String → Option Groups
  local_of base [] = none
  local_of base (p ∷ ps) = some (map (λ q. full_path sys sep base q ∷ []) (p ∷ ps))

  -- The archive, which is unpacked beside the file.
  abbrev pub archive_of : String → String → String → String → String → ArchiveInfo
  archive_of dependency platform hash file within = record {
    archive_file = file;
    unzip_path = unzip_to sys sep file dependency platform hash;
    path_within_archive = within;
    dependency_path = join (unzip_to sys sep file dependency platform hash) within;
    stale_unzip_path_glob = some (unzip_to sys sep file dependency platform (times 40 "[0-9a-f]"));
  }

  abbrev pub cloud_of : String → String → String → Dependency → Platform → CloudStorageInfo
  cloud_of base dependency platform d p =
      let hash = or_empty_text p.cloud_storage_hash in
      let file = full_path sys sep base (or_empty_text p.download_path) in
      let within = or_empty_text p.path_within_archive in
      record {
        cs_bucket = or_empty_text d.cloud_storage_bucket;
        cs_hash = hash;
        download_path = file;
        cs_remote_path = cloud_storage_remote_path dependency hash d.cloud_storage_base_folder;
        version_in_cs = p.version_in_cs;
        archive_info =
            if is_empty within
            then none
            else some (archive_of dependency platform hash file within);
      }

  -- The info of an entry, with every field.
  abbrev pub described : String → String → Dependency → String × Platform → DependencyInfo
  described config_path dependency d (platform, p) =
      let base = dirname config_path in
      record {
        dependency = dependency;
        platform = platform;
        config_paths = config_path ∷ [];
        local_path_info = local_of base (or_no_paths p.local_paths);
        cloud_storage_info =
            if is_empty (or_empty_text p.download_path)
            then none
            else some (cloud_of base dependency platform d p);
      }

  unfoldable pub described_all : String → Data → List DependencyInfo
  described_all config_path [] = []
  described_all config_path ((dependency, d) ∷ deps) =
      map (described config_path dependency d) (no_platforms d.file_info)
      ++ described_all config_path deps

  own_groups :
      (f : String → String) (ps : List String)
      → parse_local_paths (some (map (λ q. path (f q)) ps)) ≡ map (λ q. f q ∷ []) ps
  unfolding parse_local_paths
  own_groups f [] = refl
  own_groups f (p ∷ ps) = ap (λ l. (f p ∷ []) ∷ l) (own_groups f ps)

  local_info_of-local_of :
      (base : String) (ps : List String) → local_info_of sys sep base ps ≡ local_of base ps
  local_info_of-local_of base [] = refl
  local_info_of-local_of base (p ∷ ps) = ap some (own_groups (full_path sys sep base) (p ∷ ps))

  only_some :
      {A : Type 0} (r : Result A) (x : A) (o : Option A)
      → ((y : A) → r ≡ ok y → y ≡ x)
      → some_result sys sep r ≡ ok o
      → o ≡ some x
  only_some (ok a) x o k h = sym (ok-injective h) ∙ ap some (k a refl)
  only_some (err e) x o k h = absurd (cc)

  zip_info_of-archive_of :
      (dependency platform hash file within : String) (z : Option ArchiveInfo)
      → zip_info_of sys sep dependency platform hash file within ≡ ok z
      → z
        ≡ (if is_empty within then none else some (archive_of dependency platform hash file within))
  unfolding init_archive_info
  zip_info_of-archive_of dependency platform hash file within z h =
      only_unless (is_empty within)
        (some_result sys sep (
          init_archive_info sys file (unzip_to sys sep file dependency platform hash) within
            (some (unzip_to sys sep file dependency platform (times 40 "[0-9a-f]")))))
        archive z
        (only_some
          (init_archive_info sys file (unzip_to sys sep file dependency platform hash) within
            (some (unzip_to sys sep file dependency platform (times 40 "[0-9a-f]"))))
          archive z (λ a. only_ok (archive_has_minimum_data archive) value_error archive a))
        h
    where
      archive : ArchiveInfo
      archive = archive_of dependency platform hash file within

  with_archive :
      (c : CloudStorageInfo) (r : Result (Option ArchiveInfo)) (expect : Option ArchiveInfo)
      (o : Option CloudStorageInfo)
      → ((z : Option ArchiveInfo) → r ≡ ok z → z ≡ expect)
      → with_zip_info sys sep c r ≡ ok o
      → o ≡ some (record c { archive_info = expect })
  unfolding init_cloud_storage_info
  with_archive c (err e) expect o k h = absurd (cc)
  with_archive c (ok z) expect o k h =
      only_some (init_cloud_storage_info (record c { archive_info = z }))
        (record c { archive_info = z }) o
        (λ a.
          only_ok (has_minimum_data (record c { archive_info = z })) value_error
            (record c { archive_info = z }) a)
        h
      ∙ ap (λ x. some (record c { archive_info = x })) (k z refl)

  cs_info_of-cloud_of :
      (base dependency platform : String) (d : Dependency) (p : Platform)
      (o : Option CloudStorageInfo)
      → cs_info_of sys sep base dependency platform d p ≡ ok o
      → o ≡ (
          if is_empty (or_empty_text p.download_path)
          then none
          else some (cloud_of base dependency platform d p))
  cs_info_of-cloud_of base dependency platform d p o h =
      only_unless (is_empty (or_empty_text p.download_path))
        (cloud_info_of sys sep dependency platform d p file) (cloud_of base dependency platform d p)
        o
        (only_after (is_empty hash) attribute_error (with_zip_info sys sep c zip_info)
          (some (cloud_of base dependency platform d p)) o
          (with_archive c zip_info (cloud_of base dependency platform d p).archive_info o
            (zip_info_of-archive_of dependency platform hash file within)))
        h
    where
      hash : String
      hash = or_empty_text p.cloud_storage_hash

      within : String
      within = or_empty_text p.path_within_archive

      file : String
      file = full_path sys sep base (or_empty_text p.download_path)

      zip_info : Result (Option ArchiveInfo)
      zip_info = zip_info_of sys sep dependency platform hash file within

      c : CloudStorageInfo
      c = record (cloud_of base dependency platform d p) { archive_info = none }

  pub info_of-described :
      (config_path dependency : String) (d : Dependency) (platform : String) (p : Platform)
      (i : DependencyInfo)
      → info_of sys sep config_path dependency d platform p ≡ ok i
      → i ≡ described config_path dependency d (platform, p)
  unfolding info_of init_dependency_info
  info_of-described config_path dependency d platform p i h =
      by_cs (cs_info_of sys sep base dependency platform d p)
        (cs_info_of-cloud_of base dependency platform d p) h
    where
      base : String
      base = dirname config_path

      made : Option Groups → Option CloudStorageInfo → DependencyInfo
      made local cloud = record {
        dependency = dependency;
        platform = platform;
        config_paths = config_path ∷ [];
        local_path_info = local;
        cloud_storage_info = cloud;
      }

      local : Option Groups
      local = local_info_of sys sep base (or_no_paths p.local_paths)

      expect : Option CloudStorageInfo
      expect =
          if is_empty (or_empty_text p.download_path)
          then none
          else some (cloud_of base dependency platform d p)

      by_cs :
          (r : Result (Option CloudStorageInfo))
          → ((o : Option CloudStorageInfo) → r ≡ ok o → o ≡ expect)
          → with_cs_info sys sep config_path dependency platform local r ≡ ok i
          → i ≡ described config_path dependency d (platform, p)
      by_cs (err e) k h = absurd (cc)
      by_cs (ok o) k h =
          only_after (is_empty dependency || is_empty platform) value_error (ok (made local o))
            (made local o) i (λ e. sym (ok-injective e)) h
          ∙ ap (λ l. made l o) (local_info_of-local_of base (or_no_paths p.local_paths))
          ∙ ap (made (local_of base (or_no_paths p.local_paths))) (k o refl)
