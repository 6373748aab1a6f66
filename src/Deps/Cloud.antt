-- ===== src/Deps/Cloud.antt =====
-- The classes ArchiveInfo of archive_info.py and CloudStorageInfo of cloud_storage_info.py.
use ftc_designosaurs.Base.{
  String, Bool, not, ◌&&◌, Option, none, some, is_empty, comparable_string, if◌then◌else◌,
}
use ftc_designosaurs.Python.{
  Exec, Result, ok, err, value_error, os_error, archive_error, file_not_found_error, pure, raise,
  ◌>>=◌, ◌>>◌,
}
use ftc_designosaurs.Deps.System.{System, MakeDirs, made, file_exists, failed}

pub record ArchiveInfo : Type 0 where
  pub archive_file : String
  pub unzip_path : String
  pub path_within_archive : String
  pub dependency_path : String
  pub stale_unzip_path_glob : Option String

pub record CloudStorageInfo : Type 0 where
  pub cs_bucket : String
  pub cs_hash : String
  pub download_path : String
  pub cs_remote_path : String
  pub version_in_cs : Option String
  pub archive_info : Option ArchiveInfo

-- ArchiveInfo._has_minimum_data and CloudStorageInfo._has_minimum_data; None fails the test as ''
-- does, and both are '' here.
abbrev pub archive_has_minimum_data : ArchiveInfo → Bool
archive_has_minimum_data a =
    not (is_empty a.archive_file) && not (is_empty a.unzip_path) && not (is_empty a.dependency_path)

abbrev pub has_minimum_data : CloudStorageInfo → Bool
has_minimum_data c =
    not (is_empty c.cs_bucket)
    && not (is_empty c.cs_remote_path)
    && not (is_empty c.download_path)
    && not (is_empty c.cs_hash)

-- CloudStorageInfo.__init__
unfoldable pub init_cloud_storage_info : CloudStorageInfo → Result CloudStorageInfo
init_cloud_storage_info c = if has_minimum_data c then ok c else err value_error

module _ (sys : System) where
  open sys use {
    State, exists, dirname, abspath, join, makedirs, get_if_hash_changed, set_executable,
    rmtree_glob, unzip_archive,
  }

  -- ArchiveInfo.__init__
  unfoldable pub init_archive_info : String → String → String → Option String → Result ArchiveInfo
  init_archive_info archive_file unzip_path path_within_archive stale =
      let a : ArchiveInfo = record {
        archive_file = archive_file;
        unzip_path = unzip_path;
        path_within_archive = path_within_archive;
        dependency_path = join unzip_path path_within_archive;
        stale_unzip_path_glob = stale;
      } in
      if archive_has_minimum_data a then ok a else err value_error

  -- ShouldUnzipArchive
  unfoldable pub should_unzip_archive : ArchiveInfo → Exec State Bool
  should_unzip_archive a s =
      if archive_has_minimum_data a
      then (ok (not (exists a.dependency_path s)), s)
      else (err archive_error, s)

  unfoldable pub remove_stale : Option String → Exec State Unit
  remove_stale none s = (ok tt, s)
  remove_stale (some pattern) s = (ok tt, if is_empty pattern then s else rmtree_glob pattern s)

  unfoldable pub unzip : ArchiveInfo → Exec State String
  unzip a = do
    remove_stale a.stale_unzip_path_glob
    unzip_archive a.archive_file a.unzip_path
    still ← should_unzip_archive a
    if still then raise archive_error else pure a.dependency_path

  -- GetUnzippedPath
  unfoldable pub get_unzipped_path : ArchiveInfo → Exec State String
  get_unzipped_path a = do
    should ← should_unzip_archive a
    if should then unzip a else pure a.dependency_path

  -- The `except OSError` around os.makedirs: the directory may be there by now.
  abbrev pub tolerate_exists : MakeDirs → Exec State Unit
  tolerate_exists made s = (ok tt, s)
  tolerate_exists file_exists s = (ok tt, s)
  tolerate_exists failed s = (err os_error, s)

  abbrev pub make_missing_dir : MakeDirs × State → Result Unit × State
  make_missing_dir (outcome, s) = tolerate_exists outcome s

  abbrev pub make_download_dir : String → Exec State Unit
  make_download_dir dir s = if exists dir s then (ok tt, s) else make_missing_dir (makedirs dir s)

  abbrev pub check_downloaded : String → Exec State Unit
  check_downloaded p s = if exists p s then (ok tt, s) else (err file_not_found_error, s)

  unfoldable pub finish_download : CloudStorageInfo → Option ArchiveInfo → Exec State String
  finish_download c none = do set_executable c.download_path; pure c.download_path
  finish_download c (some a) = get_unzipped_path a

  unfoldable pub download : CloudStorageInfo → Exec State String
  download c = do
    make_download_dir (dirname c.download_path)
    get_if_hash_changed c.cs_remote_path c.download_path c.cs_bucket c.cs_hash
    check_downloaded c.download_path
    finish_download c c.archive_info

  -- CloudStorageInfo.GetRemotePath
  unfoldable pub get_remote_path : CloudStorageInfo → Exec State (Option String)
  get_remote_path c =
      if has_minimum_data c then (do path ← download c; pure (some (abspath path))) else pure none
