-- ===== src/Deps/Tests.antt =====
-- Small inputs for the theorems about the dependency manager.
use Prim.Native.Nat.{ℕ}
use ftc_designosaurs.Base.{
  String, Bool, ◌≡◌, refl, Option, none, some, List, [], ◌∷◌, contains, keep, comparable_string,
  if◌then◌else◌,
}
use ftc_designosaurs.Base.Dict.{lookup, insert}
use ftc_designosaurs.Python.{Exec, ok, err, cloud_storage_error, value_error, Ensures}
use ftc_designosaurs.Deps.System.{System, made}
use ftc_designosaurs.Deps.LocalPath
use ftc_designosaurs.Deps.LocalPath.{Groups, or_else, is_path_in_local_paths}
use ftc_designosaurs.Deps.LocalPath.Search.{Chosen, get_local_path_lem}
use ftc_designosaurs.Deps.Cloud.{CloudStorageInfo, ArchiveInfo}
use ftc_designosaurs.Deps.Cloud
use ftc_designosaurs.Deps.Info
use ftc_designosaurs.Deps.Remote.{RemotePath, get_remote_path_lem}
use ftc_designosaurs.Deps.Info.{DependencyInfo, has}
use ftc_designosaurs.Deps.Manager.{
  Config, LookupDict, entry, add_dependency_info, add_all, update_dependencies, update_all,
  init_manager, get_dependency_info,
}
use ftc_designosaurs.Deps.Manager.Precedence.{EntriesExtend, init_manager-EntriesExtend}
use ftc_designosaurs.Deps.Manager.Keyed.{
  IsKeyed, conflicts, update_all-IsKeyed, add_dependency_info_lem,
}
use ftc_designosaurs.Deps.Fetch.{fetch_info, fetch_remote, fetch_path_with_version, prefetch_paths}
use ftc_designosaurs.Deps.Fetch.Paths.{FetchedBy, fetch_path_with_version_lem}
use ftc_designosaurs.Deps.Fetch.Prefetch.{Reported, prefetch_paths_lem}
use ftc_designosaurs.Deps.Fetch.Retries.{prefetch_paths-retries}

-- A disk: its files, and what can be downloaded.
record Disk : Type 0 where
  files : List String
  online : List String

abbrev download_file : String → String → String → String → Exec Disk Unit
download_file remote path bucket hash disk =
    if contains disk.online remote
    then (ok tt, record disk { files = path ∷ disk.files })
    else (err cloud_storage_error, disk)

abbrev disks : System
disks = record {
  State = Disk;
  exists = λ p disk. contains disk.files p;
  mtime = λ p disk. if contains ("new" ∷ "b" ∷ []) p then 2 else 1;
  dirname = λ p. "dir";
  abspath = λ p. p;
  join = λ p q. q;
  makedirs = λ p disk. (made, disk);
  get_if_hash_changed = download_file;
  set_executable = λ p disk. (ok tt, disk);
  rmtree_glob = λ p disk. disk;
  unzip_archive = λ p q disk. (ok tt, record disk { files = "inner" ∷ disk.files });
  exists-set_executable = λ p q disk. refl;
}

abbrev cloud : CloudStorageInfo
cloud = record {
  cs_bucket = "bucket";
  cs_hash = "hash";
  download_path = "tool";
  cs_remote_path = "remote";
  version_in_cs = some "1.2";
  archive_info = none;
}

abbrev info : String → String → Option Groups → Option CloudStorageInfo → DependencyInfo
info dep plat groups c = record {
  dependency = dep;
  platform = plat;
  config_paths = "config" ∷ [];
  local_path_info = groups;
  cloud_storage_info = c;
}

abbrev disk : Disk
disk = record { files = "a" ∷ "new" ∷ "old" ∷ []; online = "remote" ∷ [] }

abbrev first : Config
first = record {
  config_type = "BaseConfig";
  yielded = info "adb" "linux" (some (("missing" ∷ []) ∷ ("old" ∷ "new" ∷ []) ∷ [])) none ∷ [];
  raised = none;
}

abbrev second : Config
second = record {
  config_type = "BaseConfig";
  yielded =
      info "adb" "linux" (some (("a" ∷ []) ∷ [])) (some cloud)
      ∷ info "perf" "default" none (some cloud)
      ∷ [];
  raised = none;
}

abbrev known_groups : Groups
known_groups = ("missing" ∷ []) ∷ ("old" ∷ "new" ∷ []) ∷ []

abbrev on_disk : String → Bool
on_disk p = contains disk.files p

abbrev age : String → ℕ
age p = disks.mtime p disk

-- What a run of the code computes with.
program : Unit {0}
unfolding contains keep lookup insert LocalPath.get_local_path LocalPath.max_by LocalPath.update
    LocalPath.update_groups is_path_in_local_paths Cloud.get_remote_path Cloud.download
    Cloud.finish_download Info.update Info.get_local_path Info.get_remote_path_of_info
    Info.get_remote_path_version entry add_dependency_info add_all update_dependencies update_all
    init_manager get_dependency_info fetch_path_with_version fetch_info fetch_remote
program = tt

abbrev manager : LookupDict
manager = (init_manager [] (first ∷ second ∷ [])).1

found_run : LocalPath.get_local_path on_disk age known_groups ≡ some "new"
unfolding program
found_run = refl

fetch_local_run : (fetch_path_with_version disks manager "adb" "linux" disk).0 ≡ ok ("new", none)
unfolding program
fetch_local_run = refl

fetch_remote_run :
    (fetch_path_with_version disks manager "perf" "linux" disk).0 ≡ ok ("tool", some "1.2")
unfolding program
fetch_remote_run = refl

get_local_path_lem_example :
    Chosen on_disk age known_groups (LocalPath.get_local_path on_disk age known_groups)
get_local_path_lem_example = get_local_path_lem on_disk age known_groups

get_remote_path_lem_example :
    Ensures (RemotePath disks cloud) (Cloud.get_remote_path disks cloud disk)
get_remote_path_lem_example = get_remote_path_lem disks cloud disk

init_manager-EntriesExtend_example :
    EntriesExtend (init_manager [] (first ∷ [])).1 (init_manager [] (first ∷ second ∷ [])).1
init_manager-EntriesExtend_example = init_manager-EntriesExtend [] (first ∷ []) (second ∷ [])

IsKeyed-nil : IsKeyed []
unfolding entry lookup
IsKeyed-nil dep plat i e = absurd (cc)

add_dependency_info_lem_example :
    (add_dependency_info
      (info "perf" "default" none (some cloud))
      (update_all [] (second ∷ []) []).1).0
    ≡ (if conflicts
          (entry (update_all [] (second ∷ []) []).1 "perf" "default")
          (info "perf" "default" none (some cloud))
        then err value_error
        else ok tt)
add_dependency_info_lem_example =
    add_dependency_info_lem (info "perf" "default" none (some cloud))
      (update_all [] (second ∷ []) []).1 (update_all-IsKeyed [] (second ∷ []) [] IsKeyed-nil)

fetch_path_with_version_lem_example :
    Ensures
      (FetchedBy disks (get_dependency_info manager "perf" "linux") disk)
      (fetch_path_with_version disks manager "perf" "linux" disk)
fetch_path_with_version_lem_example = fetch_path_with_version_lem disks manager "perf" "linux" disk

prefetch_paths_lem_example :
    Ensures
      (Reported disks manager "linux" ("adb" ∷ "perf" ∷ "other" ∷ []))
      (prefetch_paths disks manager "linux" ("adb" ∷ "perf" ∷ "other" ∷ []) 3 disk)
prefetch_paths_lem_example =
    prefetch_paths_lem disks manager "linux" ("adb" ∷ "perf" ∷ "other" ∷ []) 3 disk

prefetch_paths-retries_example :
    prefetch_paths disks manager "linux" [] 3 disk ≡ prefetch_paths disks manager "linux" [] 0 disk
prefetch_paths-retries_example = prefetch_paths-retries disks 3 0 manager "linux" [] disk
