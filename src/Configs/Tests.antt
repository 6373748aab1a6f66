-- ===== src/Configs/Tests.antt =====
-- Small inputs for the theorems about the update jobs.
use ftc_designosaurs.Base.{
  contains, String, true, false, not, Option, none, some, List, [], ◌∷◌, ◌≡◌, refl, ◌==◌, ◌∙◌, ap,
  comparable_string, comparable_pair, if◌then◌else◌,
}
use Prim.Native.String.{◌++◌ as concat}
use ftc_designosaurs.Deps.System.{System, made}
use ftc_designosaurs.Configs.Infos.{
  format_path, replace, iter_dependency_info, iter_data, iter_platforms, info_of,
}
use ftc_designosaurs.Deps.Cloud.{init_archive_info, init_cloud_storage_info}
use ftc_designosaurs.Deps.Info.{init_dependency_info}
use ftc_designosaurs.Configs.Described.{described_all}
use ftc_designosaurs.Base.{ap}
use ftc_designosaurs.Deps.LocalPath.{parse_local_paths}
use ftc_designosaurs.Configs.Yields.{iter_dependency_info-Yields}
use ftc_designosaurs.Configs.Data.{Platform}
use ftc_designosaurs.Base.{map}
use ftc_designosaurs.Base.Dict.{Dict, lookup, insert, erase, lookup-insert, lookup-erase}
use ftc_designosaurs.Python.{
  Exec, Result, ok, err, Error, cloud_storage_error, empty_config_error, upload_conflict_error,
}
use ftc_designosaurs.Configs.Storage.{Storage, Key}
use ftc_designosaurs.Configs.Uploader.{Uploader, rollback, upload}
use ftc_designosaurs.Configs.Data.{ConfigFile, Data, is_none, dict_equal, all_in}
use ftc_designosaurs.Configs.Opened.{Disk, BaseConfig, is_dirty}
use ftc_designosaurs.Configs.Update.{validate_is_config_updatable}
use ftc_designosaurs.Configs.Jobs.{try_update, rollback_all, upload_all, execute_update_jobs}
use ftc_designosaurs.Configs.Pending.{execute_update_jobs-IsAtomic}

-- The files of the buckets, and the config file.
record World : Type 0 where
  files : Dict Key String
  config : Option ConfigFile

abbrev found_file : Key → World → Option String
found_file k w = lookup k w.files

abbrev copy_found : Key → World → Option String → Result Unit × World
copy_found k w none = (err cloud_storage_error, w)
copy_found k w (some x) = (ok tt, record w { files = insert k x w.files })

abbrev copy_file : String → String → String → Exec World Unit
copy_file b p t w = copy_found (b, t) w (lookup (b, p) w.files)

abbrev insert_local : String → String → String → Exec World Unit
insert_local b p l w = (ok tt, record w { files = insert (b, p) l w.files })

abbrev delete_file : String → String → Exec World Unit
delete_file b p w = (ok tt, record w { files = erase (b, p) w.files })

exists-none : (found : Option String) → ok (not (is_none found)) ≡ ok false → found ≡ none
exists-none none h = refl
exists-none (some x) h = absurd (cc)

copy_found_lem :
    (k q : Key) (w : World) (found : Option String)
    → (copy_found k w found).0 ≡ ok tt
    → found_file q (copy_found k w found).1 ≡ (if k == q then found else found_file q w)
copy_found_lem k q w none h = absurd (cc)
copy_found_lem k q w (some x) h = lookup-insert k q x w.files

copy_found_failed :
    (k q : Key) (w : World) (found : Option String) (e : Error)
    → (copy_found k w found).0 ≡ err e
    → found_file q (copy_found k w found).1 ≡ found_file q w
copy_found_failed k q w none e h = refl
copy_found_failed k q w (some x) e h = absurd (cc)

insert_elsewhere :
    (k q : Key) (x : String) (w : World)
    → (k == q) ≡ false
    → lookup q (insert k x w.files) ≡ lookup q w.files
insert_elsewhere k q x w h =
    lookup-insert k q x w.files ∙ ap (λ b. if b then some x else lookup q w.files) h

insert_succeeds :
    (k q : Key) (x : String) (w : World) (e : Error)
    → ok tt ≡ err e
    → lookup q (insert k x w.files) ≡ lookup q w.files
insert_succeeds k q x w e h = absurd (cc)

abbrev buckets : Storage
buckets = record {
  State = World;
  file = found_file;
  path_exists = λ p w. true;
  exists = λ b p w. (ok (not (is_none (lookup (b, p) w.files))), w);
  copy = copy_file;
  insert = insert_local;
  delete = delete_file;
  file-exists = λ b p q w. refl;
  exists-absent = λ b p w. exists-none (lookup (b, p) w.files);
  file-copy = λ b p t q w. copy_found_lem (b, t) q w (lookup (b, p) w.files);
  file-copy_failed = λ b p t q w. copy_found_failed (b, t) q w (lookup (b, p) w.files);
  file-insert = λ b p l q w h. insert_elsewhere (b, p) q l w h;
  file-insert_failed = λ b p l q w e h. insert_succeeds (b, p) q l w e h;
  file-delete = λ b p q w h. lookup-erase (b, p) q w.files;
}

abbrev load : Option ConfigFile → Result ConfigFile
load none = err empty_config_error
load (some f) = ok f

abbrev config_disk : Disk buckets
config_disk = record {
  config_exists = λ p w. not (is_none w.config);
  load_config = λ p w. load w.config;
  write_config = λ p f w. (ok tt, record w { config = some f });
  calculate_hash = λ p w. (ok "hash", w);
  file-write_config = λ p f q w. refl;
}

abbrev saved : ConfigFile
saved = record { config_type = some "BaseConfig"; dependencies = some [] }

abbrev world : World
world = record { files = (("bucket", "second"), "old") ∷ []; config = some saved }

abbrev uploader : String → Uploader
uploader path = record {
  cs_bucket = "bucket";
  cs_remote_path = path;
  local_path = "local";
  cs_backup_path = some path;
  updated = false;
  backed_up = false;
}

abbrev uploader_with : String → String → Uploader
uploader_with path backup = record (uploader path) { cs_backup_path = some backup }

abbrev deps : Data
deps =
    (
      "tool",
      record {
        cloud_storage_base_folder = none;
        cloud_storage_bucket = some "bucket";
        file_info = some [];
      },
    )
    ∷ []

abbrev config : List Uploader → BaseConfig
config us = record {
  config_path = "config.json";
  writable = true;
  pending_uploads = us;
  config_data = deps;
}

abbrev uploads : List Uploader
uploads = uploader_with "first" "first.old" ∷ uploader_with "second" "second.old" ∷ []

-- The second upload finds a file, and the first one is undone.
execute_update_jobs-IsAtomic_example :
    found_file
      ("bucket", "first")
      (execute_update_jobs buckets config_disk false (config uploads, world)).1.1
    ≡ none
unfolding rollback lookup contains upload upload_all rollback_all try_update execute_update_jobs
    dict_equal validate_is_config_updatable is_dirty insert erase all_in
execute_update_jobs-IsAtomic_example =
    execute_update_jobs-IsAtomic buckets config_disk false (config uploads) world
      upload_conflict_error ("bucket", "first")
      ((refl, refl, refl), refl, ((refl, refl, refl), refl, tt)) refl refl refl

abbrev backed_up : Uploader
backed_up = record (uploader_with "second" "second") { backed_up = true }

abbrev paths : System
paths = record {
  State = Unit;
  exists = λ p w. true;
  mtime = λ p w. 0;
  dirname = λ p. "dir";
  abspath = λ p. p;
  join = λ p q. concat p (concat "/" q);
  makedirs = λ p w. (made, w);
  get_if_hash_changed = λ a b c d w. (ok tt, w);
  set_executable = λ p w. (ok tt, w);
  rmtree_glob = λ p w. w;
  unzip_archive = λ p q w. (ok tt, w);
  exists-set_executable = λ p q w. refl;
}

abbrev local_tool : Platform
local_tool = record {
  cloud_storage_hash = none;
  download_path = none;
  version_in_cs = none;
  path_within_archive = none;
  local_paths = some ("bin\\tool" ∷ []);
}

abbrev cloud_tool : Platform
cloud_tool = record {
  cloud_storage_hash = some "a1";
  download_path = some "get/tool.zip";
  version_in_cs = none;
  path_within_archive = some "tool";
  local_paths = none;
}

abbrev reading : BaseConfig
reading = record {
  config_path = "config.json";
  writable = false;
  pending_uploads = [];
  config_data =
      (
        "tool",
        record {
          cloud_storage_base_folder = none;
          cloud_storage_bucket = some "bucket";
          file_info = some (("linux", local_tool) ∷ ("win", cloud_tool) ∷ []);
        },
      )
      ∷ [];
}

iter_dependency_info-Yields_example :
    map (λ i. i.local_path_info) (iter_dependency_info paths "/" reading).0
    ≡ some (("dir/bin/tool" ∷ []) ∷ []) ∷ none ∷ []
unfolding iter_dependency_info iter_data iter_platforms info_of init_dependency_info
    init_archive_info format_path replace init_cloud_storage_info described_all parse_local_paths
iter_dependency_info-Yields_example =
    ap (map (λ i. i.local_path_info)) (iter_dependency_info-Yields paths "/" reading refl refl)
