-- ===== src/Configs/Uploader.antt =====
-- The class CloudStorageUploader of uploader.py.
use Prim.Native.String.{◌++◌ as concat}
use ftc_designosaurs.Base.{
  String, Bool, true, false, not, ◌||◌, ◌&&◌, Option, none, some, is_empty, ◌==◌, comparable_string,
  if◌then◌else◌,
}
use ftc_designosaurs.Python.{
  Exec, Result, ok, err, pure, raise, ◌>>=◌, ◌>>◌, value_error, upload_conflict_error,
}
use ftc_designosaurs.Configs.Storage.{Storage}

pub record Uploader : Type 0 where
  pub cs_bucket : String
  pub cs_remote_path : String
  pub local_path : String
  pub cs_backup_path : Option String
  pub updated : Bool
  pub backed_up : Bool

-- __eq__ between two uploaders
abbrev pub equals : Uploader → Uploader → Bool
equals self other =
    (self.local_path == other.local_path)
    && (self.cs_remote_path == other.cs_remote_path)
    && (self.cs_bucket == other.cs_bucket)

abbrev pub backup_or_old : Option String → String → String
backup_or_old none remote_path = concat remote_path ".old"
backup_or_old (some path) remote_path = if is_empty path then concat remote_path ".old" else path

-- '%s' % path
abbrev pub path_text : Option String → String
path_text none = "None"
path_text (some path) = path

module _ (storage : Storage) where
  open storage use {State, path_exists, exists, copy, insert, delete}

  -- __init__
  unfoldable pub init_uploader : String → String → String → Option String → State → Result Uploader
  init_uploader bucket remote_path local_path cs_backup_path s =
      if is_empty bucket || is_empty remote_path || is_empty local_path
      then err value_error
      else if not (path_exists local_path s)
      then err value_error
      else ok (record {
        cs_bucket = bucket;
        cs_remote_path = remote_path;
        local_path = local_path;
        cs_backup_path = some (backup_or_old cs_backup_path remote_path);
        updated = false;
        backed_up = false;
      })

  -- The uploader and the world, which a method changes.
  abbrev pub Self : Type 0
  Self = Uploader × State

  abbrev pub outside : {A : Type 0} → Exec State A → Exec Self A
  outside call (u, s) = let (r, t) = call s in (r, (u, t))

  abbrev pub set_backed_up : Exec Self Unit
  set_backed_up (u, s) = (ok tt, (record u { backed_up = true }, s))

  abbrev pub set_updated : Exec Self Unit
  set_updated (u, s) = (ok tt, (record u { updated = true }, s))

  abbrev pub copy_to_backup : Exec Self Unit
  copy_to_backup (u, s) =
      (outside (copy u.cs_bucket u.cs_remote_path (path_text u.cs_backup_path)) >> set_backed_up)
        (u, s)

  -- What is done where a file is at the upload location.
  abbrev pub back_up : Bool → Bool → Exec Self Unit
  back_up force false = pure tt
  back_up false true = raise upload_conflict_error
  back_up true true = copy_to_backup

  abbrev pub insert_file : Exec Self Unit
  insert_file (u, s) =
      (outside (insert u.cs_bucket u.cs_remote_path u.local_path) >> set_updated) (u, s)

  -- Upload, whose two handlers log the error and raise it again
  unfoldable pub upload : Bool → Exec Self Unit
  upload force (u, s) =
      (do there ← outside (exists u.cs_bucket u.cs_remote_path); back_up force there; insert_file)
        (u, s)

  abbrev pub finish_rollback : Bool → Exec Self Bool
  finish_rollback changed (u, s) = (ok changed, (record u { updated = false }, s))

  abbrev pub drop_backup : Exec Self Bool
  drop_backup (u, s) = finish_rollback true (record u { cs_backup_path = none }, s)

  -- Rollback
  unfoldable pub rollback : Exec Self Bool
  rollback (u, s) =
      if u.backed_up
      then (outside (copy u.cs_bucket (path_text u.cs_backup_path) u.cs_remote_path) >> drop_backup)
          (u, s)
      else if u.updated
      then (outside (delete u.cs_bucket u.cs_remote_path) >> finish_rollback true) (u, s)
      else finish_rollback false (u, s)
