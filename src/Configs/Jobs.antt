-- ===== src/Configs/Jobs.antt =====
-- The update jobs of the class BaseConfig of base_config.py.
use ftc_designosaurs.Base.{
  String, Bool, true, false, Option, none, some, List, [], ◌∷◌, ◌++◌, if◌then◌else◌,
}
use ftc_designosaurs.Python.{Exec, Result, ok, err, Error, pure, ◌>>=◌, ◌>>◌}
use ftc_designosaurs.Configs.Storage.{Storage}
use ftc_designosaurs.Configs.Uploader.{Uploader, init_uploader, upload, rollback}
use ftc_designosaurs.Configs.Data.{bucket_data, base_folder_data, hash_data, version_data}
use ftc_designosaurs.Configs.Opened.{
  Disk, BaseConfig, Self, outside, cloud_storage_remote_path, or_empty_text, write_config_to_file,
  is_dirty,
}
use ftc_designosaurs.Configs.Update.{
  validate_is_config_updatable, set_platform_data, get_data_of, is_true,
}

module _ (storage : Storage) where
  open storage use {State}

  -- The uploaders of a list and the world, which a loop over them changes.
  abbrev pub Jobs : Type 0
  Jobs = Result Unit × (List Uploader × State)

  abbrev pub with_first : Uploader → Jobs → Jobs
  with_first u (r, (us, s)) = (r, (u ∷ us, s))

  -- The loop over _pending_uploads
  unfoldable pub upload_all : Bool → List Uploader → State → Jobs
  upload_all force [] s = (ok tt, ([], s))
  upload_all force (u ∷ us) s =
      let rest = upload_all force us (upload storage force (u, s)).1.1 in
      elim (upload storage force (u, s)).0 [
        | ok x ↦ with_first (upload storage force (u, s)).1.0 rest
        | err e ↦
            (err e, ((upload storage force (u, s)).1.0 ∷ us, (upload storage force (u, s)).1.1))
      ]

  abbrev pub rollback_first : Uploader → Jobs → Jobs
  rollback_first u (err e, (us, s)) = (err e, (u ∷ us, s))
  rollback_first u (ok x, (us, s)) =
      let (r, (u', t)) = rollback storage (u, s) in
      (elim r [ ok changed ↦ ok tt | err e ↦ err e ], (u' ∷ us, t))

  -- The loop over reversed(_pending_uploads)
  unfoldable pub rollback_all : List Uploader → State → Jobs
  rollback_all [] s = (ok tt, ([], s))
  rollback_all (u ∷ us) s = rollback_first u (rollback_all us s)

  module _ (disk : Disk storage) where
    open disk use {calculate_hash}

    -- The uploads, and the config that is written after them
    abbrev pub write_after : BaseConfig → Jobs → Jobs
    write_after c (err e, (us, s)) = (err e, (us, s))
    write_after c (ok x, (us, s)) =
        let (r, t) = write_config_to_file storage disk c.config_path c.config_data s in (r, (us, t))

    unfoldable pub try_update : Bool → BaseConfig → State → Jobs
    try_update force c s = write_after c (upload_all force c.pending_uploads s)

    -- The error of the try block, or the one of a rollback that raises
    abbrev pub raised_by : Error → Jobs → Error
    raised_by e (ok x, after) = e
    raised_by e (err f, after) = f

    abbrev pub finish_update : BaseConfig → Jobs → Result Bool × Self storage disk
    finish_update c (ok x, (us, s)) = (ok true, (record c { pending_uploads = [] }, s))
    finish_update c (err e, (us, s)) =
        let out = rollback_all us s in
        (err (raised_by e out), (record c { pending_uploads = out.1.0 }, out.1.1))

    abbrev pub run_jobs :
        List Uploader → Bool → BaseConfig → State → Result Bool × Self storage disk
    run_jobs [] force c s = (ok true, (c, s))
    run_jobs (u ∷ us) force c s = finish_update c (try_update force c s)

    abbrev pub update_dirty : Bool → Bool → Exec (Self storage disk) Bool
    update_dirty force false = pure false
    update_dirty force true = λ (c, s). run_jobs c.pending_uploads force c s

    -- ExecuteUpdateJobs
    unfoldable pub execute_update_jobs : Bool → Exec (Self storage disk) Bool
    execute_update_jobs force = do
      validate_is_config_updatable storage disk false none none
      dirty ← is_dirty storage disk
      update_dirty force dirty

    abbrev pub set_version : String → String → Option String → Exec (Self storage disk) Unit
    set_version dependency platform version =
        if is_true storage disk version
        then set_platform_data storage disk dependency platform version_data (or_empty_text version)
        else pure tt

    abbrev pub append_upload : Result Uploader → Exec (Self storage disk) Unit
    append_upload (err e) self = (err e, self)
    append_upload (ok u) (c, s) =
        (ok tt, (record c { pending_uploads = c.pending_uploads ++ u ∷ [] }, s))

    abbrev pub add_upload : String → String → String → Exec (Self storage disk) Unit
    add_upload bucket remote_path path (c, s) =
        append_upload (init_uploader storage bucket remote_path path none s) (c, s)

    abbrev pub execute_if : Bool → Exec (Self storage disk) Unit
    execute_if false = pure tt
    execute_if true = do execute_update_jobs false; pure tt

    -- AddCloudStorageDependencyUpdateJob
    unfoldable pub add_cloud_storage_dependency_update_job :
        String → String → String → Option String → Bool → Exec (Self storage disk) Unit
    add_cloud_storage_dependency_update_job dependency platform path version execute_job = do
      validate_is_config_updatable storage disk execute_job (some dependency) (some platform)
      cs_hash ← outside storage disk (calculate_hash path)
      set_version dependency platform version
      set_platform_data storage disk dependency platform hash_data cs_hash
      folder ← get_data_of storage disk dependency platform base_folder_data
      bucket ← get_data_of storage disk dependency platform bucket_data
      add_upload (or_empty_text bucket) (cloud_storage_remote_path dependency cs_hash folder) path
      execute_if execute_job
