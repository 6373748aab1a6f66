-- ===== src/Configs/Pending.antt =====
-- What ExecuteUpdateJobs of base_config.py leaves in cloud storage.
use ftc_designosaurs.Base.{
  comparable_pair, comparable_string, if◌then◌else◌, Option, String, ◌&&◌, Bool, true, false, List,
  [], ◌∷◌, ◌≡◌, refl, ap, subst, ◌∙◌, contains, none, sym,
}
use ftc_designosaurs.Python.{
  Exec, Result, ok, err, and_then, Error, Leaves-bind, ◌>>=◌, ◌>>◌, read_write_error,
}
use ftc_designosaurs.Configs.Storage.{Storage, Key}
use ftc_designosaurs.Configs.Uploader.{Uploader}
use ftc_designosaurs.Configs.Rollback.{SameBut}
use ftc_designosaurs.Configs.Opened.{
  Disk, BaseConfig, Self, write_config_to_file, is_dirty, get_json_dict,
  validate_is_config_writable,
}
use ftc_designosaurs.Configs.Update.{refuse_if, check_known, validate_is_config_updatable}
use ftc_designosaurs.Configs.Jobs.{
  Jobs, upload_all, rollback_all, write_after, try_update, finish_update, execute_update_jobs,
  run_jobs, update_dirty,
}
use ftc_designosaurs.Configs.Atomic.{backup_keys, AreNew, Undone, Undone-uploads}

module _ (storage : Storage) (disk : Disk storage) where
  open storage use {State, file}
  open disk use {file-write_config, load_config}

  -- The rollbacks after the try block.
  abbrev pub rollbacks : Bool → BaseConfig → State → Jobs storage
  rollbacks force c s =
      rollback_all storage (try_update storage disk force c s).1.0
        (try_update storage disk force c s).1.1

  Undone-write_after :
      (c : BaseConfig) (s : State) (ks : List Key) (out : Jobs storage)
      → ((t : State)
          → SameBut storage [] out.1.1 t
          → Undone storage ks s (rollback_all storage out.1.0 t))
      → Undone storage ks s (
          rollback_all storage
            (write_after storage disk c out).1.0
            (write_after storage disk c out).1.1)
  Undone-write_after c s ks (ok x, (us, t)) h =
      h (write_config_to_file storage disk c.config_path c.config_data t).1
        (λ q e. file-write_config c.config_path (get_json_dict c.config_data) q t)
  Undone-write_after c s ks (err e, (us, t)) h = h t (λ q n. refl)

  Undone-try_update :
      (force : Bool) (c : BaseConfig) (s : State)
      → AreNew c.pending_uploads
      → Undone storage (backup_keys c.pending_uploads) s (rollbacks force c s)
  unfolding try_update
  Undone-try_update force c s fresh =
      Undone-write_after c s (backup_keys c.pending_uploads)
        (upload_all storage force c.pending_uploads s)
        (λ t same. Undone-uploads storage force c.pending_uploads s t fresh same)

  -- After an error the files of the state s, but for some keys.
  abbrev Unchanged : List Key → State → Result Bool × Self storage disk → Type 0
  Unchanged ks s out = (e : Error) → out.0 ≡ err e → SameBut storage ks s out.1.1

  Unchanged-finish_update :
      (c : BaseConfig) (s : State) (ks : List Key) (out : Jobs storage)
      → Undone storage ks s (rollback_all storage out.1.0 out.1.1)
      → (rollback_all storage out.1.0 out.1.1).0 ≡ ok tt
      → Unchanged ks s (finish_update storage disk c out)
  Unchanged-finish_update c s ks (ok x, (us, t)) h done = λ e f. absurd (cc)
  Unchanged-finish_update c s ks (err x, (us, t)) h done = λ e f. h done

  Unchanged-run_jobs :
      (us : List Uploader) (force : Bool) (c : BaseConfig) (s : State)
      → AreNew c.pending_uploads
      → (rollbacks force c s).0 ≡ ok tt
      → Unchanged (backup_keys c.pending_uploads) s (run_jobs storage disk us force c s)
  Unchanged-run_jobs [] force c s fresh done = λ e f q n. refl
  Unchanged-run_jobs (u ∷ us) force c s fresh done =
      Unchanged-finish_update c s (backup_keys c.pending_uploads)
        (try_update storage disk force c s) (Undone-try_update force c s fresh) done

  Unchanged-update_dirty :
      (dirty force : Bool) (c : BaseConfig) (s : State)
      → AreNew c.pending_uploads
      → (rollbacks force c s).0 ≡ ok tt
      → Unchanged (backup_keys c.pending_uploads) s (update_dirty storage disk force dirty (c, s))
  Unchanged-update_dirty false force c s fresh done = λ e f q n. refl
  Unchanged-update_dirty true force c s fresh done =
      Unchanged-run_jobs c.pending_uploads force c s fresh done

  Unchanged-then :
      {A : Type 0} (c : BaseConfig) (s : State) (ks : List Key)
      (f : A → Exec (Self storage disk) Bool) (out : Result A × Self storage disk)
      → out.1 ≡ (c, s)
      → ((a : A) → Unchanged ks s (f a (c, s)))
      → Unchanged ks s (and_then out.0 f out.1)
  Unchanged-then c s ks f (ok a, self) same h = subst (λ z. Unchanged ks s (f a z)) (sym same) (h a)
  Unchanged-then c s ks f (err x, self) same h = λ e g q n. ap (λ z. file q z.1) same

  keeps_if :
      (b : Bool) (self : Self storage disk) (x : Error)
      → (let out : Result Unit × Self storage disk = if b then (ok tt, self) else (err x, self) in
          out.1 ≡ self)
  keeps_if true self x = refl
  keeps_if false self x = refl

  keeps_refuse : (b : Bool) (self : Self storage disk) → (refuse_if storage disk b self).1 ≡ self
  keeps_refuse true self = refl
  keeps_refuse false self = refl

  pub validate_keeps :
      (execute_job : Bool) (dependency platform : Option String) (c : BaseConfig) (s : State)
      → (validate_is_config_updatable storage disk execute_job dependency platform (c, s)).1
        ≡ (c, s)
  unfolding validate_is_config_updatable is_dirty
  validate_keeps execute_job dependency platform c s =
      Leaves-bind keeps (validate_is_config_writable storage disk)
        (λ x. is_dirty storage disk >>= (λ dirty.
          refuse_if storage disk (dirty && execute_job)
          >> check_known storage disk dependency platform))
        (c, s) (keeps_if c.writable (c, s) read_write_error)
        (λ x self same.
          Leaves-bind keeps (is_dirty storage disk)
            (λ dirty.
              refuse_if storage disk (dirty && execute_job)
              >> check_known storage disk dependency platform)
            self same
            (λ dirty self same.
              Leaves-bind keeps (refuse_if storage disk (dirty && execute_job))
                (λ x. check_known storage disk dependency platform) self
                (keeps_refuse (dirty && execute_job) self ∙ same) (λ x self same. same)))
    where
      keeps : Self storage disk → Type 0
      keeps self = self ≡ (c, s)

  -- Where ExecuteUpdateJobs raises and every Rollback returns, cloud storage has the files that it
  -- had before the call, but for those at the backup paths. This is for pending uploads of which
  -- none has been started, whose backup paths differ from each other and from the upload paths
  -- they belong to.
  pub execute_update_jobs-IsAtomic :
      (force : Bool) (c : BaseConfig) (s : State) (e : Error) (q : Key)
      → AreNew c.pending_uploads
      → (rollbacks force c s).0 ≡ ok tt
      → (execute_update_jobs storage disk force (c, s)).0 ≡ err e
      → contains (backup_keys c.pending_uploads) q ≡ false
      → file q (execute_update_jobs storage disk force (c, s)).1.1 ≡ file q s
  unfolding execute_update_jobs is_dirty
  execute_update_jobs-IsAtomic force c s e q fresh done raised apart =
      Unchanged-then c s (backup_keys c.pending_uploads)
        (λ x. is_dirty storage disk >>= update_dirty storage disk force)
        (validate_is_config_updatable storage disk false none none (c, s))
        (validate_keeps false none none c s)
        (λ x.
          Unchanged-then c s (backup_keys c.pending_uploads) (update_dirty storage disk force)
            (is_dirty storage disk (c, s)) refl
            (λ dirty. Unchanged-update_dirty dirty force c s fresh done))
        e raised q apart
