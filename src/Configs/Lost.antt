-- ===== src/Configs/Lost.antt =====
-- What the update jobs of base_config.py and uploader.py lose.
use ftc_designosaurs.Base.{Bool, true, false, ◌≡◌, refl, ap, subst, sym, if◌then◌else◌}
use ftc_designosaurs.Python.{Result, ok, err, and_then, ◌>>◌}
use ftc_designosaurs.Configs.Storage.{Storage}
use ftc_designosaurs.Configs.Uploader.{
  Uploader, rollback, outside, drop_backup, finish_rollback, path_text,
}
use ftc_designosaurs.Configs.Rollback.{backup_key}

module _ (storage : Storage) where
  open storage use {State, copy, delete}

  -- A Rollback that copies the backup back leaves an uploader that is still marked as backed up,
  -- and that makes its next backup at the path "None".
  pub rollback_forgets :
      (u : Uploader) (s : State) (changed : Bool)
      → u.backed_up ≡ true
      → (rollback storage (u, s)).0 ≡ ok changed
      → (changed ≡ true)
        × (backup_key (rollback storage (u, s)).1.0 ≡ (u.cs_bucket, "None"))
        × ((rollback storage (u, s)).1.0.backed_up ≡ true)
  unfolding rollback
  rollback_forgets u s changed backed =
      subst Forgets
        (sym (
          ap
            (λ b.
              if b
              then copied_back
              else if u.updated
              then (outside storage (delete u.cs_bucket u.cs_remote_path)
                    >> finish_rollback storage true)
                  (u, s)
              else finish_rollback storage false (u, s))
            backed))
        (by_result (copy u.cs_bucket (path_text u.cs_backup_path) u.cs_remote_path s))
    where
      Forgets : Result Bool × (Uploader × State) → Type 0
      Forgets out =
          out.0 ≡ ok changed
          → (changed ≡ true)
            × (backup_key out.1.0 ≡ (u.cs_bucket, "None"))
            × (out.1.0.backed_up ≡ true)

      copied_back : Result Bool × (Uploader × State)
      copied_back =
          (outside storage (copy u.cs_bucket (path_text u.cs_backup_path) u.cs_remote_path)
              >> drop_backup storage)
            (u, s)

      by_result :
          (out : Result Unit × State)
          → Forgets (and_then out.0 (λ x. drop_backup storage) (u, out.1))
      by_result (ok x, t) = λ e. (cc, refl, backed)
      by_result (err x, t) = λ e. absurd (cc)
