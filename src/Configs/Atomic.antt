-- ===== src/Configs/Atomic.antt =====
-- The uploads of ExecuteUpdateJobs of base_config.py, all of them or none.
use ftc_designosaurs.Base.{
  Bool, false, List, [], ◌∷◌, contains, comparable_string, comparable_pair, ◌≡◌, refl,
}
use ftc_designosaurs.Python.{Result, ok, err}
use ftc_designosaurs.Configs.Storage.{Storage, Key}
use ftc_designosaurs.Configs.Uploader.{Uploader, Self, upload, rollback}
use ftc_designosaurs.Configs.Rollback.{backup_key, IsNew, SameBut}
use ftc_designosaurs.Configs.Restored.{RollsBack, rollback_untouched, rollback_lem}
use ftc_designosaurs.Configs.Jobs.{Jobs, upload_all, rollback_all, rollback_first, with_first}

abbrev pub backup_keys : List Uploader → List Key
backup_keys [] = []
backup_keys (u ∷ us) = backup_key u ∷ backup_keys us

-- Nothing has been uploaded, and no two backups have one place.
abbrev pub AreNew : List Uploader → Type 0
AreNew [] = Unit
AreNew (u ∷ us) = IsNew u × (contains (backup_keys us) (backup_key u) ≡ false) × AreNew us

module _ (storage : Storage) where
  open storage use {State, file}

  -- Rollbacks that all return leave the files of the state s, but for some keys.
  abbrev pub Undone : List Key → State → Jobs storage → Type 0
  Undone ks s out = out.0 ≡ ok tt → SameBut storage ks s out.1.1

  Undone-first :
      (u' u : Uploader) (s s' : State) (ks : List Key) (out : Jobs storage)
      → Undone ks s' out
      → ((t : State)
          → SameBut storage ks s' t
          → RollsBack storage (backup_key u ∷ ks) s (rollback storage (u', t)))
      → Undone (backup_key u ∷ ks) s (rollback_first storage u' out)
  Undone-first u' u s s' ks (err e, (us, t)) rest here = λ h. absurd (cc)
  Undone-first u' u s s' ks (ok tt, (us, t)) rest here =
      by_result (rollback storage (u', t)) (here t (rest refl))
    where
      by_result :
          (out : Result Bool × Self storage)
          → RollsBack storage (backup_key u ∷ ks) s out
          → Undone
              (backup_key u ∷ ks)
              s
              (elim out.0 [ ok changed ↦ ok tt | err e ↦ err e ], (out.1.0 ∷ us, out.1.1))
      by_result (ok changed, after) h = λ e. h changed refl
      by_result (err x, after) h = λ e. absurd (cc)

  -- Rollbacks of what has not been uploaded.
  Undone-new :
      (us : List Uploader) (s t : State)
      → AreNew us
      → SameBut storage [] s t
      → Undone (backup_keys us) s (rollback_all storage us t)
  unfolding rollback_all
  Undone-new [] s t fresh same = λ e. same
  Undone-new (u ∷ us) s t (new, free, fresh) same =
      Undone-first u u s s (backup_keys us) (rollback_all storage us t)
        (Undone-new us s t fresh same)
        (λ after h. rollback_untouched storage u s s after (backup_keys us) new (λ q. refl) h)

  -- Rollbacks of what upload_all has left, of its uploads some or all.
  pub Undone-uploads :
      (force : Bool) (us : List Uploader) (s t : State)
      → AreNew us
      → SameBut storage [] (upload_all storage force us s).1.1 t
      → Undone (backup_keys us) s (rollback_all storage (upload_all storage force us s).1.0 t)
  unfolding upload_all rollback_all
  Undone-uploads force [] s t fresh same = λ e. same
  Undone-uploads force (u ∷ us) s t (new, free, fresh) same =
      by_upload (Undone-uploads force us (upload storage force (u, s)).1.1 t fresh)
        (upload storage force (u, s)).0 same
    where
      out : Self storage
      out = (upload storage force (u, s)).1

      first :
          (left : Jobs storage)
          → Undone (backup_keys us) out.1 left
          → Undone (backup_key u ∷ backup_keys us) s (rollback_first storage out.0 left)
      first left rest =
          Undone-first out.0 u s out.1 (backup_keys us) left rest
            (λ after h. rollback_lem storage force u s after (backup_keys us) new free h)

      rest_of : Result Unit → Jobs storage
      rest_of r = elim r [
        | ok x ↦ with_first storage out.0 (upload_all storage force us out.1)
        | err e ↦ (err e, (out.0 ∷ us, out.1))
      ]

      by_upload :
          (SameBut storage [] (upload_all storage force us out.1).1.1 t
            → Undone
                (backup_keys us)
                out.1
                (rollback_all storage (upload_all storage force us out.1).1.0 t))
          → (r : Result Unit) → SameBut storage [] (rest_of r).1.1 t
          → Undone (backup_key u ∷ backup_keys us) s (rollback_all storage (rest_of r).1.0 t)
      by_upload others (ok x) same =
          first (rollback_all storage (upload_all storage force us out.1).1.0 t) (others same)
      by_upload others (err e) same =
          first (rollback_all storage us t) (Undone-new us out.1 t fresh same)
