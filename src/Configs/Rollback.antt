-- ===== src/Configs/Rollback.antt =====
-- Rollback after Upload, of uploader.py.
use ftc_designosaurs.Base.{
  Bool, true, false, none, List, contains, ◌==◌, comparable_string, comparable_pair, if◌then◌else◌,
  ◌≡◌, refl, ap, ◌∙◌, equal_self,
}
use ftc_designosaurs.Python.{Result, ok, err, ◌>>◌, and_then}
use ftc_designosaurs.Configs.Storage.{Storage, Key}
use ftc_designosaurs.Configs.Uploader.{
  Uploader, Self, upload, back_up, insert_file, copy_to_backup, set_updated, set_backed_up,
  path_text,
}

-- The keys that are compared, as pairs.
abbrev pub is_key : Key → Key → Bool
is_key k q = k == q

abbrev pub remote_key : Uploader → Key
remote_key u = (u.cs_bucket, u.cs_remote_path)

abbrev pub backup_key : Uploader → Key
backup_key u = (u.cs_bucket, path_text u.cs_backup_path)

-- Nothing has been uploaded, and the backup has a place of its own.
abbrev pub IsNew : Uploader → Type 0
IsNew u =
    (u.updated ≡ false) × (u.backed_up ≡ false) × (is_key (remote_key u) (backup_key u) ≡ false)

module _ (storage : Storage) where
  open storage use {
    State, file, exists, copy, insert, delete, file-exists, exists-absent, file-copy,
    file-copy_failed, file-insert, file-insert_failed, file-delete,
  }

  -- The same files, but for some keys.
  abbrev pub SameBut : List Key → State → State → Type 0
  SameBut ks s t = (q : Key) → contains ks q ≡ false → file q t ≡ file q s

  -- What Upload may leave, however it ends.
  pub data Uploaded (u : Uploader) (s : State) (u' : Uploader) (s' : State) : Type 0 where
    untouched : u' ≡ u → ((q : Key) → file q s' ≡ file q s) → Uploaded u s u' s'
    inserted :
        u' ≡ record u { updated = true }
        → file (remote_key u) s ≡ none
        → ((q : Key) → is_key (remote_key u) q ≡ false → file q s' ≡ file q s)
        → Uploaded u s u' s'
    backed :
        (b : Bool)
        → u' ≡ record u { backed_up = true; updated = b }
        → file (backup_key u) s' ≡ file (remote_key u) s
        → ((q : Key)
            → is_key (remote_key u) q ≡ false
            → is_key (backup_key u) q ≡ false
            → file q s' ≡ file q s)
        → Uploaded u s u' s'

  abbrev Ended : Uploader → State → Result Unit × (Uploader × State) → Type 0
  Ended u s out = Uploaded u s out.1.0 out.1.1

  -- The insertion where no file was there.
  insert_absent :
      (u : Uploader) (s t : State)
      → ((q : Key) → file q t ≡ file q s)
      → file (remote_key u) s ≡ none
      → Ended u s (insert_file storage (u, t))
  insert_absent u s t same absent =
      by_result (insert u.cs_bucket u.cs_remote_path u.local_path t).0 refl
    where
      by_result :
          (r : Result Unit)
          → (insert u.cs_bucket u.cs_remote_path u.local_path t).0 ≡ r
          → Ended u s (
              and_then r
                (λ x. set_updated storage)
                (u, (insert u.cs_bucket u.cs_remote_path u.local_path t).1))
      by_result (ok x) e =
          inserted refl absent
            (λ q n. file-insert u.cs_bucket u.cs_remote_path u.local_path q t n ∙ same q)
      by_result (err x) e =
          untouched refl
            (λ q. file-insert_failed u.cs_bucket u.cs_remote_path u.local_path q t x e ∙ same q)

  -- The insertion after a copy to the backup location.
  insert_backed :
      (u : Uploader) (s t : State)
      → is_key (remote_key u) (backup_key u) ≡ false
      → ((q : Key)
          → file q t ≡ (if is_key (backup_key u) q then file (remote_key u) s else file q s))
      → Ended u s (insert_file storage (record u { backed_up = true }, t))
  insert_backed u s t apart copied =
      by_result (insert u.cs_bucket u.cs_remote_path u.local_path t).0 refl
    where
      at_backup : file (backup_key u) t ≡ file (remote_key u) s
      at_backup =
          copied (backup_key u)
          ∙ ap (λ b. if b then file (remote_key u) s else file (backup_key u) s)
              (equal_self (backup_key u))

      elsewhere : (q : Key) → is_key (backup_key u) q ≡ false → file q t ≡ file q s
      elsewhere q n = copied q ∙ ap (λ b. if b then file (remote_key u) s else file q s) n

      by_result :
          (r : Result Unit)
          → (insert u.cs_bucket u.cs_remote_path u.local_path t).0 ≡ r
          → Ended u s (
              and_then r
                (λ x. set_updated storage)
                (
                  record u { backed_up = true },
                  (insert u.cs_bucket u.cs_remote_path u.local_path t).1,
                ))
      by_result (ok x) e =
          backed true refl
            (file-insert u.cs_bucket u.cs_remote_path u.local_path (backup_key u) t apart
              ∙ at_backup)
            (λ q n m. file-insert u.cs_bucket u.cs_remote_path u.local_path q t n ∙ elsewhere q m)
      by_result (err x) e =
          backed u.updated refl
            (file-insert_failed u.cs_bucket u.cs_remote_path u.local_path (backup_key u) t x e
              ∙ at_backup)
            (λ q n m.
              file-insert_failed u.cs_bucket u.cs_remote_path u.local_path q t x e ∙ elsewhere q m)

  copy_backed :
      (u : Uploader) (s t : State)
      → is_key (remote_key u) (backup_key u) ≡ false
      → ((q : Key) → file q t ≡ file q s)
      → Ended u s ((copy_to_backup storage >> insert_file storage) (u, t))
  copy_backed u s t apart same =
      by_result (copy u.cs_bucket u.cs_remote_path (path_text u.cs_backup_path) t).0 refl
    where
      by_result :
          (r : Result Unit)
          → (copy u.cs_bucket u.cs_remote_path (path_text u.cs_backup_path) t).0 ≡ r
          → Ended u s (
              (λ (before : Self storage).
                  let out =
                    and_then r
                      (λ x. set_backed_up storage)
                      (u, (copy u.cs_bucket u.cs_remote_path (path_text u.cs_backup_path) t).1) in
                  and_then out.0 (λ x. insert_file storage) out.1)
                (u, t))
      by_result (ok x) e =
          insert_backed u s (copy u.cs_bucket u.cs_remote_path (path_text u.cs_backup_path) t).1
            apart
            (λ q.
              file-copy u.cs_bucket u.cs_remote_path (path_text u.cs_backup_path) q t e ∙ two_ifs q)
        where
          two_ifs :
              (q : Key)
              → (if is_key (backup_key u) q then file (remote_key u) t else file q t)
                ≡ (if is_key (backup_key u) q then file (remote_key u) s else file q s)
          two_ifs q =
              ap (λ x. if is_key (backup_key u) q then x else file q t) (same (remote_key u))
              ∙ ap (λ x. if is_key (backup_key u) q then file (remote_key u) s else x) (same q)
      by_result (err x) e = untouched refl (λ q.
          file-copy_failed u.cs_bucket u.cs_remote_path (path_text u.cs_backup_path) q t x e
          ∙ same q)

  -- What Upload leaves of a new uploader.
  pub upload_lem :
      (force : Bool) (u : Uploader) (s : State) → IsNew u → Ended u s (upload storage force (u, s))
  unfolding upload
  upload_lem force u s (_, _, apart) =
      by_result (exists u.cs_bucket u.cs_remote_path s).0 refl force
    where
      same : (q : Key) → file q (exists u.cs_bucket u.cs_remote_path s).1 ≡ file q s
      same q = file-exists u.cs_bucket u.cs_remote_path q s

      by_result :
          (r : Result Bool)
          → (exists u.cs_bucket u.cs_remote_path s).0 ≡ r
          → (f : Bool)
          → Ended u s (
              and_then r
                (λ there. back_up storage f there >> insert_file storage)
                (u, (exists u.cs_bucket u.cs_remote_path s).1))
      by_result (err x) e f = untouched refl same
      by_result (ok false) e f =
          insert_absent u s (exists u.cs_bucket u.cs_remote_path s).1 same
            (exists-absent u.cs_bucket u.cs_remote_path s e)
      by_result (ok true) e false = untouched refl same
      by_result (ok true) e true =
          copy_backed u s (exists u.cs_bucket u.cs_remote_path s).1 apart same
