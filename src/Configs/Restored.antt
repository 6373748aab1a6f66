-- ===== src/Configs/Restored.antt =====
-- What Rollback of uploader.py restores.
use ftc_designosaurs.Base.{
  Bool, true, false, none, List, ◌∷◌, contains, comparable_string, comparable_pair, if◌then◌else◌,
  ◌≡◌, refl, sym, ap, subst, ◌∙◌, Bool-cases, inl, inr, ◌||◌,
}
use ftc_designosaurs.Python.{Result, ok, err, ◌>>◌, and_then}
use ftc_designosaurs.Configs.Storage.{Storage, Key}
use ftc_designosaurs.Configs.Uploader.{
  Uploader, upload, rollback, outside, drop_backup, finish_rollback, path_text,
}
use ftc_designosaurs.Configs.Rollback.{
  is_key, remote_key, backup_key, IsNew, SameBut, Uploaded, untouched, inserted, backed, upload_lem,
}

not_first : (k q : Key) (ks : List Key) → contains (k ∷ ks) q ≡ false → is_key k q ≡ false
unfolding contains
not_first k q ks h = elim (Bool-cases (is_key k q)) [
  | inl e ↦ absurd (true_or (is_key k q) (contains ks q) e h)
  | inr n ↦ n
]
  where
    true_or : (a b : Bool) → a ≡ true → (a || b) ≡ false → ⊥
    true_or true b e h = cc
    true_or false b e h = cc

not_rest : (k q : Key) (ks : List Key) → contains (k ∷ ks) q ≡ false → contains ks q ≡ false
unfolding contains
not_rest k q ks h = or_false (is_key k q) (contains ks q) h
  where
    or_false : (a b : Bool) → (a || b) ≡ false → b ≡ false
    or_false true b h = absurd (cc)
    or_false false b h = h

module _ (storage : Storage) where
  open storage use {State, file, copy, delete, file-copy, file-delete}

  -- A rollback that returns leaves the files of the state s, but for some keys.
  abbrev pub RollsBack : List Key → State → Result Bool × (Uploader × State) → Type 0
  RollsBack ks s out = (changed : Bool) → out.0 ≡ ok changed → SameBut storage ks s out.1.1

  pub rollback_untouched :
      (u : Uploader) (s s' t : State) (ks : List Key)
      → IsNew u
      → ((q : Key) → file q s' ≡ file q s)
      → SameBut storage ks s' t
      → RollsBack (backup_key u ∷ ks) s (rollback storage (u, t))
  unfolding rollback
  rollback_untouched u s s' t ks (fresh, alone, _) same after =
      subst (RollsBack (backup_key u ∷ ks) s)
        (sym (
          ap
            (λ b.
              if b
              then (outside storage (copy u.cs_bucket (path_text u.cs_backup_path) u.cs_remote_path)
                    >> drop_backup storage)
                  (u, t)
              else if u.updated
              then (outside storage (delete u.cs_bucket u.cs_remote_path)
                    >> finish_rollback storage true)
                  (u, t)
              else finish_rollback storage false (u, t))
            alone
          ∙ ap
              (λ b.
                if b
                then (outside storage (delete u.cs_bucket u.cs_remote_path)
                      >> finish_rollback storage true)
                    (u, t)
                else finish_rollback storage false (u, t))
              fresh))
        (λ changed e q n. after q (not_rest (backup_key u) q ks n) ∙ same q)

  -- The last state of a sequence whose first call has this result.
  rollback_inserted :
      (u : Uploader) (s s' t : State) (ks : List Key)
      → IsNew u
      → file (remote_key u) s ≡ none
      → ((q : Key) → is_key (remote_key u) q ≡ false → file q s' ≡ file q s)
      → SameBut storage ks s' t
      → RollsBack (backup_key u ∷ ks) s (rollback storage (record u { updated = true }, t))
  unfolding rollback
  rollback_inserted u s s' t ks (_, alone, _) absent same after =
      subst (RollsBack (backup_key u ∷ ks) s)
        (sym (
          ap
            (λ b.
              if b
              then (outside storage (copy u.cs_bucket (path_text u.cs_backup_path) u.cs_remote_path)
                    >> drop_backup storage)
                  (record u { updated = true }, t)
              else (outside storage (delete u.cs_bucket u.cs_remote_path)
                    >> finish_rollback storage true)
                  (record u { updated = true }, t))
            alone))
        (by_result (delete u.cs_bucket u.cs_remote_path t).0 refl)
    where
      by_result :
          (r : Result Unit)
          → (delete u.cs_bucket u.cs_remote_path t).0 ≡ r
          → RollsBack (backup_key u ∷ ks) s (
              and_then r
                (λ x. finish_rollback storage true)
                (record u { updated = true }, (delete u.cs_bucket u.cs_remote_path t).1))
      by_result (err x) e changed f = absurd (cc)
      by_result (ok x) e changed f = λ q n.
          file-delete u.cs_bucket u.cs_remote_path q t e ∙ by_key q n (is_key (remote_key u) q) refl
        where
          by_key :
              (q : Key)
              → contains (backup_key u ∷ ks) q ≡ false
              → (b : Bool) → is_key (remote_key u) q ≡ b
              → (if b then none else file q t) ≡ file q s
          by_key q n true k =
              sym absent ∙ ap (λ z. file z s) ((comparable_pair.equal_iff (remote_key u) q).0 k)
          by_key q n false k = after q (not_rest (backup_key u) q ks n) ∙ same q k

  rollback_backed :
      (u : Uploader) (s s' t : State) (ks : List Key) (b : Bool)
      → contains ks (backup_key u) ≡ false
      → file (backup_key u) s' ≡ file (remote_key u) s
      → ((q : Key)
          → is_key (remote_key u) q ≡ false
          → is_key (backup_key u) q ≡ false
          → file q s' ≡ file q s)
      → SameBut storage ks s' t
      → RollsBack
          (backup_key u ∷ ks)
          s
          (rollback storage (record u { backed_up = true; updated = b }, t))
  unfolding rollback
  rollback_backed u s s' t ks b free kept same after =
      by_result (copy u.cs_bucket (path_text u.cs_backup_path) u.cs_remote_path t).0 refl
    where
      by_result :
          (r : Result Unit)
          → (copy u.cs_bucket (path_text u.cs_backup_path) u.cs_remote_path t).0 ≡ r
          → RollsBack (backup_key u ∷ ks) s (
              and_then r
                (λ x. drop_backup storage)
                (
                  record u { backed_up = true; updated = b },
                  (copy u.cs_bucket (path_text u.cs_backup_path) u.cs_remote_path t).1,
                ))
      by_result (err x) e changed f = absurd (cc)
      by_result (ok x) e changed f = λ q n.
          file-copy u.cs_bucket (path_text u.cs_backup_path) u.cs_remote_path q t e
          ∙ by_key q n (is_key (remote_key u) q) refl
        where
          by_key :
              (q : Key)
              → contains (backup_key u ∷ ks) q ≡ false
              → (c : Bool) → is_key (remote_key u) q ≡ c
              → (if c then file (backup_key u) t else file q t) ≡ file q s
          by_key q n true k =
              after (backup_key u) free
              ∙ kept
              ∙ ap (λ z. file z s) ((comparable_pair.equal_iff (remote_key u) q).0 k)
          by_key q n false k =
              after q (not_rest (backup_key u) q ks n) ∙ same q k (not_first (backup_key u) q ks n)

  -- Rollback undoes the Upload before it, although the files under ks have changed since.
  pub rollback_lem :
      (force : Bool) (u : Uploader) (s t : State) (ks : List Key)
      → IsNew u
      → contains ks (backup_key u) ≡ false
      → SameBut storage ks (upload storage force (u, s)).1.1 t
      → RollsBack (backup_key u ∷ ks) s (rollback storage ((upload storage force (u, s)).1.0, t))
  rollback_lem force u s t ks fresh free after =
      by_upload (upload storage force (u, s)).1.0 (upload storage force (u, s)).1.1
        (upload_lem storage force u s fresh) after
    where
      by_upload :
          (u' : Uploader) (s' : State)
          → Uploaded storage u s u' s'
          → SameBut storage ks s' t
          → RollsBack (backup_key u ∷ ks) s (rollback storage (u', t))
      by_upload u' s' (untouched e same) after =
          subst (λ v. RollsBack (backup_key u ∷ ks) s (rollback storage (v, t))) (sym e)
            (rollback_untouched u s s' t ks fresh same after)
      by_upload u' s' (inserted e absent same) after =
          subst (λ v. RollsBack (backup_key u ∷ ks) s (rollback storage (v, t))) (sym e)
            (rollback_inserted u s s' t ks fresh absent same after)
      by_upload u' s' (backed b e kept same) after =
          subst (λ v. RollsBack (backup_key u ∷ ks) s (rollback storage (v, t))) (sym e)
            (rollback_backed u s s' t ks b free kept same after)
