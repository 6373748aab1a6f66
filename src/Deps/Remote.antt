-- ===== src/Deps/Remote.antt =====
-- What a path from cloud storage is worth.
use ftc_designosaurs.Base.{
  String, Bool, true, false, not, ◌≡◌, refl, ap, ◌∙◌, Option, none, some, arith, inl, inr,
  Bool-cases, comparable_string, if◌then◌else◌,
}
use ftc_designosaurs.Python.{
  Ensures-after, archive_error, pure, raise, Ensures-bind, Ensures, Exec, Result, ok, err, and_then,
}
use ftc_designosaurs.Deps.System.{System}
use ftc_designosaurs.Deps.Cloud.{
  ArchiveInfo, CloudStorageInfo, archive_has_minimum_data, has_minimum_data, should_unzip_archive,
  unzip, get_unzipped_path, remove_stale, finish_download, download, get_remote_path,
  check_downloaded, make_download_dir,
}

module _ (sys : System) where
  open sys use {State, exists, abspath, set_executable, exists-set_executable}

  should_lem :
      (a : ArchiveInfo) (s : State)
      → Ensures
          (λ b t. (b ≡ not (exists a.dependency_path s)) × (t ≡ s))
          (should_unzip_archive sys a s)
  unfolding should_unzip_archive
  should_lem a s = elim (Bool-cases (archive_has_minimum_data a)) [
    | inl e ↦ rw e (refl, refl)
    | inr n ↦ rw n tt
  ]

  abbrev Unzipped : ArchiveInfo → String → State → Type 0
  Unzipped a p s = (p ≡ a.dependency_path) × (exists p s ≡ true)

  -- What the second test decides.
  unzip_result :
      (a : ArchiveInfo) (s : State) (b : Bool) (t : State)
      → (b ≡ not (exists a.dependency_path s)) × (t ≡ s)
      → Ensures (Unzipped a) (
          (let choose : Exec State String =
                if b then raise archive_error else pure a.dependency_path in
              choose)
            t)
  unzip_result a s true t h = tt
  unzip_result a s false t h =
      let there : exists a.dependency_path s ≡ true = ground (arith, h.0) in (refl, rw h.1 there)

  unzip-Unzipped : (a : ArchiveInfo) (s : State) → Ensures (Unzipped a) (unzip sys a s)
  unfolding unzip
  unzip-Unzipped a s =
      Ensures-after (Unzipped a) (remove_stale sys a.stale_unzip_path_glob) _ s λ x t.
        Ensures-after (Unzipped a) (sys.unzip_archive a.archive_file a.unzip_path) _ t λ y u.
          Ensures-bind _ (Unzipped a) (should_unzip_archive sys a) _ u (should_lem a u)
            (unzip_result a u)

  unzip_if_missing :
      (a : ArchiveInfo) (s : State) (b : Bool) (t : State)
      → (b ≡ not (exists a.dependency_path s)) × (t ≡ s)
      → Ensures (Unzipped a) (
          (let choose : Exec State String = if b then unzip sys a else pure a.dependency_path in
              choose)
            t)
  unzip_if_missing a s true t h = unzip-Unzipped a t
  unzip_if_missing a s false t h = unzip_result a s false t h

  -- GetUnzippedPath returns the dependency path of the archive, and only when a file is there.
  pub get_unzipped_path_lem :
      (a : ArchiveInfo) (s : State) → Ensures (Unzipped a) (get_unzipped_path sys a s)
  unfolding get_unzipped_path
  get_unzipped_path_lem a s =
      Ensures-bind _ (Unzipped a) (should_unzip_archive sys a) _ s (should_lem a s)
        (unzip_if_missing a s)

  abbrev Fetched : String → String → State → Type 0
  Fetched q p s = (p ≡ q) × (exists q s ≡ true)

  -- The file that a CloudStorageInfo stands for: the downloaded one, or the one in the archive.
  abbrev pub target_of : String → Option ArchiveInfo → String
  target_of p none = p
  target_of p (some a) = a.dependency_path

  finish-Fetched :
      (c : CloudStorageInfo) (o : Option ArchiveInfo) (s : State)
      → exists c.download_path s ≡ true
      → Ensures (Fetched (target_of c.download_path o)) (finish_download sys c o s)
  unfolding finish_download
  finish-Fetched c none s h =
      finish_mode (set_executable c.download_path s)
        (exists-set_executable c.download_path c.download_path s ∙ h)
    where
      finish_mode :
          (m : Result Unit × State)
          → exists c.download_path m.1 ≡ true
          → Ensures (Fetched c.download_path) (and_then m.0 (λ _ t. (ok c.download_path, t)) m.1)
      finish_mode (ok u, t) k = (refl, k)
      finish_mode (err e, t) k = tt
  finish-Fetched c (some a) s h = weaken (get_unzipped_path sys a s) (get_unzipped_path_lem a s)
    where
      weaken :
          (m : Result String × State)
          → Ensures (Unzipped a) m
          → Ensures (Fetched a.dependency_path) m
      weaken (ok p, t) k = (k.0, rw (← k.0) k.1)
      weaken (err e, t) k = tt

  check_lem :
      (p : String) (s : State) → Ensures (λ u t. exists p t ≡ true) (check_downloaded sys p s)
  check_lem p s = elim (Bool-cases (exists p s)) [ inl e ↦ rw e e | inr n ↦ rw n tt ]

  download-Fetched :
      (c : CloudStorageInfo) (s : State)
      → Ensures (Fetched (target_of c.download_path c.archive_info)) (download sys c s)
  unfolding download
  download-Fetched c s =
      let Q = Fetched (target_of c.download_path c.archive_info) in
      Ensures-after Q (make_download_dir sys (sys.dirname c.download_path)) _ s λ x t.
        Ensures-after Q
          (sys.get_if_hash_changed c.cs_remote_path c.download_path c.cs_bucket c.cs_hash) _ t
          λ y u.
            Ensures-bind _ Q (check_downloaded sys c.download_path) _ u
              (check_lem c.download_path u) λ z v h. finish-Fetched c c.archive_info v h

  -- What GetRemotePath may return: None of an incomplete object, or the absolute path of an existing
  -- file.
  abbrev pub RemotePath : CloudStorageInfo → Option String → State → Type 0
  RemotePath c none s = has_minimum_data c ≡ false
  RemotePath c (some p) s =
      (p ≡ abspath (target_of c.download_path c.archive_info))
      × (exists (target_of c.download_path c.archive_info) s ≡ true)

  -- Where GetRemotePath returns a path, it is the absolute path of the downloaded file, or of the
  -- dependency within the archive where there is one, and that file exists; it returns None only for
  -- an object that lacks data. Otherwise it raises.
  pub get_remote_path_lem :
      (c : CloudStorageInfo) (s : State) → Ensures (RemotePath c) (get_remote_path sys c s)
  unfolding get_remote_path
  get_remote_path_lem c s = elim (Bool-cases (has_minimum_data c)) [
    | inl e ↦ rw e (
        Ensures-bind _ (RemotePath c) (download sys c) (λ p t. (ok (some (abspath p)), t)) s
          (download-Fetched c s) (λ p t h. (ap abspath h.0, h.1)))
    | inr n ↦ rw n n
  ]
