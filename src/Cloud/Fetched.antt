-- ===== src/Cloud/Fetched.antt =====
-- What GetIfChanged of cloud_storage.py says of the file when it returns True.
use ftc_designosaurs.Base.{
  ℕ, String, Bool, true, false, Option, ◌==◌, comparable_list, comparable_nat, ◌≡◌, refl, sym, ap,
  ◌∙◌,
}
use ftc_designosaurs.Python.{
  and_then, Result, ok, err, raise, ◌>>=◌, Ensures, Ensures-after, Ensures-eq-ok, runtime_error,
}
use ftc_designosaurs.Flags.Chars.{Text}
use ftc_designosaurs.Cloud.Gsutil.{Host}
use ftc_designosaurs.Cloud.Files.{Files}
use ftc_designosaurs.Cloud.Hash.{calculate_hash, read_hash, hash_text, hash_result}
use ftc_designosaurs.Cloud.Fetch.{
  file_exists, get_locked, hash_call, has_hash, hash_path_of, fetch_ts_path_of, is_fresh,
  write_fetch_time, check_fetched, fetch_expected, fetch_unless, check_hash_file, get_if_changed,
}
use ftc_designosaurs.Cloud.Locked.{Same, Ensures-with_lock}

module _ (host : Host) (files : Files host) where
  open host use {State}
  open files use {
    read, mtime, dirname, dir_exists, lock, unlock, makedirs, float, remove, read-lock, read-unlock,
    read-makedirs, mtime-lock, mtime-makedirs,
  }

  -- The file that was fetched has the hash that the hash file had.
  abbrev Fetched : String → State → Bool → State → Type 0
  Fetched path s b t =
      b ≡ true
      → (hash : Text) × (read_hash host files (hash_path_of path) s ≡ ok hash)
        × (calculate_hash host files path t ≡ ok hash)

  Same-read_hash :
      (path : String) (s t : State)
      → Same host files s t
      → read_hash host files (hash_path_of path) t ≡ read_hash host files (hash_path_of path) s
  unfolding read_hash
  Same-read_hash path s t same = ap hash_text_here (same (hash_path_of path)).0
    where
      hash_text_here : Option Text → Result Text
      hash_text_here = hash_text host files

  same_content :
      (path : String) (s t : State)
      → read path t ≡ read path s
      → calculate_hash host files path t ≡ calculate_hash host files path s
  unfolding calculate_hash
  same_content path s t h = ap (hash_result host files) h

  check_fetched-Fetched :
      (path : String) (s t : State) (expected actual : Text)
      → read_hash host files (hash_path_of path) s ≡ ok expected
      → calculate_hash host files path t ≡ ok actual
      → Ensures (Fetched path s) (check_fetched host files path (actual == expected) t)
  check_fetched-Fetched path s t expected actual h k = by_test (actual == expected) refl
    where
      by_test :
          (b : Bool)
          → (actual == expected) ≡ b
          → Ensures (Fetched path s) (check_fetched host files path b t)
      by_test true e =
          λ f. (expected, h, k ∙ ap ok (((comparable_list {A = ℕ}).equal_iff actual expected).0 e))
      by_test false e =
          Ensures-after (Fetched path s) (remove (fetch_ts_path_of path)) (λ x. raise runtime_error)
            t (λ x u. tt)

  fetch_expected-Fetched :
      (to_string : Text → String) (path bucket : String) (s t : State) (expected : Text)
      (same : Bool)
      → read_hash host files (hash_path_of path) s ≡ ok expected
      → Ensures (Fetched path s) (fetch_expected host files to_string path bucket expected same t)
  fetch_expected-Fetched to_string path bucket s t expected true h = λ e. absurd (cc)
  fetch_expected-Fetched to_string path bucket s t expected false h =
      Ensures-after (Fetched path s) (get_locked host files bucket (to_string expected) path)
        (λ x.
          hash_call host files path
          >>= (λ actual. check_fetched host files path (actual == expected)))
        t (λ x u. by_hash u (calculate_hash host files path u) refl)
    where
      by_hash :
          (u : State) (r : Result Text)
          → calculate_hash host files path u ≡ r
          → Ensures
              (Fetched path s)
              (and_then r (λ actual. check_fetched host files path (actual == expected)) u)
      by_hash u (ok actual) e = check_fetched-Fetched path s u expected actual h e
      by_hash u (err x) e = tt

  fetch_unless-Fetched :
      (to_string : Text → String) (path bucket : String) (s t : State) (expected : Text)
      (fresh : Bool)
      → read_hash host files (hash_path_of path) s ≡ ok expected
      → Ensures (Fetched path s) (fetch_unless host files to_string path bucket expected fresh t)
  fetch_unless-Fetched to_string path bucket s t expected true h = λ e. absurd (cc)
  fetch_unless-Fetched to_string path bucket s t expected false h =
      Ensures-after (Fetched path s) (write_fetch_time host files path)
        (λ x.
          has_hash host files path expected
          >>= fetch_expected host files to_string path bucket expected)
        t
        (λ x u.
          Ensures-after (Fetched path s) (has_hash host files path expected)
            (fetch_expected host files to_string path bucket expected) u
            (λ same w. fetch_expected-Fetched to_string path bucket s w expected same h))

  check_hash_file-Fetched :
      (to_string : Text → String) (path bucket : String) (s t : State) (b : Bool)
      → Same host files s t
      → Ensures (Fetched path s) (check_hash_file host files to_string path bucket b t)
  check_hash_file-Fetched to_string path bucket s t false same = λ e. absurd (cc)
  check_hash_file-Fetched to_string path bucket s t true same =
      by_hash (read_hash host files (hash_path_of path) t) refl
    where
      by_hash :
          (r : Result Text)
          → read_hash host files (hash_path_of path) t ≡ r
          → Ensures (Fetched path s) (
              and_then r
                (λ expected.
                  is_fresh host files path
                  >>= fetch_unless host files to_string path bucket expected)
                t)
      by_hash (err x) e = tt
      by_hash (ok expected) e =
          Ensures-after (Fetched path s) (is_fresh host files path)
            (fetch_unless host files to_string path bucket expected) t
            (λ fresh u.
              fetch_unless-Fetched to_string path bucket s u expected fresh
                (sym (Same-read_hash path s t same) ∙ e))

  -- Where GetIfChanged returns True, the file has the hash that stood in its .sha1 file before the
  -- call.
  pub get_if_changed-hash :
      (to_string : Text → String) (path bucket : String) (s : State)
      → (get_if_changed host files to_string path bucket s).0 ≡ ok true
      → (hash : Text) × (read_hash host files (hash_path_of path) s ≡ ok hash)
        × (calculate_hash host files path (get_if_changed host files to_string path bucket s).1
            ≡ ok hash)
  unfolding get_if_changed
  get_if_changed-hash to_string path bucket s h =
      Ensures-eq-ok (Fetched path s) (get_if_changed host files to_string path bucket s).0
        (get_if_changed host files to_string path bucket s).1
        (Ensures-with_lock host files (Fetched path s) path
          (λ t.
            check_hash_file host files to_string path bucket
              (file_exists host files (hash_path_of path) t) t)
          s kept
          (λ t same.
            check_hash_file-Fetched to_string path bucket s t
              (file_exists host files (hash_path_of path) t) same))
        h refl
    where
      kept : (b : Bool) (t : State) → Fetched path s b t → Fetched path s b (unlock path t).1
      kept b t h e =
          let (hash, k, l) = h e in
          (hash, k, same_content path t (unlock path t).1 (read-unlock path path t) ∙ l)
