-- ===== src/Cloud/Fetch.antt =====
-- The downloads of cloud_storage.py.
use Prim.Native.String.{◌++◌ as concat}
use ftc_designosaurs.Base.{
  ℕ, String, Bool, true, false, not, ◌&&◌, ◌||◌, Option, none, some, List, [], ◌∷◌, ltb, ◌==◌,
  comparable_list, comparable_nat, comparable_string, if◌then◌else◌,
}
use ftc_designosaurs.Python.{
  Exec, Result, ok, err, Error, pure, raise, finally, try_except, ◌>>=◌, ◌>>◌, server_error,
  runtime_error, value_error,
}
use ftc_designosaurs.Flags.Chars.{Text, strip}
use ftc_designosaurs.Cloud.Gsutil.{Host, word, object_url}
use ftc_designosaurs.Cloud.Commands.{run_only}
use ftc_designosaurs.Cloud.Files.{Files}
use ftc_designosaurs.Cloud.Hash.{calculate_hash, read_hash}

-- os.path.exists, of a file
abbrev pub is_there : Option Text → Bool
is_there none = false
is_there (some t) = true

abbrev pub hash_path_of : String → String
hash_path_of path = concat path ".sha1"

abbrev pub fetch_ts_path_of : String → String
fetch_ts_path_of path = concat path ".fetchts"

abbrev pub is_later : Option ℕ → ℕ → Bool
is_later none changed = false
is_later (some fetched) changed = ltb changed fetched

module _ (host : Host) (files : Files host) where
  open host use {State}
  open files use {
    read, mtime, dir_exists, dirname, write, remove, move_file, makedirs, make_temp, now, time_text,
    float, lock, unlock,
  }

  abbrev pub file_exists : String → State → Bool
  file_exists path s = is_there (read path s)

  -- _CreateDirectoryIfNecessary
  abbrev pub create_directory_if_necessary : String → Exec State Unit
  create_directory_if_necessary directory s =
      if dir_exists directory s then (ok tt, s) else makedirs directory s

  -- with _FileLock(path): body
  abbrev pub with_lock : {A : Type 0} → String → Exec State A → Exec State A
  with_lock path body = do
    create_directory_if_necessary (dirname (concat path ".pseudo_lock"))
    lock path
    finally body (unlock path)

  abbrev pub retry_server_error : Exec State Unit → Error → Exec State Unit
  retry_server_error again server_error = again
  retry_server_error again e = raise e

  abbrev pub download : String → String → String → Exec State Unit
  download bucket remote_path temp =
      try_except (run_only host (word "cp" ∷ object_url bucket remote_path ∷ word temp ∷ [])) (
        retry_server_error
          (run_only host (word "cp" ∷ object_url bucket remote_path ∷ word temp ∷ [])))

  abbrev pub remove_temp : String → Exec State Unit
  remove_temp temp s = if file_exists temp s then remove temp s else (ok tt, s)

  abbrev pub download_and_move : String → String → String → String → Exec State Unit
  download_and_move bucket remote_path local_path temp =
      finally (do download bucket remote_path temp; move_file temp local_path) (remove_temp temp)

  -- _GetLocked
  unfoldable pub get_locked : String → String → String → Exec State Unit
  get_locked bucket remote_path local_path = do
    create_directory_if_necessary (dirname local_path)
    temp ← make_temp (dirname local_path)
    download_and_move bucket remote_path local_path temp

  -- Get
  unfoldable pub get : String → String → String → Exec State Unit
  get bucket remote_path local_path =
      with_lock local_path (get_locked bucket remote_path local_path)

  -- CalculateHash and ReadHash, as calls
  abbrev pub hash_call : String → Exec State Text
  hash_call path s = (calculate_hash host files path s, s)

  abbrev pub read_hash_call : String → Exec State Text
  read_hash_call path s = (read_hash host files path s, s)

  -- The file is there and has the hash.
  abbrev pub has_hash : String → Text → Exec State Bool
  has_hash path hash s =
      if file_exists path s
      then (do actual ← hash_call path; pure (actual == hash)) s
      else (ok false, s)

  abbrev pub get_unless : String → String → String → Bool → Exec State Bool
  get_unless cs_path download_path bucket true = pure false
  get_unless cs_path download_path bucket false = do
    get_locked bucket cs_path download_path
    pure true

  -- GetIfHashChanged
  unfoldable pub get_if_hash_changed : String → String → String → Text → Exec State Bool
  get_if_hash_changed cs_path download_path bucket hash =
      with_lock download_path
        (has_hash download_path hash >>= get_unless cs_path download_path bucket)

  abbrev pub fetch_time : Option Text → Result (Option ℕ)
  fetch_time none = ok none
  fetch_time (some t) = elim (float (strip t)) [ ok n ↦ ok (some n) | err e ↦ err e ]

  -- The file has been fetched since its hash file was changed.
  abbrev pub is_fresh : String → Exec State Bool
  is_fresh path s =
      if file_exists (fetch_ts_path_of path) s && file_exists path s
      then elim (fetch_time (read (fetch_ts_path_of path) s)) [
        | ok fetched ↦ (ok (is_later fetched (mtime (hash_path_of path) s)), s)
        | err e ↦ (err e, s)
      ]
      else (ok false, s)

  abbrev pub write_fetch_time : String → Exec State Unit
  write_fetch_time path s = write (fetch_ts_path_of path) (time_text (now s)) s

  abbrev pub check_fetched : String → Bool → Exec State Bool
  check_fetched path true = pure true
  check_fetched path false = do remove (fetch_ts_path_of path); raise runtime_error

  -- expected_hash as the path of a remote object
  abbrev pub fetch_expected : (Text → String) → String → String → Text → Bool → Exec State Bool
  fetch_expected to_string path bucket expected true = pure false
  fetch_expected to_string path bucket expected false = do
    get_locked bucket (to_string expected) path
    actual ← hash_call path
    check_fetched path (actual == expected)

  abbrev pub fetch_unless : (Text → String) → String → String → Text → Bool → Exec State Bool
  fetch_unless to_string path bucket expected true = pure false
  fetch_unless to_string path bucket expected false = do
    write_fetch_time path
    same ← has_hash path expected
    fetch_expected to_string path bucket expected same

  abbrev pub check_hash_file : (Text → String) → String → String → Bool → Exec State Bool
  check_hash_file to_string path bucket false = pure false
  check_hash_file to_string path bucket true = do
    expected ← read_hash_call (hash_path_of path)
    fresh ← is_fresh path
    fetch_unless to_string path bucket expected fresh

  -- GetIfChanged
  unfoldable pub get_if_changed : (Text → String) → String → String → Exec State Bool
  get_if_changed to_string path bucket =
      with_lock path
        (λ s. check_hash_file to_string path bucket (file_exists (hash_path_of path) s) s)

  abbrev pub get_if_hash_file : (Text → String) → String → String × String → Exec State Unit
  get_if_hash_file to_string bucket (path_name, extension) =
      if extension == ".sha1" then get_if_changed to_string path_name bucket >> pure tt else pure tt

  -- The loop over the files, of which os.path.splitext has cut the extension
  unfoldable pub get_files : (Text → String) → String → List (String × String) → Exec State Unit
  get_files to_string bucket [] = pure tt
  get_files to_string bucket (file ∷ rest) =
      let later = get_files to_string bucket rest in get_if_hash_file to_string bucket file >> later

  -- GetFilesInDirectoryIfChanged, with os.path.isdir, the path of the root and os.walk
  unfoldable pub get_files_in_directory_if_changed :
      (String → State → Bool)
      → String
      → (String → State → List (String × String))
      → (Text → String)
      → String
      → String
      → Exec State Unit
  get_files_in_directory_if_changed is_dir root walk to_string directory bucket s =
      if not (is_dir directory s) || (directory == root)
      then (err value_error, s)
      else get_files to_string bucket (walk directory s) s
