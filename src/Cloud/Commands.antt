-- ===== src/Cloud/Commands.antt =====
-- _RunCommand of cloud_storage.py, and the functions that are one command.
use ftc_designosaurs.Base.{
  zero, suc, map, length, ℕ, String, Bool, true, false, not, ◌&&◌, Option, none, some, List, [],
  ◌∷◌, ◌++◌, ◌==◌, comparable_nat, comparable_string, contains, if◌then◌else◌,
}
use ftc_designosaurs.Python.{
  Exec, Result, ok, err, Error, pure, try_except, ◌>>=◌, ◌>>◌, not_found_error, io_disabled_error,
}
use ftc_designosaurs.Flags.Chars.{Text}
use ftc_designosaurs.Texts.{text}
use ftc_designosaurs.Cloud.Gsutil.{
  Word, word, bucket_url, object_url, Env, inherited, copied, with_home, Ended, Host,
}
use ftc_designosaurs.Cloud.Errors.{error_of_stderr}

-- url[n:]
unfoldable pub drop : ℕ → Text → Text
drop zero t = t
drop (suc n) [] = []
drop (suc n) (c ∷ cs) = drop n cs

-- args[0] in ('help', 'hash', 'version')
abbrev pub is_offline : List Word → Bool
is_offline (word w ∷ args) = contains ("help" ∷ "hash" ∷ "version" ∷ []) w
is_offline args = false

-- IsNetworkIOEnabled
abbrev pub is_network_io_enabled : Option String → Bool
is_network_io_enabled none = true
is_network_io_enabled (some value) = not (value == "1")

module _ (host : Host) where
  open host use {
    State, on_cros, on_swarming, on_windows, executable, gsutil_path, disable_io, ensure_executable,
    popen,
  }

  abbrev pub gsutil_env : Env
  gsutil_env = if on_cros then with_home else if on_swarming then copied else inherited

  -- args with gsutil, and on Windows with Python, in front
  abbrev pub with_program : List Word → List Word
  with_program args =
      if on_windows then word executable ∷ word gsutil_path ∷ args else word gsutil_path ∷ args

  abbrev pub prepare : Exec State Unit
  prepare = if on_windows then pure tt else ensure_executable

  abbrev pub output_of : Ended × State → Result (List Text) × State
  output_of (e, s) =
      if e.returncode == 0 then (ok e.stdout, s) else (err (error_of_stderr e.stderr), s)

  abbrev pub run_args : List Word → Exec State (List Text)
  run_args args s =
      if not (is_offline args) && not (is_network_io_enabled disable_io)
      then (err io_disabled_error, s)
      else output_of (popen gsutil_env args s)

  -- _RunCommand
  unfoldable pub run_command : List Word → Exec State (List Text)
  run_command args = do prepare; run_args (with_program args)

  abbrev pub run_only : List Word → Exec State Unit
  run_only args = run_command args >> pure tt

  -- 'gs://%s/' % bucket
  abbrev pub query_text : String → Text
  query_text bucket = text "gs://" ++ text bucket ++ text "/"

  abbrev pub behind_query : String → Text → Text
  behind_query bucket url = drop (length (query_text bucket)) url

  -- List
  unfoldable pub list_bucket : String → Exec State (List Text)
  list_bucket bucket = do
    urls ← run_command (word "ls" ∷ bucket_url bucket ∷ [])
    pure (map (behind_query bucket) urls)

  abbrev pub catch_not_found : Error → Exec State Bool
  catch_not_found not_found_error s = (ok false, s)
  catch_not_found e s = (err e, s)

  -- Exists
  unfoldable pub exists : String → String → Exec State Bool
  exists bucket path =
      try_except (run_command (word "ls" ∷ object_url bucket path ∷ []) >> pure true)
        catch_not_found

  -- Move
  unfoldable pub move : String → String → String → Exec State Unit
  move bucket1 bucket2 path =
      run_only (word "mv" ∷ object_url bucket1 path ∷ object_url bucket2 path ∷ [])

  -- Copy
  unfoldable pub copy : String → String → String → String → Exec State Unit
  copy bucket_from bucket_to path_from path_to =
      run_only (word "cp" ∷ object_url bucket_from path_from ∷ object_url bucket_to path_to ∷ [])

  -- Delete
  unfoldable pub delete : String → String → Exec State Unit
  delete bucket path = run_only (word "rm" ∷ object_url bucket path ∷ [])

  abbrev pub insert_args : String → String → String → Bool → List Word
  insert_args bucket path local_path publicly_readable =
      word "cp" ∷ (if publicly_readable then word "-a" ∷ word "public-read" ∷ [] else [])
      ++ word local_path ∷ object_url bucket path ∷ []

  -- Insert
  unfoldable pub insert : String → String → String → Bool → Exec State Unit
  insert bucket path local_path publicly_readable =
      run_only (insert_args bucket path local_path publicly_readable)
