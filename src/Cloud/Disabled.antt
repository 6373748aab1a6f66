-- ===== src/Cloud/Disabled.antt =====
-- What _RunCommand of cloud_storage.py refuses where DISABLE_CLOUD_STORAGE_IO is set.
use ftc_designosaurs.Base.{
  String, false, not, ◌&&◌, some, List, [], ◌∷◌, comparable_string, contains, if◌then◌else◌, ◌≡◌,
  ap, ◌∙◌, Bool-cases, inl, inr,
}
use ftc_designosaurs.Python.{ok, err, and_then, io_disabled_error}
use ftc_designosaurs.Cloud.Gsutil.{Word, Host}
use ftc_designosaurs.Cloud.Commands.{
  is_offline, is_network_io_enabled, with_program, prepare, output_of, run_args, gsutil_env,
  run_command,
}

abbrev offline_words : List String
offline_words = "help" ∷ "hash" ∷ "version" ∷ []

module _ (host : Host) where
  open host use {State, on_windows, executable, gsutil_path, disable_io, popen}

  with_program-online :
      (args : List Word)
      → contains offline_words executable ≡ false
      → contains offline_words gsutil_path ≡ false
      → is_offline (with_program host args) ≡ false
  with_program-online args h k = elim (Bool-cases on_windows) [ inl e ↦ rw e h | inr e ↦ rw e k ]

  -- Where DISABLE_CLOUD_STORAGE_IO is '1' no command is run, be it help, hash or version: the test for
  -- these looks at the first argument after the path of gsutil, or of Python, has been put in front.
  -- This is for a gsutil that is executable and paths that are none of these words.
  pub run_command_disabled :
      (args : List Word) (s : State)
      → disable_io ≡ some "1"
      → contains offline_words executable ≡ false
      → contains offline_words gsutil_path ≡ false
      → (prepare host s).0 ≡ ok tt
      → run_command host args s ≡ (err io_disabled_error, (prepare host s).1)
  unfolding run_command
  run_command_disabled args s disabled h k ready =
      ap (λ r. and_then r (λ x. run_args host (with_program host args)) (prepare host s).1) ready
      ∙ ap
          (λ b.
            if not b && not (is_network_io_enabled disable_io)
            then (err io_disabled_error, (prepare host s).1)
            else output_of host
                (popen (gsutil_env host) (with_program host args) (prepare host s).1))
          (with_program-online args h k)
      ∙ ap
          (λ v.
            if not (is_network_io_enabled v)
            then (err io_disabled_error, (prepare host s).1)
            else output_of host
                (popen (gsutil_env host) (with_program host args) (prepare host s).1))
          disabled
