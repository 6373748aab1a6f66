-- ===== src/Cloud/Gsutil.antt =====
-- What cloud_storage.py asks of the host: the program gsutil, the files, the clock and the locks.
use ftc_designosaurs.Base.{ℕ, String, Bool, Option, List}
use ftc_designosaurs.Python.{Exec}
use ftc_designosaurs.Flags.Chars.{Text}

-- An argument of a command: a word, the URL gs://bucket/ or the URL gs://bucket/path.
pub data Word : Type 0 where
  word : String → Word
  bucket_url : String → Word
  object_url : String → String → Word

-- The environment that the command gets.
pub data Env : Type 0 where
  inherited copied with_home : Env

-- How a command ends.
pub record Ended : Type 0 where
  pub returncode : ℕ
  pub stdout : List Text
  pub stderr : Text

pub record Host : Type 1 where
  pub State : Type 0
  -- py_utils.IsRunningOnCrosDevice(), _IsRunningOnSwarming(), os.name == 'nt', sys.executable,
  -- _GSUTIL_PATH and os.getenv(DISABLE_CLOUD_STORAGE_IO)
  pub on_cros : Bool
  pub on_swarming : Bool
  pub on_windows : Bool
  pub executable : String
  pub gsutil_path : String
  pub disable_io : Option String
  -- os.stat and os.chmod of gsutil, which may raise
  pub ensure_executable : Exec State Unit
  -- subprocess.Popen(args, env=env) and communicate()
  pub popen : Env → List Word → State → Ended × State
