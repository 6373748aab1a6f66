-- ===== src/Cloud/Files.antt =====
-- What cloud_storage.py asks of the file system, the clock, the locks and hashlib.
use ftc_designosaurs.Base.{[], ℕ, String, Bool, Option, ◌++◌, ◌≡◌}
use ftc_designosaurs.Python.{Exec, Result}
use ftc_designosaurs.Flags.Chars.{Text}
use ftc_designosaurs.Cloud.Gsutil.{Host}

pub record Files (host : Host) : Type 1 where
  -- What is in a file, and when it was changed; none where there is no file
  pub read : String → host.State → Option Text
  pub mtime : String → host.State → ℕ
  pub dir_exists : String → host.State → Bool
  pub dirname : String → String
  -- open(path, 'w') and write, os.remove, shutil.move, os.makedirs and NamedTemporaryFile
  pub write : String → Text → Exec host.State Unit
  pub remove : String → Exec host.State Unit
  pub move_file : String → String → Exec host.State Unit
  pub makedirs : String → Exec host.State Unit
  pub make_temp : String → Exec host.State String
  -- time.time(), str of it and float of a text
  pub now : host.State → ℕ
  pub time_text : ℕ → Text
  pub float : Text → Result ℕ
  -- The waits for the pseudo lock to be acquired and to be released
  pub lock : String → Exec host.State Unit
  pub unlock : String → Exec host.State Unit
  -- hashlib.sha1(), update and hexdigest
  pub Sha : Type 0
  pub sha1 : Sha
  pub update : Sha → Text → Sha
  pub hexdigest : Sha → Text
  -- Locks are files of their own.
  pub read-lock : (p b : String) (s : host.State) → read p (lock b s).1 ≡ read p s
  pub read-unlock : (p b : String) (s : host.State) → read p (unlock b s).1 ≡ read p s
  pub read-makedirs : (p b : String) (s : host.State) → read p (makedirs b s).1 ≡ read p s
  pub mtime-lock : (p b : String) (s : host.State) → mtime p (lock b s).1 ≡ mtime p s
  pub mtime-makedirs : (p b : String) (s : host.State) → mtime p (makedirs b s).1 ≡ mtime p s
  -- A hash of pieces is the hash of the whole.
  pub update-update : (h : Sha) (a b : Text) → update (update h a) b ≡ update h (a ++ b)
  pub update-nil : (h : Sha) → update h [] ≡ h
