-- ===== src/Deps/System.antt =====
-- What the package asks of the operating system, of cloud_storage and of the archive tools.
use ftc_designosaurs.Base.{ℕ, String, Bool, ◌≡◌}
use ftc_designosaurs.Python.{Exec}

-- How os.makedirs ends: it raises OSError with EEXIST, or with another number.
pub data MakeDirs : Type 0 where
  made file_exists failed : MakeDirs

pub record System : Type 1 where
  pub State : Type 0
  -- os.path.exists and os.stat(path).st_mtime
  pub exists : String → State → Bool
  pub mtime : String → State → ℕ
  -- os.path.dirname, os.path.abspath and os.path.join
  pub dirname : String → String
  pub abspath : String → String
  pub join : String → String → String
  -- os.makedirs
  pub makedirs : String → State → MakeDirs × State
  -- cloud_storage.GetIfHashChanged(remote_path, download_path, bucket, hash)
  pub get_if_hash_changed : String → String → String → String → Exec State Unit
  -- os.chmod(path, mode | stat.S_IXUSR)
  pub set_executable : String → Exec State Unit
  -- shutil.rmtree(path, ignore_errors=True) for the paths that a pattern matches
  pub rmtree_glob : String → State → State
  -- dependency_manager_util.UnzipArchive(archive_file, unzip_path)
  pub unzip_archive : String → String → Exec State Unit
  -- Changing the mode of a file neither makes nor removes one.
  pub exists-set_executable :
      (p q : String) (s : State) → exists p (set_executable q s).1 ≡ exists p s
