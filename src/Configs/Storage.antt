-- ===== src/Configs/Storage.antt =====
-- What uploader.py asks of cloud_storage.
use ftc_designosaurs.Base.{
  String, Bool, false, Option, none, ◌≡◌, ◌==◌, comparable_string, comparable_pair, if◌then◌else◌,
}
use ftc_designosaurs.Python.{Exec, Error, ok, err}

-- A bucket and a path in it.
abbrev pub Key : Type 0
Key = String × String

pub record Storage : Type 1 where
  pub State : Type 0
  -- The file under a key, as far as it matters.
  pub file : Key → State → Option String
  -- os.path.exists
  pub path_exists : String → State → Bool
  -- cloud_storage.Exists, Copy within one bucket, Insert and Delete
  pub exists : String → String → Exec State Bool
  pub copy : String → String → String → Exec State Unit
  pub insert : String → String → String → Exec State Unit
  pub delete : String → String → Exec State Unit
  -- A look changes nothing, and finds what is there.
  pub file-exists : (b p : String) (q : Key) (s : State) → file q (exists b p s).1 ≡ file q s
  pub exists-absent :
      (b p : String) (s : State) → (exists b p s).0 ≡ ok false → file (b, p) s ≡ none
  -- A command that fails changes nothing; one that returns changes its target alone.
  pub file-copy :
      (b p t : String) (q : Key) (s : State)
      → (copy b p t s).0 ≡ ok tt
      → file q (copy b p t s).1 ≡ (if (b, t) == q then file (b, p) s else file q s)
  pub file-copy_failed :
      (b p t : String) (q : Key) (s : State) (e : Error)
      → (copy b p t s).0 ≡ err e
      → file q (copy b p t s).1 ≡ file q s
  pub file-insert :
      (b p l : String) (q : Key) (s : State)
      → ((b, p) == q) ≡ false
      → file q (insert b p l s).1 ≡ file q s
  pub file-insert_failed :
      (b p l : String) (q : Key) (s : State) (e : Error)
      → (insert b p l s).0 ≡ err e
      → file q (insert b p l s).1 ≡ file q s
  pub file-delete :
      (b p : String) (q : Key) (s : State)
      → (delete b p s).0 ≡ ok tt
      → file q (delete b p s).1 ≡ (if (b, p) == q then none else file q s)
