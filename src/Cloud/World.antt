-- ===== src/Cloud/World.antt =====
-- A gsutil and a file system for the tests of cloud_storage.py.
use ftc_designosaurs.Base.{
  String, comparable_list, true, false, Option, none, some, List, [], ◌∷◌, ◌++◌, ◌==◌,
  comparable_string, comparable_nat, comparable_pair, if◌then◌else◌, ◌≡◌, refl, ap, append-nil,
}
use ftc_designosaurs.Base.Dict.{Dict, lookup, insert, erase}
use ftc_designosaurs.Python.{Exec, Result, ok, err, os_error, value_error}
use ftc_designosaurs.Flags.Chars.{Text}
use ftc_designosaurs.Texts.{text}
use ftc_designosaurs.Configs.Storage.{Key}
use ftc_designosaurs.Cloud.Gsutil.{Word, word, object_url, Ended, Host}
use ftc_designosaurs.Cloud.Files.{Files}

pub record World : Type 0 where
  pub objects : Dict Key String
  pub files : Dict String Text

-- What the gsutil of the tests understands.
pub data Command : Type 0 where
  ls rm : String → String → Command
  cp : String → String → String → String → Command
  download upload : String → String → String → Command
  other : Command

abbrev command_of : List Word → Command
command_of (word g ∷ word c ∷ object_url b p ∷ []) = if c == "ls" then ls b p else rm b p
command_of (word g ∷ word c ∷ object_url b p ∷ object_url b' t ∷ []) = cp b p b' t
command_of (word g ∷ word c ∷ object_url b p ∷ word l ∷ []) = download b p l
command_of (word g ∷ word c ∷ word l ∷ object_url b p ∷ []) = upload b p l
command_of args = other

abbrev done : World → Ended × World
done w = (record { returncode = 0; stdout = []; stderr = [] }, w)

abbrev failed : World → Ended × World
failed w = (record { returncode = 1; stdout = []; stderr = text "No URLs matched" }, w)

abbrev found_or_failed : Option String → World → (String → World) → Ended × World
found_or_failed none w f = failed w
found_or_failed (some x) w f = done (f x)

abbrev run : Command → World → Ended × World
run (ls b p) w = found_or_failed (lookup (b, p) w.objects) w (λ x. w)
run (rm b p) w = done (record w { objects = erase (b, p) w.objects })
run (cp b p b' t) w =
    found_or_failed (lookup (b, p) w.objects) w
      (λ x. record w { objects = insert (b', t) x w.objects })
run (download b p l) w =
    found_or_failed (lookup (b, p) w.objects) w
      (λ x. record w { files = insert l (text x) w.files })
run (upload b p l) w = done (record w { objects = insert (b, p) l w.objects })
run other w = failed w

abbrev pub host_with : Option String → Host
host_with io = record {
  State = World;
  on_cros = false;
  on_swarming = false;
  on_windows = false;
  executable = "python";
  gsutil_path = "gsutil";
  disable_io = io;
  ensure_executable = λ w. (ok tt, w);
  popen = λ env args w. run (command_of args) w;
}

abbrev move_found : String → String → World → Option Text → Result Unit × World
move_found from to w none = (err os_error, w)
move_found from to w (some t) = (ok tt, record w { files = erase from (insert to t w.files) })

abbrev move_file_of : String → String → Exec World Unit
move_file_of from to w = move_found from to w (lookup from w.files)

pub append_assoc : (a b c : Text) → (a ++ b) ++ c ≡ a ++ (b ++ c)
append_assoc [] b c = refl
append_assoc (x ∷ a) b c = ap (λ l. x ∷ l) (append_assoc a b c)

-- The text of a hash is all that was hashed, the clock stands at 5 and the times of files at 3.
abbrev pub files_with : (io : Option String) → Files (host_with io)
files_with io = record {
  read = λ p w. lookup p w.files;
  mtime = λ p w. 3;
  dir_exists = λ p w. true;
  dirname = λ p. "dir";
  write = λ p t w. (ok tt, record w { files = insert p t w.files });
  remove = λ p w. (ok tt, record w { files = erase p w.files });
  move_file = move_file_of;
  makedirs = λ p w. (ok tt, w);
  make_temp = λ p w. (ok "temp", record w { files = insert "temp" [] w.files });
  now = λ w. 5;
  time_text = λ n. text "5";
  float = λ t. if t == text "5" then ok 5 else err value_error;
  lock = λ p w. (ok tt, w);
  unlock = λ p w. (ok tt, w);
  Sha = Text;
  sha1 = [];
  update = λ h t. h ++ t;
  hexdigest = λ h. h;
  read-lock = λ p b w. refl;
  read-unlock = λ p b w. refl;
  read-makedirs = λ p b w. refl;
  mtime-lock = λ p b w. refl;
  mtime-makedirs = λ p b w. refl;
  update-update = append_assoc;
  update-nil = append-nil;
}
