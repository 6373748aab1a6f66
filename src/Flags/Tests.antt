-- ===== src/Flags/Tests.antt =====
-- A small device, and what the flag code does on it.
use Prim.Native.Char.{code}
use ftc_designosaurs.Base.{
  ap, not, ◌&&◌, ◌||◌, ap, ℕ, String, Bool, true, false, ◌≡◌, refl, ◌≢◌, List, [], ◌∷◌, some, none,
  Option, arith, contains, keep, AllIn, All→AllIn, comparable_list, comparable_nat,
  comparable_string,
}
use ftc_designosaurs.Base.Dict.{Dict, lookup, insert, erase, lookup-insert_self, lookup-erase_self}
use ftc_designosaurs.Flags.Chars.{Text, last_char, strip}
use ftc_designosaurs.Flags.Parse.{parse_flags}
use ftc_designosaurs.Flags.Quote.{serialize_flags}
use ftc_designosaurs.Flags.Device.{Device, SetOrder}
use ftc_designosaurs.Flags.Changer.{
  Changer, Outcome, returned, raised, value_error, get_current_flags, update_command_line_file,
  set_permissive, reset_enforce, update, to_set, difference, replace_flags, push_flags, restore,
  init_changer, ◌>>=◌,
}
use ftc_designosaurs.Flags.RoundTrip.{Survives, parse-serialize}
use ftc_designosaurs.Flags.Trailing.{parse-serialize_backslash, lost}
use ftc_designosaurs.Flags.Total.{parse_flags_total}
use ftc_designosaurs.Flags.Stack.{restore-replace_flags, push_flags_lem}
use ftc_designosaurs.Flags.Returns.{HasNoReturn}
use ftc_designosaurs.Flags.Enforce.{Step, Reach, Reach-enforce}

abbrev codes : String → Text
codes String.[] = []
codes (String.◌∷◌ c s) = code c ∷ codes s

record Phone : Type 0 where
  files : Dict Text Text
  rooted : Bool
  sdk : ℕ
  enforcing : Bool

abbrev is_some {ℓ} : {A : Type ℓ} → Option A → Bool
is_some none = false
is_some (some a) = true

abbrev or_nil : Option Text → Text
or_nil none = []
or_nil (some t) = t

exists_back : (p t : Text) (d : Dict Text Text) → is_some (lookup p (insert p t d)) ≡ true
exists_back p t d = rw (lookup-insert_self p t d)

read_back : (p t : Text) (d : Dict Text Text) → or_nil (lookup p (insert p t d)) ≡ t
read_back p t d = rw (lookup-insert_self p t d)

gone : (p : Text) (d : Dict Text Text) → is_some (lookup p (erase p d)) ≡ false
gone p d = rw (lookup-erase_self p d)

abbrev phones : Device
phones = record {
  State = Phone;
  path_exists = λ p d. is_some (lookup p d.files);
  read_file = λ p d. or_nil (lookup p d.files);
  write_file = λ p t d. record d { files = insert p t d.files };
  remove_path = λ p d. record d { files = erase p d.files };
  has_root = λ d. d.rooted;
  build_version_sdk = λ d. d.sdk;
  get_enforce = λ d. d.enforcing;
  set_enforce = λ b d. record d { enforcing = b };
  exists-write = λ p t d. exists_back p t d.files;
  read-write = λ p t d h. ap strip (read_back p t d.files);
  exists-remove = λ p d. gone p d.files;
  enforce-write = λ p t d. refl;
  enforce-remove = λ p d. refl;
  enforce-set = λ b d. refl;
}

abbrev in_order : SetOrder
in_order = record { iterate = λ s. s; iterate-contains = λ s x. refl }

-- What a run of the code computes with.
program : Unit {0}
unfolding keep init_changer restore push_flags replace_flags reset_enforce set_permissive
    update_command_line_file get_current_flags difference to_set update serialize_flags parse_flags
    strip contains lookup insert erase
program = tt

abbrev phone : Phone
phone = record {
  files =
      (codes "/data/local/tmp/cmd", codes "_ --a --b=\"x y\"") ∷ (codes "/data/local/cmd", []) ∷ [];
  rooted = true;
  sdk = 26;
  enforcing = true;
}

abbrev opened : Changer Phone
opened = record {
  device = record phone { files = (codes "/data/local/tmp/cmd", codes "_ --a --b=\"x y\"") ∷ [] };
  cmdline_path = codes "/data/local/tmp/cmd";
  top = codes "--b=x y" ∷ codes "--a" ∷ [];
  below = [];
  should_reset_enforce = false;
}

init_run :
    init_changer phones in_order phone (codes "cmd") false
    ≡ returned (codes "--a" ∷ codes "--b=x y" ∷ [], opened)
unfolding program
init_run = refl

init_separator : init_changer phones in_order phone (codes "a/b") false ≡ raised value_error
unfolding program
init_separator = refl

push_run :
    (push_flags phones in_order (codes "--c" ∷ []) (codes "--a" ∷ []) opened >>= λ r. returned r.0)
    ≡ returned (codes "--b=x y" ∷ codes "--c" ∷ [])
unfolding program
push_run = refl

-- A flag that ends in `c`.
ends_in : (f : Text) (c : ℕ) → last_char f ≡ some c → c ≢ 92 → Survives f
ends_in f c e n = (c, e, n)

letters : (last_char (codes "--a") ≡ some 97) × (last_char (codes "--b=x y") ≡ some 121)
unfolding last_char
letters = (refl, refl)

survivors : AllIn Survives opened.top
survivors =
    All→AllIn Survives opened.top
      (ends_in _ 121 letters.1 (omega arith), (ends_in _ 97 letters.0 (omega arith), tt))

added : AllIn Survives (codes "--a" ∷ [])
added = All→AllIn Survives (codes "--a" ∷ []) (ends_in _ 97 letters.0 (omega arith), tt)

parse-serialize_example :
    (line : Text) × (serialize_flags (codes "--a" ∷ codes "--b=x y" ∷ []) ≡ some line)
    × (parse_flags (strip line) ≡ some (codes "--a" ∷ codes "--b=x y" ∷ []))
parse-serialize_example =
    parse-serialize (codes "--a") (codes "--b=x y" ∷ [])
      (ends_in _ 97 letters.0 (omega arith), (ends_in _ 121 letters.1 (omega arith), tt))

backslash : last_char (codes "--dir=C:\\") ≡ some 92
unfolding last_char
backslash = refl

parse-serialize_backslash_example :
    (line : Text) × (serialize_flags (codes "--a" ∷ codes "--dir=C:\\" ∷ []) ≡ some line)
    × (parse_flags (strip line) ≡ some (codes "--a" ∷ lost (codes "--dir=C:\\") ∷ []))
parse-serialize_backslash_example =
    parse-serialize_backslash (codes "--a" ∷ []) (codes "--dir=C:\\")
      (ends_in _ 97 letters.0 (omega arith), tt) backslash

parse_flags_total_example :
    (flags : List Text) × (parse_flags (codes "chrome \"--a \\' ") ≡ some flags)
parse_flags_total_example = parse_flags_total (codes "chrome \"--a \\' ")

without_returns : AllIn HasNoReturn opened.top
unfolding contains
without_returns = All→AllIn HasNoReturn opened.top (refl, (refl, tt))

added_without_returns : AllIn HasNoReturn (codes "--a" ∷ [])
unfolding contains
added_without_returns = All→AllIn HasNoReturn (codes "--a" ∷ []) (refl, tt)

push_flags_lem_example :
    (flags : List Text) × (c' : Changer Phone) × (push_flags phones in_order
        (codes "--a" ∷ [])
        (codes "--b=x y" ∷ [])
        opened
      ≡ returned (flags, c'))
    × ((x : Text)
        → contains flags x ≡ (
            not (contains (codes "--b=x y" ∷ []) x)
            && (contains opened.top x || contains (codes "--a" ∷ []) x)))
    × (c'.below ≡ opened.top ∷ [])
push_flags_lem_example =
    push_flags_lem phones in_order (codes "--a" ∷ []) (codes "--b=x y" ∷ []) opened survivors
      without_returns added added_without_returns

restore-replace_flags_example :
    (flags : List Text) × (c' : Changer Phone) × ((replace_flags phones in_order
          (codes "x\\" ∷ [])
          opened
        >>= λ r. restore phones in_order r.1)
      ≡ returned (flags, c'))
    × ((x : Text) → contains flags x ≡ contains opened.top x)
    × (c'.below ≡ [])
restore-replace_flags_example =
    restore-replace_flags phones in_order (codes "x\\" ∷ []) opened survivors without_returns

-- A replacement lowers the mode, and the restore that follows raises it again.
abbrev replaced_state : Outcome (List Text × Changer Phone) → Changer Phone
replaced_state (returned (flags, c)) = c
replaced_state (raised e) = opened

abbrev replaced_once : Changer Phone
replaced_once = replaced_state (replace_flags phones in_order (codes "--c" ∷ []) opened)

abbrev restored_once : Changer Phone
restored_once = replaced_state (restore phones in_order replaced_once)

replace_run :
    replace_flags phones in_order (codes "--c" ∷ []) opened
    ≡ returned (codes "--c" ∷ [], replaced_once)
unfolding program
replace_run = refl

lowered : replaced_once.device.enforcing ≡ false
unfolding program
lowered = refl

restore_run :
    restore phones in_order replaced_once
    ≡ returned (codes "--b=x y" ∷ codes "--a" ∷ [], restored_once)
unfolding program
restore_run = refl

back_at_bottom : restored_once.below ≡ []
unfolding program
back_at_bottom = refl

Reach-enforce_example : restored_once.device.enforcing ≡ true
Reach-enforce_example =
    Reach-enforce phones in_order opened restored_once refl
      (Reach.next
        (Reach.next Reach.here
          (Step.replaced (codes "--c" ∷ []) opened (codes "--c" ∷ []) replaced_once replace_run))
        (Step.restored replaced_once (codes "--b=x y" ∷ codes "--a" ∷ []) restored_once
          restore_run))
      back_at_bottom
