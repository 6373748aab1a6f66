-- ===== src/Cloud/Tests.antt =====
-- Small inputs for the theorems about cloud_storage.py.
use ftc_designosaurs.Base.{
  none, some, [], ◌∷◌, ◌≡◌, refl, contains, comparable_string, comparable_nat, comparable_list,
  comparable_pair,
}
use ftc_designosaurs.Base.Dict.{lookup, insert, erase}
use ftc_designosaurs.Python.{ok, err, io_disabled_error}
use ftc_designosaurs.Flags.Chars.{Text, strip, rstrip, lstrip}
use ftc_designosaurs.Texts.{text}
use ftc_designosaurs.Cloud.Gsutil.{word}
use ftc_designosaurs.Cloud.Commands.{run_command}
use ftc_designosaurs.Cloud.Hash.{calculate_hash, read_hash, hash_chunks, split_at}
use ftc_designosaurs.Cloud.Fetch.{get_if_changed, get_locked}
use ftc_designosaurs.Cloud.World.{World, host_with, files_with}
use ftc_designosaurs.Cloud.Disabled.{run_command_disabled}
use ftc_designosaurs.Cloud.Hash.{calculate_hash-whole}
use ftc_designosaurs.Cloud.Fetched.{get_if_changed-hash}

abbrev empty : World
empty = record { objects = []; files = [] }

run_command_disabled_example :
    run_command (host_with (some "1")) (word "version" ∷ []) empty ≡ (err io_disabled_error, empty)
unfolding contains
run_command_disabled_example =
    run_command_disabled (host_with (some "1")) (word "version" ∷ []) empty refl refl refl refl

-- A file, its hash file and the object that they name.
abbrev fetched : World
fetched = record {
  objects = (("bucket", "a1"), "a1") ∷ [];
  files = ("tool.sha1", text "a1\n") ∷ ("tool", text "b2") ∷ [];
}

calculate_hash-whole_example :
    calculate_hash (host_with none) (files_with none) "tool" fetched ≡ ok (text "b2")
unfolding lookup text
calculate_hash-whole_example =
    calculate_hash-whole (host_with none) (files_with none) "tool" (text "b2") fetched refl

get_if_changed-hash_example :
    (hash : Text) × (read_hash (host_with none) (files_with none) "tool.sha1" fetched ≡ ok hash)
    × (calculate_hash
          (host_with none)
          (files_with none)
          "tool"
          (get_if_changed (host_with none) (files_with none) (λ t. "a1") "tool" "bucket" fetched).1
        ≡ ok hash)
unfolding get_if_changed lookup insert erase read_hash calculate_hash hash_chunks split_at
    get_locked run_command strip lstrip rstrip text contains
get_if_changed-hash_example =
    get_if_changed-hash (host_with none) (files_with none) (λ t. "a1") "tool" "bucket" fetched refl
