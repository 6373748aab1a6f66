-- ===== src/Modules/Load.antt =====
-- Module.ComputeLoadSequenceRecursive of module.py, over the modules by their names.
use ftc_designosaurs.Base.{
  ℕ, zero, suc, String, List, [], ◌∷◌, ◌++◌, if◌then◌else◌, contains, comparable_string,
}
use ftc_designosaurs.Python.{Exec, ok, err, ◌>>◌, include_loop_error}

-- The two arguments that the calls change: load_sequence, and already_loaded_set as a list.
pub record Loaded : Type 0 where
  pub load_sequence : List String
  pub already_loaded_set : List String

abbrev pub add_module : String → Loaded → Loaded
add_module name l = record {
  load_sequence = l.load_sequence ++ name ∷ [];
  already_loaded_set = name ∷ l.already_loaded_set;
}

unfoldable pub add_if_new : String → Exec Loaded Unit
add_if_new name l = (ok tt, if contains l.already_loaded_set name then l else add_module name l)

-- The loop over dependent_modules, for a recursive call
unfoldable pub load_dependent : (String → Exec Loaded Unit) → List String → Exec Loaded Unit
load_dependent call [] l = (ok tt, l)
load_dependent call (name ∷ names) l =
    if contains l.already_loaded_set name
    then load_dependent call names l
    else (do call name; load_dependent call names) l

-- The names of the dependent_modules of a module
module _ (dependent_modules : String → List String) where
  -- The call at a depth of 33 - n, which is more than 32 where n is 0
  unfoldable pub load_at : ℕ → String → Exec Loaded Unit
  load_at zero name l = (err include_loop_error, l)
  load_at (suc n) name l =
      (do load_dependent (load_at n) (dependent_modules name); add_if_new name) l

  -- ComputeLoadSequenceRecursive, whose depth is 0 at first
  unfoldable pub compute_load_sequence_recursive : String → Exec Loaded Unit
  compute_load_sequence_recursive name = load_at 33 name
