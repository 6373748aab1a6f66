-- ===== src/Modules/Depth.antt =====
-- The modules for which ComputeLoadSequenceRecursive of module.py does not raise.
use ftc_designosaurs.Base.{
  ℕ, zero, suc, ◌≤◌, ◌<◌, String, List, [], ◌∷◌, Bool, true, false, ◌≡◌, refl, if◌then◌else◌,
  contains, comparable_string, arith, All,
}
use ftc_designosaurs.Python.{Exec, Result, ok, err, ◌>>◌, and_then}
use ftc_designosaurs.Modules.Load.{
  Loaded, load_dependent, add_if_new, load_at, compute_load_sequence_recursive,
}

-- A call that returns, whatever is loaded.
abbrev Returns : Exec Loaded Unit → Type 0
Returns call = (l : Loaded) → (call l).0 ≡ ok tt

then-Returns : (m f : Exec Loaded Unit) → Returns m → Returns f → Returns (m >> f)
then-Returns m f h k l = by_result (m l) (h l)
  where
    by_result :
        (out : Result Unit × Loaded) → out.0 ≡ ok tt → (and_then out.0 (λ u. f) out.1).0 ≡ ok tt
    by_result (ok u, t) e = k t
    by_result (err x, t) e = absurd (cc)

load_dependent-Returns :
    (call : String → Exec Loaded Unit) (names : List String)
    → All (λ m. Returns (call m)) names
    → Returns (load_dependent call names)
unfolding load_dependent
load_dependent-Returns call [] h l = refl
load_dependent-Returns call (m ∷ names) (first, rest) l =
    by_test (load_dependent-Returns call names rest) (contains l.already_loaded_set m)
  where
    by_test :
        Returns (load_dependent call names)
        → (b : Bool)
        → (if b then load_dependent call names l else (call m >> load_dependent call names) l).0
          ≡ ok tt
    by_test again true = again l
    by_test again false = then-Returns (call m) (load_dependent call names) first again l

module _ (dependent_modules : String → List String) (rank : String → ℕ) where
  -- Every module has a larger number than those that it depends on.
  abbrev pub IsRanked : Type 0
  IsRanked = (m : String) → All (λ d. rank d < rank m) (dependent_modules m)

  load_at-Returns :
      (n : ℕ) → IsRanked → (m : String) → rank m < n → Returns (load_at dependent_modules n m)
  unfolding load_at add_if_new
  load_at-Returns zero ranked m below l = absurd (omega arith)
  load_at-Returns (suc n) ranked m below l =
      then-Returns (load_dependent (load_at dependent_modules n) (dependent_modules m))
        (add_if_new m)
        (load_dependent-Returns (load_at dependent_modules n) (dependent_modules m)
          (all_below (load_at-Returns n ranked) (dependent_modules m) (ranked m)))
        (λ k. refl) l
    where
      all_below :
          ((d : String) → rank d < n → Returns (load_at dependent_modules n d))
          → (names : List String) → All (λ d. rank d < rank m) names
          → All (λ d. Returns (load_at dependent_modules n d)) names
      all_below each [] h = tt
      all_below each (d ∷ names) (h, rest) = (each d (omega arith), all_below each names rest)

  -- Where the modules can be numbered so that each has a larger number than those that it depends
  -- on, a call for a module with a number up to 32 does not take the dependencies for a loop.
  pub compute_load_sequence_recursive_total :
      (m : String) (l : Loaded)
      → IsRanked
      → rank m ≤ 32
      → (compute_load_sequence_recursive dependent_modules m l).0 ≡ ok tt
  unfolding compute_load_sequence_recursive
  compute_load_sequence_recursive_total m l ranked bound =
      load_at-Returns 33 ranked m (omega arith) l
