-- ===== src/Modules/Tests.antt =====
-- Small inputs for the theorems about the load sequence.
use ftc_designosaurs.Base.{
  ℕ, String, List, [], ◌∷◌, true, ◌≡◌, refl, if◌then◌else◌, contains, comparable_string, arith,
  ◌==◌, Bool-cases, inl, inr,
}
use ftc_designosaurs.Python.{Ensures, ok}
use ftc_designosaurs.Modules.Load.{Loaded, compute_load_sequence_recursive}
use ftc_designosaurs.Modules.Order.{IsGood, compute_load_sequence_recursive_lem}
use ftc_designosaurs.Modules.Depth.{IsRanked, compute_load_sequence_recursive_total}

-- "app" depends on "base".
abbrev app_deps : String → List String
app_deps m = if m == "app" then "base" ∷ [] else []

abbrev app_rank : String → ℕ
app_rank m = if m == "app" then 1 else 0

abbrev nothing_loaded : Loaded
nothing_loaded = record { load_sequence = []; already_loaded_set = [] }

app-IsRanked : IsRanked app_deps app_rank
app-IsRanked m = elim (Bool-cases (m == "app")) [ inl e ↦ rw e (omega arith, tt) | inr n ↦ rw n tt ]

compute_load_sequence_recursive_lem_example :
    Ensures
      (λ u k. IsGood app_deps k × (contains k.load_sequence "app" ≡ true))
      (compute_load_sequence_recursive app_deps "app" nothing_loaded)
compute_load_sequence_recursive_lem_example =
    compute_load_sequence_recursive_lem app_deps "app" nothing_loaded (tt, refl)

compute_load_sequence_recursive_total_example :
    (compute_load_sequence_recursive app_deps "app" nothing_loaded).0 ≡ ok tt
compute_load_sequence_recursive_total_example =
    compute_load_sequence_recursive_total app_deps app_rank "app" nothing_loaded app-IsRanked
      (omega arith)
