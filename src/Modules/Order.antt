-- ===== src/Modules/Order.antt =====
-- The order of the load sequence of module.py.
use ftc_designosaurs.Base.{
  ℕ, zero, suc, String, List, [], ◌∷◌, ◌++◌, Bool, true, false, ◌≡◌, refl, sym, ◌∙◌, subst, ap,
  ◌||◌, if◌then◌else◌, contains, comparable_string, arith, All, equal_self,
}
use ftc_designosaurs.Python.{Exec, Ensures, Ensures-bind, Ensures-weaken, ◌>>◌}
use ftc_designosaurs.Modules.Load.{
  Loaded, load_dependent, add_if_new, add_module, load_at, compute_load_sequence_recursive,
}

still_in : (m x : String) (set : List String) → contains set x ≡ true → contains (m ∷ set) x ≡ true
unfolding contains
still_in m x set h = ground arith

first_in : (m : String) (set : List String) → contains (m ∷ set) m ≡ true
unfolding contains
first_in m set = ground (arith, equal_self m)

module _ (dependent_modules : String → List String) where
  abbrev HasAll : List String → List String → Type 0
  HasAll loaded names = All (λ d. contains loaded d ≡ true) names

  -- Every module stands behind the modules that it depends on, and once.
  abbrev pub IsOrdered : List String → List String → Type 0
  IsOrdered before [] = Unit
  IsOrdered before (m ∷ ms) =
      HasAll before (dependent_modules m) × (contains before m ≡ false) × IsOrdered (m ∷ before) ms

  -- The set has the modules of the sequence, the last one first.
  abbrev pub HasSequence : List String → List String → List String → Type 0
  HasSequence before [] set = set ≡ before
  HasSequence before (m ∷ ms) set = HasSequence (m ∷ before) ms set

  abbrev pub IsGood : Loaded → Type 0
  IsGood l = IsOrdered [] l.load_sequence × HasSequence [] l.load_sequence l.already_loaded_set

  snoc-IsOrdered :
      (before ms set : List String) (m : String)
      → IsOrdered before ms
      → HasSequence before ms set
      → HasAll set (dependent_modules m)
      → contains set m ≡ false
      → IsOrdered before (ms ++ m ∷ []) × HasSequence before (ms ++ m ∷ []) (m ∷ set)
  snoc-IsOrdered before [] set m o s h n = (
    (subst (λ x. HasAll x (dependent_modules m)) s h, subst (λ x. contains x m ≡ false) s n, tt),
    ap (λ x. m ∷ x) s,
  )
  snoc-IsOrdered before (x ∷ ms) set m (hd, fresh, o) s h n =
      let (o', s') = snoc-IsOrdered (x ∷ before) ms set m o s h n in ((hd, fresh, o'), s')

  -- More modules are loaded.
  abbrev Grows : Loaded → Loaded → Type 0
  Grows l k =
      (m : String) → contains l.already_loaded_set m ≡ true → contains k.already_loaded_set m ≡ true

  abbrev Step : (Loaded → Type 0) → Loaded → Loaded → Type 0
  Step Q l k = IsGood k × Grows l k × Q k

  abbrev HasModule : String → Loaded → Type 0
  HasModule m l = contains l.already_loaded_set m ≡ true

  add_if_new_lem :
      (m : String) (l : Loaded)
      → IsGood l
      → HasAll l.already_loaded_set (dependent_modules m)
      → Ensures (λ u k. Step (HasModule m) l k) (add_if_new m l)
  unfolding add_if_new
  add_if_new_lem m l good h = by_test (contains l.already_loaded_set m) refl
    where
      by_test :
          (b : Bool)
          → contains l.already_loaded_set m ≡ b
          → Step (HasModule m) l (if b then l else add_module m l)
      by_test true e = (good, λ x y. y, e)
      by_test false n = (
        snoc-IsOrdered [] l.load_sequence l.already_loaded_set m good.0 good.1 h n,
        λ x y. still_in m x l.already_loaded_set y,
        first_in m l.already_loaded_set,
      )

  HasAll-Grows :
      (names : List String) (l k : Loaded)
      → Grows l k
      → HasAll l.already_loaded_set names
      → HasAll k.already_loaded_set names
  HasAll-Grows [] l k grows h = tt
  HasAll-Grows (x ∷ names) l k grows (h, rest) = (grows x h, HasAll-Grows names l k grows rest)

  abbrev HasNames : List String → Loaded → Type 0
  HasNames names l = HasAll l.already_loaded_set names

  -- A call that loads a module keeps the order.
  abbrev IsLoading : (String → Exec Loaded Unit) → Type 0
  IsLoading call =
      (m : String) (l : Loaded) → IsGood l → Ensures (λ u k. Step (HasModule m) l k) (call m l)

  load_dependent_lem :
      (call : String → Exec Loaded Unit) (names : List String)
      → IsLoading call
      → (l : Loaded) → IsGood l
      → Ensures (λ u k. Step (HasNames names) l k) (load_dependent call names l)
  unfolding load_dependent
  load_dependent_lem call [] loading l good = (good, λ m h. h, tt)
  load_dependent_lem call (m ∷ names) loading l good =
      by_test (load_dependent_lem call names loading) (contains l.already_loaded_set m) refl
    where
      then_rest :
          ((k : Loaded)
            → IsGood k
            → Ensures (λ u j. Step (HasNames names) k j) (load_dependent call names k))
          → (k : Loaded) → Step (HasModule m) l k
          → Ensures (λ u k. Step (HasNames (m ∷ names)) l k) (load_dependent call names k)
      then_rest again k (good_k, grows, has) =
          Ensures-weaken (λ u j. Step (HasNames names) k j) _ (load_dependent call names k)
            (λ u j (good_j, grows_j, rest).
              (good_j, λ x h. grows_j x (grows x h), (grows_j m has, rest)))
            (again k good_k)

      by_test :
          ((k : Loaded)
            → IsGood k
            → Ensures (λ u j. Step (HasNames names) k j) (load_dependent call names k))
          → (b : Bool) → contains l.already_loaded_set m ≡ b
          → Ensures
              (λ u k. Step (HasNames (m ∷ names)) l k)
              (if b then load_dependent call names l else (call m >> load_dependent call names) l)
      by_test again true e = then_rest again l (good, λ x h. h, e)
      by_test again false n =
          Ensures-bind (λ u k. Step (HasModule m) l k) _ (call m) _ l (loading m l good)
            (λ u k. then_rest again k)

  load_at-IsLoading : (n : ℕ) → IsLoading (load_at dependent_modules n)
  unfolding load_at
  load_at-IsLoading zero m l good = tt
  load_at-IsLoading (suc n) m l good =
      Ensures-bind (λ u k. Step (HasNames (dependent_modules m)) l k) _
        (load_dependent (load_at dependent_modules n) (dependent_modules m)) _ l
        (load_dependent_lem (load_at dependent_modules n) (dependent_modules m)
          (load_at-IsLoading n) l good)
        (λ u k (good_k, grows, has).
          Ensures-weaken (λ u j. Step (HasModule m) k j) _ (add_if_new m k)
            (λ u j (good_j, grows_j, has_j). (good_j, λ x h. grows_j x (grows x h), has_j))
            (add_if_new_lem m k good_k has))

  nothing_before :
      (ms : List String) (m : String)
      → (contains ms m || contains [] m) ≡ true
      → contains ms m ≡ true
  unfolding contains
  nothing_before ms m h = ground arith

  sequence_of_set :
      (before ms set : List String) (x : String)
      → HasSequence before ms set
      → contains set x ≡ (contains ms x || contains before x)
  unfolding contains
  sequence_of_set before [] set x e = ap (λ z. contains z x) e
  sequence_of_set before (m ∷ ms) set x e = ground (arith, sequence_of_set (m ∷ before) ms set x e)

  -- From a sequence in which every module stands once and behind the modules that it depends on, a
  -- call that returns leads to another one, which has the module.
  pub compute_load_sequence_recursive_lem :
      (m : String) (l : Loaded)
      → IsGood l
      → Ensures
          (λ u k. IsGood k × (contains k.load_sequence m ≡ true))
          (compute_load_sequence_recursive dependent_modules m l)
  unfolding compute_load_sequence_recursive
  compute_load_sequence_recursive_lem m l good =
      Ensures-weaken (λ u k. Step (HasModule m) l k) _ (load_at dependent_modules 33 m l)
        (λ u k ((ordered, same), grows, has).
          ((ordered, same), in_sequence k.load_sequence k.already_loaded_set same has))
        (load_at-IsLoading 33 m l good)
    where
      in_sequence :
          (ms set : List String)
          → HasSequence [] ms set
          → contains set m ≡ true
          → contains ms m ≡ true
      in_sequence ms set same has =
          nothing_before ms m (sym (sequence_of_set [] ms set m same) ∙ has)
