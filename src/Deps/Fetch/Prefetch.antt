-- ===== src/Deps/Fetch/Prefetch.antt =====
-- What PrefetchPaths reports.
use text.Mathlib.TextEquality.{eq_iff}
use ftc_designosaurs.Base.{
  ℕ, suc, String, Bool, true, false, ◌||◌, ◌≡◌, refl, ap, inl, inr, Bool-cases, Option, none, some,
  List, [], ◌∷◌, ◌++◌, ◌==◌, arith, contains, contains-append, comparable_string,
}
use ftc_designosaurs.Python.{Result, ok, err, Ensures, Ensures-bind, Ensures-after}
use ftc_designosaurs.Deps.System.{System}
use ftc_designosaurs.Deps.Info.{DependencyInfo, get_local_path}
use ftc_designosaurs.Deps.Manager.{LookupDict, get_dependency_info}
use ftc_designosaurs.Deps.Fetch.{
  for_range, Prefetched, try_fetch, prefetch_info, note_fetched, prefetch_all, or_keys, report,
  prefetch_paths, is_true,
}

abbrev pub is_some : Option DependencyInfo → Bool
is_some none = false
is_some (some i) = true

module _ (sys : System) where
  open sys use {State}

  -- Where the dependencies have gone so far.
  abbrev listed : Prefetched → String → Bool
  listed l x = contains l.found x || contains l.skipped x || contains l.missing x

  abbrev pub is_known : LookupDict → String → String → Bool
  is_known d platform x = is_some (get_dependency_info d x platform)

  record IsSorted (d : LookupDict) (platform : String) (l : Prefetched) : Type 0 where
    pub skipped :
        (x : String) → contains l.skipped x ≡ true → get_dependency_info d x platform ≡ none
    pub found : (x : String) → contains l.found x ≡ true → is_known d platform x ≡ true

  -- One dependency has been put into one of the lists, on the right side.
  record Adds (d : LookupDict) (platform x : String) (l l' : Prefetched) : Type 0 where
    pub more : (y : String) → listed l' y ≡ (listed l y || (x == y))
    pub sorted : IsSorted d platform l → IsSorted d platform l'

  module _ (d : LookupDict) (platform x : String) (l : Prefetched) where
    Adds-found :
        is_known d platform x ≡ true → Adds d platform x l (record l { found = l.found ++ x ∷ [] })
    unfolding contains
    Adds-found k = record {
      more = λ y. ground (arith, contains-append l.found (x ∷ []) y);
      sorted = λ h. record {
        skipped = h.skipped;
        found = λ y m. ground (arith, contains-append l.found (x ∷ []) y, h.found y, eq_iff x y);
      };
    }

    Adds-skipped :
        get_dependency_info d x platform ≡ none
        → Adds d platform x l (record l { skipped = l.skipped ++ x ∷ [] })
    unfolding contains
    Adds-skipped k = record {
      more = λ y. ground (arith, contains-append l.skipped (x ∷ []) y);
      sorted = λ h. record {
        skipped =
            λ y m. ground (arith, contains-append l.skipped (x ∷ []) y, h.skipped y, eq_iff x y);
        found = h.found;
      };
    }

    Adds-missing : Adds d platform x l (record l { missing = l.missing ++ x ∷ [] })
    unfolding contains
    Adds-missing = record {
      more = λ y. ground (arith, contains-append l.missing (x ∷ []) y);
      sorted = λ h. record { skipped = h.skipped; found = h.found };
    }

    note_fetched-Adds :
        (path : Option String) (s : State)
        → is_known d platform x ≡ true
        → Ensures (λ l' t. Adds d platform x l l') (note_fetched sys x l path s)
    note_fetched-Adds path s k = elim (Bool-cases (is_true path)) [
      | inl e ↦ rw e (Adds-found k)
      | inr n ↦ rw n Adds-missing
    ]

    prefetch_info-Adds :
        (retries : ℕ) (o : Option DependencyInfo) (s : State)
        → get_dependency_info d x platform ≡ o
        → Ensures (λ l' t. Adds d platform x l l') (prefetch_info sys retries x l o s)
    unfolding prefetch_info
    prefetch_info-Adds retries none s e = Adds-skipped e
    prefetch_info-Adds retries (some info) s e =
        elim (Bool-cases (is_true (get_local_path sys info s))) [
          | inl h ↦ rw h (Adds-found (ap is_some e))
          | inr n ↦ rw n (
              Ensures-after (λ l' t. Adds d platform x l l')
                (for_range (suc retries) (try_fetch sys info) none) (note_fetched sys x l) s
                (λ path t. note_fetched-Adds path t (ap is_some e)))
        ]

  -- All dependencies of a list have been put into the lists.
  record AddsAll (d : LookupDict) (platform : String) (xs : List String) (l l' : Prefetched)
      : Type 0 where
    pub more : (y : String) → listed l' y ≡ (listed l y || contains xs y)
    pub sorted : IsSorted d platform l → IsSorted d platform l'

  prefetch_all-AddsAll :
      (d : LookupDict) (platform : String) (retries : ℕ) (xs : List String) (l : Prefetched)
      (s : State)
      → Ensures (λ l' t. AddsAll d platform xs l l') (prefetch_all sys d platform retries xs l s)
  unfolding prefetch_all contains
  prefetch_all-AddsAll d platform retries [] l s = record {
    more = λ y. ground arith;
    sorted = λ h. h;
  }
  prefetch_all-AddsAll d platform retries (x ∷ xs) l s =
      Ensures-bind (λ l' t. Adds d platform x l l') (λ l' t. AddsAll d platform (x ∷ xs) l l')
        (prefetch_info sys retries x l (get_dependency_info d x platform))
        (prefetch_all sys d platform retries xs) s
        (prefetch_info-Adds d platform x l retries (get_dependency_info d x platform) s refl)
        λ l1 t a.
          compose a (prefetch_all sys d platform retries xs l1 t)
            (prefetch_all-AddsAll d platform retries xs l1 t)
    where
      compose :
          {l1 : Prefetched}
          → Adds d platform x l l1
          → (m : Result Prefetched × State) → Ensures (λ l' t. AddsAll d platform xs l1 l') m
          → Ensures (λ l' t. AddsAll d platform (x ∷ xs) l l') m
      compose a (ok l', t) b = record {
        more = λ y. ground (arith, a.more y, b.more y);
        sorted = λ h. b.sorted (a.sorted h);
      }
      compose a (err e, t) b = tt

  -- What PrefetchPaths reports: the dependencies are those found and those skipped; those skipped
  -- have no info for the platform nor a default one, and those found have.
  abbrev pub Reported :
      LookupDict → String → List String → List String × List String → State → Type 0
  Reported d platform xs (found, skipped) t =
      ((y : String) → contains xs y ≡ (contains found y || contains skipped y))
      × ((y : String) → contains skipped y ≡ true → get_dependency_info d y platform ≡ none)
      × ((y : String) → contains found y ≡ true → is_known d platform y ≡ true)

  report-Reported :
      (d : LookupDict) (platform : String) (xs : List String) (l : Prefetched)
      (missing : List String) (t : State)
      → l.missing ≡ missing
      → ((y : String) → listed l y ≡ contains xs y)
      → IsSorted d platform l
      → Ensures (Reported d platform xs) (report sys missing l t)
  unfolding contains
  report-Reported d platform xs l [] t e more sorted =
      (λ y. ground (arith, more y, ap (λ m. contains m y) e), sorted.skipped, sorted.found)
  report-Reported d platform xs l (x ∷ missing) t e more sorted = tt

  -- Where PrefetchPaths returns, each dependency asked for (each that the configs name, if none is)
  -- is reported as found or as skipped, and no other; it is skipped only if the configs have nothing
  -- for it on the platform, and found only if they have something.
  pub prefetch_paths_lem :
      (d : LookupDict) (platform : String) (dependencies : List String) (retries : ℕ) (s : State)
      → Ensures
          (Reported d platform (or_keys sys d dependencies))
          (prefetch_paths sys d platform dependencies retries s)
  unfolding prefetch_paths contains
  prefetch_paths_lem d platform dependencies retries s =
      let xs = or_keys sys d dependencies in
      let empty : Prefetched = record { found = []; skipped = []; missing = [] } in
      Ensures-bind (λ l t. AddsAll d platform xs empty l) (Reported d platform xs)
        (prefetch_all sys d platform retries xs empty) _ s
        (prefetch_all-AddsAll d platform retries xs empty s)
        λ l t a.
          report-Reported d platform xs l l.missing t refl a.more
            (a.sorted (record { skipped = λ x h. cc; found = λ x h. cc }))
