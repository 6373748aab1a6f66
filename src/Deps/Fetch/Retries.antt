-- ===== src/Deps/Fetch/Retries.antt =====
-- How often PrefetchPaths tries to download.
use ftc_designosaurs.Base.{
  Bool, true, false, if◌then◌else◌, ℕ, suc, String, ◌≡◌, refl, ap, ◌∙◌, Option, none, some, List,
  [], ◌∷◌, comparable_string,
}
use ftc_designosaurs.Python.{Exec, Result, ok, err, is_cloud_storage_error, Ensures, and_then}
use ftc_designosaurs.Deps.System.{System}
use ftc_designosaurs.Deps.Info.{DependencyInfo, get_remote_path_of_info}
use ftc_designosaurs.Deps.Manager.{LookupDict, get_dependency_info}
use ftc_designosaurs.Deps.Fetch.{
  Flow, break_loop, next_round, for_range, go_on, Prefetched, catch_cloud, try_fetch, prefetch_info,
  prefetch_all, or_keys, report, prefetch_paths,
}

module _ (sys : System) where
  open sys use {State}

  catch_cloud-breaks :
      (before : Option String) (r : Result (Option String)) (s : State)
      → Ensures (λ x t. x.0 ≡ break_loop) (catch_cloud sys before (r, s))
  catch_cloud-breaks before (ok p) s = refl
  catch_cloud-breaks before (err e) s = by_test (is_cloud_storage_error e)
    where
      by_test :
          (b : Bool)
          → (let out : Result (Flow × Option String) × State =
                if b then (ok (break_loop, before), s) else (err e, s) in
              Ensures (λ x t. x.0 ≡ break_loop) out)
      by_test true = refl
      by_test false = tt

  -- After a round that ends in `break`, the rounds that are left do not count.
  break_ends :
      (r : Result (Flow × Option String)) (s : State)
      (f g : Option String → Exec State (Option String))
      → Ensures (λ x t. x.0 ≡ break_loop) (r, s)
      → and_then r (go_on f) s ≡ and_then r (go_on g) s
  break_ends (ok (break_loop, p)) s f g h = refl
  break_ends (ok (next_round, p)) s f g h = absurd (cc)
  break_ends (err e) s f g h = refl

  rounds_do_not_count :
      (n m : ℕ) (info : DependencyInfo) (p : Option String) (s : State)
      → for_range (suc n) (try_fetch sys info) p s ≡ for_range (suc m) (try_fetch sys info) p s
  unfolding for_range try_fetch
  rounds_do_not_count n m info p s =
      break_ends (try_fetch sys info p s).0 (try_fetch sys info p s).1
        (for_range n (try_fetch sys info)) (for_range m (try_fetch sys info))
        (catch_cloud-breaks p (get_remote_path_of_info sys info s).0
          (get_remote_path_of_info sys info s).1)

  prefetch_info-retries :
      (n m : ℕ) (x : String) (lists : Prefetched) (o : Option DependencyInfo) (s : State)
      → prefetch_info sys n x lists o s ≡ prefetch_info sys m x lists o s
  unfolding prefetch_info
  prefetch_info-retries n m x lists none s = refl
  prefetch_info-retries n m x lists (some info) s = rw (rounds_do_not_count n m info none s)

  same_after :
      {A B : Type 0} (m n : Result A × State) (f g : A → Exec State B)
      → m ≡ n
      → ((a : A) (t : State) → f a t ≡ g a t)
      → and_then m.0 f m.1 ≡ and_then n.0 g n.1
  same_after {A} {B} m n f g e h = ap (λ k. and_then k.0 f k.1) e ∙ each n.0 n.1
    where
      each : (r : Result A) (t : State) → and_then r f t ≡ and_then r g t
      each (ok a) t = h a t
      each (err x) t = refl

  prefetch_all-retries :
      (n m : ℕ) (d : LookupDict) (platform : String) (xs : List String) (lists : Prefetched)
      (s : State)
      → prefetch_all sys d platform n xs lists s ≡ prefetch_all sys d platform m xs lists s
  unfolding prefetch_all
  prefetch_all-retries n m d platform [] lists s = refl
  prefetch_all-retries n m d platform (x ∷ xs) lists s =
      same_after _ _ (prefetch_all sys d platform n xs) (prefetch_all sys d platform m xs)
        (prefetch_info-retries n m x lists (get_dependency_info d x platform) s)
        (λ lists' t. prefetch_all-retries n m d platform xs lists' t)

  -- The number of retries makes no difference to PrefetchPaths, neither to the result nor to what is
  -- done on the way: a failed download is not tried again.
  pub prefetch_paths-retries :
      (n m : ℕ) (d : LookupDict) (platform : String) (dependencies : List String) (s : State)
      → prefetch_paths sys d platform dependencies n s
        ≡ prefetch_paths sys d platform dependencies m s
  unfolding prefetch_paths
  prefetch_paths-retries n m d platform dependencies s =
      same_after _ _ _ (λ lists. report sys lists.missing lists)
        (prefetch_all-retries n m d platform (or_keys sys d dependencies) _ s) (λ lists t. refl)
