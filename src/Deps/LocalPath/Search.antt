-- ===== src/Deps/LocalPath/Search.antt =====
-- Which path GetLocalPath returns.
use text.Mathlib.TextEquality.{eq_iff}
use ftc_designosaurs.Base.{
  ℕ, ◌≤◌, ◌≡◌, refl, String, Bool, true, false, ◌&&◌, Option, none, some, List, [], ◌∷◌, ◌++◌, inl,
  inr, ltb, contains, contains-keep, keep, comparable_string, ap, sym, ◌∙◌, Bool-cases, arith,
}
use ftc_designosaurs.Deps.LocalPath.{
  Groups, max_by, newest, or_else, get_local_path, is_path_in_local_paths,
}

module _ (key : String → ℕ) where
  pub max_by-mem :
      (best : String) (ps : List String) → contains (best ∷ ps) (max_by key best ps) ≡ true
  unfolding max_by contains
  max_by-mem best [] = ground (arith, eq_iff best best)
  max_by-mem best (p ∷ ps) = elim (Bool-cases (ltb (key best) (key p))) [
    | inl e ↦ rw e (ground (arith, max_by-mem p ps))
    | inr n ↦ rw n (ground (arith, max_by-mem best ps))
  ]

  pub max_by-le :
      (best : String) (ps : List String) (q : String)
      → contains (best ∷ ps) q ≡ true
      → key q ≤ key (max_by key best ps)
  unfolding max_by contains
  max_by-le best [] q h = ground (arith, eq_iff best q)
  max_by-le best (p ∷ ps) q h = elim (Bool-cases (ltb (key best) (key p))) [
    | inl e ↦ rw e (ground (arith, eq_iff best q, eq_iff p p, max_by-le p ps q, max_by-le p ps p))
    | inr n ↦ rw n (
        ground (
          arith,
          eq_iff best q,
          eq_iff p q,
          eq_iff best best,
          max_by-le best ps q,
          max_by-le best ps best,
        ))
  ]

module _ (exists : String → Bool) (mtime : String → ℕ) where
  -- The path that is found lies in a group behind groups without an existing path, it exists, and no
  -- existing path of its group is newer.
  pub record IsChosen (gs : Groups) (p : String) : Type 0 where
    pub before : Groups
    pub group : List String
    pub after : Groups
    pub split : gs ≡ before ++ (group ∷ after)
    pub earlier : (q : String) → is_path_in_local_paths before q ≡ true → exists q ≡ false
    pub member : contains group p ≡ true
    pub found : exists p ≡ true
    pub latest : (q : String) → contains group q ≡ true → exists q ≡ true → mtime q ≤ mtime p

  abbrev pub Chosen : Groups → Option String → Type 0
  Chosen gs none = (q : String) → is_path_in_local_paths gs q ≡ true → exists q ≡ false
  Chosen gs (some p) = IsChosen gs p

  Chosen-cons :
      (g : List String) (gs : Groups) (r : Option String)
      → ((q : String) → contains g q ≡ true → exists q ≡ false)
      → Chosen gs r
      → Chosen (g ∷ gs) r
  unfolding is_path_in_local_paths
  Chosen-cons g gs none none_here c = λ q h. ground (arith, none_here q, c q)
  Chosen-cons g gs (some p) none_here c = record {
    before = g ∷ c.before;
    group = c.group;
    after = c.after;
    split = ap (λ x. g ∷ x) c.split;
    earlier = λ q h. ground (arith, none_here q, c.earlier q);
    member = c.member;
    found = c.found;
    latest = c.latest;
  }

  kept_members :
      (g kept : List String)
      → keep exists g ≡ kept
      → (q : String) → contains kept q ≡ (exists q && contains g q)
  kept_members g kept e q = ap (λ l. contains l q) (sym e) ∙ contains-keep exists g q

  -- By cases on the paths of the first group that exist.
  Chosen-group :
      (g : List String) (gs : Groups) (kept : List String)
      → keep exists g ≡ kept
      → Chosen gs (get_local_path exists mtime gs)
      → Chosen
          (g ∷ gs)
          (or_else exists mtime (newest exists mtime kept) (get_local_path exists mtime gs))
  unfolding contains is_path_in_local_paths
  Chosen-group g gs [] e c = Chosen-cons g gs _ (λ q h. ground (arith, kept_members g [] e q)) c
  Chosen-group g gs (p ∷ ps) e c =
      let best = max_by mtime p ps in
      let both : (exists best && contains g best) ≡ true =
        sym (kept_members g (p ∷ ps) e best) ∙ max_by-mem mtime p ps in
      record {
        before = [];
        group = g;
        after = gs;
        split = refl;
        earlier = λ q h. cc;
        member = ground arith;
        found = ground arith;
        latest = λ q h x. max_by-le mtime p ps q (kept_members g (p ∷ ps) e q ∙ ground arith);
      }

  -- GetLocalPath returns the newest existing path of the first group that has one, and None only if
  -- no path of any group exists.
  pub get_local_path_lem : (gs : Groups) → Chosen gs (get_local_path exists mtime gs)
  unfolding get_local_path is_path_in_local_paths
  get_local_path_lem [] = λ q h. cc
  get_local_path_lem (g ∷ gs) = Chosen-group g gs (keep exists g) refl (get_local_path_lem gs)
