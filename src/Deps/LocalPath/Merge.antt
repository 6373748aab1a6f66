-- ===== src/Deps/LocalPath/Merge.antt =====
-- What Update adds to a LocalPathInfo.
use text.Mathlib.TextEquality.{eq_iff}
use ftc_designosaurs.Base.{
  ℕ, ◌≡◌, refl, String, Bool, true, not, ◌||◌, Option, none, some, List, [], ◌∷◌, ◌++◌,
  append_assoc, append-nil, contains, contains-keep, keep, comparable_string, ap, sym, ◌∙◌, arith,
}
use ftc_designosaurs.Deps.LocalPath.{
  Groups, or_else, get_local_path, is_path_in_local_paths, group_list, append_group, update_groups,
  update,
}

is_path_in-append :
    (a b : Groups) (p : String)
    → is_path_in_local_paths (a ++ b) p ≡ (is_path_in_local_paths a p || is_path_in_local_paths b p)
unfolding is_path_in_local_paths
is_path_in-append [] b p = refl
is_path_in-append (g ∷ a) b p = ground (arith, is_path_in-append a b p)

is_path_in-append_group :
    (self : Groups) (g : List String) (p : String)
    → is_path_in_local_paths (append_group self g) p
      ≡ (is_path_in_local_paths self p || contains g p)
unfolding is_path_in_local_paths contains
is_path_in-append_group self [] p = ground arith
is_path_in-append_group self (q ∷ g) p = ground (arith, is_path_in-append self ((q ∷ g) ∷ []) p)

is_path_in-update_groups :
    (self new : Groups) (p : String)
    → is_path_in_local_paths (update_groups self new) p
      ≡ (is_path_in_local_paths self p || is_path_in_local_paths new p)
unfolding is_path_in_local_paths update_groups
is_path_in-update_groups self [] p = ground arith
is_path_in-update_groups self (g ∷ new) p = ground (
  arith,
  is_path_in-update_groups (append_group self (group_list self g)) new p,
  is_path_in-append_group self (group_list self g) p,
  contains-keep (λ q. not (is_path_in_local_paths self q)) g p,
)

append_group-extends :
    (self : Groups) (g : List String) → (more : Groups) × (append_group self g ≡ self ++ more)
append_group-extends self [] = ([], sym (append-nil self))
append_group-extends self (p ∷ g) = ((p ∷ g) ∷ [], refl)

pub update_groups-extends :
    (self new : Groups) → (more : Groups) × (update_groups self new ≡ self ++ more)
unfolding update_groups
update_groups-extends self [] = ([], sym (append-nil self))
update_groups-extends self (g ∷ new) =
    let (a, e) = append_group-extends self (group_list self g) in
    let (b, k) = update_groups-extends (append_group self (group_list self g)) new in
    (a ++ b, k ∙ ap (λ x. x ++ b) e ∙ append_assoc self a b)

get_local_path-append :
    (exists : String → Bool) (mtime : String → ℕ) (a b : Groups)
    → get_local_path exists mtime (a ++ b)
      ≡ or_else exists mtime (get_local_path exists mtime a) (get_local_path exists mtime b)
unfolding get_local_path
get_local_path-append exists mtime [] b = refl
get_local_path-append exists mtime (g ∷ a) b =
    ground (arith, get_local_path-append exists mtime a b)

-- What Update is given, None included.
abbrev pub or_no_groups : Option Groups → Groups
or_no_groups none = []
or_no_groups (some new) = new

-- After Update the object has the paths that it had and those of the other object, and no more.
pub is_path_in-update :
    (self : Groups) (new : Option Groups) (p : String)
    → is_path_in_local_paths (update self new) p
      ≡ (is_path_in_local_paths self p || is_path_in_local_paths (or_no_groups new) p)
unfolding update is_path_in_local_paths
is_path_in-update self none p = ground arith
is_path_in-update self (some new) p = is_path_in-update_groups self new p

-- Update keeps the choice of an object that has an existing path, on every file system: what is
-- added comes behind. An object that has none gets the choice among the added groups, which are
-- the same ones on every file system.
pub get_local_path-update :
    (self : Groups) (new : Option Groups)
    → (more : Groups) × ((exists : String → Bool) (mtime : String → ℕ)
        → get_local_path exists mtime (update self new)
          ≡ or_else exists mtime
              (get_local_path exists mtime self)
              (get_local_path exists mtime more))
unfolding update get_local_path
get_local_path-update self none = ([], λ exists mtime. ground arith)
get_local_path-update self (some new) =
    let (more, e) = update_groups-extends self new in
    (
      more,
      λ exists mtime.
          ap (get_local_path exists mtime) e ∙ get_local_path-append exists mtime self more,
    )

-- A group whose paths are all there adds nothing.
group_list-known :
    (self : Groups) (g : List String)
    → ((p : String) → contains g p ≡ true → is_path_in_local_paths self p ≡ true)
    → group_list self g ≡ []
unfolding contains keep
group_list-known self [] h = refl
group_list-known self (p ∷ g) h =
    ground (arith, eq_iff p p, h p, group_list-known self g (λ q m. h q (ground arith)))

update_groups-known :
    (self new : Groups)
    → ((p : String) → is_path_in_local_paths new p ≡ true → is_path_in_local_paths self p ≡ true)
    → update_groups self new ≡ self
unfolding update_groups is_path_in_local_paths
update_groups-known self [] h = refl
update_groups-known self (g ∷ new) h =
    rw (group_list-known self g (λ p m. h p (ground arith)))
      (update_groups-known self new (λ p m. h p (ground arith)))

-- A second Update from the same object changes nothing.
pub update-update :
    (self : Groups) (new : Option Groups) → update (update self new) new ≡ update self new
unfolding update
update-update self none = refl
update-update self (some new) =
    update_groups-known (update_groups self new) new
      (λ p m. is_path_in-update_groups self new p ∙ ground arith)
