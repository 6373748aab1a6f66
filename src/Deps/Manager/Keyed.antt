-- ===== src/Deps/Manager/Keyed.antt =====
-- The entries stand under their own names, so that only cloud storage info can conflict.
use text.Mathlib.TextEquality.{eq_iff}
use ftc_designosaurs.Base.{
  String, Bool, false, ◌&&◌, ◌≡◌, refl, ◌∙◌, Option, none, some, List, [], ◌∷◌, arith, inl, inr,
  Bool-cases, comparable_string, if◌then◌else◌,
}
use ftc_designosaurs.Python.{Error, Exec, Result, ok, err, value_error, and_then}
use ftc_designosaurs.Deps.Info
use ftc_designosaurs.Deps.Info.{DependencyInfo, has}
use ftc_designosaurs.Deps.Manager.{
  Config, LookupDict, entry, put, add_or_update, add_dependency_info, add_all, reraise,
  is_supported, update_dependencies, update_all,
}
use ftc_designosaurs.Deps.Manager.Extends.{update-Extends, entry-put}

-- Each entry has the dependency and the platform that it is filed under.
abbrev pub IsKeyed : LookupDict → Type 0
IsKeyed d =
    (dep plat : String) (i : DependencyInfo)
    → entry d dep plat ≡ some i
    → (i.dependency ≡ dep) × (i.platform ≡ plat)

put-IsKeyed :
    (key info : DependencyInfo) (d : LookupDict)
    → info.dependency ≡ key.dependency
    → info.platform ≡ key.platform
    → IsKeyed d
    → IsKeyed (put key info d)
put-IsKeyed key info d p q h dep plat i e = ground (
  arith,
  entry-put key info d dep plat,
  eq_iff key.dependency dep,
  eq_iff key.platform plat,
  h dep plat i,
)

add_or_update-IsKeyed :
    (o : Option DependencyInfo) (new : DependencyInfo) (d : LookupDict)
    → entry d new.dependency new.platform ≡ o
    → IsKeyed d
    → IsKeyed (add_or_update o new d).1
add_or_update-IsKeyed none new d e h = put-IsKeyed new new d refl refl h
add_or_update-IsKeyed (some old) new d e h =
    let x = update-Extends new old in
    let k = h new.dependency new.platform old e in
    put-IsKeyed new (Info.update new old).1 d (x.dependency ∙ k.0) (x.platform ∙ k.1) h

then-IsKeyed :
    {A : Type 0} (r : Result A) (d : LookupDict) (f : A → Exec LookupDict Unit)
    → IsKeyed d
    → ((a : A) → IsKeyed (f a d).1)
    → IsKeyed (and_then r f d).1
then-IsKeyed (ok a) d f h k = k a
then-IsKeyed (err e) d f h k = h

add_all-IsKeyed : (is : List DependencyInfo) (d : LookupDict) → IsKeyed d → IsKeyed (add_all is d).1
unfolding add_all add_dependency_info
add_all-IsKeyed [] d h = h
add_all-IsKeyed (i ∷ is) d h =
    let m = add_dependency_info i d in
    let k = add_or_update-IsKeyed (entry d i.dependency i.platform) i d refl h in
    then-IsKeyed m.0 m.1 (λ _. add_all is) k (λ _. add_all-IsKeyed is m.1 k)

reraise-IsKeyed : (o : Option Error) (d : LookupDict) → IsKeyed d → IsKeyed (reraise o d).1
reraise-IsKeyed none d h = h
reraise-IsKeyed (some e) d h = h

update_dependencies-IsKeyed :
    (supported : List String) (c : Config) (d : LookupDict)
    → IsKeyed d
    → IsKeyed (update_dependencies supported c d).1
unfolding update_dependencies
update_dependencies-IsKeyed supported c d h = elim (Bool-cases (is_supported supported c)) [
  | inl e ↦
      let k = add_all-IsKeyed c.yielded d h in
      rw e (
        then-IsKeyed (add_all c.yielded d).0 (add_all c.yielded d).1 (λ _. reraise c.raised) k
          (λ _. reraise-IsKeyed c.raised (add_all c.yielded d).1 k))
  | inr n ↦ rw n h
]

-- Adding the dependencies of any configs, also of one that raises, keeps each entry under its own
-- dependency and platform.
pub update_all-IsKeyed :
    (supported : List String) (cs : List Config) (d : LookupDict)
    → IsKeyed d
    → IsKeyed (update_all supported cs d).1
unfolding update_all
update_all-IsKeyed supported [] d h = h
update_all-IsKeyed supported (c ∷ cs) d h =
    let m = update_dependencies supported c d in
    let k = update_dependencies-IsKeyed supported c d h in
    then-IsKeyed m.0 m.1 (λ _. update_all supported cs) k
      (λ _. update_all-IsKeyed supported cs m.1 k)

-- Whether an entry and a new info both come with cloud storage info.
abbrev pub conflicts : Option DependencyInfo → DependencyInfo → Bool
conflicts none new = false
conflicts (some old) new = has new.cloud_storage_info && has old.cloud_storage_info

same_names :
    (new old : DependencyInfo)
    → (old.dependency ≡ new.dependency) × (old.platform ≡ new.platform)
    → (Info.update new old).0 ≡ (if conflicts (some old) new then err value_error else ok tt)
unfolding Info.update
same_names new old h =
    ground (arith, eq_iff old.dependency new.dependency, eq_iff old.platform new.platform)

-- In a dictionary whose entries are filed under their own names, adding a dependency info raises
-- ValueError if the entry of its dependency and platform and the new info both have cloud storage
-- info, and returns in every other case.
pub add_dependency_info_lem :
    (new : DependencyInfo) (d : LookupDict)
    → IsKeyed d
    → (add_dependency_info new d).0
      ≡ (if conflicts (entry d new.dependency new.platform) new then err value_error else ok tt)
unfolding add_dependency_info
add_dependency_info_lem new d h = by_entry (entry d new.dependency new.platform) refl
  where
    by_entry :
        (o : Option DependencyInfo)
        → entry d new.dependency new.platform ≡ o
        → (add_or_update o new d).0 ≡ (if conflicts o new then err value_error else ok tt)
    by_entry none e = refl
    by_entry (some old) e = same_names new old (h new.dependency new.platform old e)
