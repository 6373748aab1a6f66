-- ===== src/Deps/Manager/Precedence.antt =====
-- What later configs leave of the entries that earlier ones made.
use text.Mathlib.TextEquality.{eq_iff}
use mathlib.Core.Option.{some-injective}
use ftc_designosaurs.Deps.Manager.Extends.{
  Extends, Extends-refl, Extends-trans, update-Extends, entry-put,
}
use ftc_designosaurs.Base.{
  String, ◌&&◌, ◌≡◌, refl, ◌∙◌, subst, Option, none, some, List, [], ◌∷◌, ◌++◌, ◌==◌, arith, inl,
  inr, Bool-cases, comparable_string,
}
use ftc_designosaurs.Python.{Error, Exec, Result, ok, err, and_then}
use ftc_designosaurs.Deps.Info
use ftc_designosaurs.Deps.Info.{DependencyInfo, has, first_path, merge_local, merge_cloud}
use ftc_designosaurs.Deps.Manager.{
  init_manager, Config, LookupDict, entry, put, add_or_update, add_dependency_info, add_all,
  reraise, is_supported, update_dependencies, update_all,
}

-- Every entry of the first dictionary has an extension in the second.
abbrev pub EntriesExtend : LookupDict → LookupDict → Type 0
EntriesExtend d d' =
    (dep plat : String) (i : DependencyInfo)
    → entry d dep plat ≡ some i
    → (i' : DependencyInfo) × (entry d' dep plat ≡ some i') × Extends i i'

EntriesExtend-refl : (d : LookupDict) → EntriesExtend d d
EntriesExtend-refl d dep plat i e = (i, e, Extends-refl i)

EntriesExtend-trans :
    (a b c : LookupDict) → EntriesExtend a b → EntriesExtend b c → EntriesExtend a c
EntriesExtend-trans a b c f g dep plat i e =
    let (j, ej, x) = f dep plat i e in
    let (k, ek, y) = g dep plat j ej in (k, ek, Extends-trans x y)

-- A new value at a key whose old entry, if there is one, it extends.
put-EntriesExtend :
    (key info : DependencyInfo) (d : LookupDict) (old : Option DependencyInfo)
    → entry d key.dependency key.platform ≡ old
    → ((i : DependencyInfo) → old ≡ some i → Extends i info)
    → EntriesExtend d (put key info d)
put-EntriesExtend key info d old e h dep plat i f =
    elim (Bool-cases (key.dependency == dep && key.platform == plat)) [
      | inl same ↦ (
        info,
        entry-put key info d dep plat ∙ rw same refl,
        h i (ground (arith, eq_iff key.dependency dep, eq_iff key.platform plat)),
      )
      | inr other ↦ (i, entry-put key info d dep plat ∙ rw other f, Extends-refl i)
    ]

add_or_update-EntriesExtend :
    (o : Option DependencyInfo) (new : DependencyInfo) (d : LookupDict)
    → entry d new.dependency new.platform ≡ o
    → EntriesExtend d (add_or_update o new d).1
add_or_update-EntriesExtend none new d e = put-EntriesExtend new new d none e (λ i h. absurd (cc))
add_or_update-EntriesExtend (some old) new d e =
    put-EntriesExtend new (Info.update new old).1 d (some old) e (λ i h.
      subst (λ x. Extends x (Info.update new old).1) (some-injective old i h)
        (update-Extends new old))

-- A sequence of calls extends if each part does, also where the first raises.
then_extends :
    {A : Type 0} (r : Result A) (d e : LookupDict) (f : A → Exec LookupDict Unit)
    → EntriesExtend d e
    → ((a : A) → EntriesExtend e (f a e).1)
    → EntriesExtend d (and_then r f e).1
then_extends (ok a) d e f h k = EntriesExtend-trans d e (f a e).1 h (k a)
then_extends (err x) d e f h k = h

add_all-EntriesExtend :
    (is : List DependencyInfo) (d : LookupDict) → EntriesExtend d (add_all is d).1
unfolding add_all add_dependency_info
add_all-EntriesExtend [] d = EntriesExtend-refl d
add_all-EntriesExtend (i ∷ is) d =
    then_extends (add_dependency_info i d).0 d (add_dependency_info i d).1 (λ _. add_all is)
      (add_or_update-EntriesExtend (entry d i.dependency i.platform) i d refl)
      (λ _. add_all-EntriesExtend is (add_dependency_info i d).1)

reraise-EntriesExtend : (o : Option Error) (d : LookupDict) → EntriesExtend d (reraise o d).1
reraise-EntriesExtend none d = EntriesExtend-refl d
reraise-EntriesExtend (some e) d = EntriesExtend-refl d

update_dependencies-EntriesExtend :
    (supported : List String) (c : Config) (d : LookupDict)
    → EntriesExtend d (update_dependencies supported c d).1
unfolding update_dependencies
update_dependencies-EntriesExtend supported c d = elim (Bool-cases (is_supported supported c)) [
  | inl e ↦ rw e (
      then_extends (add_all c.yielded d).0 d (add_all c.yielded d).1 (λ _. reraise c.raised)
        (add_all-EntriesExtend c.yielded d)
        (λ _. reraise-EntriesExtend c.raised (add_all c.yielded d).1))
  | inr n ↦ rw n (EntriesExtend-refl d)
]

update_all-EntriesExtend :
    (supported : List String) (cs : List Config) (d : LookupDict)
    → EntriesExtend d (update_all supported cs d).1
unfolding update_all
update_all-EntriesExtend supported [] d = EntriesExtend-refl d
update_all-EntriesExtend supported (c ∷ cs) d =
    let m = update_dependencies supported c d in
    then_extends m.0 d m.1 (λ _. update_all supported cs)
      (update_dependencies-EntriesExtend supported c d)
      (λ _. update_all-EntriesExtend supported cs m.1)

same_prefix :
    (r : Result Unit) (e : LookupDict) (f g : Unit → Exec LookupDict Unit)
    → ((u : Unit) → EntriesExtend (f u e).1 (g u e).1)
    → EntriesExtend (and_then r f e).1 (and_then r g e).1
same_prefix (ok u) e f g h = h u
same_prefix (err x) e f g h = EntriesExtend-refl e

update_all-append :
    (supported : List String) (before after : List Config) (d : LookupDict)
    → EntriesExtend (update_all supported before d).1 (update_all supported (before ++ after) d).1
unfolding update_all
update_all-append supported [] after d = update_all-EntriesExtend supported after d
update_all-append supported (c ∷ before) after d =
    let m = update_dependencies supported c d in
    same_prefix m.0 m.1 (λ _. update_all supported before)
      (λ _. update_all supported (before ++ after))
      (λ _. update_all-append supported before after m.1)

-- Configs count in decreasing order of precedence: whatever configs are listed behind others, and
-- whether or not they raise, each entry that the first ones make keeps its names and its cloud
-- storage info, and on every file system the local path that it finds.
pub init_manager-EntriesExtend :
    (supported : List String) (before after : List Config)
    → EntriesExtend (init_manager supported before).1 (init_manager supported (before ++ after)).1
unfolding init_manager
init_manager-EntriesExtend supported before after = update_all-append supported before after []
