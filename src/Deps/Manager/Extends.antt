-- ===== src/Deps/Manager/Extends.antt =====
-- How DependencyInfo.Update extends an object, and what a write to the lookup dictionary changes.
use text.Mathlib.TextEquality.{eq_iff}
use ftc_designosaurs.Base.{
  ℕ, String, Bool, true, false, not, ◌&&◌, ◌||◌, ◌≡◌, refl, ap, ◌∙◌, Option, none, some, List, ◌==◌,
  arith, inl, inr, Bool-cases, comparable_string, if◌then◌else◌,
}
use ftc_designosaurs.Base.Dict.{insert, lookup-insert}
use ftc_designosaurs.Deps.LocalPath
use ftc_designosaurs.Deps.LocalPath.{Groups, or_else}
use ftc_designosaurs.Deps.LocalPath.Merge.{get_local_path-update}
use ftc_designosaurs.Deps.Cloud.{CloudStorageInfo}
use ftc_designosaurs.Deps.Info
use ftc_designosaurs.Deps.Info.{DependencyInfo, has, first_path, merge_local, merge_cloud}
use ftc_designosaurs.Deps.Manager.{LookupDict, platforms, entry, put}

-- `i'` is `i` with what was added later: the cloud storage info stays if there is one, and on every
-- file system the local path stays if there is one.
pub record Extends (i i' : DependencyInfo) : Type 0 where
  pub dependency : i'.dependency ≡ i.dependency
  pub platform : i'.platform ≡ i.platform
  pub cloud : has i.cloud_storage_info ≡ true → i'.cloud_storage_info ≡ i.cloud_storage_info
  pub local :
      (exists : String → Bool) (mtime : String → ℕ) (p : String)
      → first_path exists mtime i.local_path_info ≡ some p
      → first_path exists mtime i'.local_path_info ≡ some p

pub Extends-refl : (i : DependencyInfo) → Extends i i
Extends-refl i = record {
  dependency = refl;
  platform = refl;
  cloud = λ h. refl;
  local = λ e m p h. h;
}

pub Extends-trans : {i j k : DependencyInfo} → Extends i j → Extends j k → Extends i k
Extends-trans a b = record {
  dependency = b.dependency ∙ a.dependency;
  platform = b.platform ∙ a.platform;
  cloud = λ h. b.cloud (ap has (a.cloud h) ∙ h) ∙ a.cloud h;
  local = λ e m p h. b.local e m p (a.local e m p h);
}

merge_local-keeps :
    (old new : Option Groups) (exists : String → Bool) (mtime : String → ℕ) (p : String)
    → first_path exists mtime old ≡ some p
    → first_path exists mtime (merge_local old new) ≡ some p
merge_local-keeps none new exists mtime p h = absurd (cc)
merge_local-keeps (some old) new exists mtime p h =
    let (more, e) = get_local_path-update old new in
    e exists mtime ∙ ap (λ r. or_else exists mtime r (LocalPath.get_local_path exists mtime more)) h

merge_cloud-keeps :
    (old new : Option CloudStorageInfo)
    → (has new && has old) ≡ false
    → has old ≡ true
    → merge_cloud old new ≡ old
merge_cloud-keeps old none h k = refl
merge_cloud-keeps none (some c) h k = cc
merge_cloud-keeps (some o) (some c) h k = cc

with_path-Extends :
    (paths : List String) (i : DependencyInfo) → Extends i (record i { config_paths = paths })
with_path-Extends paths i = record {
  dependency = refl;
  platform = refl;
  cloud = λ h. refl;
  local = λ e m p h. h;
}

-- Update, whether it returns or raises, extends the object.
pub update-Extends : (new self : DependencyInfo) → Extends self (Info.update new self).1
unfolding Info.update
update-Extends new self =
    elim (Bool-cases
      (not (self.dependency == new.dependency) || not (self.platform == new.platform))) [
        | inl e ↦ rw e (with_path-Extends _ self)
        | inr n ↦
            rw n (elim (Bool-cases (has new.cloud_storage_info && has self.cloud_storage_info)) [
              | inl e ↦ rw e (with_path-Extends _ self)
              | inr m ↦ rw m (record {
                dependency = refl;
                platform = refl;
                cloud = merge_cloud-keeps self.cloud_storage_info new.cloud_storage_info m;
                local = merge_local-keeps self.local_path_info new.local_path_info;
              })
            ])
      ]

pub entry-put :
    (key info : DependencyInfo) (d : LookupDict) (dep plat : String)
    → entry (put key info d) dep plat
      ≡ (if key.dependency == dep && key.platform == plat then some info else entry d dep plat)
unfolding entry
entry-put key info d dep plat = ground (
  arith,
  lookup-insert key.dependency dep (insert key.platform info (platforms d key.dependency)) d,
  lookup-insert key.platform plat info (platforms d key.dependency),
  eq_iff key.dependency dep,
)
