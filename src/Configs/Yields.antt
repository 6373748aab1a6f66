-- ===== src/Configs/Yields.antt =====
-- The infos that IterDependencyInfo of base_config.py yields.
use ftc_designosaurs.Base.{
  String, false, none, some, List, [], ◌∷◌, ◌++◌, map, if◌then◌else◌, ◌≡◌, refl, ap, ◌∙◌, sym,
  subst,
}
use ftc_designosaurs.Base.Dict.{Dict}
use ftc_designosaurs.Python.{Result, ok, err, read_write_error}
use ftc_designosaurs.Deps.System.{System}
use ftc_designosaurs.Deps.Info.{DependencyInfo}
use ftc_designosaurs.Configs.Data.{Platform, Dependency, Data}
use ftc_designosaurs.Configs.Opened.{BaseConfig, no_platforms}
use ftc_designosaurs.Configs.Infos.{
  Yielded, yield_first, yield_then, info_of, iter_platforms, iter_data, iter_dependency_info,
}
use ftc_designosaurs.Configs.Described.{described, described_all, info_of-described}

module _ (sys : System) (sep : String) where
  -- Infos that are yielded without an exception after them.
  abbrev Yields : List DependencyInfo → Yielded → Type 0
  Yields expect out = out.1 ≡ none → out.0 ≡ expect

  Yields-first :
      (r : Result DependencyInfo) (x : DependencyInfo) (xs : List DependencyInfo) (rest : Yielded)
      → ((i : DependencyInfo) → r ≡ ok i → i ≡ x)
      → Yields xs rest
      → Yields (x ∷ xs) (yield_first r rest)
  Yields-first (err e) x xs rest here later = λ h. absurd (cc)
  Yields-first (ok i) x xs (is, e) here later = λ h. cong2 (here i refl) (later h)
    where
      cong2 :
          {y : DependencyInfo} {ys : List DependencyInfo} → y ≡ x → ys ≡ xs → (y ∷ ys) ≡ (x ∷ xs)
      cong2 e f = cc

  Yields-then :
      (xs ys : List DependencyInfo) (first rest : Yielded)
      → Yields xs first
      → Yields ys rest
      → Yields (xs ++ ys) (yield_then first rest)
  Yields-then xs ys (is, none) (js, e) here later =
      λ h. ap (λ l. l ++ js) (here refl) ∙ ap (λ l. xs ++ l) (later h)
  Yields-then xs ys (is, some e) rest here later = λ h. absurd (cc)

  iter_platforms-Yields :
      (config_path dependency : String) (d : Dependency) (ps : Dict String Platform)
      → Yields
          (map (described sys sep config_path dependency d) ps)
          (iter_platforms sys sep config_path dependency d ps)
  unfolding iter_platforms
  iter_platforms-Yields config_path dependency d [] = λ h. refl
  iter_platforms-Yields config_path dependency d ((platform, p) ∷ ps) =
      Yields-first (info_of sys sep config_path dependency d platform p)
        (described sys sep config_path dependency d (platform, p))
        (map (described sys sep config_path dependency d) ps)
        (iter_platforms sys sep config_path dependency d ps)
        (info_of-described sys sep config_path dependency d platform p)
        (iter_platforms-Yields config_path dependency d ps)

  iter_data-Yields :
      (config_path : String) (deps : Data)
      → Yields (described_all sys sep config_path deps) (iter_data sys sep config_path deps)
  unfolding iter_data described_all
  iter_data-Yields config_path [] = λ h. refl
  iter_data-Yields config_path ((dependency, d) ∷ deps) =
      Yields-then (map (described sys sep config_path dependency d) (no_platforms d.file_info))
        (described_all sys sep config_path deps)
        (iter_platforms sys sep config_path dependency d (no_platforms d.file_info))
        (iter_data sys sep config_path deps)
        (iter_platforms-Yields config_path dependency d (no_platforms d.file_info))
        (iter_data-Yields config_path deps)

  -- Where the iteration over a config that is not writable raises nothing, it yields exactly one info
  -- for each platform of each dependency, in the order in which the dictionaries are walked. The info
  -- carries the path of the config. Each local path of the entry is in a group of its own, seen from
  -- the folder of the config. Where the entry has a download path, the info has the bucket of the
  -- dependency, the hash, the version, the full path of the file and its path in the bucket, and with
  -- a path within an archive also where the archive is unpacked.
  pub iter_dependency_info-Yields :
      (c : BaseConfig)
      → c.writable ≡ false
      → (iter_dependency_info sys sep c).1 ≡ none
      → (iter_dependency_info sys sep c).0 ≡ described_all sys sep c.config_path c.config_data
  unfolding iter_dependency_info
  iter_dependency_info-Yields c readable =
      subst (Yields (described_all sys sep c.config_path c.config_data))
        (sym (
          ap
            (λ b.
              if b
              then ([], some read_write_error)
              else iter_data sys sep c.config_path c.config_data)
            readable))
        (iter_data-Yields c.config_path c.config_data)
