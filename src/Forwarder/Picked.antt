-- ===== src/Forwarder/Picked.antt =====
-- Taking the picked keys out of a dictionary one by one, as UnmapAllDevicePorts does.
use ftc_designosaurs.Base.{
  Option, none, some, Bool, true, false, ◌&&◌, ◌≡◌, refl, ◌==◌, arith, Comparable, [], ◌∷◌,
  if◌then◌else◌, subst, equal_self,
}
use ftc_designosaurs.Base.Dict.{lookup, erase, lookup-erase, Dict}

abbrev is_some : {V : Type 0} → Option V → Bool
is_some none = false
is_some (some v) = true

module _ {K : Type 0} ⦃keys : Comparable K⦄ (mine : K → Bool) where
  same_key : (key k : K) → (key == k) ≡ true → mine key ≡ mine k
  same_key key k e = subst (λ x. mine key ≡ mine x) ((keys.equal_iff key k).0 e) refl

module _ {K V : Type 0} ⦃keys : Comparable K⦄ (mine : K → Bool) where
  -- Whether the key is picked and has an entry.
  abbrev pub is_picked : Dict K V → K → Bool
  is_picked es k = mine k && is_some (lookup k es)

  abbrev pub Within : Dict K V → Dict K V → Type 0
  Within es d = (k : K) (v : V) → lookup k es ≡ some v → lookup k d ≡ some v

  pub rest_in :
      (key : K) (value : V) (es d : Dict K V)
      → lookup key es ≡ none
      → Within ((key, value) ∷ es) d
      → Within es d
  unfolding lookup
  rest_in key value es d fresh within k v e = ground (arith, keys.equal_iff key k, within k v)

  pub rest_in_erased :
      (key : K) (value : V) (es d : Dict K V)
      → lookup key es ≡ none
      → Within ((key, value) ∷ es) d
      → Within es (erase key d)
  rest_in_erased key value es d fresh within k v e =
      ground (
        arith,
        lookup-erase key k d,
        rest_in key value es d fresh within k v e,
        keys.equal_iff key k,
      )

  pub first_in :
      (key : K) (value : V) (es d : Dict K V)
      → Within ((key, value) ∷ es) d
      → lookup key d ≡ some value
  unfolding lookup
  first_in key value es d within = within key value (ground (arith, equal_self key))

  pub picked_first :
      (key k : K) (value : V) (es : Dict K V) (o : Option V)
      → mine key ≡ true
      → (if is_picked es k then none else if key == k then none else o)
        ≡ (if is_picked ((key, value) ∷ es) k then none else o)
  unfolding lookup
  picked_first key k value es o e = ground (arith, same_key mine key k)

  pub picked_other :
      (key k : K) (value : V) (es : Dict K V) (o : Option V)
      → mine key ≡ false
      → (if is_picked es k then none else o) ≡ (if is_picked ((key, value) ∷ es) k then none else o)
  unfolding lookup
  picked_other key k value es o e = ground (arith, same_key mine key k)

  pub picked_all :
      (k : K) (d : Dict K V)
      → (if is_picked d k then none else lookup k d) ≡ (if mine k then none else lookup k d)
  picked_all k d = ground arith

  pub picked_none : (k : K) (o : Option V) → o ≡ (if is_picked [] k then none else o)
  unfolding lookup
  picked_none k o = ground arith
