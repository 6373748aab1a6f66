-- ===== src/Forwarder/Inverse.antt =====
-- Two dictionaries of which one leads back from the other, as the two port maps of forwarder.py.
use ftc_designosaurs.Base.{some, ◌≡◌, arith, Comparable}
use ftc_designosaurs.Base.Dict.{lookup, erase, insert, lookup-erase, lookup-insert, Dict}

module _ {K V : Type 0} ⦃keys : Comparable K⦄ ⦃values : Comparable V⦄ where
  -- Every value has its key under it in the other dictionary.
  abbrev pub LeadsBack : Dict K V → Dict V K → Type 0
  LeadsBack d h = (k : K) (v : V) → lookup k d ≡ some v → lookup v h ≡ some k

  pub erase-LeadsBack :
      (key : K) (value : V) (d : Dict K V) (h : Dict V K)
      → LeadsBack d h
      → lookup key d ≡ some value
      → LeadsBack (erase key d) (erase value h)
  erase-LeadsBack key value d h back found k v e = ground (
    arith,
    lookup-erase key k d,
    lookup-erase value v h,
    back key value found,
    back k v,
    keys.equal_iff key k,
    values.equal_iff value v,
  )

  pub insert-LeadsBack :
      (key : K) (value : V) (d : Dict K V) (h : Dict V K)
      → LeadsBack d h
      → ((k : K) → lookup value h ≡ some k → k ≡ key)
      → LeadsBack (insert key value d) (insert value key h)
  insert-LeadsBack key value d h back free k v e = ground (
    arith,
    lookup-insert key k value d,
    lookup-insert value v key h,
    free k,
    back k v,
    keys.equal_iff key k,
    values.equal_iff value v,
  )
