-- ===== src/Python.antt =====
-- Python's exceptions, and methods that change a state and may raise.
use ftc_designosaurs.Base.{Bool, true, false, some, subst, ◌≡◌, refl}

-- The exceptions that the modelled code raises, catches or lets through.
pub data Error : Type 0 where
  value_error os_error cloud_storage_error file_not_found_error archive_error : Error
  no_path_found_error unsupported_config_format_error read_write_error : Error
  key_error assertion_error runtime_error host_forwarder_error : Error
  command_failed_error device_unreachable_error unbound_local_error type_error : Error
  include_loop_error trace_exception name_error attribute_error empty_config_error : Error
  credentials_error permission_error not_found_error server_error io_disabled_error : Error
  upload_conflict_error index_error timeout_error device_charging_error device_version_error
        parse_error :
      Error

-- CloudStorageError of cloud_storage.py, and the classes that are derived from it
abbrev pub is_cloud_storage_error : Error → Bool
is_cloud_storage_error cloud_storage_error = true
is_cloud_storage_error credentials_error = true
is_cloud_storage_error permission_error = true
is_cloud_storage_error not_found_error = true
is_cloud_storage_error server_error = true
is_cloud_storage_error io_disabled_error = true
is_cloud_storage_error upload_conflict_error = true
is_cloud_storage_error e = false

pub data Result (A : Type 0) : Type 0 where
  ok : A → Result A
  err : Error → Result A

pub ok-injective : {A : Type 0} {a b : A} → ok a ≡ ok b → a ≡ b
ok-injective e = cc

pub some-injective : {A : Type 0} {a b : A} → some a ≡ some b → a ≡ b
some-injective e = cc

-- What was written before a raise stays written, so that the state comes back beside the error.
abbrev pub Exec : Type 0 → Type 0 → Type 0
Exec S A = S → Result A × S

module _ {S A : Type 0} where
  abbrev pub pure : A → Exec S A
  pure a s = (ok a, s)

  abbrev pub raise : Error → Exec S A
  raise e s = (err e, s)

  abbrev pub recover : (Error → Exec S A) → Result A → Exec S A
  recover handler (ok a) s = (ok a, s)
  recover handler (err e) s = handler e s

  -- try: call, except: handler
  abbrev pub try_except : Exec S A → (Error → Exec S A) → Exec S A
  try_except call handler before = let (r, left) = call before in recover handler r left

module _ {S A B : Type 0} where
  abbrev pub and_then : Result A → (A → Exec S B) → Exec S B
  and_then (err e) rest left = (err e, left)
  and_then (ok a) rest left = rest a left

  infixl 5 ◌>>◌ ◌>>=◌
  abbrev pub ◌>>=◌ : Exec S A → (A → Exec S B) → Exec S B
  ◌>>=◌ call rest before = let (result, left) = call before in and_then result rest left

  abbrev pub ◌>>◌ : Exec S A → Exec S B → Exec S B
  call >> rest = call >>= (λ ignored. rest)

  pub and_then-eq-ok :
      (r : Result A) (f : A → Exec S B) (s : S) {b : B}
      → (and_then r f s).0 ≡ ok b
      → (a : A) × (r ≡ ok a) × ((f a s).0 ≡ ok b)
  and_then-eq-ok (ok a) f s h = (a, refl, h)
  and_then-eq-ok (err e) f s h = cc

-- try: call, finally: last
abbrev pub finally : {S A : Type 0} → Exec S A → Exec S Unit → Exec S A
finally call last before =
    let (r, left) = call before in
    let (f, after) = last left in (elim f [ ok x ↦ r | err e ↦ err e ], after)

-- A call that returns leaves a result and a state with the property.
abbrev pub Ensures : {S A : Type 0} → (A → S → Type 0) → Result A × S → Type 0
Ensures P (ok a, s) = P a s
Ensures P (err e, s) = Unit

module _ {S A : Type 0} where
  pub Ensures-any : (r : Result A) (s : S) → Ensures {S = S} {A = A} (λ a t. Unit) (r, s)
  Ensures-any (ok a) s = tt
  Ensures-any (err e) s = tt

  pub Ensures-weaken :
      (P Q : A → S → Type 0) (out : Result A × S)
      → ((a : A) (s : S) → P a s → Q a s)
      → Ensures P out
      → Ensures Q out
  Ensures-weaken P Q (ok a, s) weaken h = weaken a s h
  Ensures-weaken P Q (err e, s) weaken h = tt

  pub Ensures-eq-ok :
      (P : A → S → Type 0) (r : Result A) (s : S) {a : A} → Ensures P (r, s) → r ≡ ok a → P a s
  Ensures-eq-ok P (ok b) s h e = subst (λ x. P x s) (ok-injective e) h
  Ensures-eq-ok P (err x) s h e = absurd (cc)

module _ {S A B : Type 0} where
  Ensures-and_then :
      (P : A → S → Type 0) (Q : B → S → Type 0) (r : Result A) (s : S) (f : A → Exec S B)
      → Ensures P (r, s)
      → ((a : A) (t : S) → P a t → Ensures Q (f a t))
      → Ensures Q (and_then r f s)
  Ensures-and_then P Q (ok a) s f h k = k a s h
  Ensures-and_then P Q (err e) s f h k = tt

  -- The rule for a sequence of two calls.
  pub Ensures-bind :
      (P : A → S → Type 0) (Q : B → S → Type 0) (m : Exec S A) (f : A → Exec S B) (s : S)
      → Ensures P (m s)
      → ((a : A) (t : S) → P a t → Ensures Q (f a t))
      → Ensures Q ((m >>= f) s)
  Ensures-bind P Q m f s h k = let (r, t) = m s in Ensures-and_then P Q r t f h k

  -- The same after a call of which nothing is known.
  pub Ensures-after :
      (Q : B → S → Type 0) (m : Exec S A) (f : A → Exec S B) (s : S)
      → ((a : A) (t : S) → Ensures Q (f a t))
      → Ensures Q ((m >>= f) s)
  Ensures-after Q m f s k =
      Ensures-bind (λ a t. Unit) Q m f s (Ensures-any (m s).0 (m s).1) (λ a t _. k a t)

module _ {S A B : Type 0} (P : S → Type 0) where
  leaves_result :
      (f : A → Exec S B)
      → ((a : A) (t : S) → P t → P (f a t).1)
      → (out : Result A × S) → P out.1
      → P (and_then out.0 f out.1).1
  leaves_result f k (ok a, t) p = k a t p
  leaves_result f k (err e, t) p = p

  -- A property of the state that two calls in sequence leave, those that raise included.
  pub Leaves-bind :
      (m : Exec S A) (f : A → Exec S B) (s : S)
      → P (m s).1
      → ((a : A) (t : S) → P t → P (f a t).1)
      → P ((m >>= f) s).1
  Leaves-bind m f s h k = leaves_result f k (m s) h

module _ {S A : Type 0} (P : S → Type 0) where
  leaves_recover :
      (handler : Error → Exec S A)
      → ((e : Error) (t : S) → P t → P (handler e t).1)
      → (out : Result A × S) → P out.1
      → P (recover handler out.0 out.1).1
  leaves_recover handler k (ok a, t) p = p
  leaves_recover handler k (err e, t) p = k e t p

  -- The same of a call and the handler of its exceptions.
  pub Leaves-try :
      (m : Exec S A) (handler : Error → Exec S A) (s : S)
      → P (m s).1
      → ((e : Error) (t : S) → P t → P (handler e t).1)
      → P (try_except m handler s).1
  Leaves-try m handler s h k = leaves_recover handler k (m s) h

module _ {S A B : Type 0} where
  first_result :
      (Q : B → S → Type 0) (out : Result A × S) (f : A → Exec S B)
      → ((a : A) (t : S) → out ≡ (ok a, t) → Ensures Q (f a t))
      → Ensures Q (and_then out.0 f out.1)
  first_result Q (ok a, t) f k = k a t refl
  first_result Q (err e, t) f k = tt

  -- The rule for a sequence of two calls, of which the first is known by its equation.
  pub Ensures-then :
      (Q : B → S → Type 0) (m : Exec S A) (f : A → Exec S B) (s : S)
      → ((a : A) (t : S) → m s ≡ (ok a, t) → Ensures Q (f a t))
      → Ensures Q ((m >>= f) s)
  Ensures-then Q m f s k = first_result Q (m s) f k
