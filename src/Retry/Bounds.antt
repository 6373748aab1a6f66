-- ===== src/Retry/Bounds.antt =====
-- How often a call is tried, and how long the waits between the attempts are.
use Prim.Native.Nat.{◌*◌, ◌^◌}
use native.Mathlib.Nat.{pow-suc}
use ftc_designosaurs.Base.{
  sym, ℕ, zero, suc, ◌+◌, ◌≤◌, ◌≡◌, subst, ◌∙◌, ap, arith, Bool, true, false, if◌then◌else◌,
}
use ftc_designosaurs.Python.{Exec, Result, ok, err, Error, recover, ◌>>◌}
use ftc_designosaurs.Retry.Loop.{retry_loop, retry_on_exception, sleep_and, run, again_if}

-- The calls and the seconds slept so far.
pub record Tally : Type 0 where
  pub calls : ℕ
  pub slept : ℕ

-- At least one call more than in t and at most so many, and less than so many seconds more, of
-- which some are still to be waited.
abbrev pub Within : ℕ → ℕ → ℕ → Tally → Tally → Type 0
Within most wait total t u =
    (suc t.calls ≤ u.calls) × (u.calls ≤ t.calls + most) × (u.slept + wait ≤ t.slept + total)

-- The wait after so many doublings
unfoldable doubled : ℕ → ℕ → ℕ
doubled zero wait = wait
doubled (suc n) wait = doubled n (wait * 2)

doubled_lem : (n wait : ℕ) → doubled n wait ≡ wait * 2 ^ n
unfolding doubled
doubled_lem zero wait = omega arith
doubled_lem (suc n) wait =
    doubled_lem n (wait * 2) ∙ moved wait (2 ^ n) ∙ ap (λ x. wait * x) (sym (pow-suc 2 n))
  where
    moved : (a b : ℕ) → a * 2 * b ≡ a * (b * 2)
    moved a b = grind arith

le-doubled : (n wait : ℕ) → wait ≤ doubled n wait
unfolding doubled
le-doubled zero wait = omega arith
le-doubled (suc n) wait = let rest = le-doubled n (wait * 2) in omega arith

module _ {S : Type 0} where
  abbrev pub count_sleep : ℕ → Exec (S × Tally) Unit
  count_sleep wait (s, t) = (ok tt, (s, record t { slept = t.slept + wait }))

module _ {S A : Type 0} where
  abbrev pub counted : Exec S A → Exec (S × Tally) A
  counted f (s, t) = let (r, left) = f s in (r, (left, record t { calls = t.calls + 1 }))

  retry_loop-Within :
      (is_caught : Error → Bool) (f : Exec S A) (n wait : ℕ) (s : S) (t : Tally)
      → Within
          (suc n)
          wait
          (doubled n wait)
          t
          (retry_loop count_sleep is_caught (counted f) n wait (s, t)).1.1
  unfolding retry_loop doubled
  retry_loop-Within is_caught f zero wait s t = (omega arith, omega arith, omega arith)
  retry_loop-Within is_caught f (suc n) wait s t =
      by_result (f s) (retry_loop-Within is_caught f n (wait * 2))
    where
      again : Exec (S × Tally) A
      again = retry_loop count_sleep is_caught (counted f) n (wait * 2)

      once : Tally
      once = record t { calls = t.calls + 1 }

      Good : Result A × (S × Tally) → Type 0
      Good out = Within (suc (suc n)) wait (doubled n (wait * 2)) t out.1.1

      ended : Within (suc (suc n)) wait (doubled n (wait * 2)) t once
      ended = let more = le-doubled n (wait * 2) in (omega arith, omega arith, omega arith)

      by_catch :
          (b : Bool) (e : Error) (left : S)
          → ((s' : S) (t' : Tally)
              → Within (suc n) (wait * 2) (doubled n (wait * 2)) t' (again (s', t')).1.1)
          → Good (if b then (count_sleep wait >> again) (left, once) else (err e, (left, once)))
      by_catch false e left h = ended
      by_catch true e left h =
          let (low, high, time) = h left (record once { slept = t.slept + wait }) in
          (omega arith, omega arith, omega arith)

      by_result :
          (out : Result A × S)
          → ((s' : S) (t' : Tally)
              → Within (suc n) (wait * 2) (doubled n (wait * 2)) t' (again (s', t')).1.1)
          → Good (recover (sleep_and is_caught (count_sleep wait) again) out.0 (out.1, once))
      by_result (ok a, left) h = ended
      by_result (err e, left) h = by_catch (is_caught e) e left h

  -- RetryOnException calls the function at least once and at most once more than it is given
  -- retries, and sleeps for less than 2 ^ retries seconds, however the calls end.
  pub retry_on_exception-Within :
      (is_caught : Error → Bool) (f : Exec S A) (retries : ℕ) (s : S) (t : Tally)
      → Within
          (suc retries)
          1
          (2 ^ retries)
          t
          (retry_on_exception count_sleep is_caught (counted f) retries (s, t)).1.1
  unfolding retry_on_exception
  retry_on_exception-Within is_caught f retries s t =
      subst
        (λ x.
          Within (suc retries) 1 x t
            (retry_loop count_sleep is_caught (counted f) retries 1 (s, t)).1.1)
        (doubled_lem retries 1 ∙ one (2 ^ retries)) (retry_loop-Within is_caught f retries 1 s t)
    where
      one : (x : ℕ) → 1 * x ≡ x
      one x = omega arith

  run-calls :
      (retry_if : Error → Bool) (f : Exec S A) (n : ℕ) (s : S) (t : Tally)
      → (suc t.calls ≤ (run retry_if (counted f) n (s, t)).1.1.calls)
        × ((run retry_if (counted f) n (s, t)).1.1.calls ≤ t.calls + suc n)
  unfolding run
  run-calls retry_if f zero s t = (omega arith, omega arith)
  run-calls retry_if f (suc n) s t = by_result (f s) (run-calls retry_if f n)
    where
      again : Exec (S × Tally) A
      again = run retry_if (counted f) n

      once : Tally
      once = record t { calls = t.calls + 1 }

      Good : Result A × (S × Tally) → Type 0
      Good out = (suc t.calls ≤ out.1.1.calls) × (out.1.1.calls ≤ t.calls + suc (suc n))

      Later : Type 0
      Later =
          (s' : S) (t' : Tally)
          → (suc t'.calls ≤ (again (s', t')).1.1.calls)
            × ((again (s', t')).1.1.calls ≤ t'.calls + suc n)

      by_retry :
          (b : Bool) (e : Error) (left : S)
          → Later
          → Good (if b then again (left, once) else (err e, (left, once)))
      by_retry false e left h = (omega arith, omega arith)
      by_retry true e left h = let (low, high) = h left once in (omega arith, omega arith)

      by_result :
          (out : Result A × S)
          → Later
          → Good (recover (again_if retry_if again) out.0 (out.1, once))
      by_result (ok a, left) h = (omega arith, omega arith)
      by_result (err e, left) h = by_retry (retry_if e) e left h
