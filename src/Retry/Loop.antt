-- ===== src/Retry/Loop.antt =====
-- RetryOnException of common/py_utils/py_utils/retry_util.py and Run of
-- devil/devil/utils/timeout_retry.py.
use Prim.Native.Nat.{◌*◌}
use ftc_designosaurs.Base.{ℕ, zero, suc, Bool, if◌then◌else◌}
use ftc_designosaurs.Python.{Exec, err, Error, try_except, ◌>>◌}

module _ {S A : Type 0} where
  -- An exception that is caught is followed by a sleep and the rest of the loop.
  abbrev pub sleep_and : (Error → Bool) → Exec S Unit → Exec S A → Error → Exec S A
  sleep_and is_caught sleep again e s = if is_caught e then (sleep >> again) s else (err e, s)

  -- The loop of Wrapper, with so many retries and seconds to wait: Wrapper starts at one second.
  unfoldable pub retry_loop : (ℕ → Exec S Unit) → (Error → Bool) → Exec S A → ℕ → ℕ → Exec S A
  retry_loop sleep is_caught f zero wait = f
  retry_loop sleep is_caught f (suc n) wait =
      let again = retry_loop sleep is_caught f n (wait * 2) in
      try_except f (sleep_and is_caught (sleep wait) again)

  unfoldable pub retry_on_exception : (ℕ → Exec S Unit) → (Error → Bool) → Exec S A → ℕ → Exec S A
  retry_on_exception sleep is_caught f retries = retry_loop sleep is_caught f retries 1

  abbrev pub again_if : (Error → Bool) → Exec S A → Error → Exec S A
  again_if retry_if again e s = if retry_if e then again s else (err e, s)

  -- Run, for an attempt in a thread of its own
  unfoldable pub run : (Error → Bool) → Exec S A → ℕ → Exec S A
  run retry_if attempt zero = attempt
  run retry_if attempt (suc n) =
      let again = run retry_if attempt n in try_except attempt (again_if retry_if again)
