-- ===== src/Battery/Wait.antt =====
-- WaitFor of devil/devil/utils/timeout_retry.py, inside a thread group with a timeout.
use ftc_designosaurs.Base.{ℕ, zero, suc, Bool, true, false}
use ftc_designosaurs.Python.{Exec, pure, raise, ◌>>=◌, ◌>>◌, timeout_error}

module _ {S : Type 0} (sleep : Exec S Unit) (condition : Exec S Bool) where
  abbrev pub sleep_unless : Exec S Unit → Bool → Exec S Unit
  sleep_unless again true = pure tt
  sleep_unless again false = do sleep; again

  -- The loop, for so many checks of the condition at most.
  unfoldable pub checks : ℕ → Exec S Unit
  checks zero = raise timeout_error
  checks (suc n) = let rest = checks n in condition >>= sleep_unless rest

-- WaitFor. A check is followed by a sleep, which raises TimeoutError where less time is left than
-- the wait period, so that no more checks are made than there are seconds left, and one.
unfoldable pub wait_for : {S : Type 0} → (S → ℕ) → Exec S Unit → Exec S Bool → Exec S Unit
wait_for remaining sleep condition s = checks sleep condition (suc (remaining s)) s
