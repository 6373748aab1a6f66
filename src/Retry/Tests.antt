-- ===== src/Retry/Tests.antt =====
-- Small inputs for the theorems about retries.
use ftc_designosaurs.Base.{Bool, true, ◌≡◌, refl}
use ftc_designosaurs.Python.{Exec, err, os_error, Error}
use ftc_designosaurs.Retry.Loop.{retry_on_exception, retry_loop}
use ftc_designosaurs.Retry.Bounds.{Tally, Within, count_sleep, counted, retry_on_exception-Within}

abbrev fails : Exec Unit Unit
fails s = (err os_error, s)

abbrev always : Error → Bool
always e = true

abbrev tally : Tally
tally = record { calls = 0; slept = 0 }

all_tries_test :
    (retry_on_exception count_sleep always (counted fails) 3 (tt, tally)).1.1
    ≡ record { calls = 4; slept = 7 }
unfolding retry_on_exception retry_loop
all_tries_test = refl

retry_on_exception-Within_example :
    Within 4 1 8 tally (retry_on_exception count_sleep always (counted fails) 3 (tt, tally)).1.1
retry_on_exception-Within_example = retry_on_exception-Within always fails 3 tt tally
