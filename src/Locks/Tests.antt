-- ===== src/Locks/Tests.antt =====
-- Small inputs for the theorems about the pseudo lock.
use ftc_designosaurs.Base.{
  Bool, true, false, ◌==◌, comparable_nat, if◌then◌else◌, ℕ, none, some, ◌≡◌, refl,
}
use ftc_designosaurs.Locks.Steps.{
  idle, guarded, opened, acquired, inside, update, System, Reach, here, next, by_process,
  take_global, open_new, lock_file, enter, Steps, releasing, unlocked, removed, start_release,
  unlock_file, remove_file, leave,
}
use ftc_designosaurs.Locks.Exclusion.{inside_once, idle-enters}

abbrev entered : System
entered = record {
  shared = record { global = none; linked = some 0; locked = update (λ x. none) 0 (some 7) };
  pc =
      update (update (update (update (λ i. idle) 7 guarded) 7 (opened 0)) 7 (acquired 0)) 7
        (inside 0);
}

entered-Reach : Reach none entered
entered-Reach =
    next
      (next
        (next (next here (by_process 7 (take_global refl))) (by_process 7 (open_new 0 refl refl)))
        (by_process 7 (lock_file 0 refl)))
      (by_process 7 (enter 0))

inside_once_example : ◌≡◌ {A = ℕ} 7 7
inside_once_example = inside_once none entered 7 7 0 0 entered-Reach refl refl

-- The system after process 7 has been inside and has released the lock.
abbrev left_again : System
left_again = record {
  shared = record {
    global = none;
    linked = none;
    locked = update (update (λ x. none) 0 (some 7)) 0 none;
  };
  pc = update (update (update (update entered.pc 7 (releasing 0)) 7 unlocked) 7 removed) 7 idle;
}

left_again-Reach : Reach none left_again
left_again-Reach =
    next
      (next
        (next (next entered-Reach (by_process 7 (start_release 0 refl)))
          (by_process 7 (unlock_file 0)))
        (by_process 7 remove_file))
      (by_process 7 leave)

left_again_idle : (j : ℕ) → left_again.pc j ≡ idle
left_again_idle j = by_test (7 == j)
  where
    by_test :
        (b : Bool)
        → (if b
            then idle
            else if b
            then removed
            else if b
            then unlocked
            else if b
            then releasing 0
            else if b
            then inside 0
            else if b
            then acquired 0
            else if b
            then opened 0
            else if b
            then guarded
            else idle)
          ≡ idle
    by_test true = refl
    by_test false = refl

idle-enters_example : (x : ℕ) × (t : System) × Steps left_again t × (t.pc 3 ≡ inside x)
idle-enters_example = idle-enters none left_again 3 left_again-Reach left_again_idle
