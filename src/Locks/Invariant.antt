-- ===== src/Locks/Invariant.antt =====
-- Who holds which lock, after any interleaving of the steps of _FileLock.
use ftc_designosaurs.Base.{
  ℕ, Bool, true, false, Option, none, some, comparable_nat, ◌≡◌, ◌≢◌, refl, ap, arith,
}
use ftc_designosaurs.Locks.Steps.{
  Shared, Pc, idle, opened, acquired, inside, releasing, unlocked, update, Move, take_global,
  open_old, open_new, lock_file, start_release, unlock_file,
}

-- The process has the global lock.
abbrev pub has_global : Pc → Bool
has_global idle = false
has_global (inside x) = false
has_global p = true

-- The file that the process has locked.
abbrev pub lock_of : Pc → Option ℕ
lock_of (acquired x) = some x
lock_of (inside x) = some x
lock_of (releasing x) = some x
lock_of p = none

-- The file that the process has opened, to lock it.
abbrev pub open_of : Pc → Option ℕ
open_of (opened x) = some x
open_of p = none

abbrev pub is_unlocked : Pc → Bool
is_unlocked unlocked = true
is_unlocked p = false

pub record Inv (m : Shared) (pc : ℕ → Pc) : Type 0 where
  pub global_of : (i : ℕ) → has_global (pc i) ≡ true → m.global ≡ some i
  pub global_held : (i : ℕ) → m.global ≡ some i → has_global (pc i) ≡ true
  pub locked_of : (i x : ℕ) → lock_of (pc i) ≡ some x → m.locked x ≡ some i
  pub locked_held : (i x : ℕ) → m.locked x ≡ some i → lock_of (pc i) ≡ some x
  pub linked_of : (i x : ℕ) → lock_of (pc i) ≡ some x → m.linked ≡ some x
  pub opened_of : (i x : ℕ) → open_of (pc i) ≡ some x → m.linked ≡ some x
  pub free : (i j x : ℕ) → is_unlocked (pc i) ≡ true → lock_of (pc j) ≢ some x

global_of_unlocked : (p : Pc) → is_unlocked p ≡ true → has_global p ≡ true
global_of_unlocked unlocked h = refl
global_of_unlocked p h = ground arith

-- The premise of a move, for the clauses below, which cannot name it.
abbrev Guard : {i : ℕ} {m m' : Shared} {p p' : Pc} → Move i m p m' p' → Type 0
Guard {m = m} (take_global g) = m.global ≡ none
Guard {m = m} (open_old x g) = m.linked ≡ some x
Guard {m = m} (open_new x g h) = (m.linked ≡ none) × (m.locked x ≡ none)
Guard {m = m} (lock_file x g) = m.locked x ≡ none
Guard {m = m} (start_release x g) = m.global ≡ none
Guard mv = Unit

guard : {i : ℕ} {m m' : Shared} {p p' : Pc} (mv : Move i m p m' p') → Guard mv
guard (take_global g) = g
guard (open_old x g) = g
guard (open_new x g h) = (g, h)
guard (lock_file x g) = g
guard (start_release x g) = g
guard mv = tt

module _ {m : Shared} {pc : ℕ → Pc} (inv : Inv m pc) (i : ℕ) where
  open inv use {global_of, global_held, locked_of, locked_held, linked_of, opened_of, free}

  pub Move-global_of :
      {p p' : Pc} {m' : Shared}
      → Move i m p m' p'
      → pc i ≡ p
      → (j : ℕ) → has_global (update pc i p' j) ≡ true
      → m'.global ≡ some j
  Move-global_of (take_global g) e j h = ground (arith, ap has_global e, global_of i, global_of j)
  Move-global_of mv e j h = ground (arith, guard mv, ap has_global e, global_of i, global_of j)

  pub Move-global_held :
      {p p' : Pc} {m' : Shared}
      → Move i m p m' p'
      → pc i ≡ p
      → (j : ℕ) → m'.global ≡ some j
      → has_global (update pc i p' j) ≡ true
  Move-global_held (take_global g) e j h =
      ground (arith, ap has_global e, global_of i, global_held i, global_held j)
  Move-global_held mv e j h =
      ground (arith, guard mv, ap has_global e, global_of i, global_held i, global_held j)

  pub Move-locked_of :
      {p p' : Pc} {m' : Shared}
      → Move i m p m' p'
      → pc i ≡ p
      → (j x : ℕ) → lock_of (update pc i p' j) ≡ some x
      → m'.locked x ≡ some j
  Move-locked_of (take_global g) e j x h =
      ground (arith, ap lock_of e, locked_of i x, locked_of j x)
  Move-locked_of mv e j x h = ground (arith, guard mv, ap lock_of e, locked_of i x, locked_of j x)

  pub Move-locked_held :
      {p p' : Pc} {m' : Shared}
      → Move i m p m' p'
      → pc i ≡ p
      → (j x : ℕ) → m'.locked x ≡ some j
      → lock_of (update pc i p' j) ≡ some x
  Move-locked_held (take_global g) e j x h =
      ground (arith, ap lock_of e, locked_of i, locked_held i x, locked_held j x)
  Move-locked_held mv e j x h =
      ground (arith, guard mv, ap lock_of e, locked_of i, locked_held i x, locked_held j x)

  pub Move-linked_of :
      {p p' : Pc} {m' : Shared}
      → Move i m p m' p'
      → pc i ≡ p
      → (j x : ℕ) → lock_of (update pc i p' j) ≡ some x
      → m'.linked ≡ some x
  Move-linked_of (take_global g) e j x h = ground (
    arith,
    ap lock_of e,
    ap open_of e,
    ap is_unlocked e,
    linked_of i x,
    linked_of j x,
    opened_of i x,
    free i j x,
  )
  Move-linked_of mv e j x h = ground (
    arith,
    guard mv,
    ap lock_of e,
    ap open_of e,
    ap is_unlocked e,
    linked_of i x,
    linked_of j x,
    opened_of i x,
    free i j x,
  )

  pub Move-opened_of :
      {p p' : Pc} {m' : Shared}
      → Move i m p m' p'
      → pc i ≡ p
      → (j x : ℕ) → open_of (update pc i p' j) ≡ some x
      → m'.linked ≡ some x
  Move-opened_of (take_global g) e j x h =
      ground (arith, ap open_of e, ap has_global e, opened_of j x, global_of i, global_of j)
  Move-opened_of mv e j x h =
      ground
        (arith, guard mv, ap open_of e, ap has_global e, opened_of j x, global_of i, global_of j)

  pub Move-free :
      {p p' : Pc} {m' : Shared}
      → Move i m p m' p'
      → pc i ≡ p
      → (j k x : ℕ) → is_unlocked (update pc i p' j) ≡ true
      → lock_of (update pc i p' k) ≢ some x
  Move-free (unlock_file y) e j k x h = λ k_has. ground (
    arith,
    ap lock_of e,
    ap has_global e,
    free j k x,
    global_of i,
    global_of j,
    linked_of i y,
    linked_of k x,
    locked_of i y,
    locked_of k x,
    global_of_unlocked (pc j),
  )
  Move-free mv e j k x h = λ k_has. ground (
    arith,
    ap is_unlocked e,
    ap lock_of e,
    ap has_global e,
    free j k x,
    global_of i,
    global_of j,
    global_of_unlocked (pc j),
  )
