-- ===== src/Locks/Exclusion.antt =====
-- Who is in the body of a with statement on _FileLock, and who can get there.
use ftc_designosaurs.Base.{
  ℕ, Option, none, some, comparable_nat, equal_self, ◌≡◌, ◌≢◌, refl, sym, ap, subst, if◌then◌else◌,
  arith,
}
use ftc_designosaurs.Locks.Steps.{
  Shared, Pc, idle, guarded, opened, acquired, inside, update, Move, take_global, open_old,
  open_new, lock_file, enter, System, Step, by_process, start, Reach, here, next, Steps, none_yet,
  one_more,
}
use ftc_designosaurs.Locks.Invariant.{
  has_global, lock_of, Inv, Move-global_of, Move-global_held, Move-locked_of, Move-locked_held,
  Move-linked_of, Move-opened_of, Move-free,
}

start-Inv : (linked : Option ℕ) → Inv (start linked).shared (start linked).pc
start-Inv linked = record {
  global_of = λ i h. cc;
  global_held = λ i h. cc;
  locked_of = λ i x h. cc;
  locked_held = λ i x h. cc;
  linked_of = λ i x h. cc;
  opened_of = λ i x h. cc;
  free = λ i j x h k. cc;
}

Step-Inv : {s t : System} → Step s t → Inv s.shared s.pc → Inv t.shared t.pc
Step-Inv (by_process i mv) inv = record {
  global_of = Move-global_of inv i mv refl;
  global_held = Move-global_held inv i mv refl;
  locked_of = Move-locked_of inv i mv refl;
  locked_held = Move-locked_held inv i mv refl;
  linked_of = Move-linked_of inv i mv refl;
  opened_of = Move-opened_of inv i mv refl;
  free = Move-free inv i mv refl;
}

pub Reach-Inv : {linked : Option ℕ} {s : System} → Reach linked s → Inv s.shared s.pc
Reach-Inv {linked} here = start-Inv linked
Reach-Inv (next r st) = Step-Inv st (Reach-Inv r)

-- Two processes that are in the body of a with statement on one pseudo lock are the same process,
-- after any interleaving of the attempts to acquire and to release it.
pub inside_once :
    (linked : Option ℕ) (s : System) (i j x y : ℕ)
    → Reach linked s
    → s.pc i ≡ inside x
    → s.pc j ≡ inside y
    → i ≡ j
inside_once linked s i j x y r h k =
    let inv : Inv s.shared s.pc = Reach-Inv r in
    ground (
      arith,
      inv.linked_of i x,
      inv.linked_of j y,
      inv.locked_of i x,
      inv.locked_of j y,
      ap lock_of h,
      ap lock_of k,
    )

step_from :
    {start : System} (i : ℕ) (m m' : Shared) (pc : ℕ → Pc) (p p' : Pc)
    → Steps start (record { shared = m; pc = pc })
    → pc i ≡ p
    → Move i m p m' p'
    → Steps start (record { shared = m'; pc = update pc i p' })
step_from i m m' pc p p' r e mv =
    one_more r (by_process i (subst (λ q. Move i m q m' p') (sym e) mv))

update_self : (pc : ℕ → Pc) (i : ℕ) (p : Pc) → update pc i p i ≡ p
update_self pc i p = ap (λ b. if b then p else pc i) (equal_self i)

none_of : (o : Option ℕ) → ((j : ℕ) → o ≢ some j) → o ≡ none
none_of none h = refl
none_of (some j) h = absurd (h j refl)

-- The file that is opened when the global lock has been taken, which nobody has locked.
record Opening (i : ℕ) (m : Shared) : Type 0 where
  x : ℕ
  after : Shared
  opens : Move i m guarded after (opened x)
  unlocked_file : after.locked x ≡ none

opening : (i : ℕ) (m : Shared) → ((x : ℕ) → m.locked x ≡ none) → Opening i m
opening i m nobody = by_linked m.linked refl
  where
    by_linked : (l : Option ℕ) → m.linked ≡ l → Opening i m
    by_linked none e = record {
      x = 0;
      after = record m { linked = some 0 };
      opens = open_new 0 e (nobody 0);
      unlocked_file = nobody 0;
    }
    by_linked (some x) e = record {
      x = x;
      after = m;
      opens = open_old x e;
      unlocked_file = nobody x;
    }

-- From any state that the processes lead to and in which all of them are idle, each of them can get
-- into the body of its with statement: no lock is left behind.
pub idle-enters :
    (linked : Option ℕ) (s : System) (i : ℕ)
    → Reach linked s
    → ((j : ℕ) → s.pc j ≡ idle)
    → (x : ℕ) × (t : System) × Steps s t × (t.pc i ≡ inside x)
idle-enters linked s i r rest = (
  o.x,
  record { shared = record m3 { global = none }; pc = update pc3 i (inside o.x) },
  step_from i m3 (record m3 { global = none }) pc3 (acquired o.x) (inside o.x)
      (step_from i o.after m3 pc2 (opened o.x) (acquired o.x)
        (step_from i m1 o.after pc1 guarded (opened o.x)
          (step_from i s.shared m1 s.pc idle guarded none_yet (rest i) (take_global nobody))
          (update_self s.pc i guarded) o.opens)
        (update_self pc1 i (opened o.x)) (lock_file o.x o.unlocked_file))
      (update_self pc2 i (acquired o.x)) (enter o.x),
  update_self pc3 i (inside o.x),
)
  where
    inv : Inv s.shared s.pc
    inv = Reach-Inv r

    nobody : s.shared.global ≡ none
    nobody =
        none_of s.shared.global (λ j h. ground (arith, inv.global_held j h, ap has_global (rest j)))

    unlocked_all : (x : ℕ) → s.shared.locked x ≡ none
    unlocked_all x =
        none_of (s.shared.locked x)
          (λ j h. ground (arith, inv.locked_held j x h, ap lock_of (rest j)))

    m1 : Shared
    m1 = record s.shared { global = some i }

    o : Opening i m1
    o = opening i m1 unlocked_all

    m3 : Shared
    m3 = record o.after { locked = update o.after.locked o.x (some i) }

    pc1 : ℕ → Pc
    pc1 = update s.pc i guarded

    pc2 : ℕ → Pc
    pc2 = update pc1 i (opened o.x)

    pc3 : ℕ → Pc
    pc3 = update pc2 i (acquired o.x)
