-- ===== src/Engine/Locks/Entries.antt =====
-- The moves that make and remove entries of the lock table of engine/runlock.go, and all reachable
-- states.
use go_saga_orchestration.Prelude.{
  ℕ, ◌-◌, ◌≤◌, ◌≡◌, refl, inl, inr, false, none, some, List, [], ◌∷◌, ◌++◌, Map, lookup, insert,
  delete, lookup-insert, lookup-delete, count, All, nat_eq, ◌==◌, arith, nat_beq_self, Option-cases,
  Bool-cases,
}
use go_saga_orchestration.Engine.Locks.{
  RunLocks, add_ref, with_entry, enter, leave, Phase, outside, waiting, holding, releasing, Move,
  entering, taking, giving, leaving, Reach, start, spawn, step, uses_lock, holds_lock,
}
use go_saga_orchestration.Engine.Locks.Invariant.{
  count-around, All-around, around-All, All-map, count-moved, Inv-taking, Inv-giving, Inv-sharing,
  Inv-start, Inv-spawn, IsCurrent, Inv,
}

still-IsCurrent :
    (id fresh : ℕ) (m : Map ℕ ℕ)
    → lookup id m ≡ none
    → (ph : Phase) → IsCurrent m ph
    → IsCurrent (insert id fresh m) ph
still-IsCurrent id fresh m missing outside h = tt
still-IsCurrent id fresh m missing (waiting r p) h =
    rw (lookup-insert id r fresh m) (ground (arith))
still-IsCurrent id fresh m missing (holding r p) h =
    rw (lookup-insert id r fresh m) (ground (arith))
still-IsCurrent id fresh m missing (releasing r p) h =
    rw (lookup-insert id r fresh m) (ground (arith))

pub holds-uses : (p : ℕ) (ts : List Phase) → count (holds_lock p) ts ≤ count (uses_lock p) ts
holds-uses p [] = omega arith
holds-uses p (outside ∷ ts) = holds-uses p ts
holds-uses p (waiting r q ∷ ts) = ground (arith, holds-uses p ts)
holds-uses p (holding r q ∷ ts) = ground (arith, holds-uses p ts)
holds-uses p (releasing r q ∷ ts) = ground (arith, holds-uses p ts)

Inv-fresh :
    (before after : List Phase) {l : RunLocks} (id : ℕ)
    → lookup id l.locks ≡ none
    → Inv l (before ++ outside ∷ after)
    → Inv (add_ref l.next (with_entry id l)) (before ++ waiting id l.next ∷ after)
Inv-fresh before after {l} id missing i =
    let (hb, ha, hc) = All-around (IsCurrent l.locks) before outside after i.current in
    record {
      current =
          around-All (IsCurrent (insert id l.next l.locks)) before (waiting id l.next) after
            (All-map before (still-IsCurrent id l.next l.locks missing) hb)
            (rw (lookup-insert id id l.next l.locks, nat_beq_self id) refl)
            (All-map after (still-IsCurrent id l.next l.locks missing) hc);
      counted = λ q. ground (
        arith,
        i.counted q,
        i.unused l.next,
        count-moved before after (uses_lock q) outside (waiting id l.next),
      );
      locked = λ q. ground (
        arith,
        i.locked q,
        i.counted q,
        i.unused l.next,
        holds-uses q (before ++ outside ∷ after),
        count-moved before after (holds_lock q) outside (waiting id l.next),
      );
      in_use = λ id' q e.
          ground (arith, i.in_use id' q, i.allocated id' q, e, lookup-insert id id' l.next l.locks);
      own = λ id' id'' q e e'. ground (
        arith,
        lookup-insert id id' l.next l.locks,
        lookup-insert id id'' l.next l.locks,
        i.own id' id'' q,
        i.allocated id' q,
        i.allocated id'' q,
      );
      allocated = λ id' q e. ground (arith, lookup-insert id id' l.next l.locks, i.allocated id' q);
      unused = λ q h. ground (arith, i.unused q);
    }

IsCurrent-elsewhere :
    (id p : ℕ) (m : Map ℕ ℕ)
    → lookup id m ≡ some p
    → (ph : Phase) → uses_lock p ph ≡ false
    → IsCurrent m ph
    → IsCurrent (delete id m) ph
IsCurrent-elsewhere id p m found outside u h = tt
IsCurrent-elsewhere id p m found (waiting r q) u h = rw (lookup-delete id r m) (ground arith)
IsCurrent-elsewhere id p m found (holding r q) u h = rw (lookup-delete id r m) (ground arith)
IsCurrent-elsewhere id p m found (releasing r q) u h = rw (lookup-delete id r m) (ground arith)

All-elsewhere :
    (id p : ℕ) (m : Map ℕ ℕ) (ts : List Phase)
    → lookup id m ≡ some p
    → count (uses_lock p) ts ≡ 0
    → All (IsCurrent m) ts
    → All (IsCurrent (delete id m)) ts
All-elsewhere id p m [] found none_left h = tt
All-elsewhere id p m (ph ∷ ts) found none_left h = (
  IsCurrent-elsewhere id p m found ph (ground (arith, none_left)) h.0,
  All-elsewhere id p m ts found (ground (arith, none_left)) h.1,
)

Inv-leaving :
    (before after : List Phase) {l : RunLocks} (id p : ℕ)
    → Inv l (before ++ releasing id p ∷ after)
    → Inv (leave id p l) (before ++ outside ∷ after)
unfolding leave
Inv-leaving before after {l} id p i =
    let (hb, ha, hc) = All-around (IsCurrent l.locks) before (releasing id p) after i.current in
    let around = count-around (uses_lock p) before (releasing id p) after in
    record {
      current = elim (Bool-cases ((l.memory p).refs - 1 == 0)) [
        | inl t ↦ rw t (
            around-All (IsCurrent (delete id l.locks)) before outside after
              (All-elsewhere id p l.locks before ha (ground (arith, i.counted p, around)) hb) tt
              (All-elsewhere id p l.locks after ha (ground (arith, i.counted p, around)) hc))
        | inr f ↦ rw f (around-All (IsCurrent l.locks) before outside after hb tt hc)
      ];
      counted = λ q. ground (
        arith,
        i.counted q,
        around,
        count-moved before after (uses_lock q) (releasing id p) outside,
      );
      locked = λ q.
          ground
            (arith, i.locked q, count-moved before after (holds_lock q) (releasing id p) outside);
      in_use = λ id' q e. ground (
        arith,
        lookup-delete id id' l.locks,
        i.in_use id' q,
        i.own id id' q,
        i.counted p,
        around,
      );
      own = λ id' id'' q e e'.
          ground
            (arith, lookup-delete id id' l.locks, lookup-delete id id'' l.locks, i.own id' id'' q);
      allocated = λ id' q e. ground (arith, lookup-delete id id' l.locks, i.allocated id' q);
      unused = λ q h. ground (arith, i.unused q h);
    }

Move-Inv :
    (before after : List Phase) {l l' : RunLocks} {ph ph' : Phase}
    → Move ph l ph' l'
    → Inv l (before ++ ph ∷ after)
    → Inv l' (before ++ ph' ∷ after)
unfolding enter
Move-Inv before after {l} (entering id) i = elim (Option-cases (lookup id l.locks)) [
  | inl missing ↦ rw (enter, missing) (Inv-fresh before after id missing i)
  | inr (p, found) ↦ rw (enter, found) (Inv-sharing before after id p found i)
]
Move-Inv before after (taking {run_id} {p} free) i = Inv-taking before after run_id p free i
Move-Inv before after (giving {run_id} {p}) i = Inv-giving before after run_id p i
Move-Inv before after (leaving {run_id} {p}) i = Inv-leaving before after run_id p i

pub Reach-Inv : {l : RunLocks} {ts : List Phase} → Reach l ts → Inv l ts
Reach-Inv start = Inv-start
Reach-Inv (spawn r) = Inv-spawn (Reach-Inv r)
Reach-Inv (step before after r m) = Move-Inv before after m (Reach-Inv r)
