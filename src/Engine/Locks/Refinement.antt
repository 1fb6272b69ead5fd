-- ===== src/Engine/Locks/Refinement.antt =====
-- The lock table of engine/runlock.go against what it promises: one mutex for each run.
use go_saga_orchestration.Prelude.{
  ℕ, ◌-◌, ◌<◌, ◌≡◌, refl, inl, inr, Bool, true, false, Option, none, some, List, ◌∷◌, ◌++◌, lookup,
  lookup-insert, lookup-delete, nat_eq, ◌==◌, if◌then◌else◌, arith, Option-cases, Bool-cases,
}
use go_saga_orchestration.Engine.Locks.{
  RunLock, RunLocks, store_at, add_ref, with_entry, enter, take, give, leave, Phase, outside,
  waiting, holding, releasing, Move, entering, taking, giving, leaving, Reach, uses_lock,
  holds_lock,
}
use go_saga_orchestration.Engine.Locks.Invariant.{
  IsCurrent, Inv, count-around, All-around, held-locked,
}
use go_saga_orchestration.Engine.Locks.Entries.{Reach-Inv, holds-uses}

-- The promise: a mutex per run, and goroutines that ask for one, have it, or do neither.
pub data Role : Type 0 where
  idle : Role
  wants has : ℕ → Role

pub data MutexStep : Role → (ℕ → Bool) → Role → (ℕ → Bool) → Type 0 where
  ask : {s s' : ℕ → Bool} (id : ℕ) → ((k : ℕ) → s' k ≡ s k) → MutexStep idle s (wants id) s'
  acquire :
      {s s' : ℕ → Bool} (id : ℕ)
      → s id ≡ false
      → ((k : ℕ) → s' k ≡ (if id == k then true else s k))
      → MutexStep (wants id) s (has id) s'
  release :
      {s s' : ℕ → Bool} (id : ℕ)
      → s id ≡ true
      → ((k : ℕ) → s' k ≡ (if id == k then false else s k))
      → MutexStep (has id) s idle s'
      -- A step that the promise does not see.
  rest : {s s' : ℕ → Bool} → ((k : ℕ) → s' k ≡ s k) → MutexStep idle s idle s'

abbrev pub role : Phase → Role
role outside = idle
role (waiting id p) = wants id
role (holding id p) = has id
role (releasing id p) = idle

abbrev pub locked_at : (ℕ → RunLock) → Option ℕ → Bool
locked_at memory none = false
locked_at memory (some p) = (memory p).is_locked

-- Whether the mutex of the run is locked; a run without an entry has one that is not.
abbrev pub is_run_locked : RunLocks → ℕ → Bool
is_run_locked l id = locked_at l.memory (lookup id l.locks)

-- Entries that are added change no lock's state.
fresh-locked :
    (id k : ℕ) (l : RunLocks)
    → lookup id l.locks ≡ none
    → ((p : ℕ) → lookup k l.locks ≡ some p → p < l.next)
    → is_run_locked (add_ref l.next (with_entry id l)) k ≡ is_run_locked l k
fresh-locked id k l missing allocated =
    rw (lookup-insert id k l.next l.locks) (elim (Option-cases (lookup k l.locks)) [
      | inl none_at ↦ rw none_at (ground (arith, none_at))
      | inr (q, found) ↦ rw found (ground (arith, allocated q found, found, missing))
    ])

enter-locked :
    (id : ℕ) {l : RunLocks} {ts : List Phase}
    → Inv l ts
    → (k : ℕ) → is_run_locked (enter id l).1 k ≡ is_run_locked l k
unfolding enter
enter-locked id {l} i k = elim (Option-cases (lookup id l.locks)) [
  | inl missing ↦ rw (enter, missing) (fresh-locked id k l missing (i.allocated k))
  | inr (p, found) ↦ rw (enter, found) (ground arith)
]

-- A change of one mutex is a change of the state of its own run.
flip-locked :
    (id p : ℕ) (b : Bool) {l : RunLocks} {ts : List Phase}
    → Inv l ts
    → lookup id l.locks ≡ some p
    → (k : ℕ)
    → locked_at (store_at p (record (l.memory p) { is_locked = b }) l.memory) (lookup k l.locks)
      ≡ (if id == k then b else is_run_locked l k)
flip-locked id p b {l} i found k = elim (Option-cases (lookup k l.locks)) [
  | inl none_at ↦ rw none_at (ground (arith, none_at, found))
  | inr (q, at) ↦ rw at (ground (arith, at, found, i.own id k p found))
]

-- The last user of a lock does not find it locked.
unheld :
    (before after : List Phase) (id p : ℕ) {l : RunLocks}
    → Inv l (before ++ releasing id p ∷ after)
    → ((l.memory p).refs - 1 == 0) ≡ true
    → (l.memory p).is_locked ≡ false
unheld before after id p {l} i last = ground (
  arith,
  last,
  i.counted p,
  i.locked p,
  count-around (uses_lock p) before (releasing id p) after,
  count-around (holds_lock p) before (releasing id p) after,
  holds-uses p before,
  holds-uses p after,
)

-- A goroutine that leaves has released the mutex before.
leave-locked :
    (before after : List Phase) (id p : ℕ) {l : RunLocks}
    → Inv l (before ++ releasing id p ∷ after)
    → (k : ℕ) → is_run_locked (leave id p l) k ≡ is_run_locked l k
unfolding leave
leave-locked before after id p {l} i k =
    let (hb, ha, hc) = All-around (IsCurrent l.locks) before (releasing id p) after i.current in
    elim (Bool-cases ((l.memory p).refs - 1 == 0)) [
      | inl last ↦
          rw (last, lookup-delete id k l.locks)
            (elim (Option-cases (lookup k l.locks)) [
              | inl none_at ↦ rw none_at (ground arith)
              | inr (q, at) ↦ rw at (ground (arith, at, ha, unheld before after id p i last))
            ])
      | inr more ↦ rw more (elim (Option-cases (lookup k l.locks)) [
        | inl none_at ↦ rw none_at refl
        | inr (q, at) ↦ rw at (ground arith)
      ])
    ]

-- Every move of a goroutine, in every state that any number of goroutines can reach, is a step of one
-- mutex per run: it asks for the run's mutex, acquires it when it is free, releases it, or changes the
-- state of no mutex.
pub lock-refines :
    (before after : List Phase) {l l' : RunLocks} {ph ph' : Phase}
    → Reach l (before ++ ph ∷ after)
    → Move ph l ph' l'
    → MutexStep (role ph) (is_run_locked l) (role ph') (is_run_locked l')
unfolding take give
lock-refines before after r (entering id) = ask id (enter-locked id (Reach-Inv r))
lock-refines before after {l} r (taking {run_id} {p} free) =
    let i = Reach-Inv r in
    let (hb, found, hc) =
      All-around (IsCurrent l.locks) before (waiting run_id p) after i.current in
    acquire run_id (rw found free) (flip-locked run_id p true i found)
lock-refines before after {l} r (giving {run_id} {p}) =
    let i = Reach-Inv r in
    let (hb, found, hc) =
      All-around (IsCurrent l.locks) before (holding run_id p) after i.current in
    release run_id (rw found (held-locked before after run_id p i))
      (flip-locked run_id p false i found)
lock-refines before after r (leaving {run_id} {p}) =
    rest (leave-locked before after run_id p (Reach-Inv r))
