-- ===== src/Engine/Locks.antt =====
-- The lock that each run holds during an advance: engine/runlock.go, and any number of goroutines
-- that call it. The table maps a run to a pointer, so that two goroutines share a lock only if they
-- read the same pointer.
pub mod Invariant
pub mod Entries
pub mod Exclusion
pub mod Refinement
use go_saga_orchestration.Prelude.{
  ℕ, suc, ◌+◌, ◌-◌, ◌≡◌, Bool, true, false, Option, none, some, List, [], ◌∷◌, ◌++◌, Map, lookup,
  insert, delete, length, nat_eq, ◌==◌, ◌&&◌, if◌then◌else◌,
}

-- `runLock`: whether its mutex is locked, and the reference count.
pub record RunLock : Type 0 where
  pub is_locked : Bool
  pub refs : ℕ

-- `runLocks`, and the memory that its pointers point to. Addresses from `next` on are not in use.
pub record RunLocks : Type 0 where
  pub locks : Map ℕ ℕ
  pub memory : ℕ → RunLock
  pub next : ℕ

-- The zero value of `runLocks`.
abbrev pub no_locks : RunLocks
no_locks = record { locks = []; memory = λ p. record { is_locked = false; refs = 0 }; next = 0 }

-- `*p = v`
abbrev pub store_at : ℕ → RunLock → (ℕ → RunLock) → ℕ → RunLock
store_at p v memory q = if p == q then v else memory q

-- `rl = &runLock{}; l.locks[runID] = rl`
abbrev pub with_entry : ℕ → RunLocks → RunLocks
with_entry run_id l = record l {
  locks = insert run_id l.next l.locks;
  memory = store_at l.next (record { is_locked = false; refs = 0 }) l.memory;
  next = suc l.next;
}

-- `if !ok { … }`, for what the table has for the run.
abbrev entry_of : Option ℕ → ℕ → RunLocks → ℕ × RunLocks
entry_of (some p) run_id l = (p, l)
entry_of none run_id l = (l.next, with_entry run_id l)

abbrev pub add_ref : ℕ → RunLocks → RunLocks
add_ref p l = record l {
  memory = store_at p (record (l.memory p) { refs = suc (l.memory p).refs }) l.memory;
}

-- The part of `lock` under the mutex of the table. Its result is the pointer.
unfoldable pub enter : ℕ → RunLocks → ℕ × RunLocks
enter run_id l = let (p, l') = entry_of (lookup run_id l.locks) run_id l in (p, add_ref p l')

-- `rl.mu.Lock()`, for a goroutine that is let in.
unfoldable pub take : ℕ → RunLocks → RunLocks
take p l = record l { memory = store_at p (record (l.memory p) { is_locked = true }) l.memory }

-- `rl.mu.Unlock()`
unfoldable pub give : ℕ → RunLocks → RunLocks
give p l = record l { memory = store_at p (record (l.memory p) { is_locked = false }) l.memory }

-- The part of the unlock function under the mutex of the table.
unfoldable pub leave : ℕ → ℕ → RunLocks → RunLocks
leave run_id p l =
    let refs = (l.memory p).refs - 1 in
    record l {
      locks = if refs == 0 then delete run_id l.locks else l.locks;
      memory = store_at p (record (l.memory p) { refs = refs }) l.memory;
    }

abbrev pub size : RunLocks → ℕ
size l = length l.locks

-- Where a goroutine stands: outside, before the mutex of the run, inside, or behind its release.
pub data Phase : Type 0 where
  outside : Phase
  waiting holding releasing : ℕ → ℕ → Phase

-- One goroutine moves. A mutex that is locked lets nobody in.
pub data Move : Phase → RunLocks → Phase → RunLocks → Type 0 where
  entering :
      {l : RunLocks} (run_id : ℕ)
      → Move outside l (waiting run_id (enter run_id l).0) (enter run_id l).1
  taking :
      {l : RunLocks} {run_id p : ℕ}
      → (l.memory p).is_locked ≡ false
      → Move (waiting run_id p) l (holding run_id p) (take p l)
  giving : {l : RunLocks} {run_id p : ℕ} → Move (holding run_id p) l (releasing run_id p) (give p l)
  leaving : {l : RunLocks} {run_id p : ℕ} → Move (releasing run_id p) l outside (leave run_id p l)

-- The states that the lock table and the goroutines can come to: a goroutine is started, or one of
-- them moves, in any order.
pub data Reach : RunLocks → List Phase → Type 0 where
  start : Reach no_locks []
  spawn : {l : RunLocks} {ts : List Phase} → Reach l ts → Reach l (outside ∷ ts)
  step :
      {l l' : RunLocks} (before after : List Phase) {ph ph' : Phase}
      → Reach l (before ++ ph ∷ after)
      → Move ph l ph' l'
      → Reach l' (before ++ ph' ∷ after)

-- The goroutine uses the run, its lock's pointer, or holds them.
abbrev pub uses_run : ℕ → Phase → Bool
uses_run id outside = false
uses_run id (waiting run_id p) = run_id == id
uses_run id (holding run_id p) = run_id == id
uses_run id (releasing run_id p) = run_id == id

abbrev pub holds_run : ℕ → Phase → Bool
holds_run id (holding run_id p) = run_id == id
holds_run id _ = false

abbrev pub uses_lock : ℕ → Phase → Bool
uses_lock q outside = false
uses_lock q (waiting run_id p) = p == q
uses_lock q (holding run_id p) = p == q
uses_lock q (releasing run_id p) = p == q

abbrev pub holds_lock : ℕ → Phase → Bool
holds_lock q (holding run_id p) = p == q
holds_lock q _ = false
