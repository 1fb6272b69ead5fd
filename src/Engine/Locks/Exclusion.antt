-- ===== src/Engine/Locks/Exclusion.antt =====
-- At most one advance of a run at a time, and a table without leftovers: engine/runlock.go.
use go_saga_orchestration.Prelude.{
  ℕ, ◌≤◌, ◌≡◌, ◌↔◌, refl, inl, inr, Bool, true, false, none, some, List, [], ◌∷◌, Map, lookup,
  count, All, nat_eq, arith, Option-cases,
}
use go_saga_orchestration.Engine.Locks.{
  RunLocks, Phase, outside, waiting, holding, releasing, Reach, uses_lock, holds_lock, uses_run,
  holds_run,
}
use go_saga_orchestration.Engine.Locks.Invariant.{bit, IsCurrent}
use go_saga_orchestration.Engine.Locks.Entries.{Reach-Inv}

bit-le : (b : Bool) → bit b ≤ 1
bit-le true = omega arith
bit-le false = omega arith

module _ (id : ℕ) (m : Map ℕ ℕ) where
  no_entry_no_use :
      (ts : List Phase) → lookup id m ≡ none → All (IsCurrent m) ts → count (uses_run id) ts ≡ 0
  no_entry_no_use [] missing h = refl
  no_entry_no_use (outside ∷ ts) missing h = no_entry_no_use ts missing h.1
  no_entry_no_use (waiting r q ∷ ts) missing h = ground (arith, no_entry_no_use ts missing h.1, h.0)
  no_entry_no_use (holding r q ∷ ts) missing h = ground (arith, no_entry_no_use ts missing h.1, h.0)
  no_entry_no_use (releasing r q ∷ ts) missing h =
      ground (arith, no_entry_no_use ts missing h.1, h.0)

  holds-le-uses : (ts : List Phase) → count (holds_run id) ts ≤ count (uses_run id) ts
  holds-le-uses [] = omega arith
  holds-le-uses (outside ∷ ts) = holds-le-uses ts
  holds-le-uses (waiting r q ∷ ts) = ground (arith, holds-le-uses ts)
  holds-le-uses (holding r q ∷ ts) = ground (arith, holds-le-uses ts)
  holds-le-uses (releasing r q ∷ ts) = ground (arith, holds-le-uses ts)

  holds-lock :
      (p : ℕ) (ts : List Phase)
      → lookup id m ≡ some p
      → All (IsCurrent m) ts
      → count (holds_run id) ts ≤ count (holds_lock p) ts
  holds-lock p [] found h = omega arith
  holds-lock p (outside ∷ ts) found h = holds-lock p ts found h.1
  holds-lock p (waiting r q ∷ ts) found h = holds-lock p ts found h.1
  holds-lock p (holding r q ∷ ts) found h = ground (arith, holds-lock p ts found h.1, h.0)
  holds-lock p (releasing r q ∷ ts) found h = holds-lock p ts found h.1

  lock-uses :
      (p : ℕ) (ts : List Phase)
      → ((k : ℕ) → lookup k m ≡ some p → k ≡ id)
      → All (IsCurrent m) ts
      → count (uses_lock p) ts ≤ count (uses_run id) ts
  lock-uses p [] own h = omega arith
  lock-uses p (outside ∷ ts) own h = lock-uses p ts own h.1
  lock-uses p (waiting r q ∷ ts) own h = ground (arith, lock-uses p ts own h.1, h.0, own r)
  lock-uses p (holding r q ∷ ts) own h = ground (arith, lock-uses p ts own h.1, h.0, own r)
  lock-uses p (releasing r q ∷ ts) own h = ground (arith, lock-uses p ts own h.1, h.0, own r)

-- In every state that any number of goroutines can reach by calling lock and unlock in any order, at
-- most one of them holds the lock of a run, although entries of the table are removed and made anew.
pub lock-exclusive :
    (id : ℕ) {l : RunLocks} {ts : List Phase} → Reach l ts → count (holds_run id) ts ≤ 1
lock-exclusive id {l} {ts} r =
    let i = Reach-Inv r in
    elim (Option-cases (lookup id l.locks)) [
      | inl missing ↦
          omega
            (arith, holds-le-uses id l.locks ts, no_entry_no_use id l.locks ts missing i.current)
      | inr (p, found) ↦ omega (
        arith,
        holds-lock id l.locks p ts found i.current,
        i.locked p,
        bit-le (l.memory p).is_locked,
      )
    ]

-- In every such state the table has an entry for a run exactly if some goroutine waits for its lock,
-- holds it, or has released it and not yet left.
pub lock-tidy :
    (id : ℕ) {l : RunLocks} {ts : List Phase}
    → Reach l ts
    → (lookup id l.locks ≡ none) ↔ (count (uses_run id) ts ≡ 0)
lock-tidy id {l} {ts} r =
    let i = Reach-Inv r in
    elim (Option-cases (lookup id l.locks)) [
      | inl missing ↦ (λ e. no_entry_no_use id l.locks ts missing i.current, λ e. missing)
      | inr (p, found) ↦ (
        λ e. no_entry_no_use id l.locks ts e i.current,
        λ e. absurd (
            omega (
              arith,
              i.in_use id p found,
              i.counted p,
              e,
              lock-uses id l.locks p ts (λ k e'. i.own k id p e' found) i.current,
            )),
      )
    ]
