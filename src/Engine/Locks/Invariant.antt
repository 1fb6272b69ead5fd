-- ===== src/Engine/Locks/Invariant.antt =====
-- What every reachable state of the lock table of engine/runlock.go satisfies, and the moves that keep
-- the entries of the table.
use go_saga_orchestration.Prelude.{
  ℕ, ◌+◌, ◌<◌, ◌≤◌, ◌≡◌, refl, Bool, true, false, some, List, [], ◌∷◌, ◌++◌, Map, lookup, count,
  All, nat_eq, arith, nat_beq_self,
}
use go_saga_orchestration.Engine.Locks.{
  RunLocks, no_locks, store_at, add_ref, take, give, Phase, outside, waiting, holding, releasing,
  uses_lock, holds_lock,
}

abbrev pub bit : Bool → ℕ
bit true = 1
bit false = 0

pub count-around :
    {A : Type 0} (p : A → Bool) (before : List A) (a : A) (after : List A)
    → count p (before ++ a ∷ after) ≡ bit (p a) + (count p before + count p after)
count-around p [] a after = ground arith
count-around p (b ∷ before) a after = ground (arith, count-around p before a after)

pub All-around :
    {A : Type 0} (P : A → Type 0) (before : List A) (a : A) (after : List A)
    → All P (before ++ a ∷ after)
    → All P before × P a × All P after
All-around P [] a after h = (tt, h.0, h.1)
All-around P (b ∷ before) a after h =
    let (hb, ha, hc) = All-around P before a after h.1 in ((h.0, hb), ha, hc)

pub around-All :
    {A : Type 0} (P : A → Type 0) (before : List A) (a : A) (after : List A)
    → All P before
    → P a
    → All P after
    → All P (before ++ a ∷ after)
around-All P [] a after hb ha hc = (ha, hc)
around-All P (b ∷ before) a after hb ha hc = (hb.0, around-All P before a after hb.1 ha hc)

pub All-map :
    {A : Type 0} {P Q : A → Type 0} (l : List A) → ((a : A) → P a → Q a) → All P l → All Q l
All-map [] f h = tt
All-map (a ∷ l) f h = (f a h.0, All-map l f h.1)

-- The pointer that the goroutine has read is the one that the table has for the run.
abbrev pub IsCurrent : Map ℕ ℕ → Phase → Type 0
IsCurrent m outside = Unit
IsCurrent m (waiting run_id p) = lookup run_id m ≡ some p
IsCurrent m (holding run_id p) = lookup run_id m ≡ some p
IsCurrent m (releasing run_id p) = lookup run_id m ≡ some p

pub record Inv (l : RunLocks) (ts : List Phase) : Type 0 where
  pub current : All (IsCurrent l.locks) ts
  pub counted : (p : ℕ) → (l.memory p).refs ≡ count (uses_lock p) ts
  pub locked : (p : ℕ) → bit (l.memory p).is_locked ≡ count (holds_lock p) ts
  pub in_use : (id p : ℕ) → lookup id l.locks ≡ some p → 0 < (l.memory p).refs
  pub own : (id id' p : ℕ) → lookup id l.locks ≡ some p → lookup id' l.locks ≡ some p → id ≡ id'
  pub allocated : (id p : ℕ) → lookup id l.locks ≡ some p → p < l.next
  pub unused : (p : ℕ) → l.next ≤ p → (l.memory p).refs ≡ 0

pub Inv-start : Inv no_locks []
unfolding lookup
Inv-start = record {
  current = tt;
  counted = λ p. refl;
  locked = λ p. refl;
  in_use = λ id p e. ground arith;
  own = λ id id' p e. ground arith;
  allocated = λ id p e. ground arith;
  unused = λ p h. refl;
}

pub Inv-spawn : {l : RunLocks} {ts : List Phase} → Inv l ts → Inv l (outside ∷ ts)
Inv-spawn i = record {
  current = (tt, i.current);
  counted = i.counted;
  locked = i.locked;
  in_use = i.in_use;
  own = i.own;
  allocated = i.allocated;
  unused = i.unused;
}

module _ (before after : List Phase) where
  pub count-moved :
      (p : Phase → Bool) (ph ph' : Phase)
      → count p (before ++ ph' ∷ after) + bit (p ph) ≡ count p (before ++ ph ∷ after) + bit (p ph')
  count-moved p ph ph' =
      omega (arith, count-around p before ph after, count-around p before ph' after)

  -- A move that keeps the table, the counts and the pointer of the goroutine.
  Inv-locking :
      {l : RunLocks} (q : ℕ) (locked : Bool) (ph ph' : Phase)
      → (IsCurrent l.locks ph → IsCurrent l.locks ph')
      → ((p : ℕ) → uses_lock p ph ≡ uses_lock p ph')
      → ((p : ℕ)
          → bit (store_at q (record (l.memory q) { is_locked = locked }) l.memory p).is_locked
              + bit (holds_lock p ph)
            ≡ bit (l.memory p).is_locked + bit (holds_lock p ph'))
      → Inv l (before ++ ph ∷ after)
      → Inv
          (record l { memory = store_at q (record (l.memory q) { is_locked = locked }) l.memory })
          (before ++ ph' ∷ after)
  Inv-locking {l} q locked ph ph' same uses flips i =
      let (hb, ha, hc) = All-around (IsCurrent l.locks) before ph after i.current in
      record {
        current = around-All (IsCurrent l.locks) before ph' after hb (same ha) hc;
        counted = λ p. ground (arith, i.counted p, uses p, count-moved (uses_lock p) ph ph');
        locked = λ p. omega (arith, flips p, i.locked p, count-moved (holds_lock p) ph ph');
        in_use = λ id p e. ground (arith, i.in_use id p e);
        own = i.own;
        allocated = i.allocated;
        unused = λ p h. ground (arith, i.unused p h);
      }

  pub Inv-taking :
      {l : RunLocks} (id p : ℕ)
      → (l.memory p).is_locked ≡ false
      → Inv l (before ++ waiting id p ∷ after)
      → Inv (take p l) (before ++ holding id p ∷ after)
  unfolding take
  Inv-taking {l} id p free i =
      Inv-locking p true (waiting id p) (holding id p) (λ e. e) (λ q. refl)
        (λ q. ground (arith, free)) i

  -- The lock of a goroutine that holds it is locked.
  pub held-locked :
      {l : RunLocks} (id p : ℕ)
      → Inv l (before ++ holding id p ∷ after)
      → (l.memory p).is_locked ≡ true
  held-locked {l} id p i =
      ground
        (arith, i.locked p, count-around (holds_lock p) before (holding id p) after, nat_beq_self p)

  pub Inv-giving :
      {l : RunLocks} (id p : ℕ)
      → Inv l (before ++ holding id p ∷ after)
      → Inv (give p l) (before ++ releasing id p ∷ after)
  unfolding give
  Inv-giving {l} id p i =
      Inv-locking p false (holding id p) (releasing id p) (λ e. e) (λ q. refl)
        (λ q. ground (arith, held-locked id p i)) i

  pub Inv-sharing :
      {l : RunLocks} (id p : ℕ)
      → lookup id l.locks ≡ some p
      → Inv l (before ++ outside ∷ after)
      → Inv (add_ref p l) (before ++ waiting id p ∷ after)
  Inv-sharing {l} id p found i =
      let (hb, ha, hc) = All-around (IsCurrent l.locks) before outside after i.current in
      record {
        current = around-All (IsCurrent l.locks) before (waiting id p) after hb found hc;
        counted =
            λ q. ground (arith, i.counted q, count-moved (uses_lock q) outside (waiting id p));
        locked = λ q. ground (arith, i.locked q, count-moved (holds_lock q) outside (waiting id p));
        in_use = λ id' q e. ground (arith, i.in_use id' q e);
        own = i.own;
        allocated = i.allocated;
        unused = λ q h. ground (arith, i.unused q h, i.allocated id p found);
      }
