-- ===== src/Engine/Steady.antt =====
-- Code that may write variables and pause markers, and send messages, but moves no run to another
-- state: the hooks on a child's end and the dispatch of a compensation.

use go_saga_orchestration.Prelude.{
  ℕ, ◌≡◌, refl, ◌∙◌, ◌⊎◌, inl, inr, Bool, true, false, String, some, List, Map, lookup, insert,
  lookup-insert, nat_eq, nat_beq_iff, arith, Exec, Result, ok, err, Error, ◌>>=◌, pure, raise, lift,
  wrapping, ignoring, Option-cases, Bool-cases, ◌==◌, if◌then◌else◌,
}
use go_saga_orchestration.Domain.{SagaRun}
use go_saga_orchestration.Store.{Store, run_of, on_run, put_run}
use go_saga_orchestration.Runtime.{Env, World, Message, send, on_store}

-- Every run is still there, in the same state.
pub record SameStates (runs runs' : Map ℕ SagaRun) : Type 0 where
  pub at :
      (id : ℕ) (r : SagaRun)
      → lookup id runs ≡ some r
      → (r' : SagaRun) × (lookup id runs' ≡ some r') × (r'.state ≡ r.state)

pub SameStates-refl : (runs : Map ℕ SagaRun) → SameStates runs runs
SameStates-refl runs = record { at = λ id r h. (r, h, refl) }

pub SameStates-trans : {a b c : Map ℕ SagaRun} → SameStates a b → SameStates b c → SameStates a c
SameStates-trans k l = record {
  at =
      λ id r h. let (x, hx, sx) = k.at id r h in let (y, hy, sy) = l.at id x hx in (y, hy, sy ∙ sx);
}

pub insert-SameStates :
    (id : ℕ) (r x : SagaRun) (runs : Map ℕ SagaRun)
    → lookup id runs ≡ some r
    → x.state ≡ r.state
    → SameStates runs (insert id x runs)
insert-SameStates id r x runs found same = record {
  at = λ j y h. elim (Bool-cases (id == j)) [
    | inl here ↦ (x, rw (lookup-insert, here), ground (arith, nat_beq_iff id j, same))
    | inr there ↦ (y, rw (lookup-insert, there) h, refl)
  ];
}

pub record Steady {A : Type 0} (m : Exec World A) : Type 0 where
  pub keeps : (w : World) → SameStates w.store.runs (m w).1.store.runs

pub Result-cases :
    {A : Type 0} (r : Result A) → ((a : A) × (r ≡ ok a)) ⊎ ((e : Error) × (r ≡ err e))
Result-cases (ok a) = inl (a, refl)
Result-cases (err e) = inr (e, refl)

module _ {A : Type 0} where
  pub pure-Steady : (a : A) → Steady (pure a)
  pure-Steady a = record { keeps = λ w. SameStates-refl w.store.runs }

  pub lift-Steady : (r : Result A) → Steady (lift r)
  lift-Steady r = record { keeps = λ w. SameStates-refl w.store.runs }

  pub raise-Steady : (e : Error) → Steady (raise {A = A} e)
  raise-Steady e = record { keeps = λ w. SameStates-refl w.store.runs }

  pub if-Steady :
      (b : Bool) {m n : Exec World A} → Steady m → Steady n → Steady (if b then m else n)
  if-Steady true s t = s
  if-Steady false s t = t

  pub wrapping-Steady : (t : List String) {m : Exec World A} → Steady m → Steady (wrapping t m)
  wrapping-Steady t s = record { keeps = s.keeps }

  pub ignoring-Steady : {m : Exec World A} → Steady m → Steady (ignoring m)
  ignoring-Steady s = record { keeps = s.keeps }

module _ {A B : Type 0} where
  pub bind-Steady :
      {m : Exec World A} {f : A → Exec World B}
      → Steady m
      → ((a : A) → Steady (f a))
      → Steady (m >>= f)
  bind-Steady {m} {f} s t = record {
    keeps = λ w. elim (Result-cases (m w).0) [
      | inl (a, done) ↦ rw done (SameStates-trans (s.keeps w) ((t a).keeps (m w).1))
      | inr (e, failed) ↦ rw failed (s.keeps w)
    ];
  }

pub send-Steady : (env : Env) (m : Message) → Steady (send env m)
unfolding send
send-Steady env m = record { keeps = λ w. SameStates-refl w.store.runs }

-- A method that writes a run back with its state.
pub on_run-Steady :
    (id : ℕ) (f : SagaRun → SagaRun)
    → ((r : SagaRun) → (f r).state ≡ r.state)
    → Steady (on_store (on_run id λ r. put_run id (f r)))
unfolding on_store
on_run-Steady id f same = record {
  keeps = λ w. elim (Option-cases (run_of w.store id)) [
    | inl missing ↦ rw missing (SameStates-refl w.store.runs)
    | inr (r, found) ↦ rw found (insert-SameStates id r (f r) w.store.runs found (same r))
  ];
}

-- A method that only reads.
pub read-Steady :
    {A : Type 0} (m : Exec Store A) → ((s : Store) → (m s).1 ≡ s) → Steady (on_store m)
unfolding on_store
read-Steady m same = record { keeps = λ w. rw (same w.store) (SameStates-refl w.store.runs) }
