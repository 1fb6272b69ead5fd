-- ===== src/Engine/Place.antt =====
-- Code that leaves a run where it is: it may write variables, markers and events, and send messages,
-- but moves the run to no other step, definition or try_catch frame.
pub mod Calls
use go_saga_orchestration.Prelude.{
  ℕ, ◌≡◌, refl, ◌∙◌, inl, inr, Bool, true, false, String, Option, none, some, List, [], ◌∷◌, Map,
  lookup, insert, lookup-insert, nat_eq, nat_beq_iff, arith, Exec, Result, ok, err, Error, ◌>>=◌,
  pure, raise, lift, wrapping, ignoring, outcome, Option-cases, Bool-cases, ◌==◌, if◌then◌else◌,
}
use go_saga_orchestration.Domain.{SagaRun, TryCatchFrame, WorkflowDefinition}
use go_saga_orchestration.Store.{Store, run_of, on_run, put_run}
use go_saga_orchestration.Runtime.{Env, World, Message, send, on_store, tick, now}
use go_saga_orchestration.Engine.Steady.{Result-cases}
use go_saga_orchestration.Engine.Keeps.{Silent}

abbrev pub Place : Type 0
Place = ℕ × String × List TryCatchFrame

abbrev pub place : Option SagaRun → Option Place
place none = none
place (some r) = some (r.definition_id, r.current_step, r.try_catch_stack)

-- The place of the run in the world: its definition, its step and its frames.
abbrev pub place_of : ℕ → World → Option Place
place_of id w = place (run_of w.store id)

abbrev pub definition_of : ℕ → World → Option WorkflowDefinition
definition_of d w = lookup d w.store.defs

pub record Kept (id d : ℕ) (w w' : World) : Type 0 where
  pub same_place : place_of id w' ≡ place_of id w
  pub same_definition : definition_of d w' ≡ definition_of d w

pub record Tame (id d : ℕ) {A : Type 0} (m : Exec World A) : Type 0 where
  pub keeps : (w : World) → Kept id d w (m w).1

module _ (id d : ℕ) where
  pub Kept-refl : (w : World) → Kept id d w w
  Kept-refl w = record { same_place = refl; same_definition = refl }

  pub Kept-trans : {a b c : World} → Kept id d a b → Kept id d b c → Kept id d a c
  Kept-trans k l = record {
    same_place = l.same_place ∙ k.same_place;
    same_definition = l.same_definition ∙ k.same_definition;
  }

  module _ {A : Type 0} where
    pub pure-Tame : (a : A) → Tame id d (pure a)
    pure-Tame a = record { keeps = Kept-refl }

    pub lift-Tame : (r : Result A) → Tame id d (lift r)
    lift-Tame r = record { keeps = Kept-refl }

    pub raise-Tame : (e : Error) → Tame id d (raise {A = A} e)
    raise-Tame e = record { keeps = Kept-refl }

    pub if-Tame :
        (b : Bool) {m n : Exec World A} → Tame id d m → Tame id d n → Tame id d (if b then m else n)
    if-Tame true s t = s
    if-Tame false s t = t

    pub wrapping-Tame :
        (t : List String) {m : Exec World A} → Tame id d m → Tame id d (wrapping t m)
    wrapping-Tame t s = record { keeps = s.keeps }

    pub outcome-Tame : {m : Exec World A} → Tame id d m → Tame id d (outcome m)
    outcome-Tame s = record { keeps = s.keeps }

    pub ignoring-Tame : {m : Exec World A} → Tame id d m → Tame id d (ignoring m)
    ignoring-Tame s = record { keeps = s.keeps }

    pub read-Tame : (m : Exec Store A) → ((s : Store) → (m s).1 ≡ s) → Tame id d (on_store m)
    unfolding on_store
    read-Tame m same = record { keeps = λ w. rw (same w.store) (Kept-refl w) }

  pub bind-Tame :
      {A B : Type 0} {m : Exec World A} {f : A → Exec World B}
      → Tame id d m
      → ((a : A) → Tame id d (f a))
      → Tame id d (m >>= f)
  bind-Tame {m = m} {f = f} s t = record {
    keeps = λ w. elim (Result-cases (m w).0) [
      | inl (a, done) ↦ rw done (Kept-trans (s.keeps w) ((t a).keeps (m w).1))
      | inr (e, failed) ↦ rw failed (s.keeps w)
    ];
  }

  pub tick-Tame : Tame id d tick
  unfolding tick
  tick-Tame = record { keeps = λ w. record { same_place = refl; same_definition = refl } }

  pub send-Tame : (env : Env) (m : Message) → Tame id d (send env m)
  unfolding send
  send-Tame env m = record { keeps = λ w. record { same_place = refl; same_definition = refl } }

  -- The run that is put back stands at the same place.
  pub put-same :
      (k : ℕ) (r x : SagaRun) (runs : Map ℕ SagaRun)
      → lookup k runs ≡ some r
      → place (some x) ≡ place (some r)
      → place (lookup id (insert k x runs)) ≡ place (lookup id runs)
  put-same k r x runs found same = elim (Bool-cases (k == id)) [
    | inl here ↦ rw (lookup-insert, here) (ground (arith, nat_beq_iff k id, found, same))
    | inr there ↦ rw (lookup-insert, there) refl
  ]

  pub on_run-Tame :
      (k : ℕ) (f : SagaRun → SagaRun)
      → ((r : SagaRun) → place (some (f r)) ≡ place (some r))
      → Tame id d (on_store (on_run k λ r. put_run k (f r)))
  unfolding on_store
  on_run-Tame k f same = record {
    keeps = λ w. elim (Option-cases (run_of w.store k)) [
      | inl missing ↦ rw missing (Kept-refl w)
      | inr (r, found) ↦ rw found (record {
        same_place = put-same k r (f r) w.store.runs found (same r);
        same_definition = refl;
      })
    ];
  }

  pub Silent-Tame : {A : Type 0} {m : Exec World A} → Silent m → Tame id d m
  Silent-Tame s = record {
    keeps = λ w. record { same_place = rw (s.keeps w) refl; same_definition = rw (s.keeps w) refl };
  }
