-- ===== src/Engine/Keeps.antt =====
-- Code that leaves what a view shows of the store as it is.
use go_saga_orchestration.Prelude.{
  ◌≡◌, refl, ap, ◌∙◌, inl, inr, Bool, true, false, String, List, Exec, Result, Error, ◌>>=◌, pure,
  raise, lift, wrapping, outcome, ignoring, if◌then◌else◌,
}
use go_saga_orchestration.Store.{Store}
use go_saga_orchestration.Runtime.{Env, World, Message, send, on_store, tick, now, fresh}
use go_saga_orchestration.Engine.Steady.{Steady, SameStates-refl, Result-cases}

pub record Keeps {B : Type 0} (view : Store → B) {A : Type 0} (m : Exec World A) : Type 0 where
  pub keeps : (w : World) → view (m w).1.store ≡ view w.store

module _ {B : Type 0} (view : Store → B) where
  module _ {A : Type 0} where
    pub pure-Keeps : (a : A) → Keeps view (pure a)
    pure-Keeps a = record { keeps = λ w. refl }

    pub raise-Keeps : (e : Error) → Keeps view (raise {A = A} e)
    raise-Keeps e = record { keeps = λ w. refl }

    pub lift-Keeps : (r : Result A) → Keeps view (lift r)
    lift-Keeps r = record { keeps = λ w. refl }

    pub if-Keeps :
        (b : Bool) {m n : Exec World A}
        → Keeps view m
        → Keeps view n
        → Keeps view (if b then m else n)
    if-Keeps true s t = s
    if-Keeps false s t = t

    pub wrapping-Keeps :
        (t : List String) {m : Exec World A} → Keeps view m → Keeps view (wrapping t m)
    wrapping-Keeps t s = record { keeps = s.keeps }

    pub outcome-Keeps : {m : Exec World A} → Keeps view m → Keeps view (outcome m)
    outcome-Keeps s = record { keeps = s.keeps }

    pub ignoring-Keeps : {m : Exec World A} → Keeps view m → Keeps view (ignoring m)
    ignoring-Keeps s = record { keeps = s.keeps }

    pub store-Keeps :
        (m : Exec Store A) → ((s : Store) → view (m s).1 ≡ view s) → Keeps view (on_store m)
    unfolding on_store
    store-Keeps m same = record { keeps = λ w. same w.store }

    pub read-Keeps : (m : Exec Store A) → ((s : Store) → (m s).1 ≡ s) → Keeps view (on_store m)
    read-Keeps m same = store-Keeps m (λ s. ap view (same s))

  pub bind-Keeps :
      {A C : Type 0} {m : Exec World A} {f : A → Exec World C}
      → Keeps view m
      → ((a : A) → Keeps view (f a))
      → Keeps view (m >>= f)
  bind-Keeps {m = m} s t = record {
    keeps = λ w. elim (Result-cases (m w).0) [
      | inl (a, done) ↦ rw done ((t a).keeps (m w).1 ∙ s.keeps w)
      | inr (e, failed) ↦ rw failed (s.keeps w)
    ];
  }

  pub send-Keeps : (env : Env) (m : Message) → Keeps view (send env m)
  unfolding send
  send-Keeps env m = record { keeps = λ w. refl }

  pub tick-Keeps : Keeps view tick
  unfolding tick
  tick-Keeps = record { keeps = λ w. refl }

  pub now-Keeps : (env : Env) → Keeps view (now env)
  unfolding now
  now-Keeps env = bind-Keeps tick-Keeps (λ n. pure-Keeps (env.time_at n))

  pub fresh-Keeps : (env : Env) → Keeps view (fresh env)
  unfolding fresh
  fresh-Keeps env = bind-Keeps tick-Keeps (λ n. pure-Keeps (env.uuid_at n))

-- Code that leaves the whole store as it is.
abbrev pub Silent : {A : Type 0} → Exec World A → Type 0
Silent = Keeps (λ s. s)

pub Silent-Steady : {A : Type 0} {m : Exec World A} → Silent m → Steady m
Silent-Steady s = record { keeps = λ w. rw (s.keeps w) (SameStates-refl w.store.runs) }
