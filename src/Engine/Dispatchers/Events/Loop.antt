-- ===== src/Engine/Dispatchers/Events/Loop.antt =====
-- What the loop over the awaiting runs leaves behind: engine/event_subscriber.go, Deliver.
use mathlib.Core.List.{append-nil, append_assoc}
use go_saga_orchestration.Prelude.{
  ℕ, ◌≡◌, refl, sym, ap, ◌∙◌, inl, inr, Bool, true, false, ◌&&◌, ◌||◌, String, Option, none, some,
  List, [], ◌∷◌, ◌++◌, map, Map, lookup, insert, lookup-insert, nat_eq, ◌==◌, is_just, is_some,
  arith, All, select, values, Result, ok, Option-cases, Bool-cases, if◌then◌else◌, string_eq,
}
use go_saga_orchestration.Domain.{SagaRun, is_paused_state}
use go_saga_orchestration.Store.{run_of}
use go_saga_orchestration.Store.Pauses.{wake_from_external, woken_run}
use go_saga_orchestration.Runtime.{Env, World, Message, send, saga_advance, on_store}
use go_saga_orchestration.Engine.Dispatchers.Events.{headers_subset, wake_run, wake_matching}

-- Each run stands under its own id, and under no other.
abbrev pub Keyed : Map ℕ SagaRun → Type 0
Keyed [] = Unit
Keyed ((k, r) ∷ m) = (r.id ≡ k) × (lookup k m ≡ none) × Keyed m

abbrev pub any : (SagaRun → Bool) → List SagaRun → Bool
any p [] = false
any p (x ∷ l) = p x || any p l

abbrev pub woken_if : Bool → Option SagaRun → Option SagaRun
woken_if b none = none
woken_if b (some r) = some (if b then woken_run r else r)

abbrev pub advance_of : SagaRun → Message
advance_of r = saga_advance r.id

woken_if-false : (o : Option SagaRun) → o ≡ woken_if false o
woken_if-false none = refl
woken_if-false (some r) = refl

woken_if-twice : (b : Bool) (o : Option SagaRun) → woken_if b (woken_if true o) ≡ woken_if true o
unfolding woken_run
woken_if-twice b none = refl
woken_if-twice true (some r) = refl
woken_if-twice false (some r) = refl

woken_if-or : (b c : Bool) (o : Option SagaRun) → woken_if c (woken_if b o) ≡ woken_if (b || c) o
woken_if-or true c o = woken_if-twice c o
woken_if-or false c o = ap (woken_if c) (sym (woken_if-false o))

put_woken :
    (y r : SagaRun) (w : World)
    → run_of w.store y.id ≡ some r
    → (id : ℕ)
    → lookup id (insert y.id (woken_run r) w.store.runs) ≡ woken_if (y.id == id) (run_of w.store id)
put_woken y r w found id =
    rw (lookup-insert y.id id (woken_run r) w.store.runs) (elim (Bool-cases (y.id == id)) [
      | inl here ↦ rw (here, sym ((nat_eq.beq_iff y.id id).0 here), found) refl
      | inr there ↦ rw there (woken_if-false (run_of w.store id))
    ])

-- The run is paused on the topic.
abbrev pub awaits : String → SagaRun → Bool
awaits topic r = is_paused_state r.state && is_just r.awaited_event_topic topic

pub All-stored :
    (p : SagaRun → Bool) (runs m : Map ℕ SagaRun)
    → ((k : ℕ) → is_some (lookup k m) ≡ true → is_some (lookup k runs) ≡ true)
    → Keyed m
    → All (λ y. is_some (lookup y.id runs) ≡ true) (select p (values m))
unfolding lookup
All-stored p runs [] h keyed = tt
All-stored p runs ((k, r) ∷ m) h keyed =
    let rest = All-stored p runs m (λ j e. h j (ground (arith, e))) keyed.2 in
    let here = h r.id (ground (arith, keyed.0)) in
    elim (Bool-cases (p r)) [ inl passes ↦ rw passes (here, rest) | inr fails ↦ rw fails rest ]

-- Every message is taken.
abbrev pub AllSent : Env → Type 0
AllSent env = (n : ℕ) (m : Message) → env.send_error_at n m ≡ none

module _ (headers : Map String String) where
  abbrev pub hits : ℕ → SagaRun → Bool
  hits id y = (y.id == id) && headers_subset y.awaited_event_headers headers

module _ (env : Env) (publishes : env.has_publisher ≡ true) (sent : AllSent env)
    (headers : Map String String) where
  -- What the loop leaves of a run, and what it sends.
  pub record Woken (l : List SagaRun) (w : World) (out : Result (Unit {0}) × World) : Type 0 where
    pub done : out.0 ≡ ok tt
    pub left :
        (id : ℕ) → run_of out.1.store id ≡ woken_if (any (hits headers id) l) (run_of w.store id)
    pub outbox :
        out.1.outbox
        ≡ w.outbox
          ++ map advance_of (select (λ y. headers_subset y.awaited_event_headers headers) l)

  wake_one :
      (y r : SagaRun) (w : World)
      → run_of w.store y.id ≡ some r
      → ((wake_run env y w).0 ≡ ok tt)
        × ((id : ℕ)
            → run_of (wake_run env y w).1.store id ≡ woken_if (y.id == id) (run_of w.store id))
        × ((wake_run env y w).1.outbox ≡ w.outbox ++ advance_of y ∷ [])
  unfolding on_store wake_from_external send
  wake_one y r w found = rw (found, publishes, sent) (refl, put_woken y r w found, refl)

  still_there : (b : Bool) (o : Option SagaRun) → is_some o ≡ true → is_some (woken_if b o) ≡ true
  still_there b none e = e
  still_there b (some r) e = refl

  All-there :
      (l : List SagaRun) (b : ℕ → Bool) (w w' : World)
      → ((id : ℕ) → run_of w'.store id ≡ woken_if (b id) (run_of w.store id))
      → All (λ y. is_some (run_of w.store y.id) ≡ true) l
      → All (λ y. is_some (run_of w'.store y.id) ≡ true) l
  All-there [] b w w' same h = tt
  All-there (y ∷ l) b w w' same h =
      (rw (same y.id) (still_there (b y.id) (run_of w.store y.id) h.0), All-there l b w w' same h.1)

  step_miss :
      (y : SagaRun) (l : List SagaRun) (w : World)
      → headers_subset y.awaited_event_headers headers ≡ false
      → wake_matching env headers (y ∷ l) w ≡ wake_matching env headers l w
  unfolding wake_matching
  step_miss y l w differs = rw differs refl

  step_hit :
      (y : SagaRun) (l : List SagaRun) (w : World)
      → headers_subset y.awaited_event_headers headers ≡ true
      → (wake_run env y w).0 ≡ ok tt
      → wake_matching env headers (y ∷ l) w ≡ wake_matching env headers l (wake_run env y w).1
  unfolding wake_matching
  step_hit y l w fits done = rw fits (rw done refl)

  miss-Woken :
      (y : SagaRun) (l : List SagaRun) (w : World) (out : Result (Unit {0}) × World)
      → headers_subset y.awaited_event_headers headers ≡ false
      → Woken l w out
      → Woken (y ∷ l) w out
  miss-Woken y l w out differs rest = record {
    done = rest.done;
    left = λ id. rest.left id ∙ ap (λ b. woken_if b (run_of w.store id)) (ground (arith, differs));
    outbox = rw differs rest.outbox;
  }

  hit-Woken :
      (y : SagaRun) (l : List SagaRun) (w w' : World) (out : Result (Unit {0}) × World)
      → headers_subset y.awaited_event_headers headers ≡ true
      → ((id : ℕ) → run_of w'.store id ≡ woken_if (y.id == id) (run_of w.store id))
      → w'.outbox ≡ w.outbox ++ advance_of y ∷ []
      → Woken l w' out
      → Woken (y ∷ l) w out
  hit-Woken y l w w' out fits left sent_one rest = record {
    done = rest.done;
    left = λ id.
        rest.left id
        ∙ ap (woken_if (any (hits headers id) l)) (left id)
        ∙ woken_if-or (y.id == id) (any (hits headers id) l) (run_of w.store id)
        ∙ ap (λ b. woken_if b (run_of w.store id)) (ground (arith, fits));
    outbox = rw fits (rest.outbox ∙ rw sent_one (append_assoc w.outbox _ _));
  }

  pub loop :
      (l : List SagaRun) (w : World)
      → All (λ y. is_some (run_of w.store y.id) ≡ true) l
      → Woken l w (wake_matching env headers l w)
  unfolding wake_matching
  loop [] w h = record {
    done = refl;
    left = λ id. woken_if-false (run_of w.store id);
    outbox = sym (append-nil w.outbox);
  }
  loop (y ∷ l) w h = elim (Bool-cases (headers_subset y.awaited_event_headers headers)) [
    | inr differs ↦ rw (step_miss y l w differs) (miss-Woken y l w _ differs (loop l w h.1))
    | inl fits ↦ elim (Option-cases (run_of w.store y.id)) [
      | inl missing ↦ absurd (let e = h.0 in cc)
      | inr (r, found) ↦
          let (done, left, sent_one) = wake_one y r w found in
          let w' = (wake_run env y w).1 in
          rw (step_hit y l w fits done) (
            hit-Woken y l w w' _ fits left sent_one
              (loop l w' (All-there l (λ id. y.id == id) w w' left h.1)))
    ]
  ]
