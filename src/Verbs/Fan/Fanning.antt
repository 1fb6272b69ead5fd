-- ===== src/Verbs/Fan/Fanning.antt =====
-- What a fan-out leaves behind, behind the loop that spawns the children: engine/verbs/parallel.go and
-- foreach.go.
use mathlib.Core.List.{append-nil, append_assoc}
use go_saga_orchestration.Prelude.{
  ℕ, suc, ◌<◌, ◌≤◌, ◌≡◌, ◌≢◌, refl, sym, ap, ◌∙◌, false, true, String, none, some, List, [], ◌∷◌,
  ◌++◌, map, lookup-insert, nat_eq, nat_beq_self, ◌==◌, arith, All, Result, ok, err, saga_paused,
}
use go_saga_orchestration.Domain.{Fields, SagaRun, paused, Step}
use go_saga_orchestration.Store.{run_of}
use go_saga_orchestration.Store.Runs.{update_run_state}
use go_saga_orchestration.Runtime.{Env, World, Message, on_store, send, saga_advance}
use go_saga_orchestration.Verbs.Fan.{publish_children, pause_and_publish}
use go_saga_orchestration.Verbs.Fan.Children.{ChildSpec, IsChild, ChildAt, ChildAt-IsChild, Spawned}

-- One id for each spec, and each names a child as its spec says.
abbrev pub EachChild : SagaRun → Step → World → List ChildSpec → List ℕ → Type 0
EachChild run step w [] [] = Unit
EachChild run step w (spec ∷ specs) (id ∷ ids) =
    IsChild run step spec w id × EachChild run step w specs ids
EachChild run step w _ _ = ⊥

-- No id is there twice.
abbrev pub Different : List ℕ → Type 0
Different [] = Unit
Different (id ∷ ids) = All (λ other. id ≢ other) ids × Different ids

-- What a fan-out leaves: for each spec a child of its own, the messages that advance the children in
-- their order, and the paused parent.
pub record Fanned (run : SagaRun) (step : Step) (specs : List ChildSpec) (r : SagaRun) (w : World)
    (out : Result Fields × World) : Type 0 where
  pub ids : List ℕ
  pub suspended : out.0 ≡ err saga_paused
  pub different : Different ids
  pub children : EachChild run step out.1 specs ids
  pub messages : out.1.outbox ≡ w.outbox ++ map saga_advance ids
  pub parent :
      run_of out.1.store run.id ≡ some (record r { state = paused; current_step = step.id })

moved-IsChild :
    (run : SagaRun) (step : Step) (spec : ChildSpec) (id : ℕ) (w w' : World)
    → w'.store ≡ w.store
    → IsChild run step spec w id
    → IsChild run step spec w' id
moved-IsChild run step spec id w w' same c = record {
  child = c.child;
  stored = ap (λ s. run_of s id) same ∙ c.stored;
  parent = c.parent;
  spawned_by = c.spawned_by;
  branch = c.branch;
  given = c.given;
  program = c.program;
  defined = rw same c.defined;
  starts = c.starts;
  runs_steps = c.runs_steps;
}

moved-EachChild :
    (run : SagaRun) (step : Step) (specs : List ChildSpec) (ids : List ℕ) (w w' : World)
    → w'.store ≡ w.store
    → EachChild run step w specs ids
    → EachChild run step w' specs ids
moved-EachChild run step [] [] w w' same h = tt
moved-EachChild run step [] (id ∷ ids) w w' same h = h
moved-EachChild run step (spec ∷ specs) [] w w' same h = h
moved-EachChild run step (spec ∷ specs) (id ∷ ids) w w' same h =
    (moved-IsChild run step spec id w w' same h.0, moved-EachChild run step specs ids w w' same h.1)

-- The readings rise, from the first one on.
abbrev Rising : ℕ → List ℕ → Type 0
Rising n [] = Unit
Rising n (b ∷ bs) = (n ≤ b) × Rising (suc b) bs

Rising-lower : (n m : ℕ) (bs : List ℕ) → m ≤ n → Rising n bs → Rising m bs
Rising-lower n m [] small h = tt
Rising-lower n m (b ∷ bs) small h = (omega (arith, small, h.0), h.1)

module _ (env : Env) (run : SagaRun) (step : Step) (others : (n : ℕ) → env.uuid_at n ≢ run.id)
    (apart : (n m : ℕ) → env.uuid_at n ≡ env.uuid_at m → n ≡ m) where
  abbrev pub ids_of : List ℕ → List ℕ
  ids_of [] = []
  ids_of (b ∷ bs) = env.uuid_at (suc (suc b)) ∷ ids_of bs

  -- The children that were born at the readings.
  abbrev Born : World → List ChildSpec → List ℕ → Type 0
  Born w [] [] = Unit
  Born w (spec ∷ specs) (b ∷ bs) = ChildAt env run step others apart spec w b × Born w specs bs
  Born w _ _ = ⊥

  -- What the loop over the branches or items leaves.
  pub record Batch (specs : List ChildSpec) (w : World) (out : Result (List ℕ) × World)
      : Type 0 where
    pub births : List ℕ
    pub done : out.0 ≡ ok (ids_of births)
    pub rising : Rising w.clock births
    pub unsent : out.1.outbox ≡ w.outbox
    pub same_parent : run_of out.1.store run.id ≡ run_of w.store run.id
    pub new_children : Born out.1 specs births
    pub old_children :
        (spec : ChildSpec) (b : ℕ)
        → ChildAt env run step others apart spec w b
        → ChildAt env run step others apart spec out.1 b

  pub nil-Batch : (w : World) → Batch [] w (ok [], w)
  nil-Batch w = record {
    births = [];
    done = refl;
    rising = tt;
    unsent = refl;
    same_parent = refl;
    new_children = tt;
    old_children = λ spec b c. c;
  }

  pub cons-Batch :
      (spec : ChildSpec) (specs : List ChildSpec) (w w' : World) (out : Result (List ℕ) × World)
      → Spawned env run step others apart spec w w'
      → (b : Batch specs w' out)
      → Batch (spec ∷ specs) w (ok (env.uuid_at (suc (suc w.clock)) ∷ ids_of b.births), out.1)
  cons-Batch spec specs w w' out one b = record {
    births = w.clock ∷ b.births;
    done = refl;
    rising = (omega arith, Rising-lower w'.clock (suc w.clock) b.births one.later b.rising);
    unsent = b.unsent ∙ one.unsent;
    same_parent = b.same_parent ∙ one.same_parent;
    new_children = (b.old_children spec w.clock one.new_child, b.new_children);
    old_children = λ old k c. b.old_children old k (one.old_children old k c);
  }

  All-later :
      (b n : ℕ) (bs : List ℕ)
      → b < n
      → Rising n bs
      → All (λ other. env.uuid_at (suc (suc b)) ≢ other) (ids_of bs)
  All-later b n [] less h = tt
  All-later b n (c ∷ bs) less h = (
    λ e. omega (arith, apart (suc (suc b)) (suc (suc c)) e, less, h.0),
    All-later b (suc c) bs (omega (arith, less, h.0)) h.1,
  )

  Rising-Different : (n : ℕ) (bs : List ℕ) → Rising n bs → Different (ids_of bs)
  Rising-Different n [] h = tt
  Rising-Different n (b ∷ bs) h =
      (All-later b (suc b) bs (omega arith) h.1, Rising-Different (suc b) bs h.1)

  published :
      (failure : String) (ids : List ℕ) (w : World)
      → env.has_publisher ≡ true
      → ((n : ℕ) (m : Message) → env.send_error_at n m ≡ none)
      → ((publish_children env failure ids w).0 ≡ ok tt)
        × ((publish_children env failure ids w).1.store ≡ w.store)
        × ((publish_children env failure ids w).1.outbox ≡ w.outbox ++ map saga_advance ids)
  unfolding publish_children send
  published failure [] w publishes sent = (refl, refl, sym (append-nil w.outbox))
  published failure (id ∷ ids) w publishes sent =
      let (done, same, out) =
        published failure ids (send env (saga_advance id) w).1 publishes sent in
      rw (publishes, sent)
        (done, same, out ∙ append_assoc w.outbox (saga_advance id ∷ []) (map saga_advance ids))

  not_child : (n : ℕ) → (run.id == env.uuid_at n) ≡ false
  not_child n = ground (arith, others n)

  paused-ChildAt :
      (r : SagaRun) (spec : ChildSpec) (b : ℕ) (w : World)
      → run_of w.store run.id ≡ some r
      → ChildAt env run step others apart spec w b
      → ChildAt env run step others apart spec
          (on_store (update_run_state run.id paused step.id) w).1
          b
  unfolding on_store update_run_state
  paused-ChildAt r spec b w found c = rw found (record {
    before = c.before;
    child = c.child;
    stored = rw (lookup-insert, not_child (suc (suc b))) c.stored;
    parent = c.parent;
    spawned_by = c.spawned_by;
    branch = c.branch;
    given = c.given;
    row = c.row;
    program = c.program;
    defined = c.defined;
    starts = c.starts;
    runs_steps = c.runs_steps;
  })

  paused-EachChild :
      (r : SagaRun) (specs : List ChildSpec) (bs : List ℕ) (w : World)
      → run_of w.store run.id ≡ some r
      → Born w specs bs
      → EachChild run step (on_store (update_run_state run.id paused step.id) w).1 specs (ids_of bs)
  paused-EachChild r [] [] w found h = tt
  paused-EachChild r [] (b ∷ bs) w found h = h
  paused-EachChild r (spec ∷ specs) [] w found h = h
  paused-EachChild r (spec ∷ specs) (b ∷ bs) w found h = (
    ChildAt-IsChild env run step others apart spec _ b (paused-ChildAt r spec b w found h.0),
    paused-EachChild r specs bs w found h.1,
  )

  module _ (publishes : env.has_publisher ≡ true)
      (sent : (n : ℕ) (m : Message) → env.send_error_at n m ≡ none) (r : SagaRun) where
    parent_paused :
        (w : World)
        → run_of w.store run.id ≡ some r
        → ((on_store (update_run_state run.id paused step.id) w).0 ≡ ok tt)
          × (run_of (on_store (update_run_state run.id paused step.id) w).1.store run.id
              ≡ some (record r { state = paused; current_step = step.id }))
          × ((on_store (update_run_state run.id paused step.id) w).1.outbox ≡ w.outbox)
    unfolding on_store update_run_state
    parent_paused w found = rw found (refl, rw (lookup-insert, nat_beq_self) refl, refl)

    pub pause-Fanned :
        (failure : String) (specs : List ChildSpec) (w : World) (out : Result (List ℕ) × World)
        (b : Batch specs w out)
        → run_of w.store run.id ≡ some r
        → Fanned run step specs r w (pause_and_publish env failure run step (ids_of b.births) out.1)
    unfolding pause_and_publish
    pause-Fanned failure specs w out b at_start =
        let found = b.same_parent ∙ at_start in
        let ids = ids_of b.births in
        let paused_world = (on_store (update_run_state run.id paused step.id) out.1).1 in
        let (did, at, quiet) = parent_paused out.1 found in
        let (done, same, messages) = published failure ids paused_world publishes sent in
        rw did (
          rw done (record {
            ids = ids;
            suspended = refl;
            different = Rising-Different w.clock b.births b.rising;
            children =
                moved-EachChild run step specs ids paused_world _ same
                  (paused-EachChild r specs b.births out.1 found b.new_children);
            messages = messages ∙ ap (λ l. l ++ map saga_advance ids) (quiet ∙ b.unsent);
            parent = ap (λ s. run_of s run.id) same ∙ at;
          }))
