-- ===== src/Engine/Dispatchers/Cron/Once.antt =====
-- Two cron dispatchers that list the same due trigger start one run: engine/cron_dispatcher.go.

use go_saga_orchestration.Prelude.{
  ℕ, ◌≡◌, ◌≢◌, refl, ap, ◌∙◌, inl, inr, Bool, true, false, String, Option, some, List, [], ◌∷◌, Map,
  lookup, lookup-insert, nat_eq, nat_beq_self, ◌==◌, is_just, arith, Result, ok, Option-cases,
  Bool-cases, if◌then◌else◌, Error,
}
use go_saga_orchestration.Domain.{Fields, end, field, SagaTrigger, WorkflowDefinition}
use go_saga_orchestration.Store.{Store}
use go_saga_orchestration.Store.Runs.{create_run, update_run_variables}
use go_saga_orchestration.Store.Definitions.{
  upsert_workflow_definition, get_published_workflow_by_id,
}
use go_saga_orchestration.Store.Triggers.{record_trigger_fire}
use go_saga_orchestration.Store.Actions.{claim_cron_fire}
use go_saga_orchestration.Runtime.{Env, World, saga_advance, on_store}
use go_saga_orchestration.Engine.Keeps.{
  Keeps, bind-Keeps, pure-Keeps, lift-Keeps, if-Keeps, ignoring-Keeps, store-Keeps, send-Keeps,
  tick-Keeps, now-Keeps, fresh-Keeps,
}
use go_saga_orchestration.Engine.Hooks.Steady.{from_option-same}
use go_saga_orchestration.Engine.Dispatchers.Startup.{
  Provider, collect, merge_answer, write_merge, inject_startup_variables, create_triggered,
  triggered_run,
}
use go_saga_orchestration.Engine.Dispatchers.Triggers.{publish_start, record_fire}
use go_saga_orchestration.Engine.Dispatchers.Cron.{
  CronDispatcher, next_fire, start_run, start_licensed, start_won, fire_trigger,
}

abbrev triggers_of : Store → Map ℕ SagaTrigger
triggers_of s = s.triggers

on_run-same :
    (id : ℕ) (m : Fields) (s : Store) → (update_run_variables id m s).1.triggers ≡ s.triggers
unfolding update_run_variables
on_run-same id m s = ground arith

collect-Keeps :
    (providers : List Provider) (tenant : Option ℕ) (merge : Fields)
    → Keeps triggers_of (collect providers tenant merge)
unfolding collect
collect-Keeps [] tenant merge = pure-Keeps triggers_of merge
collect-Keeps (p ∷ rest) tenant merge =
    bind-Keeps triggers_of (tick-Keeps triggers_of)
      λ n. collect-Keeps rest tenant (merge_answer (p n tenant) merge)

write-Keeps : (id : ℕ) (m : Fields) → Keeps triggers_of (write_merge id m)
write-Keeps id end = pure-Keeps triggers_of tt
write-Keeps id (field k v m) =
    ignoring-Keeps triggers_of (
      store-Keeps triggers_of (update_run_variables id (field k v m))
        (on_run-same id (field k v m)))

create-Keeps :
    (env : Env) (providers : List Provider) (def : WorkflowDefinition) (tenant : Option ℕ)
    (inputs : Fields) (start_step : String) (trigger_id : ℕ)
    → Keeps triggers_of (create_triggered env providers def tenant inputs start_step trigger_id)
unfolding create_triggered inject_startup_variables upsert_workflow_definition create_run
create-Keeps env providers def tenant inputs start_step trigger_id =
    bind-Keeps triggers_of (fresh-Keeps triggers_of env) λ fresh_row.
      bind-Keeps triggers_of
        (store-Keeps triggers_of (upsert_workflow_definition fresh_row def) (λ s. refl))
        λ row. bind-Keeps triggers_of (fresh-Keeps triggers_of env) λ id.
          bind-Keeps triggers_of (now-Keeps triggers_of env) λ t.
            bind-Keeps triggers_of
              (store-Keeps triggers_of
                (create_run (triggered_run id t def row tenant inputs start_step trigger_id))
                (λ s. refl))
              λ _.
                bind-Keeps triggers_of
                  (bind-Keeps triggers_of (collect-Keeps providers tenant end) (write-Keeps id))
                  λ _. pure-Keeps triggers_of id

record-Keeps :
    (env : Env) (tr : SagaTrigger) (run_id : ℕ) → Keeps triggers_of (record_fire env tr run_id)
unfolding record_trigger_fire
record-Keeps env tr run_id = bind-Keeps triggers_of (fresh-Keeps triggers_of env) λ id.
    bind-Keeps triggers_of (now-Keeps triggers_of env) λ t. ignoring-Keeps triggers_of (
      store-Keeps triggers_of (record_trigger_fire id t tr.id tr.workflow_id (some run_id) "")
        (λ s. refl))

publish-Keeps : (env : Env) (run_id : ℕ) → Keeps triggers_of (publish_start env run_id)
publish-Keeps env run_id =
    if-Keeps triggers_of env.has_publisher (send-Keeps triggers_of env (saga_advance run_id))
      (pure-Keeps triggers_of tt)

-- The start of a run touches no trigger.
start_run-Keeps :
    (env : Env) (d : CronDispatcher) (tr : SagaTrigger) → Keeps triggers_of (start_run env d tr)
unfolding start_run get_published_workflow_by_id
start_run-Keeps env d tr =
    bind-Keeps triggers_of
      (store-Keeps triggers_of (get_published_workflow_by_id tr.workflow_id tr.tenant_id)
        (λ s. ap triggers_of (from_option-same _ _ s)))
      λ def. bind-Keeps triggers_of (lift-Keeps triggers_of _) λ start_step.
        bind-Keeps triggers_of (create-Keeps env d.providers def tr.tenant_id _ start_step tr.id)
          λ run_id.
            bind-Keeps triggers_of (publish-Keeps env run_id) λ _. record-Keeps env tr run_id

licensed-Keeps :
    (env : Env) (d : CronDispatcher) (tr : SagaTrigger) (r : Bool × Option Error)
    → Keeps triggers_of (start_licensed env d tr r)
licensed-Keeps env d tr (true, e) = start_run-Keeps env d tr
licensed-Keeps env d tr (false, e) = pure-Keeps triggers_of tt

won-Keeps :
    (env : Env) (d : CronDispatcher) (tr : SagaTrigger) (won : Bool)
    → Keeps triggers_of (start_won env d tr won)
won-Keeps env d tr false = pure-Keeps triggers_of tt
won-Keeps env d tr true =
    bind-Keeps triggers_of (tick-Keeps triggers_of) λ n. licensed-Keeps env d tr _

not_same : (a b : ℕ) → a ≢ b → (b == a) ≡ false
not_same a b ne = ground arith

first_ok :
    (b : Bool) (x y : Store)
    → (if◌then◌else◌ {A = Result Bool × Store} b (ok true, x) (ok false, y)).0 ≡ ok b
first_ok true x y = refl
first_ok false x y = refl

-- A second claim of the same time, on the triggers that the first one leaves, is lost.
second_claim :
    (id expected next next' : ℕ) (s s' : Store)
    → expected ≢ next
    → s'.triggers ≡ (claim_cron_fire id expected next s).1.triggers
    → claim_cron_fire id expected next' s' ≡ (ok false, s')
unfolding claim_cron_fire
second_claim id expected next next' s s' moved = elim (Option-cases (lookup id s.triggers)) [
  | inl missing ↦ rw missing (λ same. rw (same, missing) refl)
  | inr (t, found) ↦ rw found (elim (Bool-cases (is_just t.next_fire_at expected)) [
    | inl due ↦
        rw due
          (λ same. rw (same, lookup-insert, nat_beq_self) (rw (not_same expected next moved) refl))
    | inr lost ↦ rw lost (λ same. rw (same, found) (rw lost refl))
  ])
]

claim-ok :
    (id expected next : ℕ) (s : Store)
    → (won : Bool) × ((claim_cron_fire id expected next s).0 ≡ ok won)
unfolding claim_cron_fire
claim-ok id expected next s = elim (Option-cases (lookup id s.triggers)) [
  | inl missing ↦ (false, rw missing refl)
  | inr (t, found) ↦
      (is_just t.next_fire_at expected, rw found (first_ok (is_just t.next_fire_at expected) _ s))
]

fired-triggers :
    (env : Env) (d : CronDispatcher) (t expected next : ℕ) (tr : SagaTrigger) (w : World)
    → next_fire env d t tr ≡ some next
    → tr.next_fire_at ≡ some expected
    → (fire_trigger env d t tr w).1.store.triggers
      ≡ (claim_cron_fire tr.id expected next w.store).1.triggers
unfolding fire_trigger on_store
fired-triggers env d t expected next tr w coming due =
    let (won, claimed) = claim-ok tr.id expected next w.store in
    rw (coming, due) (rw claimed ((won-Keeps env d tr won).keeps _))

-- When a dispatcher has fired a trigger with a valid schedule that moves its due time, every other
-- dispatcher that still holds the trigger as it was listed, at whatever time, returns nil and writes
-- nothing, as long as no trigger is written in between: it starts no second run.
pub fire_trigger-once :
    (env env' : Env) (d d' : CronDispatcher) (t t' expected next : ℕ) (tr : SagaTrigger)
    (w w' : World)
    → next_fire env d t tr ≡ some next
    → tr.next_fire_at ≡ some expected
    → expected ≢ next
    → w'.store.triggers ≡ (fire_trigger env d t tr w).1.store.triggers
    → ((fire_trigger env' d' t' tr w').0 ≡ ok tt)
      × ((fire_trigger env' d' t' tr w').1.store ≡ w'.store)
unfolding fire_trigger on_store
fire_trigger-once env env' d d' t t' expected next tr w w' coming due moved same =
    let fired = same ∙ fired-triggers env d t expected next tr w coming due in
    elim (Option-cases (next_fire env' d' t' tr)) [
      | inl invalid ↦ rw invalid (refl, refl)
      | inr (next', valid) ↦
          rw (valid, due, second_claim tr.id expected next next' w.store w'.store moved fired)
            (refl, refl)
    ]
