-- ===== src/Store/Triggers.antt =====
-- Triggers and the log of their fires: store/memory/triggers.go and trigger_fires.go.
use go_saga_orchestration.Prelude.{
  ℕ, ℤ, Bool, true, false, ◌&&◌, ◌||◌, String, Option, none, some, List, [], ◌∷◌, ◌++◌, lookup,
  insert, delete, nat_eq, string_eq, ◌==◌, Exec, ok, err, gets, from_option, not_found, select,
  values, is_just, leb, ltb, take, is_nonpositive, pos_part, if◌then◌else◌,
}
use go_saga_orchestration.Domain.{SagaTrigger, trigger_cron}
use go_saga_orchestration.Store.{Store}
use go_saga_orchestration.Store.Sorting.{insertion_sort}
use go_saga_orchestration.Store.Listings.{unless_set}

-- The fresh id and the time stand in for the nil UUID and the zero time.
unfoldable pub upsert_trigger : ℕ → ℕ → SagaTrigger → Exec Store ℕ
upsert_trigger fresh now trigger s =
    let id = if trigger.id == 0 then fresh else trigger.id in
    (
      ok id,
      record s {
        triggers =
            insert id
              (record trigger {
                id = id;
                created_at = if trigger.created_at == 0 then now else trigger.created_at;
              })
              s.triggers;
      },
    )

unfoldable pub get_trigger : ℕ → Exec Store SagaTrigger
get_trigger id s = from_option (not_found "saga_trigger") (lookup id s.triggers) s

-- `TriggerFilter` of store/store.go.
pub record TriggerFilter : Type 0 where
  pub type : String
  pub enabled : Option Bool
  pub tenant_id : Option ℕ

abbrev tenant_matches : Option ℕ → Option ℕ → Bool
tenant_matches none tenant = true
tenant_matches (some wanted) tenant = is_just tenant wanted

unfoldable pub trigger_passes : TriggerFilter → SagaTrigger → Bool
trigger_passes filter t =
    ((filter.type == "") || (t.trigger_type == filter.type))
    && unless_set filter.enabled t.enabled
    && tenant_matches filter.tenant_id t.tenant_id

unfoldable pub list_triggers : TriggerFilter → Exec Store (List SagaTrigger)
unfolding trigger_passes
list_triggers filter = gets (λ s. select (trigger_passes filter) (values s.triggers))

abbrev delete_found : ℕ → Option SagaTrigger → Exec Store Unit
delete_found id none s = (err (not_found "saga_trigger"), s)
delete_found id (some t) s = (ok tt, record s { triggers = delete id s.triggers })

unfoldable pub delete_trigger : ℕ → Exec Store Unit
delete_trigger id s = delete_found id (lookup id s.triggers) s

-- `t.NextFireAt != nil && !t.NextFireAt.After(now)`
abbrev fires_by : ℕ → Option ℕ → Bool
fires_by now none = false
fires_by now (some t) = leb t now

unfoldable pub is_due_cron : ℕ → SagaTrigger → Bool
is_due_cron now t = (t.trigger_type == trigger_cron) && t.enabled && fires_by now t.next_fire_at

-- The times that are compared are not nil.
abbrev fires_before : SagaTrigger → SagaTrigger → Bool
fires_before a b = elim a.next_fire_at [
  | none ↦ false
  | some t ↦ elim b.next_fire_at [ none ↦ false | some u ↦ ltb t u ]
]

-- `sort.Slice` leaves the order of equal times open; here they stay in the order of the table.
unfoldable pub list_due_cron_triggers : ℕ → ℤ → Exec Store (List SagaTrigger)
unfolding is_due_cron
list_due_cron_triggers now limit = gets λ s.
    let out = insertion_sort fires_before (select (is_due_cron now) (values s.triggers)) in
    if is_nonpositive limit then out else take (pos_part limit) out

-- The fresh id and the time are arguments.
unfoldable pub record_trigger_fire : ℕ → ℕ → ℕ → String → Option ℕ → String → Exec Store Unit
record_trigger_fire id now trigger_id workflow_id run_id fire_err s = (
  ok tt,
  record s {
    trigger_fires =
        s.trigger_fires
        ++ record {
          id = id;
          trigger_id = trigger_id;
          workflow_id = workflow_id;
          fired_at = now;
          resulting_run_id = run_id;
          error = fire_err;
        }
          ∷ [];
  },
)
