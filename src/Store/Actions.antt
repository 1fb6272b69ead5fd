-- ===== src/Store/Actions.antt =====
-- Action dispatch tracking and the action registry: store/memory/store.go,
-- UpsertActionRegistration to FailAction; and the cron claim of store/memory/triggers.go.
pub mod Claims
use go_saga_orchestration.Prelude.{
  ℕ, Bool, true, false, not, ◌&&◌, ◌||◌, String, Option, none, some, List, [], ◌∷◌, ◌++◌, Map,
  lookup, insert, nat_eq, string_eq, Exec, ok, not_found, pure, from_option, gets, ◌>>◌, ◌==◌,
  is_just, concat, contains, select, values, if◌then◌else◌, ◌>>=◌,
}
use go_saga_orchestration.Domain.{
  Value, str, bool, Fields, end, field, put, entries, SagaRun, paused, failed, SagaRunEvent,
  new_event, step_failed, ActionRegistration, SagaTrigger,
}
use go_saga_orchestration.Store.{Store, on_run, put_run}
use go_saga_orchestration.Store.Runs.{append_event, error_text}

unfoldable pub mark_awaiting_action : ℕ → String → ℕ → Exec Store Unit
mark_awaiting_action run_id dispatch attempt = on_run run_id λ r.
    if (r.current_attempt == attempt) && is_just r.awaited_action_dispatch dispatch
    then pure tt
    else put_run run_id (record r {
      state = paused;
      awaited_action_dispatch = some dispatch;
      current_attempt = attempt;
    })

-- The result's entries are written under their own names: a dot is no path here.
unfoldable pub merge_plain : List (String × Value) → Fields → Fields
merge_plain [] target = target
merge_plain ((k, v) ∷ rest) target = merge_plain rest (put k v target)

unfoldable pub completed_run : ℕ → Fields → SagaRun → SagaRun
unfolding merge_plain
completed_run now result r = record r {
  awaited_action_dispatch = none;
  wakeup_at = some now;
  variables = merge_plain (entries result) r.variables;
}

unfoldable pub complete_action : ℕ → ℕ → ℕ → Fields → Exec Store Unit
unfolding completed_run
complete_action now run_id attempt result = on_run run_id λ r.
    if not (r.current_attempt == attempt)
    then pure tt
    else put_run run_id (completed_run now result r)

abbrev or_empty : Option String → String
or_empty none = ""
or_empty (some t) = t

unfoldable pub action_failed_run : ℕ → String → SagaRun → SagaRun
action_failed_run now message r = record r {
  awaited_action_dispatch = none;
  state = failed;
  terminal_at = some now;
  last_event_at = now;
  last_error = error_text message r.last_error;
}

unfoldable pub action_failed_event : ℕ → ℕ → ℕ → ℕ → String → String → Bool → SagaRun → SagaRunEvent
unfolding new_event
action_failed_event event_id now run_id attempt code message retryable r =
    record (new_event event_id now run_id r.current_step attempt step_failed "engine") {
      metadata = field "code" (str code) (
          field "message" (str message) (
            field "retryable" (bool retryable)
              (field "action" (str (or_empty r.awaited_action_dispatch)) end)));
    }

-- What FailAction does while it holds the mutex. The result is the run as it was read, unless the
-- delivery is a late one.
unfoldable pub fail_locked : ℕ → ℕ → ℕ → String → Exec Store (Option SagaRun)
unfolding action_failed_run
fail_locked now run_id attempt message = on_run run_id λ r.
    if not (r.current_attempt == attempt)
    then pure none
    else do put_run run_id (action_failed_run now message r); pure (some r)

abbrev audit_failure : ℕ → ℕ → ℕ → ℕ → String → String → Bool → Option SagaRun → Exec Store Unit
audit_failure event_id now run_id attempt code message retryable none = pure tt
audit_failure event_id now run_id attempt code message retryable (some r) =
    append_event (action_failed_event event_id now run_id attempt code message retryable r)

-- The audit event is appended behind the release of the mutex.
unfoldable pub fail_action : ℕ → ℕ → ℕ → ℕ → String → String → Bool → Exec Store Unit
unfolding fail_locked append_event
fail_action event_id now run_id attempt code message retryable = do
  failed_run ← fail_locked now run_id attempt message
  audit_failure event_id now run_id attempt code message retryable failed_run

abbrev versions : Option (Map ℕ ActionRegistration) → Map ℕ ActionRegistration
versions none = []
versions (some m) = m

abbrev pub action_key : String → String → String
action_key service name = concat service (concat "." name)

-- The fresh id and the time stand in for the nil UUID and the zero time.
unfoldable pub upsert_action_registration : ℕ → ℕ → ActionRegistration → Exec Store Unit
upsert_action_registration id now reg s = (
  ok tt,
  record s {
    actions = insert key (insert reg.version stored (versions (lookup key s.actions))) s.actions;
  },
)
  where
    key : String
    key = action_key reg.service reg.action_name

    stored : ActionRegistration
    stored = record reg {
      id = if reg.id == 0 then id else reg.id;
      registered_at = if reg.registered_at == 0 then now else reg.registered_at;
    }

abbrev pub all_versions : Map String (Map ℕ ActionRegistration) → List ActionRegistration
all_versions [] = []
all_versions ((k, m) ∷ rest) = values m ++ all_versions rest

-- `ActionFilter` of store/store.go.
pub record ActionFilter : Type 0 where
  pub service : String
  pub search : String
  pub category : String

unfoldable pub action_passes : ActionFilter → ActionRegistration → Bool
unfolding contains
action_passes filter reg =
    ((filter.service == "") || (reg.service == filter.service))
    && ((filter.category == "") || (reg.category == filter.category))
    && ((filter.search == "") || contains reg.action_name filter.search)

unfoldable pub list_actions : ActionFilter → Exec Store (List ActionRegistration)
unfolding action_passes
list_actions filter = gets (λ s. select (action_passes filter) (all_versions s.actions))

unfoldable pub get_action : String → String → ℕ → Exec Store ActionRegistration
get_action service name version s =
    from_option (not_found "action_registration")
      (lookup version (versions (lookup (action_key service name) s.actions))) s

abbrev claim : ℕ → ℕ → ℕ → Option SagaTrigger → Exec Store Bool
claim id expected next none s = (ok false, s)
claim id expected next (some t) s =
    if is_just t.next_fire_at expected
    then (
      ok true,
      record s {
        triggers =
            insert id (record t { next_fire_at = some next; last_fired_at = some next }) s.triggers;
      },
    )
    else (ok false, s)

-- A compare-and-swap on the next fire time.
unfoldable pub claim_cron_fire : ℕ → ℕ → ℕ → Exec Store Bool
claim_cron_fire id expected next s = claim id expected next (lookup id s.triggers) s
