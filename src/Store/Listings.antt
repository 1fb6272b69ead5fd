-- ===== src/Store/Listings.antt =====
-- The filtered listings of runs and of definitions, and the statistics: store/memory/store.go,
-- ListRuns to StatsForWorkflow, ListWorkflowDefinitions and GetEventByID.
pub mod Paging
use go_saga_orchestration.Prelude.{
  ℕ, ℤ, suc, ◌+◌, ◌*◌, ◌-◌, Bool, true, false, not, ◌&&◌, ◌||◌, String, Option, none, some, List,
  [], ◌∷◌, ◌++◌, Map, lookup, insert, nat_eq, string_eq, ◌==◌, Exec, gets, from_option, not_found,
  is_nonpositive, pos_part, contains, leb, ltb, length, take, drop, select, count, values,
  if◌then◌else◌,
}
use go_saga_orchestration.Domain.{
  SagaRun, RunState, state_text, is_failed, is_succeeded, is_terminal, SagaRunEvent, SagaTrigger,
  WorkflowDefinition,
}
use go_saga_orchestration.Store.{Store}
use go_saga_orchestration.Store.Sorting.{insertion_sort}

-- `RunFilter` of store/store.go; "" and none match every run.
pub record RunFilter : Type 0 where
  pub workflow_id : String
  pub state : String
  pub trigger_type : String
  pub since : Option ℕ
  pub has_error : Option Bool
  pub requires_review : Option Bool
  pub limit : ℤ
  pub offset : ℤ

abbrev bool_eq : Bool → Bool → Bool
bool_eq true b = b
bool_eq false b = not b

-- `p == nil || *p == b`
abbrev pub unless_set : Option Bool → Bool → Bool
unless_set none b = true
unless_set (some a) b = bool_eq a b

-- `s == "" || s == t`
abbrev pub unless_empty : String → String → Bool
unless_empty s t = (s == "") || (t == s)

abbrev since_matches : Option ℕ → ℕ → Bool
since_matches none started = true
since_matches (some since) started = leb since started

unfoldable pub build_trigger_type_map : Map ℕ SagaTrigger → Map ℕ String
build_trigger_type_map [] = []
build_trigger_type_map ((id, t) ∷ rest) = (id, t.trigger_type) ∷ build_trigger_type_map rest

abbrev type_matches : String → Option String → Bool
type_matches type none = false
type_matches type (some t) = t == type

abbrev trigger_matches : String → Map ℕ String → Option ℕ → Bool
trigger_matches type types none = type == ""
trigger_matches type types (some id) = (type == "") || type_matches type (lookup id types)

unfoldable pub run_matches : RunFilter → Map ℕ String → SagaRun → Bool
run_matches filter types r =
    unless_empty filter.workflow_id r.workflow_id
    && unless_empty filter.state (state_text r.state)
    && since_matches filter.since r.started_at
    && unless_set filter.has_error (is_failed r.state)
    && unless_set filter.requires_review r.requires_manual_review
    && trigger_matches filter.trigger_type types r.trigger_id

-- The order in which the range over the map visits the runs, which may be another one in each call.
abbrev pub Visit : Type 0
Visit = List SagaRun → List SagaRun

unfoldable pub filter_runs : Visit → RunFilter → Store → List SagaRun
unfolding run_matches build_trigger_type_map
filter_runs visit filter s =
    select (run_matches filter (build_trigger_type_map s.triggers)) (visit (values s.runs))

-- `matched[j].StartedAt.After(matched[j-1].StartedAt)`
abbrev pub newer : SagaRun → SagaRun → Bool
newer a b = ltb b.started_at a.started_at

abbrev pub limit_of : ℤ → ℕ
limit_of limit = if is_nonpositive limit then 50 else pos_part limit

-- `matched[offset:end]`, and the empty list from an offset on that is too large.
unfoldable pub page : {A : Type 0} → ℕ → ℕ → List A → List A
page limit offset matched =
    if leb (length matched) offset
    then []
    else take
        ((if ltb (length matched) (offset + limit) then length matched else offset + limit)
          - offset)
        (drop offset matched)

unfoldable pub list_runs : Visit → RunFilter → Exec Store (List SagaRun)
unfolding filter_runs page
list_runs visit filter = gets (λ s.
    page (limit_of filter.limit) (pos_part filter.offset)
      (insertion_sort newer (filter_runs visit filter s)))

unfoldable pub count_runs : Visit → RunFilter → Exec Store ℕ
unfolding filter_runs
count_runs visit filter = gets (λ s. length (filter_runs visit filter s))

-- `WorkflowStats`, with the success rate as the pair of its numerator and denominator.
pub record WorkflowStats : Type 0 where
  pub workflow_id : String
  pub success_rate_24h : Option (ℕ × ℕ)
  pub last_run_at : Option ℕ
  pub in_flight : ℕ

-- 24 hours, in nanoseconds.
abbrev pub day : ℕ
day = 24 * 3600 * 1000000000

abbrev later : Option ℕ → ℕ → Option ℕ
later none t = some t
later (some last) t = if ltb last t then some t else some last

unfoldable pub last_run : Option ℕ → List SagaRun → Option ℕ
last_run last [] = last
last_run last (r ∷ rest) = last_run (later last r.started_at) rest

-- `!r.StartedAt.Before(now.Add(-24 * time.Hour))`
abbrev pub is_recent : ℕ → SagaRun → Bool
is_recent now r = leb now (r.started_at + day)

abbrev rate_of : ℕ → ℕ → Option (ℕ × ℕ)
rate_of succeeded failed =
    if succeeded + failed == 0 then none else some (succeeded, succeeded + failed)

-- The loop over the runs; each counter is a count of its own over the runs of the workflow.
unfoldable pub stats_for_workflow : ℕ → String → Exec Store WorkflowStats
unfolding last_run
stats_for_workflow now workflow_id = gets λ s.
    let runs = select (λ r. r.workflow_id == workflow_id) (values s.runs) in
    record {
      workflow_id = workflow_id;
      success_rate_24h =
          rate_of (count (λ r. is_recent now r && is_succeeded r.state) runs)
            (count (λ r. is_recent now r && is_failed r.state) runs);
      last_run_at = last_run none runs;
      in_flight = count (λ r. not (is_terminal r.state)) runs;
    }

unfoldable pub find_event : ℕ → List SagaRunEvent → Option SagaRunEvent
find_event id [] = none
find_event id (e ∷ rest) = if e.id == id then some e else find_event id rest

unfoldable pub all_events : Map ℕ (List SagaRunEvent) → List SagaRunEvent
all_events [] = []
all_events ((run_id, events) ∷ rest) = events ++ all_events rest

unfoldable pub get_event_by_id : ℕ → Exec Store SagaRunEvent
unfolding find_event all_events
get_event_by_id id s =
    from_option (not_found "saga_run_event") (find_event id (all_events s.events)) s

-- `DefinitionFilter` of store/store.go.
pub record DefinitionFilter : Type 0 where
  pub published : Option Bool
  pub search : String
  pub limit : ℤ
  pub offset : ℤ

-- The text is searched in id and name; `lower` is `strings.ToLower`.
unfoldable pub definition_passes : (String → String) → DefinitionFilter → WorkflowDefinition → Bool
unfolding contains
definition_passes lower filter d =
    let search = lower filter.search in
    unless_set filter.published d.published
    && ((search == "") || contains (lower d.id) search || contains (lower d.name) search)

-- By time of creation, then by version, the greater one first.
abbrev newer_version : WorkflowDefinition → WorkflowDefinition → Bool
newer_version a b =
    if not (a.created_at == b.created_at)
    then ltb b.created_at a.created_at
    else ltb b.version a.version

abbrev capped_limit : ℤ → ℕ
capped_limit limit = if ltb 500 (limit_of limit) then 500 else limit_of limit

-- `sort.SliceStable`
unfoldable pub list_workflow_definitions :
    (String → String) → DefinitionFilter → Exec Store (List WorkflowDefinition)
unfolding definition_passes page
list_workflow_definitions lower filter = gets (λ s.
    page (capped_limit filter.limit) (pos_part filter.offset)
      (insertion_sort newer_version (select (definition_passes lower filter) (values s.defs))))
