-- ===== src/Engine/Compensation/Completed.antt =====
-- Which steps a rollback takes from the audit trail.
use go_saga_orchestration.Prelude.{
  ◌≡◌, ap, ◌∙◌, false, ◌||◌, String, Option, none, some, List, [], ◌∷◌, All, member, string_eq,
  ◌==◌, arith, Bool-cases, Option-cases, inl, inr,
}
use go_saga_orchestration.Domain.{
  Step, WorkflowDefinition, step_by_id, find_step, step_type_end, SagaRunEvent, is_step_succeeded,
}
use go_saga_orchestration.Engine.Compensation.{completed_steps, graph_step}

-- A step of the definition that may be compensated: it is no end step, it is not the one left out,
-- and its id is not among those seen.
pub record IsCompleted (d : WorkflowDefinition) (exclude : String) (seen : List String) (s : Step)
    : Type 0 where
  pub defined : step_by_id d s.id ≡ some s
  pub not_end : (s.type == step_type_end) ≡ false
  pub not_excluded : (s.id == exclude) ≡ false
  pub not_seen : member s.id seen ≡ false

-- No two steps of the list have the same id.
abbrev pub Distinct : List Step → Type 0
Distinct [] = Unit
Distinct (s ∷ l) = All (λ t. (t.id == s.id) ≡ false) l × Distinct l

find_step-id : (id : String) (l : List Step) {s : Step} → find_step id l ≡ some s → s.id ≡ id
unfolding find_step
find_step-id id [] h = cc
find_step-id id (x ∷ l) {s} h = elim (Bool-cases (x.id == id)) [
  | inl here ↦ ground (arith, string_eq.beq_iff x.id id, here, h)
  | inr there ↦ find_step-id id l (rw there at h)
]

weaken :
    (d : WorkflowDefinition) (exclude id : String) (seen : List String) (l : List Step)
    → All (IsCompleted d exclude (id ∷ seen)) l
    → All (IsCompleted d exclude seen) l × All (λ t. (t.id == id) ≡ false) l
weaken d exclude id seen [] a = (tt, tt)
weaken d exclude id seen (s ∷ l) (c, a) =
    let (a', b') = weaken d exclude id seen l a in
    (
      (
        record {
          defined = c.defined;
          not_end = c.not_end;
          not_excluded = c.not_excluded;
          not_seen = ground (arith, c.not_seen);
        },
        a',
      ),
      (ground (arith, c.not_seen), b'),
    )

graph_step-some :
    (o : Option Step) {s : Step}
    → graph_step o ≡ some s
    → (o ≡ some s) × ((s.type == step_type_end) ≡ false)
graph_step-some none h = cc
graph_step-some (some x) h = elim (Bool-cases (x.type == step_type_end)) [
  | inl ends ↦ cc (rw ends at h)
  | inr goes ↦ ground (arith, goes, rw goes at h)
]

taken :
    (d : WorkflowDefinition) (exclude id : String) (seen : List String) {s : Step}
    → ((id == "") || (id == exclude) || member id seen) ≡ false
    → graph_step (step_by_id d id) ≡ some s
    → IsCompleted d exclude seen s × (s.id ≡ id)
taken d exclude id seen {s} new at =
    let (found, goes) = graph_step-some (step_by_id d id) at in
    let same = find_step-id id d.steps found in
    (
      record {
        defined = ap (step_by_id d) same ∙ found;
        not_end = goes;
        not_excluded = rw same (ground (arith, new));
        not_seen = rw same (ground (arith, new));
      },
      same,
    )

completed_steps-seen :
    (d : WorkflowDefinition) (exclude : String) (seen : List String) (events : List SagaRunEvent)
    → All (IsCompleted d exclude seen) (completed_steps d exclude seen events)
      × Distinct (completed_steps d exclude seen events)
unfolding completed_steps
completed_steps-seen d exclude seen [] = (tt, tt)
completed_steps-seen d exclude seen (ev ∷ rest) =
    elim (Bool-cases (is_step_succeeded ev.event_type)) [
      | inr other ↦ rw (completed_steps, other) (completed_steps-seen d exclude seen rest)
      | inl success ↦
          elim (Bool-cases
            ((ev.step_id == "") || (ev.step_id == exclude) || member ev.step_id seen)) [
              | inl old ↦
                  rw (completed_steps, success, old) (completed_steps-seen d exclude seen rest)
              | inr new ↦ elim (Option-cases (graph_step (step_by_id d ev.step_id))) [
                | inl absent ↦
                    rw (completed_steps, success, new, absent)
                      (completed_steps-seen d exclude seen rest)
                | inr (s, at) ↦
                    let (c, same) = taken d exclude ev.step_id seen new at in
                    let (all, distinct) = completed_steps-seen d exclude (ev.step_id ∷ seen) rest in
                    let (all', apart) = weaken d exclude ev.step_id seen _ all in
                    rw (completed_steps, success, new, at) ((c, all'), (rw same apart, distinct))
              ]
            ]
    ]

-- What a rollback takes from any audit trail are steps of the definition, each at most once, without
-- end steps and without the step that failed.
pub completed_steps-IsCompleted :
    (d : WorkflowDefinition) (exclude : String) (events : List SagaRunEvent)
    → All (IsCompleted d exclude []) (completed_steps d exclude [] events)
      × Distinct (completed_steps d exclude [] events)
completed_steps-IsCompleted d exclude events = completed_steps-seen d exclude [] events
