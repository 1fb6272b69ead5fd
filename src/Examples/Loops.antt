-- ===== src/Examples/Loops.antt =====
-- Advance returns on a workflow of two steps, whose first one dispatches an action.
use go_saga_orchestration.Engine.Registry.{default_action_verb, default_verbs}
use mathlib.Core.Path.{subst}
use go_saga_orchestration.Prelude.{
  ℕ, ◌≡◌, ◌<◌, refl, inl, inr, false, String, some, [], ◌∷◌, lookup, string_eq, nat_eq, arith,
  Result, Bool-cases, ◌==◌, if◌then◌else◌, sym, ◌⊎◌, ◌≢◌,
}
use go_saga_orchestration.Domain.{Step, Branch, find_step, step_by_id, WorkflowDefinition, running}
use go_saga_orchestration.Runtime.{World, RegistryEntry, action_handler}
use go_saga_orchestration.Engine.Advance.{advance, returned}
use go_saga_orchestration.Engine.Place.Calls.{IsTame, action-IsTame}
use go_saga_orchestration.Engine.Descent.{IsAcyclic}
use go_saga_orchestration.Engine.Descent.Terminating.{advance-returns}
use go_saga_orchestration.Examples.{
  order, charge, done, services, coordinator, run_at, world_with, wiring,
}

abbrev pay : Step
pay = record charge { branches = [] }

abbrev stop : Step
stop = record done { branches = [] }

abbrev short_order : WorkflowDefinition
short_order = record order { start = "charge"; steps = pay ∷ stop ∷ [] }

abbrev steps_left : String → ℕ
steps_left id = if id == "charge" then 1 else 0

short_steps :
    (id : String) (step : Step)
    → step_by_id short_order id ≡ some step
    → ((id ≡ "charge") × (step ≡ pay)) ⊎ (step ≡ stop)
unfolding find_step
short_steps id step = elim (Bool-cases ("charge" == id)) [
  | inl first ↦ rw first (λ e. inl (sym ((string_eq.beq_iff "charge" id).0 first), cc))
  | inr other ↦ rw other (elim (Bool-cases ("done" == id)) [
    | inl second ↦ rw second (λ e. inr cc)
    | inr none_left ↦ rw none_left (λ e. absurd cc)
  ])
]

short_falls :
    (id : String) (step : Step)
    → ((id ≡ "charge") × (step ≡ pay)) ⊎ (step ≡ stop)
    → (step.next == "") ≡ false
    → steps_left step.next < steps_left id
short_falls id step (inl (first, is_pay)) = rw (first, is_pay) (λ named. omega arith)
short_falls id step (inr is_stop) = rw is_stop (λ named. absurd cc)

no_branches :
    (id : String) (step : Step)
    → ((id ≡ "charge") × (step ≡ pay)) ⊎ (step ≡ stop)
    → (key : String) (br : Branch) → lookup key step.branches ≢ some br
unfolding lookup
no_branches id step (inl (first, is_pay)) key br = rw is_pay (λ e. cc)
no_branches id step (inr is_stop) key br = rw is_stop (λ e. cc)

short_order-IsAcyclic : IsAcyclic short_order steps_left
short_order-IsAcyclic = record {
  falls = λ id step found. short_falls id step (short_steps id step found);
  branch_falls =
      λ id step key br found at. absurd (no_branches id step (short_steps id step found) key br at);
  starts = omega arith;
}

abbrev short_world : World
short_world =
    let w = world_with (run_at 1 running "charge") in
    record w { store = record w.store { defs = (7, short_order) ∷ [] } }

some_inj : (x y : RegistryEntry) → some x ≡ some y → x ≡ y
some_inj x y e = cc

coordinator-IsTame :
    (key : String) (step : Step) (entry : RegistryEntry)
    → step_by_id short_order key ≡ some step
    → lookup step.type coordinator.verbs ≡ some entry
    → IsTame 1 7 services entry.handler
unfolding lookup default_verbs
coordinator-IsTame key step entry found = elim (short_steps key step found) [
  | inl (first, is_pay) ↦ rw is_pay (λ e.
      subst (λ x. IsTame 1 7 services x.handler)
        (some_inj
          (record {
            handler = action_handler (default_action_verb wiring);
            license_group = "common";
          })
          entry e)
        (action-IsTame 1 7 services (default_action_verb wiring)))
  | inr is_stop ↦ rw is_stop (λ e. absurd cc)
]

advance-returns_example :
    (r : Result (Unit {0})) × ((advance coordinator 1 2 short_world).0 ≡ returned r)
unfolding lookup
advance-returns_example =
    advance-returns 1 7 short_order steps_left short_order-IsAcyclic coordinator coordinator-IsTame
      2 "charge" short_world (record { placed = refl; defined = refl }) (omega arith)
