-- ===== src/Verbs/Licensing.antt =====
-- The license groups: engine/verbs/license_groups.go.
use go_saga_orchestration.Prelude.{
  String, [], ◌∷◌, Option, none, some, Map, lookup, ◌&&◌, ◌||◌, ◌==◌, string_eq, if◌then◌else◌,
}
use go_saga_orchestration.Domain.{Step, step_type_http_request, as_string, get}

-- "common" has no feature: it is always allowed.
abbrev group_to_feature : Map String String
group_to_feature =
    ("common", "")
    ∷ ("observability", "wf.observability")
    ∷ ("external_io_advanced", "wf.external_io")
    ∷ ("waits", "wf.timers")
    ∷ ("events_and_signals", "wf.event_driven")
    ∷ ("human_interaction", "wf.user_tasks")
    ∷ ("parallel_control", "wf.parallel")
    ∷ ("loops_and_recovery", "wf.loops_recovery")
    ∷ ("compositions", "wf.compositions")
    ∷ []

abbrev or_no_feature : Option String → String
or_no_feature none = ""
or_no_feature (some f) = f

-- An unknown group reads as the empty feature too.
unfoldable pub feature_of : String → String
feature_of group = or_no_feature (lookup group group_to_feature)

unfoldable pub license_group_for_step : Step → String → String
license_group_for_step step reg_group =
    if step.type == step_type_http_request
    then (let method = as_string (get "method" step.inputs) in
        let secret = as_string (get "secret_ref" step.inputs) in
        if ((method == "") || (method == "GET")) && (secret == "")
        then "common"
        else "external_io_advanced")
    else reg_group
