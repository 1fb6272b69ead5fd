-- ===== src/Engine/Dispatchers/Events.antt =====
-- One delivery of an event to the runs that await it: engine/event_subscriber.go, Deliver.
pub mod Loop
pub mod Waking
use go_saga_orchestration.Prelude.{
  ℕ, Bool, true, false, not, ◌&&◌, String, Option, none, some, List, [], ◌∷◌, Map, lookup,
  string_eq, is_just, Exec, pure, wrapping, ◌>>=◌, ◌>>◌, if◌then◌else◌,
}
use go_saga_orchestration.Domain.{SagaRun}
use go_saga_orchestration.Store.Pauses.{find_runs_by_awaited_event, wake_from_external}
use go_saga_orchestration.Runtime.{Env, World, on_store, send, saga_advance}

-- `EventDelivery`
pub record EventDelivery : Type 0 where
  pub topic : String
  pub headers : Map String String
  pub body : String

unfoldable pub headers_subset : Map String String → Map String String → Bool
headers_subset [] have = true
headers_subset ((k, v) ∷ want) have = is_just (lookup k have) v && headers_subset want have

abbrev pub publish_woken : Env → ℕ → Exec World Unit
publish_woken env run_id =
    if env.has_publisher
    then wrapping ("publish advance for %s: %w" ∷ []) (send env (saga_advance run_id))
    else pure tt

abbrev pub wake_run : Env → SagaRun → Exec World Unit
wake_run env run = do
  wrapping ("wake from external for %s: %w" ∷ []) (on_store (wake_from_external run.id))
  publish_woken env run.id

-- The first error ends the loop.
unfoldable pub wake_matching : Env → Map String String → List SagaRun → Exec World Unit
unfolding headers_subset on_store wake_from_external send
wake_matching env headers [] = pure tt
wake_matching env headers (run ∷ rest) = do
  if headers_subset run.awaited_event_headers headers then wake_run env run else pure tt
  wake_matching env headers rest

unfoldable pub deliver_event : Env → EventDelivery → Exec World Unit
unfolding on_store find_runs_by_awaited_event wake_matching
deliver_event env d = do
  runs ←
      wrapping ("find runs by awaited event: %w" ∷ [])
        (on_store (find_runs_by_awaited_event d.topic))
  wake_matching env d.headers runs
