-- ===== src/Examples/Dispatchers.antt =====
-- The timer, the event subscriber and the cron dispatcher at work on an order.
use go_saga_orchestration.Prelude.{
  ◌+◌, ◌≡◌, refl, some, [], ◌∷◌, lookup, nat_eq, string_eq, arith, ok,
}
use go_saga_orchestration.Domain.{SagaRun, paused}
use go_saga_orchestration.Store.{run_of}
use go_saga_orchestration.Store.Pauses.{woken_run}
use go_saga_orchestration.Runtime.{World, saga_advance}
use go_saga_orchestration.Engine.Dispatchers.Timer.{timer_tick}
use go_saga_orchestration.Engine.Dispatchers.Timer.Due.{timer_tick-due}
use go_saga_orchestration.Engine.Dispatchers.Events.{EventDelivery, deliver_event, headers_subset}
use go_saga_orchestration.Engine.Dispatchers.Events.Waking.{deliver_event-wakes}
use go_saga_orchestration.Engine.Dispatchers.Cron.{CronDispatcher, fire_trigger, next_fire}
use go_saga_orchestration.Engine.Dispatchers.Cron.Once.{fire_trigger-once}
use go_saga_orchestration.Examples.{services, run_at, waiting, nightly, world_with}

timer_tick-due_example :
    ((timer_tick services 0 (world_with waiting)).0 ≡ ok tt)
    × ((timer_tick services 0 (world_with waiting)).1.store ≡ (world_with waiting).store)
    × ((timer_tick services 0 (world_with waiting)).1.outbox ≡ saga_advance 1 ∷ [])
timer_tick-due_example = timer_tick-due services 0 (world_with waiting)

-- Waits for a payment event of its own order.
abbrev awaiting : SagaRun
awaiting = record (run_at 1 paused "approve") {
  awaited_event_topic = some "payments.settled";
  awaited_event_headers = ("order", "o-1") ∷ [];
}

abbrev settled : EventDelivery
settled = record {
  topic = "payments.settled";
  headers = ("order", "o-1") ∷ ("region", "eu") ∷ [];
  body = "";
}

deliver_event-wakes_example :
    ((deliver_event services settled (world_with awaiting)).0 ≡ ok tt)
    × (run_of (deliver_event services settled (world_with awaiting)).1.store 1
        ≡ some (woken_run awaiting))
    × ((deliver_event services settled (world_with awaiting)).1.outbox ≡ saga_advance 1 ∷ [])
unfolding lookup headers_subset
deliver_event-wakes_example =
    deliver_event-wakes services settled (world_with awaiting) 1 {r = awaiting} refl (λ n m. refl)
      (refl, refl, (refl, refl, tt)) refl

-- Fires every minute.
abbrev minutely : CronDispatcher
minutely = record { providers = []; parse_schedule = λ text. ok (λ t. t + 60) }

fired : World
fired = (fire_trigger services minutely 20 nightly (world_with waiting)).1

fire_trigger-once_example :
    ((fire_trigger services minutely 21 nightly fired).0 ≡ ok tt)
    × ((fire_trigger services minutely 21 nightly fired).1.store ≡ fired.store)
unfolding next_fire fired
fire_trigger-once_example =
    fire_trigger-once services services minutely minutely 20 21 10 80 nightly (world_with waiting)
      fired refl refl (λ e. omega (arith, e)) refl
