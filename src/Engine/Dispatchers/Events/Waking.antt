-- ===== src/Engine/Dispatchers/Events/Waking.antt =====
-- Which runs a delivered event wakes: engine/event_subscriber.go.

use go_saga_orchestration.Prelude.{
  ℕ, ◌≡◌, refl, sym, ◌∙◌, inl, inr, true, false, ◌&&◌, String, none, some, [], ◌∷◌, ◌++◌, map, Map,
  lookup, nat_eq, ◌==◌, arith, select, values, ok, Bool-cases, if◌then◌else◌, string_eq,
}
use go_saga_orchestration.Domain.{SagaRun}
use go_saga_orchestration.Store.{run_of}
use go_saga_orchestration.Store.Pauses.{find_runs_by_awaited_event, woken_run}
use go_saga_orchestration.Runtime.{Env, World, on_store}
use go_saga_orchestration.Engine.Dispatchers.Events.{EventDelivery, headers_subset, deliver_event}
use go_saga_orchestration.Engine.Dispatchers.Events.Loop.{
  Keyed, any, advance_of, awaits, AllSent, hits, loop, All-stored,
}

module _ (headers : Map String String) where
  hit-none :
      (topic : String) (id : ℕ) (m : Map ℕ SagaRun)
      → Keyed m
      → lookup id m ≡ none
      → any (hits headers id) (select (awaits topic) (values m)) ≡ false
  unfolding lookup
  hit-none topic id [] k missing = refl
  hit-none topic id ((j, r) ∷ m) k missing = ground (arith, k.0, missing, hit-none topic id m k.2)

  hit-head :
      (topic : String) (id j : ℕ) (r x : SagaRun) (m : Map ℕ SagaRun)
      → (j == id) ≡ true
      → Keyed ((j, x) ∷ m)
      → some x ≡ some r
      → any (hits headers id) (select (awaits topic) (values ((j, x) ∷ m)))
        ≡ (awaits topic r && headers_subset r.awaited_event_headers headers)
  hit-head topic id j r x m here k same =
      let at : j ≡ id = (nat_eq.beq_iff j id).0 here in
      let none_left : lookup id m ≡ none = rw (sym at) k.1 in
      let same_run : r ≡ x = cc in
      rw same_run (ground (arith, here, k.0, hit-none topic id m k.2 none_left))

  hit-found :
      (topic : String) (id : ℕ) (r : SagaRun) (m : Map ℕ SagaRun)
      → Keyed m
      → lookup id m ≡ some r
      → any (hits headers id) (select (awaits topic) (values m))
        ≡ (awaits topic r && headers_subset r.awaited_event_headers headers)
  unfolding lookup
  hit-found topic id r [] k found = absurd cc
  hit-found topic id r ((j, x) ∷ m) k found = elim (Bool-cases (j == id)) [
    | inl here ↦ hit-head topic id j r x m here k (ground (arith, found, here))
    | inr there ↦
        ground (arith, there, k.0, hit-found topic id r m k.2 (ground (arith, found, there)))
  ]

-- A delivered event wakes exactly the runs that are paused on its topic and whose headers are among
-- those of the event: it clears their markers, and leaves every other run as it is. It sends one advance
-- message for each of them, and returns nil. Each run of the store stands under its own id, and every
-- message is taken.
pub deliver_event-wakes :
    (env : Env) (d : EventDelivery) (w : World) (id : ℕ) {r : SagaRun}
    → env.has_publisher ≡ true
    → AllSent env
    → Keyed w.store.runs
    → run_of w.store id ≡ some r
    → ((deliver_event env d w).0 ≡ ok tt)
      × (run_of (deliver_event env d w).1.store id
          ≡ some (
              if awaits d.topic r && headers_subset r.awaited_event_headers d.headers
              then woken_run r
              else r))
      × ((deliver_event env d w).1.outbox
          ≡ w.outbox
            ++ map advance_of (
                select
                  (λ y. headers_subset y.awaited_event_headers d.headers)
                  (select (awaits d.topic) (values w.store.runs))))
unfolding deliver_event on_store find_runs_by_awaited_event
deliver_event-wakes env d w id {r} publishes sent keyed found =
    let out =
      loop env publishes sent d.headers (select (awaits d.topic) (values w.store.runs)) w
        (All-stored (awaits d.topic) w.store.runs w.store.runs (λ k e. e) keyed) in
    (
      out.done,
      out.left id ∙ rw (found, hit-found d.headers d.topic id r w.store.runs keyed found) refl,
      out.outbox,
    )
