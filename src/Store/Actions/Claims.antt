-- ===== src/Store/Actions/Claims.antt =====
-- One dispatcher fires a cron trigger; a completion counts for its own attempt.
use go_saga_orchestration.Prelude.{
  ℕ, ◌≡◌, ◌≢◌, refl, Bool, true, false, some, lookup, lookup-insert, nat_eq, nat_beq_self, ok,
  String, arith, is_just, ◌==◌,
}
use go_saga_orchestration.Domain.{SagaTrigger, SagaRun, Fields}
use go_saga_orchestration.Store.{Store, run_of}
use go_saga_orchestration.Store.Actions.{claim_cron_fire, complete_action, fail_action, fail_locked}

other : (a b : ℕ) → b ≢ a → (a == b) ≡ false
other a b ne = ground arith

-- Of two dispatchers that read the same due time of a trigger, the one that claims it first wins,
-- if it moves the time on, and the second one loses and changes nothing.
pub claim-once :
    (id expected next next' : ℕ) (s : Store) {t : SagaTrigger}
    → lookup id s.triggers ≡ some t
    → is_just t.next_fire_at expected ≡ true
    → expected ≢ next
    → ((claim_cron_fire id expected next s).0 ≡ ok true)
      × (claim_cron_fire id expected next' (claim_cron_fire id expected next s).1
          ≡ (ok false, (claim_cron_fire id expected next s).1))
unfolding claim_cron_fire
claim-once id expected next next' s {t} found due moved =
    rw (found, due) (refl, rw (lookup-insert, nat_beq_self) (rw (other next expected moved) refl))

-- A completion or a failure that is reported for another attempt than the run's current one changes
-- nothing, whatever its content.
pub stale-ignored :
    (event_id now id attempt : ℕ) (result : Fields) (code message : String) (retryable : Bool)
    (s : Store) {r : SagaRun}
    → run_of s id ≡ some r
    → attempt ≢ r.current_attempt
    → (complete_action now id attempt result s ≡ (ok tt, s))
      × (fail_action event_id now id attempt code message retryable s ≡ (ok tt, s))
unfolding complete_action fail_action fail_locked
stale-ignored event_id now id attempt result code message retryable s {r} found stale =
    rw (found, other r.current_attempt attempt stale) (refl, refl)
