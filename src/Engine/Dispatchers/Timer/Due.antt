-- ===== src/Engine/Dispatchers/Timer/Due.antt =====
-- Which runs a tick of the timer advances: engine/timer.go.
use mathlib.Core.List.{append-nil, append_assoc}
use go_saga_orchestration.Prelude.{
  ℕ, suc, ◌-◌, ◌≡◌, ◌<◌, refl, sym, ap, ◌∙◌, inl, inr, List, [], ◌∷◌, ◌++◌, map, Map, nat_eq, arith,
  length, length-append, leb, take, take-nil, ok, select, Bool-cases,
}
use go_saga_orchestration.Domain.{SagaRun}
use go_saga_orchestration.Store.Pauses.{find_due, find_runs_by_due_wakeup, has_due_wakeup}
use go_saga_orchestration.Runtime.{Env, World, saga_advance, on_store, now, tick, send}
use go_saga_orchestration.Engine.Dispatchers.Timer.{publish_each, timer_tick, batch_of}

-- The ids of the runs that are paused and due.
abbrev pub due_ids : ℕ → Map ℕ SagaRun → List ℕ
due_ids t m = map (λ e. e.0) (select (λ e. has_due_wakeup t e.1) m)

one_left : (limit n : ℕ) → suc n ≡ limit → 1 ≡ limit - n
one_left limit n e = omega (arith, e)

minus_zero : (n : ℕ) → n - 0 ≡ n
minus_zero n = omega arith

take-one : (x n k : ℕ) (l : List ℕ) → n ≡ suc k → take n (x ∷ l) ≡ x ∷ take k l
take-one x n k l e = ap (λ j. take j (x ∷ l)) e

batch-positive : (n : ℕ) → 0 < batch_of n
batch-positive n = ground arith

find_due-take :
    (t limit : ℕ) (out : List ℕ) (m : Map ℕ SagaRun)
    → length out < limit
    → find_due t limit out m ≡ out ++ take (limit - length out) (due_ids t m)
unfolding find_due
find_due-take t limit out [] h = rw take-nil (sym (append-nil out))
find_due-take t limit out ((id, r) ∷ m) h = elim (Bool-cases (has_due_wakeup t r)) [
  | inr early ↦ rw (find_due, early) (find_due-take t limit out m h)
  | inl due ↦ elim (Bool-cases (leb limit (length (out ++ id ∷ [])))) [
    | inl full ↦
        rw (find_due, due, full)
          (ap (λ n. out ++ take n (id ∷ due_ids t m))
            (one_left limit (length out) (ground (arith, full, h, length-append out (id ∷ [])))))
    | inr room ↦
        rw (find_due, due, room)
          (find_due-take t limit (out ++ id ∷ []) m
              (ground (arith, room, length-append out (id ∷ [])))
            ∙ append_assoc out (id ∷ []) _
            ∙ ap (λ l. out ++ l)
                (sym (
                  take-one id (limit - length out) (limit - length (out ++ id ∷ [])) (due_ids t m)
                    (omega (arith, h, length-append out (id ∷ []))))))
  ]
]

all_due :
    (t n : ℕ) (m : Map ℕ SagaRun) → find_due t (batch_of n) [] m ≡ take (batch_of n) (due_ids t m)
all_due t n m =
    find_due-take t (batch_of n) [] m (batch-positive n)
    ∙ ap (λ k. take k (due_ids t m)) (minus_zero (batch_of n))

sent_each :
    (env : Env) (ids : List ℕ) (w : World)
    → ((publish_each env ids w).0 ≡ ok tt)
      × ((publish_each env ids w).1.store ≡ w.store)
      × ((publish_each env ids w).1.outbox ≡ w.outbox ++ map saga_advance ids)
unfolding publish_each send
sent_each env [] w = (refl, refl, sym (append-nil w.outbox))
sent_each env (id ∷ ids) w =
    let (done, same, out) = sent_each env ids (send env (saga_advance id) w).1 in
    (done, same, out ∙ append_assoc w.outbox (saga_advance id ∷ []) (map saga_advance ids))

-- A tick of the timer sends an advance message for each run that is paused and due, in the order in
-- which the store lists them, up to the size of the batch; it writes nothing, and a message that is not
-- taken does not keep the others back.
pub timer_tick-due :
    (env : Env) (batch_size : ℕ) (w : World)
    → ((timer_tick env batch_size w).0 ≡ ok tt)
      × ((timer_tick env batch_size w).1.store ≡ w.store)
      × ((timer_tick env batch_size w).1.outbox
          ≡ w.outbox
            ++ map saga_advance
                (take (batch_of batch_size) (due_ids (env.time_at w.clock) w.store.runs)))
unfolding timer_tick now tick on_store find_runs_by_due_wakeup
timer_tick-due env batch_size w =
    let t = env.time_at w.clock in
    rw (all_due t batch_size w.store.runs) (
      sent_each env (take (batch_of batch_size) (due_ids t w.store.runs))
        (record w { clock = suc w.clock }))
