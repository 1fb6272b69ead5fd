-- ===== src/Store/Pauses/Signals.antt =====
-- A signal wakes the run that waits for it, once.
use go_saga_orchestration.Prelude.{
  ℕ, ◌≡◌, ◌≢◌, refl, true, false, ◌&&◌, String, some, List, [], ◌∷◌, lookup, lookup-insert, nat_eq,
  nat_beq_self, string_eq, ok, arith, Option-cases, Bool-cases, inl, inr, is_just, is_none, All,
  ◌==◌, Map,
}
use go_saga_orchestration.Domain.{SagaRun, SagaSignal, is_paused_state}
use go_saga_orchestration.Store.{Store, run_of, rows}
use go_saga_orchestration.Store.Pauses.{
  try_consume_awaited_signal, woken_run, consume_signals, consume_all,
}

-- A signal of the name is not left open.
abbrev pub IsSpent : String → SagaSignal → Type 0
IsSpent name g = ((g.signal_name == name) && is_none g.consumed_at) ≡ false

-- What consuming a signal leaves: the run is still paused but waits for nothing, no signal of the
-- name is open for it, and no other run has changed.
pub record IsWoken (id : ℕ) (name : String) (r : SagaRun) (s s' : Store) : Type 0 where
  pub stored : run_of s' id ≡ some (woken_run r)
  pub spent : All (IsSpent name) (rows (lookup id s'.signals))
  pub others : (k : ℕ) → k ≢ id → run_of s' k ≡ run_of s k

consume_signals-IsSpent :
    (now : ℕ) (name : String) (l : List SagaSignal)
    → All (IsSpent name) (consume_signals now name l)
unfolding consume_signals
consume_signals-IsSpent now name [] = tt
consume_signals-IsSpent now name (g ∷ l) = (
  elim (Bool-cases ((g.signal_name == name) && is_none g.consumed_at)) [
    | inl pending ↦ rw pending (ground arith)
    | inr done ↦ rw (done, done) refl
  ],
  consume_signals-IsSpent now name l,
)

consume_all-IsSpent :
    (now id : ℕ) (name : String) (m : Map ℕ (List SagaSignal))
    → All (IsSpent name) (rows (lookup id (consume_all now id name (lookup id m) m)))
consume_all-IsSpent now id name m = elim (Option-cases (lookup id m)) [
  | inl nothing ↦ rw (nothing, nothing) tt
  | inr (l, found) ↦ rw (found, lookup-insert, nat_beq_self) (consume_signals-IsSpent now name l)
]

-- A paused run that waits for the signal is woken by it, exactly once: the first call consumes the
-- open signals of the name, and any second call finds nothing to wake and changes nothing.
pub try_consume-once :
    (now now' id : ℕ) (name : String) (s : Store) {r : SagaRun}
    → run_of s id ≡ some r
    → is_paused_state r.state ≡ true
    → is_just r.awaited_signal name ≡ true
    → ((try_consume_awaited_signal now id name s).0 ≡ ok true)
      × IsWoken id name r s (try_consume_awaited_signal now id name s).1
      × (try_consume_awaited_signal now' id name (try_consume_awaited_signal now id name s).1
          ≡ (ok false, (try_consume_awaited_signal now id name s).1))
unfolding try_consume_awaited_signal woken_run
try_consume-once now now' id name s {r} found pausing waits =
    rw (found, pausing, waits)
      (
        refl,
        record {
          stored = rw (lookup-insert, nat_beq_self) refl;
          spent = consume_all-IsSpent now id name s.signals;
          others = λ k ne. rw lookup-insert (ground (arith, nat_eq.beq_iff id k));
        },
        rw (lookup-insert, nat_beq_self, pausing) refl,
      )
