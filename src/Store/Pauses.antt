-- ===== src/Store/Pauses.antt =====
-- Pausing and waking a run: store/memory/store.go, SetPausedWithWakeup to AppendSignal.
pub mod Signals
use go_saga_orchestration.Prelude.{
  ℕ, Bool, true, false, ◌&&◌, String, Option, none, some, List, [], ◌∷◌, ◌++◌, Map, lookup, insert,
  Exec, ok, gets, ◌==◌, string_eq, nat_eq, is_none, is_just, leb, length, select, values,
  if◌then◌else◌,
}
use go_saga_orchestration.Domain.{SagaRun, paused, running, is_paused_state, SagaSignal}
use go_saga_orchestration.Store.{Store, rows, on_run, put_run}

unfoldable pub set_paused_with_wakeup : ℕ → ℕ → Exec Store Unit
set_paused_with_wakeup run_id wakeup_at =
    on_run run_id λ r. put_run run_id (record r { state = paused; wakeup_at = some wakeup_at })

-- A nil deadline leaves the wakeup as it is.
abbrev or_else : Option ℕ → Option ℕ → Option ℕ
or_else none old = old
or_else (some d) old = some d

unfoldable pub set_paused_awaiting_signal : ℕ → String → Option ℕ → Exec Store Unit
set_paused_awaiting_signal run_id signal_name deadline = on_run run_id λ r.
    put_run run_id (record r {
      state = paused;
      awaited_signal = some signal_name;
      wakeup_at = or_else deadline r.wakeup_at;
    })

unfoldable pub set_paused_awaiting_event_with_deadline :
    ℕ → String → Map String String → Option ℕ → Exec Store Unit
set_paused_awaiting_event_with_deadline run_id topic headers deadline = on_run run_id λ r.
    put_run run_id (record r {
      state = paused;
      awaited_event_topic = some topic;
      awaited_event_headers = headers;
      wakeup_at = deadline;
    })

unfoldable pub set_paused_awaiting_event : ℕ → String → Map String String → Exec Store Unit
unfolding set_paused_awaiting_event_with_deadline
set_paused_awaiting_event run_id topic headers =
    set_paused_awaiting_event_with_deadline run_id topic headers none

unfoldable pub cleared_run : SagaRun → SagaRun
cleared_run r = record r {
  state = running;
  wakeup_at = none;
  awaited_signal = none;
  awaited_event_topic = none;
  awaited_event_headers = [];
}

unfoldable pub clear_pause : ℕ → Exec Store Unit
unfolding cleared_run
clear_pause run_id = on_run run_id λ r. put_run run_id (cleared_run r)

-- `t != nil && !t.After(now)`
abbrev pub is_due : ℕ → Option ℕ → Bool
is_due now none = false
is_due now (some t) = leb t now

abbrev pub has_due_wakeup : ℕ → SagaRun → Bool
has_due_wakeup now r = is_paused_state r.state && is_due now r.wakeup_at

-- The loop over the runs, which stops as soon as the result holds `limit` ids.
unfoldable pub find_due : ℕ → ℕ → List ℕ → Map ℕ SagaRun → List ℕ
find_due now limit out [] = out
find_due now limit out ((id, r) ∷ rest) = elim (has_due_wakeup now r) [
  | false ↦ find_due now limit out rest
  | true ↦ elim (leb limit (length (out ++ id ∷ []))) [
    | true ↦ out ++ id ∷ []
    | false ↦ find_due now limit (out ++ id ∷ []) rest
  ]
]

unfoldable pub find_runs_by_due_wakeup : ℕ → ℕ → Exec Store (List ℕ)
unfolding find_due
find_runs_by_due_wakeup now limit = gets (λ s. find_due now limit [] s.runs)

unfoldable pub find_runs_by_awaited_event : String → Exec Store (List SagaRun)
find_runs_by_awaited_event topic = gets λ s.
    select (λ r. is_paused_state r.state && is_just r.awaited_event_topic topic) (values s.runs)

-- Consumes the unconsumed signals of the name.
unfoldable pub consume_signals : ℕ → String → List SagaSignal → List SagaSignal
consume_signals now name [] = []
consume_signals now name (g ∷ rest) =
    (if (g.signal_name == name) && is_none g.consumed_at
      then record g { consumed_at = some now }
      else g)
    ∷ consume_signals now name rest

abbrev consume_all :
    ℕ → ℕ → String → Option (List SagaSignal) → Map ℕ (List SagaSignal) → Map ℕ (List SagaSignal)
consume_all now run_id name none m = m
consume_all now run_id name (some l) m = insert run_id (consume_signals now name l) m

-- The run with its await markers and its wakeup cleared, which stays paused.
unfoldable pub woken_run : SagaRun → SagaRun
woken_run r = record r {
  awaited_signal = none;
  awaited_event_topic = none;
  awaited_event_headers = [];
  wakeup_at = none;
}

abbrev consume_on : ℕ → ℕ → String → Option SagaRun → Exec Store Bool
consume_on now run_id name none s = (ok false, s)
consume_on now run_id name (some r) s =
    if is_paused_state r.state && is_just r.awaited_signal name
    then (
      ok true,
      record s {
        signals = consume_all now run_id name (lookup run_id s.signals) s.signals;
        runs = insert run_id (woken_run r) s.runs;
      },
    )
    else (ok false, s)

-- A missing run is no error here: nothing was consumed.
unfoldable pub try_consume_awaited_signal : ℕ → ℕ → String → Exec Store Bool
unfolding woken_run consume_signals
try_consume_awaited_signal now run_id name s = consume_on now run_id name (lookup run_id s.runs) s

unfoldable pub wake_from_external : ℕ → Exec Store Unit
unfolding woken_run
wake_from_external run_id = on_run run_id λ r. put_run run_id (woken_run r)

unfoldable pub append_signal : SagaSignal → Exec Store Unit
append_signal sig s = (
  ok tt,
  record s {
    signals = insert sig.run_id (rows (lookup sig.run_id s.signals) ++ sig ∷ []) s.signals;
  },
)
