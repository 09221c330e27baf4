-- ===== src/Session/Dispatcher.antt =====
-- The dispatcher of snapshot assessments and the event logger that it writes to
-- (src/robolineage_session/dispatcher.py, EventLogger of src/robolineage_session/events.py).
-- `disk n` says whether the n-th line of the log can be written.
pub mod Effects
use robolineage.Prelude.{
  ℕ, ◌+◌, String, Bool, true, false, ◌||◌, not, ◌&&◌, Option, none, some, List, [], ◌∷◌, ◌++◌,
  if◌then◌else◌, str_eq, length,
}
use robolineage.Prelude.Exec.{Exec, pure, raise, gets, modify, attempt, ◌>>=◌, ◌>>◌}
use robolineage.Prelude.Result.{Result, ok, err}
use robolineage.Session.State.{
  collecting, paused, same_state, IllegalStateTransition, SessionState, StateMachine, transition,
}
use robolineage.Session.Events.{
  EventName, feedback, assessment_updated, risk_alert, vlm_failure, vsa, RiskLevel, high,
  SnapshotFields, Payload, assessment, risk, failure, EventEnvelope, Outside,
}

pub data Exn : Type 0 where
  logger_closed os_error : Exn
  illegal_transition : IllegalStateTransition → Exn

-- The logger, the broadcaster, and the session's state machine.
pub record Channel : Type 0 where
  pub logger_closed : Bool
  pub log : List EventEnvelope
  pub broadcasts : List EventEnvelope
  pub state_machine : StateMachine
  pub draws : ℕ

-- `vlm_error` is vlm_meta["error"], where there is one.
pub record Snapshot : Type 0 where
  pub fields : SnapshotFields
  pub imminent_failure : Bool
  pub vlm_error : Option String

abbrev pub is_high : RiskLevel → Bool
is_high high = true
is_high _ = false

-- Truth of an optional text.
abbrev pub is_text : Option String → Bool
is_text none = false
is_text (some t) = not (str_eq t "")

abbrev pub text : Option String → String
text none = ""
text (some t) = t

abbrev draw : (ℕ → String) → Exec Channel Exn String
draw source s = (ok (source s.draws), record s { draws = s.draws + 1 })

abbrev pub when : Bool → Exec Channel Exn Unit → Exec Channel Exn Unit
when test action = if test then action else pure tt

abbrev stored : Result IllegalStateTransition SessionState × StateMachine → Exec Channel Exn Unit
stored (ok _, m) s = (ok tt, record s { state_machine = m })
stored (err e, m) s = (err (illegal_transition e), s)

pub pause : Exec Channel Exn Unit
pause s = stored (transition paused s.state_machine) s

module _ (w : Outside) (disk : ℕ → Bool) (rollout_id : String) where
  append : EventEnvelope → Exec Channel Exn Unit
  append env = do
    closed ← gets (λ s. s.logger_closed)
    attempt logger_closed (not closed)
    lines ← gets (λ s. length s.log)
    attempt os_error (disk lines)
    modify (λ s. record s { log = s.log ++ env ∷ [] })

  broadcast : EventEnvelope → Exec Channel Exn Unit
  broadcast env = modify (λ s. record s { broadcasts = s.broadcasts ++ env ∷ [] })

  make_envelope : EventName → Payload → Exec Channel Exn EventEnvelope
  make_envelope event payload = do
    id ← draw w.uuid4
    time ← draw w.utc_now_iso
    pure (record {
      event = event;
      event_id = id;
      timestamp = time;
      rollout_id = some rollout_id;
      source = vsa;
      payload = payload;
    })

  pub emit : EventName → Payload → Exec Channel Exn Unit
  unfolding append broadcast make_envelope
  emit event payload = do env ← make_envelope event payload; append env; broadcast env

  pub report_failure : Snapshot → Exec Channel Exn Unit
  report_failure snapshot = do
    emit (feedback vlm_failure) (failure snapshot.fields (text snapshot.vlm_error))
    state ← gets (λ s. s.state_machine.state)
    when (same_state state collecting) pause

  pub alert : Snapshot → Exec Channel Exn Unit
  alert snapshot =
      when (is_high snapshot.fields.risk_level || snapshot.imminent_failure)
        (emit (feedback risk_alert) (risk snapshot.fields snapshot.imminent_failure))

  pub failures : Snapshot → Exec Channel Exn Unit
  failures snapshot = when (is_text snapshot.vlm_error) (report_failure snapshot)

  pub on_snapshot : Snapshot → Exec Channel Exn Unit
  on_snapshot snapshot = do
    emit (feedback assessment_updated) (assessment snapshot.fields)
    alert snapshot
    failures snapshot
