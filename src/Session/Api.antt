-- ===== src/Session/Api.antt =====
-- The control endpoint POST /events (src/robolineage_session/api.py, lines 62-72 and 450-541).
-- The session object that a handler holds is the registry's: its transitions show in both.
pub mod Lifecycle
use robolineage.Prelude.{
  ℕ, String, Bool, true, false, Option, none, some, ◌∷◌, [], ◌++◌, if◌then◌else◌, str_eq, List, any,
  filter, not,
}
use robolineage.Prelude.Exec.{pure, raise, gets, modify, attempt, try_except, ◌>>=◌, ◌>>◌}
use robolineage.Session.State.{
  SessionState, idle, collecting, paused, reviewing, submitted, validate_transition,
}
use robolineage.Session.Registry.{Session, NewSession}
use robolineage.Session.Events.{
  ControlEventName, start_collecting, pause_collecting, resume_collecting, stop_collecting,
  submit_rollout, discard_rollout, session_opened, session_closed, control, feedback, ux, ar,
  ErrorCode, session_open_failed, session_close_failed, illegal_state_transition, request, archived,
  EventName, Payload, EventEnvelope, Outside,
}
use robolineage.Session.Service.{
  Exn, illegal_transition, key_error, value_error, os_error, Service, Body, Disk, Response,
  discarded, error, Handler, state_payload, need, draw, enter, create_session, clear_registry,
  write_metadata, append_and_broadcast,
}

-- str(x or fallback), where the fallback is computed only if it is taken.
abbrev pub text_or : Option String → Handler String → Handler String
text_or none fallback = fallback
text_or (some t) fallback = if str_eq t "" then fallback else pure t

-- payload.get("operator_id", "unknown")
abbrev pub operator : Option String → String
operator none = "unknown"
operator (some name) = name

abbrev pub contains : String → List String → Bool
contains s l = any (λ t. str_eq t s) l

-- The rollouts whose directory stays when that of `s` is moved away.
abbrev pub without : String → List String → List String
without s l = filter (λ t. not (str_eq t s)) l

module _ (w : Outside) (body : Body) (disk : Disk) where
  -- The identifier of an envelope that is made for it alone.
  pub noop_id : Handler String
  noop_id = do id ← draw w.uuid4; _ ← draw w.utc_now_iso; pure id

  -- _control_envelope(body, rollout_id)
  pub control_envelope : ControlEventName → Session → Handler EventEnvelope
  unfolding noop_id
  control_envelope name session = do
    id ← text_or body.event_id noop_id
    time ← text_or body.timestamp (draw w.utc_now_iso)
    payload ← need value_error body.payload
    pure (record {
      event = control name;
      event_id = id;
      timestamp = time;
      rollout_id = some session.rollout_id;
      source = ux;
      payload = request payload;
    })

  -- make_envelope(event=..., source=EventSource.AR, ...)
  pub ar_envelope : EventName → Payload → Session → Handler EventEnvelope
  ar_envelope name payload session = do
    id ← draw w.uuid4
    time ← draw w.utc_now_iso
    pure (record {
      event = name;
      event_id = id;
      timestamp = time;
      rollout_id = some session.rollout_id;
      source = ar;
      payload = payload;
    })

  pub log_control : ControlEventName → Session → Handler Unit
  unfolding control_envelope append_and_broadcast
  log_control name session = do
    env ← control_envelope name session
    append_and_broadcast session env disk.control_append

  pub log_feedback : EventName → Payload → Session → Handler Unit
  unfolding ar_envelope append_and_broadcast
  log_feedback name payload session = do
    env ← ar_envelope name payload session
    append_and_broadcast session env disk.feedback_append

  -- The body of the first `try`.
  pub open_session : Handler Session
  unfolding create_session write_metadata enter
  open_session = do
    mode ← need value_error body.mode
    task_id ← need key_error body.task_id
    started_at ← draw w.utc_now_iso
    rollout_id ← draw w.uuid4
    session_id ← draw w.uuid4
    session ← create_session (record {
      rollout_id = rollout_id;
      session_id = session_id;
      task_id = task_id;
      mode = mode;
      operator_id = operator body.operator_id;
      policy_version = body.policy_version;
      started_at = started_at;
    })
    attempt os_error disk.runtime_dir
    write_metadata session disk.metadata
    enter collecting session

  pub announce_opened : Option Session → Handler Response
  unfolding log_control log_feedback
  announce_opened none = pure (error 500 session_open_failed)
  announce_opened (some session) = do
    attempt os_error disk.log_dir
    log_control start_collecting session
    log_feedback (feedback session_opened) (Payload.state (state_payload session)) session
    pure (Response.state (state_payload session))

  pub try_open : Handler (Option Session)
  unfolding open_session clear_registry
  try_open =
      try_except (do session ← open_session; pure (some session)) (λ _. clear_registry >> pure none)

  pub start : Handler Response
  start = do _ ← need value_error body.payload; session ← try_open; announce_opened session

  -- The checks of the `try` that answers 400.
  pub check_control : ControlEventName → Session → Handler Session
  unfolding enter
  check_control pause_collecting session = enter paused session
  check_control resume_collecting session = enter collecting session
  check_control stop_collecting session = enter reviewing session
  check_control submit_rollout session =
      if validate_transition session.state_machine.state submitted
      then pure session
      else raise
          (illegal_transition (record { before = session.state_machine.state; after = submitted }))
  check_control _ session = pure session

  -- archive(runtime_dir, rollout_dir): FileExistsError if it was done before
  pub archive_runtime : Session → Handler Unit
  archive_runtime session = do
    seen ← gets (λ s. contains session.rollout_id s.archives)
    attempt os_error (not seen)
    attempt os_error disk.archive
    modify (λ s. record s { archives = s.archives ++ session.rollout_id ∷ [] })

  -- The `try` of a submission: archive, mark closed, and run through SUBMITTED to IDLE.
  pub close_session : Session → Handler Session
  unfolding archive_runtime enter
  close_session session = do
    archive_runtime session
    attempt os_error disk.closed_mark
    modify (λ s. record s { closed = s.closed ++ session.rollout_id ∷ [] })
    done ← enter submitted session
    enter idle done

  pub announce_closed : Option Session → Handler Response
  unfolding log_feedback clear_registry
  announce_closed none = pure (error 500 session_close_failed)
  announce_closed (some session) = do
    log_feedback (feedback session_closed) (archived session.rollout_id) session
    clear_registry
    pure (Response.state (state_payload session))

  pub discard : Session → Handler Response
  unfolding clear_registry
  discard session = do
    attempt os_error disk.trash_dir
    if disk.rollout_exists
        then (do
          attempt os_error disk.move
          modify (λ s. record s {
            trash = s.trash ++ session.rollout_id ∷ [];
            archives = without session.rollout_id s.archives;
          }))
        else pure tt
    clear_registry
    pure (discarded session.rollout_id)

  pub finish : ControlEventName → Session → Handler Response
  unfolding close_session announce_closed discard
  finish submit_rollout session = do
    done ← try_except (do closed ← close_session session; pure (some closed)) (λ _. pure none)
    announce_closed done
  finish discard_rollout session = discard session
  finish _ session = pure (Response.state (state_payload session))

  -- What follows the checks: `none` if they raised.
  pub proceed_control : ControlEventName → Option Session → Handler Response
  proceed_control name none = pure (error 400 illegal_state_transition)
  proceed_control name (some session) = do log_control name session; finish name session

  pub try_control : ControlEventName → Session → Handler (Option Session)
  unfolding check_control
  try_control name session =
      try_except (do next ← check_control name session; pure (some next)) (λ _. pure none)

  pub control_event : ControlEventName → Option Session → Handler Response
  control_event name none = pure (error 400 illegal_state_transition)
  control_event name (some session) = do
    attempt os_error disk.log_dir
    checked ← try_control name session
    proceed_control name checked

  pub dispatch : Option ControlEventName → Handler Response
  dispatch none = pure (error 400 illegal_state_transition)
  dispatch (some start_collecting) = start
  dispatch (some name) = do current ← gets (λ s. s.current); control_event name current

pub post_event : Outside → Body → Disk → Handler Response
post_event w body disk = dispatch w body disk body.event
