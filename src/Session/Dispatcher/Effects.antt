-- ===== src/Session/Dispatcher/Effects.antt =====
-- What one snapshot does to the log, the broadcasts and the session.
use mathlib.Core.List.{map-append, append-nil, append_assoc}
use robolineage.Prelude.{
  ◌+◌, some, length, ℕ, String, Bool, true, false, ◌||◌, ◌&&◌, ◌≡◌, List, [], ◌∷◌, ◌++◌, map,
  if◌then◌else◌, arith,
}
use robolineage.Prelude.Exec.{Exec, bind_keeps}
use robolineage.Prelude.Result.{ok, err}
use robolineage.Session.State.{collecting, paused, same_state, transition, validate_transition}
use robolineage.Session.Events.{
  EventName, feedback, assessment_updated, risk_alert, vlm_failure, vsa, Payload, assessment, risk,
  failure, EventEnvelope, Outside,
}
use robolineage.Session.Dispatcher.{
  Exn, logger_closed, Channel, Snapshot, is_high, is_text, text, emit, when, pause, alert, failures,
  report_failure, on_snapshot,
}

abbrev pub event_of : EventEnvelope → EventName
event_of e = e.event

abbrev pub names : List EventEnvelope → List EventName
names = map event_of

-- Everything logged was broadcast and the other way round, in the same order.
abbrev InStep : Channel → Type 0
InStep s = s.log ≡ s.broadcasts

-- The events that a snapshot calls for.
abbrev pub alerts : Snapshot → List EventName
alerts x =
    if is_high x.fields.risk_level || x.imminent_failure then feedback risk_alert ∷ [] else []

abbrev pub reports : Snapshot → List EventName
reports x = if is_text x.vlm_error then feedback vlm_failure ∷ [] else []

abbrev pub expected : Snapshot → List EventName
expected x = feedback assessment_updated ∷ (alerts x ++ reports x)

-- The envelope that `emit` makes.
abbrev envelope : Outside → String → EventName → Payload → Channel → EventEnvelope
envelope w rollout_id name payload s = record {
  event = name;
  event_id = w.uuid4 s.draws;
  timestamp = w.utc_now_iso (s.draws + 1);
  rollout_id = some rollout_id;
  source = vsa;
  payload = payload;
}

module _ (w : Outside) (disk : ℕ → Bool) (rollout_id : String) where
  emit-InStep :
      (name : EventName) (payload : Payload) (s : Channel)
      → InStep s
      → InStep (emit w disk rollout_id name payload s).1
  unfolding emit
  emit-InStep name payload s h = ground arith

  when-InStep :
      (b : Bool) (m : Exec Channel Exn Unit) (s : Channel)
      → InStep s
      → ((t : Channel) → InStep t → InStep (m t).1)
      → InStep (when b m s).1
  when-InStep true m s h keep = keep s h
  when-InStep false m s h keep = h

  pause-InStep : (s : Channel) → InStep s → InStep (pause s).1
  unfolding pause transition
  pause-InStep s h = ground arith

  report_failure-InStep :
      (x : Snapshot) (s : Channel) → InStep s → InStep (report_failure w disk rollout_id x s).1
  unfolding report_failure
  report_failure-InStep x s h =
      bind_keeps InStep (emit w disk rollout_id _ _) _ s (emit-InStep _ _ s h)
        (λ _ t k. when-InStep (same_state t.state_machine.state collecting) pause t k pause-InStep)

  alert-InStep : (x : Snapshot) (s : Channel) → InStep s → InStep (alert w disk rollout_id x s).1
  unfolding alert
  alert-InStep x s h = when-InStep _ (emit w disk rollout_id _ _) s h (emit-InStep _ _)

  failures-InStep :
      (x : Snapshot) (s : Channel) → InStep s → InStep (failures w disk rollout_id x s).1
  unfolding failures
  failures-InStep x s h =
      when-InStep _ (report_failure w disk rollout_id x) s h (report_failure-InStep x)

  -- Whatever the disk does, and also when the call raises, the broadcasts stay the log: an envelope
  -- is broadcast exactly if its line was written.
  pub on_snapshot-InStep :
      (x : Snapshot) (s : Channel)
      → s.log ≡ s.broadcasts
      → (on_snapshot w disk rollout_id x s).1.log ≡ (on_snapshot w disk rollout_id x s).1.broadcasts
  unfolding on_snapshot
  on_snapshot-InStep x s h =
      bind_keeps InStep (emit w disk rollout_id _ _) _ s (emit-InStep _ _ s h) (λ _ t k.
        bind_keeps InStep (alert w disk rollout_id x) (λ _. failures w disk rollout_id x) t
          (alert-InStep x t k) (λ _. failures-InStep x))

  on_snapshot_closed :
      (x : Snapshot) (s : Channel)
      → s.logger_closed ≡ true
      → ((on_snapshot w disk rollout_id x s).0 ≡ err logger_closed)
        × ((on_snapshot w disk rollout_id x s).1.log ≡ s.log)
        × ((on_snapshot w disk rollout_id x s).1.broadcasts ≡ s.broadcasts)
        × ((on_snapshot w disk rollout_id x s).1.state_machine ≡ s.state_machine)
  unfolding on_snapshot emit
  on_snapshot_closed x s h = ground arith

  module _ (writes : (n : ℕ) → disk n ≡ true) where
    emit_ok :
        (name : EventName) (payload : Payload) (s : Channel)
        → s.logger_closed ≡ false
        → let t = (emit w disk rollout_id name payload s).1 in
          (emit w disk rollout_id name payload s ≡ (ok tt, t))
          × (names t.log ≡ names s.log ++ name ∷ [])
          × (t.logger_closed ≡ false)
          × (t.state_machine ≡ s.state_machine)
    unfolding emit
    emit_ok name payload s opened = ground (
      arith,
      writes (length s.log),
      map-append event_of s.log (envelope w rollout_id name payload s ∷ []),
    )

    abbrev PausedIf : Bool → Channel → Channel → Type 0
    PausedIf failed s t = t.state_machine.state ≡ (
        if failed && same_state s.state_machine.state collecting
        then paused
        else s.state_machine.state)

    alert_ok :
        (x : Snapshot) (s : Channel)
        → s.logger_closed ≡ false
        → let t = (alert w disk rollout_id x s).1 in
          (alert w disk rollout_id x s ≡ (ok tt, t))
          × (names t.log ≡ names s.log ++ alerts x)
          × (t.logger_closed ≡ false)
          × (t.state_machine ≡ s.state_machine)
    unfolding alert
    alert_ok x s opened = ground (
      arith,
      emit_ok (feedback risk_alert) (risk x.fields x.imminent_failure) s,
      append-nil (names s.log),
    )

    pause_ok :
        (s : Channel)
        → same_state s.state_machine.state collecting ≡ true
        → pause s ≡ (ok tt, record s { state_machine = record { state = paused } })
    unfolding pause transition validate_transition
    pause_ok s h = ground arith

    report_failure_ok :
        (x : Snapshot) (s : Channel)
        → s.logger_closed ≡ false
        → let t = (report_failure w disk rollout_id x s).1 in
          ((report_failure w disk rollout_id x s).0 ≡ ok tt)
          × (names t.log ≡ names s.log ++ feedback vlm_failure ∷ [])
          × PausedIf true s t
    unfolding report_failure
    report_failure_ok x s opened =
        let p = failure x.fields (text x.vlm_error) in
        ground (
          arith,
          emit_ok (feedback vlm_failure) p s,
          pause_ok (emit w disk rollout_id (feedback vlm_failure) p s).1,
        )

    failures_ok :
        (x : Snapshot) (s : Channel)
        → s.logger_closed ≡ false
        → let t = (failures w disk rollout_id x s).1 in
          ((failures w disk rollout_id x s).0 ≡ ok tt)
          × (names t.log ≡ names s.log ++ reports x)
          × PausedIf (is_text x.vlm_error) s t
    unfolding failures
    failures_ok x s opened = ground (arith, report_failure_ok x s, append-nil (names s.log))

    -- With an open log that takes every line, a snapshot is handled without an exception: exactly
    -- the expected events are added, in order (the assessment; an alert for high risk or imminent
    -- failure; a failure report for a nonempty error), and a session that was collecting is paused if
    -- and only if there was an error, any other state staying as it was.
    pub on_snapshot_outcome :
        (x : Snapshot) (s : Channel)
        → s.logger_closed ≡ false
        → ((on_snapshot w disk rollout_id x s).0 ≡ ok tt)
          × (names (on_snapshot w disk rollout_id x s).1.log ≡ names s.log ++ expected x)
          × ((on_snapshot w disk rollout_id x s).1.state_machine.state ≡ (
              if is_text x.vlm_error && same_state s.state_machine.state collecting
              then paused
              else s.state_machine.state))
    unfolding on_snapshot
    on_snapshot_outcome x s opened =
        let p = assessment x.fields in
        let t = (emit w disk rollout_id (feedback assessment_updated) p s).1 in
        ground (
          arith,
          emit_ok (feedback assessment_updated) p s,
          alert_ok x t,
          failures_ok x (alert w disk rollout_id x t).1,
          append_assoc (names s.log) (feedback assessment_updated ∷ []) (alerts x),
          append_assoc (names s.log) (feedback assessment_updated ∷ alerts x) (reports x),
        )
