-- ===== src/Session/Tests.antt =====
-- The session service on concrete inputs.
use robolineage.Prelude.{◌≡◌, refl, ◌⊎◌, true, false, none, some, List, [], ◌∷◌}
use robolineage.Prelude.Result.{ok, err}
use robolineage.Session.State.{
  SessionState, idle, collecting, paused, reviewing, submitted, initial, transition,
}
use robolineage.Session.State.Reachability.{◌⟶◌, transition_exact}
use robolineage.Session.Registry.{a, Session}
use robolineage.Session.Events.{
  ControlEventName, start_collecting, pause_collecting, stop_collecting, submit_rollout,
  session_open_failed, Progress, high, feedback, assessment_updated, risk_alert, vlm_failure,
  Outside,
}
use robolineage.Session.Service.{Service, Body, Disk, error, Response, state_payload}
use robolineage.Session.Api.{post_event}
use robolineage.Session.Api.Lifecycle.{
  IsLive, serve, start_drops_session, serve-IsLive, submit_outcome,
}
use robolineage.Session.Dispatcher.{Channel, Snapshot, on_snapshot}
use robolineage.Session.Dispatcher.Effects.{names, on_snapshot-InStep, on_snapshot_outcome}

transition_exact_example :
    (idle ⟶ paused) × (transition paused initial ≡ (ok paused, record { state = paused }))
    ⊎ ¬ (idle ⟶ paused)
      × (transition paused initial ≡ (err (record { before = idle; after = paused }), initial))
transition_exact_example = transition_exact initial paused

abbrev calls : List SessionState
calls = collecting ∷ submitted ∷ paused ∷ reviewing ∷ submitted ∷ []

abbrev world : Outside
world = record { uuid4 = λ n. "id"; utc_now_iso = λ n. "now" }

abbrev works : Disk
works = record {
  runtime_dir = true;
  metadata = true;
  log_dir = true;
  control_append = true;
  feedback_append = true;
  archive = true;
  closed_mark = true;
  trash_dir = true;
  rollout_exists = true;
  move = true;
}

abbrev asks : ControlEventName → Body
asks name = record {
  event = some name;
  event_id = none;
  timestamp = none;
  payload = some "{}";
  mode = some a;
  task_id = some "task";
  operator_id = none;
  policy_version = none;
}

abbrev session_in : SessionState → Session
session_in state = record {
  session_id = "s";
  rollout_id = "r";
  task_id = "task";
  mode = a;
  operator_id = "op";
  policy_version = none;
  started_at = "t";
  state_machine = record { state = state };
}

abbrev service_in : SessionState → Service
service_in state = record {
  current = some (session_in state);
  events = [];
  broadcasts = [];
  metadata = [];
  archives = [];
  closed = [];
  trash = [];
  draws = 0;
}

start_drops_session_example :
    let after = post_event world (asks start_collecting) works (service_in collecting) in
    (after.0 ≡ ok (error 500 session_open_failed))
    × (after.1.current ≡ none)
    × (after.1.events ≡ [])
    × (after.1.broadcasts ≡ [])
    × (after.1.closed ≡ [])
    × (after.1.trash ≡ [])
start_drops_session_example =
    start_drops_session world (asks start_collecting) works (service_in collecting)
      (session_in collecting) "{}" refl refl refl

abbrev requests : List (Body × Disk)
requests =
    (asks start_collecting, works)
    ∷ (asks pause_collecting, record works { control_append = false })
    ∷ (asks stop_collecting, works)
    ∷ (asks submit_rollout, record works { archive = false })
    ∷ []

serve-IsLive_example : IsLive (serve world requests (service_in reviewing))
serve-IsLive_example =
    serve-IsLive world requests (service_in reviewing) (refl, (refl, (refl, (refl, tt)))) refl

submit_outcome_example :
    let after = post_event world (asks submit_rollout) works (service_in reviewing) in
    (after.0 ≡ ok (Response.state (record (state_payload (session_in reviewing)) { state = idle })))
    × (after.1.current ≡ none)
    × (after.1.closed ≡ "r" ∷ [])
    × (after.1.archives ≡ "r" ∷ [])
submit_outcome_example =
    submit_outcome world (asks submit_rollout) works (service_in reviewing) (session_in reviewing)
      "{}" refl refl refl refl refl refl

abbrev failing : Snapshot
failing = record {
  fields = record {
    frame_id = 7;
    timestamp = "1.0";
    progress = Progress.stalled;
    risk_level = high;
    phase = "grasp";
    confidence = "0.4";
    needs_review = true;
  };
  imminent_failure = false;
  vlm_error = some "timeout";
}

abbrev channel : Channel
channel = record {
  logger_closed = false;
  log = [];
  broadcasts = [];
  state_machine = record { state = collecting };
  draws = 0;
}

on_snapshot-InStep_example :
    (on_snapshot world (λ n. false) "r" failing channel).1.log
    ≡ (on_snapshot world (λ n. false) "r" failing channel).1.broadcasts
on_snapshot-InStep_example = on_snapshot-InStep world (λ n. false) "r" failing channel refl

on_snapshot_outcome_example :
    let after = on_snapshot world (λ n. true) "r" failing channel in
    (after.0 ≡ ok tt)
    × (names after.1.log
        ≡ feedback assessment_updated ∷ feedback risk_alert ∷ feedback vlm_failure ∷ [])
    × (after.1.state_machine.state ≡ paused)
on_snapshot_outcome_example =
    on_snapshot_outcome world (λ n. true) "r" (λ n. refl) failing channel refl
