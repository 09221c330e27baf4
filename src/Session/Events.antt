-- ===== src/Session/Events.antt =====
-- Event envelopes and their names (src/robolineage_contracts/session/events.py), with the stamps that
-- `make_envelope` draws (src/robolineage_session/dispatcher.py). `uuid.uuid4` and the clock are an
-- argument: the n-th draw of a run is a text. Payloads are the ones that the code builds, and a
-- control event carries the text of its request's payload.
use robolineage.Prelude.{ℕ, String, Bool, Option}
use robolineage.Session.State.{SessionState}
use robolineage.Session.Registry.{RolloutMode}

pub data ControlEventName : Type 0 where
  start_collecting pause_collecting resume_collecting : ControlEventName
  stop_collecting submit_rollout discard_rollout : ControlEventName

pub data FeedbackEventName : Type 0 where
  session_opened session_closed frame_dropped assessment_updated risk_alert vlm_failure :
      FeedbackEventName

pub data EventName : Type 0 where
  control : ControlEventName → EventName
  feedback : FeedbackEventName → EventName

pub data EventSource : Type 0 where
  ux ar policy vsa : EventSource

pub data ErrorCode : Type 0 where
  session_open_failed session_close_failed illegal_state_transition vlm_timeout : ErrorCode

pub data Progress : Type 0 where
  advancing stalled regressing unknown : Progress

pub data RiskLevel : Type 0 where
  low medium high unknown : RiskLevel

-- The fields of a snapshot that go into a payload. A float stands as the text that is sent.
pub record SnapshotFields : Type 0 where
  pub frame_id : ℕ
  pub timestamp : String
  pub progress : Progress
  pub risk_level : RiskLevel
  pub phase : String
  pub confidence : String
  pub needs_review : Bool

pub record StatePayload : Type 0 where
  pub state : SessionState
  pub session_id : Option String
  pub rollout_id : Option String
  pub mode : Option RolloutMode
  pub task_id : Option String
  pub operator_id : Option String
  pub policy_version : Option String

pub data Payload : Type 0 where
  request : String → Payload
  state : StatePayload → Payload
  archived : String → Payload
  assessment : SnapshotFields → Payload
  risk : SnapshotFields → (imminent_failure : Bool) → Payload
  failure : SnapshotFields → (error : String) → Payload

pub record EventEnvelope : Type 0 where
  pub event : EventName
  pub event_id : String
  pub timestamp : String
  pub rollout_id : Option String
  pub source : EventSource
  pub payload : Payload

-- What the outside gives: the identifiers and the times, by the number of the draw.
pub record Outside : Type 0 where
  pub uuid4 : ℕ → String
  pub utc_now_iso : ℕ → String
