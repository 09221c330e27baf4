-- ===== src/Session/Service.antt =====
-- What the control endpoint keeps and calls (src/robolineage_session/api.py, lines 75-109).
-- A request is handled as one step. `Disk` says which of its calls of the file system succeed; a
-- call that fails raises OSError. A raised exception that nothing catches is the `err` of the
-- result: FastAPI answers 500 and the changes made so far stay.
use robolineage.Prelude.{ℕ, ◌+◌, String, Bool, Option, none, some, List, [], ◌∷◌, ◌++◌}
use robolineage.Prelude.Result.{Result, ok, err}
use robolineage.Prelude.Exec.{Exec, pure, raise, modify, attempt, ◌>>◌}
use robolineage.Session.State.{SessionState, IllegalStateTransition, StateMachine, transition}
use robolineage.Session.Registry
use robolineage.Session.Registry.{RolloutMode, Session, Registry, RegistryError, NewSession}
use robolineage.Session.Events.{ControlEventName, ErrorCode, StatePayload, EventEnvelope}

pub data Exn : Type 0 where
  illegal_transition : IllegalStateTransition → Exn
  runtime_error : RegistryError → Exn
  key_error value_error os_error : Exn

-- What the endpoint's calls change: the registry, the lines of each rollout's events.jsonl, the
-- envelopes broadcast, the rollouts with a metadata file, with archived snapshots (snapshots.jsonl in
-- the rollout's directory), a close mark or a place in the trash, and the number of draws made.
pub record Service : Type 0 where
  pub current : Registry
  pub events : List (String × EventEnvelope)
  pub broadcasts : List EventEnvelope
  pub metadata : List String
  pub archives : List String
  pub closed : List String
  pub trash : List String
  pub draws : ℕ

-- A request's JSON: `none` where a key is missing, and for a mode or an event name that no enum
-- member has. The payload is `none` where `dict(body.get("payload") or {})` raises, as it does for a
-- number or a text; the exceptions it raises, TypeError and ValueError, are one here.
pub record Body : Type 0 where
  pub event : Option ControlEventName
  pub event_id : Option String
  pub timestamp : Option String
  pub payload : Option String
  pub mode : Option RolloutMode
  pub task_id : Option String
  pub operator_id : Option String
  pub policy_version : Option String

pub record Disk : Type 0 where
  pub runtime_dir : Bool
  pub metadata : Bool
  pub log_dir : Bool
  pub control_append : Bool
  pub feedback_append : Bool
  pub archive : Bool
  pub closed_mark : Bool
  pub trash_dir : Bool
  pub rollout_exists : Bool
  pub move : Bool

pub data Response : Type 0 where
  state : StatePayload → Response
  discarded : String → Response
  error : ℕ → ErrorCode → Response

abbrev pub Handler : Type 0 → Type 0
Handler A = Exec Service Exn A

abbrev pub state_payload : Session → StatePayload
state_payload s = record {
  state = s.state_machine.state;
  session_id = some s.session_id;
  rollout_id = some s.rollout_id;
  mode = some s.mode;
  task_id = some s.task_id;
  operator_id = some s.operator_id;
  policy_version = s.policy_version;
}

abbrev pub need : {A : Type 0} → Exn → Option A → Handler A
need e none = raise e
need e (some a) = pure a

abbrev pub draw : (ℕ → String) → Handler String
draw source s = (ok (source s.draws), record s { draws = s.draws + 1 })

abbrev pub store_transition :
    Session → Result IllegalStateTransition SessionState × StateMachine → Handler Session
store_transition session (ok _, m) s = (
  ok (record session { state_machine = m }),
  record s { current = some (record session { state_machine = m }) },
)
store_transition session (err e, m) s = (err (illegal_transition e), s)

-- session.state_machine.transition(after): gives back the session object as it is then.
unfoldable pub enter : SessionState → Session → Handler Session
enter after session = store_transition session (transition after session.state_machine)

abbrev pub store_created : Result RegistryError Session × Registry → Handler Session
store_created (ok session, r) s = (ok session, record s { current = r })
store_created (err e, r) s = (err (runtime_error e), s)

unfoldable pub create_session : NewSession → Handler Session
create_session n s = store_created (Registry.create n s.current) s

unfoldable pub clear_registry : Handler Unit
clear_registry = modify (λ s. record s { current = Registry.clear s.current })

unfoldable pub write_metadata : Session → Bool → Handler Unit
write_metadata session works = do
  attempt os_error works
  modify (λ s. record s { metadata = s.metadata ++ session.rollout_id ∷ [] })

unfoldable pub append_and_broadcast : Session → EventEnvelope → Bool → Handler Unit
append_and_broadcast session env works = do
  attempt os_error works
  modify (λ s. record s {
    events = s.events ++ (session.rollout_id, env) ∷ [];
    broadcasts = s.broadcasts ++ env ∷ [];
  })
