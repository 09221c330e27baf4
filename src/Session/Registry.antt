-- ===== src/Session/Registry.antt =====
-- The session entity and the registry of at most one session (src/robolineage_session/session.py,
-- rollout modes of src/robolineage_contracts/core/rollout.py and src/robolineage_session/modes.py).
-- The registry's methods hold its lock, so each is one step. A session is stored once: the endpoint
-- and the dispatcher reach its state machine through the registry.
use robolineage.Prelude.{String, Bool, true, false, Option, none, some}
use robolineage.Prelude.Result.{Result, ok, err}
use robolineage.Session.State.{StateMachine, initial}

pub data RolloutMode : Type 0 where
  a b1 b2 c1 : RolloutMode

pub record ModeBehavior : Type 0 where
  pub policy_inference : Bool
  pub drive_robot : Bool

abbrev pub behavior_for : RolloutMode → ModeBehavior
behavior_for a = record { policy_inference = false; drive_robot = false }
behavior_for b1 = record { policy_inference = true; drive_robot = false }
behavior_for b2 = record { policy_inference = true; drive_robot = true }
behavior_for c1 = record { policy_inference = false; drive_robot = false }

unfoldable pub trajectory_accepted : RolloutMode → Bool
trajectory_accepted mode = (behavior_for mode).policy_inference

pub record Session : Type 0 where
  pub session_id : String
  pub rollout_id : String
  pub task_id : String
  pub mode : RolloutMode
  pub operator_id : String
  pub policy_version : Option String
  pub started_at : String
  pub state_machine : StateMachine

-- The arguments of `create`, with the two identifiers that it draws.
pub record NewSession : Type 0 where
  pub rollout_id : String
  pub session_id : String
  pub task_id : String
  pub mode : RolloutMode
  pub operator_id : String
  pub policy_version : Option String
  pub started_at : String

abbrev pub Registry : Type 0
Registry = Option Session

pub data RegistryError : Type 0 where
  already_active no_active : RegistryError

unfoldable pub require_current : Registry → Result RegistryError Session
require_current none = err no_active
require_current (some session) = ok session

abbrev pub opened : NewSession → Session
opened n = record {
  session_id = n.session_id;
  rollout_id = n.rollout_id;
  task_id = n.task_id;
  mode = n.mode;
  operator_id = n.operator_id;
  policy_version = n.policy_version;
  started_at = n.started_at;
  state_machine = initial;
}

unfoldable pub create : NewSession → Registry → Result RegistryError Session × Registry
create n (some session) = (err already_active, some session)
create n none = (ok (opened n), some (opened n))

unfoldable pub clear : Registry → Registry
clear _ = none
