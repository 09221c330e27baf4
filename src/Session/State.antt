-- ===== src/Session/State.antt =====
-- The five session states, the table of legal transitions and the runtime holder of the state
-- (src/robolineage_contracts/session/state.py, src/robolineage_session/state_machine.py).
pub mod Reachability
use robolineage.Prelude.{Bool, true, false, ◌||◌, List, [], ◌∷◌}
use robolineage.Prelude.Result.{Result, ok, err}

pub data SessionState : Type 0 where
  idle collecting paused reviewing submitted : SessionState

-- Enum equality.
abbrev pub same_state : SessionState → SessionState → Bool
same_state idle idle = true
same_state collecting collecting = true
same_state paused paused = true
same_state reviewing reviewing = true
same_state submitted submitted = true
same_state _ _ = false

abbrev pub allowed_transitions : SessionState → List SessionState
allowed_transitions idle = collecting ∷ []
allowed_transitions collecting = paused ∷ reviewing ∷ []
allowed_transitions paused = collecting ∷ reviewing ∷ []
allowed_transitions reviewing = submitted ∷ collecting ∷ []
allowed_transitions submitted = idle ∷ []

abbrev pub contains : List SessionState → SessionState → Bool
contains [] s = false
contains (t ∷ ts) s = same_state s t || contains ts s

unfoldable pub validate_transition : SessionState → SessionState → Bool
validate_transition before after = contains (allowed_transitions before) after

-- The exception keeps both states.
pub record IllegalStateTransition : Type 0 where
  pub before : SessionState
  pub after : SessionState

pub record StateMachine : Type 0 where
  pub state : SessionState

abbrev pub initial : StateMachine
initial = record { state = idle }

apply_transition :
    Bool → SessionState → StateMachine → Result IllegalStateTransition SessionState × StateMachine
apply_transition true after m = (ok after, record { state = after })
apply_transition false after m = (err (record { before = m.state; after = after }), m)

-- The lock is held for the whole call, so concurrent callers act as some sequence of calls.
unfoldable pub transition :
    SessionState → StateMachine → Result IllegalStateTransition SessionState × StateMachine
unfolding apply_transition validate_transition
transition after m = apply_transition (validate_transition m.state after) after m

-- A sequence of calls by any callers; an illegal call raises in its caller alone.
unfoldable pub transitions : List SessionState → StateMachine → StateMachine
transitions [] m = m
transitions (after ∷ rest) m = transitions rest (transition after m).1
