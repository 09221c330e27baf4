-- ===== src/Phase/Machine.antt =====
-- PhaseStateMachine (phase_state_machine.py). Confidences and thresholds are natural numbers of one
-- unit, a hundredth in the defaults; the reason is the head of the source's text.
pub mod Membership
pub mod Jumps
pub mod Repeats
use robolineage.Prelude.{
  ℕ, zero, suc, ◌+◌, ◌-◌, String, Bool, true, false, not, ◌&&◌, ◌||◌, Option, none, some, List, [],
  ◌∷◌, if◌then◌else◌, str_eq, ltb, leb, ◌==◌, length, is_some,
}
use robolineage.Prelude.Dict
use robolineage.Prelude.Result.{Result, ok, err}
use robolineage.Realtime.Event.{
  EventType, gripper_close, gripper_open, motion_resume, still_start, sequence_start, heartbeat,
  gripper_burst, contact_transition, same_type,
}
use robolineage.Session.Events.{Progress, regressing, RiskLevel, high}
use robolineage.Phase.Task.{TaskConfig, contains, index_of, phase_at}

pub data Reason : Type 0 where
  not_applied was_reset no_phases initialize invalid_proposed keep : Reason
  terminal_failure_hold transition_hint single_step repeated_terminal_jump : Reason
  terminal_skip_pending visual_forward_jump risk_forward_jump event_forward_jump : Reason
  repeated_forward_jump forward_jump_pending regression_suppressed regression_allowed : Reason
  retry_after_terminal regression_pending visual_correction : Reason

-- The constructor's arguments, the repeats as the constructor leaves them (at least 1).
pub record Config : Type 0 where
  pub allow_regression : Bool
  pub forward_jump_confidence : ℕ
  pub event_forward_jump_confidence : ℕ
  pub risk_forward_jump_confidence : ℕ
  pub forward_jump_repeat : ℕ
  pub terminal_forward_jump_confidence : ℕ
  pub terminal_forward_jump_repeat : ℕ
  pub correction_confidence : ℕ
  pub correction_repeat : ℕ
  pub retry_after_terminal_confidence : ℕ

pub record Machine : Type 0 where
  pub current_phase : Option String
  pub last_reason : Reason
  pub forward_candidate : Option String
  pub forward_count : ℕ
  pub regression_candidate : Option String
  pub regression_count : ℕ

-- The arguments of `apply` beside the task.
pub record Proposal : Type 0 where
  pub phase : String
  pub event_type : Option EventType
  pub confidence : Option ℕ
  pub risk_level : Option RiskLevel
  pub imminent_failure : Option Bool
  pub progress : Option Progress

pub data PhaseError : Type 0 where
  value_error : PhaseError

-- __init__, with the reason that it sets; `reset` has a reason of its own.
unfoldable pub init : Reason → Machine
init reason = record {
  current_phase = none;
  last_reason = reason;
  forward_candidate = none;
  forward_count = 0;
  regression_candidate = none;
  regression_count = 0;
}

unfoldable pub reset : Machine → Machine
unfolding init
reset m = init was_reset

abbrev pub clear_forward : Machine → Machine
clear_forward m = record m { forward_candidate = none; forward_count = 0 }

abbrev pub clear_regression : Machine → Machine
clear_regression m = record m { regression_candidate = none; regression_count = 0 }

abbrev pub is_phase : Option String → String → Bool
is_phase none p = false
is_phase (some q) p = str_eq q p

abbrev pub is_true : Option Bool → Bool
is_true none = false
is_true (some b) = b

abbrev pub is_high : Option RiskLevel → Bool
is_high (some high) = true
is_high _ = false

abbrev pub is_regressing : Option Progress → Bool
is_regressing (some regressing) = true
is_regressing _ = false

abbrev pub is_boundary : Option EventType → Bool
is_boundary (some gripper_close) = true
is_boundary (some gripper_open) = true
is_boundary (some motion_resume) = true
is_boundary (some still_start) = true
is_boundary _ = false

abbrev pub is_idle_event : Option EventType → Bool
is_idle_event (some sequence_start) = true
is_idle_event (some heartbeat) = true
is_idle_event _ = false

abbrev pub is_composite : Option EventType → Bool
is_composite (some gripper_burst) = true
is_composite (some contact_transition) = true
is_composite _ = false

-- conf = 0.5 if confidence is None else float(confidence)
abbrev pub conf_of : Option ℕ → ℕ
conf_of none = 50
conf_of (some c) = c

abbrev pub hinted : Option (List String) → String → Bool
hinted none p = false
hinted (some l) p = contains p l

-- risky_evidence
abbrev pub is_risky : Proposal → Bool
is_risky x = is_high x.risk_level || is_true x.imminent_failure

-- The repeat count of a candidate, the proposal included.
abbrev pub bump : Option String → ℕ → String → ℕ
bump candidate count p = if is_phase candidate p then count + 1 else 1

module _ (c : Config) where
  -- The ladder of the forward branch: does the phase advance, and why. `skip` is early_terminal_skip.
  unfoldable pub forward_decision :
      (conf count : ℕ) (skip risky hint step boundary : Bool) → Bool × Reason
  forward_decision conf count skip risky hint step boundary =
      if skip && risky
      then (false, terminal_failure_hold)
      else if hint
      then (true, transition_hint)
      else if step
      then (true, single_step)
      else if skip
      then (if leb c.terminal_forward_jump_repeat count
            && leb c.terminal_forward_jump_confidence conf
          then (true, repeated_terminal_jump)
          else (false, terminal_skip_pending))
      else if leb c.forward_jump_confidence conf
      then (true, visual_forward_jump)
      else if risky && leb c.risk_forward_jump_confidence conf
      then (true, risk_forward_jump)
      else if boundary && leb c.event_forward_jump_confidence conf
      then (true, event_forward_jump)
      else if leb c.forward_jump_repeat count && leb c.event_forward_jump_confidence conf
      then (true, repeated_forward_jump)
      else (false, forward_jump_pending)

  -- early_terminal_skip
  abbrev pub early_skip : (length_ i j : ℕ) → Bool
  early_skip length_ i j = (j + 1 == length_) && ltb (i + 2) length_

  abbrev settle_forward : String → String → ℕ → Bool × Reason → Machine → String × Machine
  settle_forward current p count (true, reason) m = (
    p,
    clear_forward (clear_regression (record m { current_phase = some p; last_reason = reason })),
  )
  settle_forward current p count (false, reason) m = (
    current,
    clear_regression (record m {
      current_phase = some current;
      last_reason = reason;
      forward_candidate = some p;
      forward_count = count;
    }),
  )

  unfoldable pub forward : TaskConfig → Proposal → String → (i j : ℕ) → Machine → String × Machine
  forward task x current i j m =
      let count = bump m.forward_candidate m.forward_count x.phase in
      settle_forward current x.phase count
        (forward_decision (conf_of x.confidence) count (early_skip (length task.phases) i j)
          (is_risky x) (hinted (Dict.get current task.phase_transition_hint) x.phase) (j == i + 1)
          (is_boundary x.event_type))
        m

  -- bool(_terminal_retry_evidence(...))
  unfoldable pub terminal_retry_evidence : Proposal → (conf count : ℕ) → Bool
  terminal_retry_evidence x conf count =
      is_high x.risk_level
      || (is_true x.imminent_failure
          || (is_regressing x.progress
              || (is_composite x.event_type
                  || (leb c.correction_repeat count
                      && leb c.retry_after_terminal_confidence conf))))

  abbrev pub accept_back : String → Reason → Machine → String × Machine
  accept_back p reason m =
      (p, clear_regression (record m { current_phase = some p; last_reason = reason }))

  abbrev pub hold_back : String → String → ℕ → Machine → String × Machine
  hold_back current p count m = (
    current,
    record m {
      last_reason = regression_pending;
      regression_candidate = some p;
      regression_count = count;
    },
  )

  -- The branch with allow_regression false, at a target before the current phase.
  unfoldable pub correct : Proposal → String → (terminal : Bool) → Machine → String × Machine
  unfolding terminal_retry_evidence
  correct x current terminal m =
      let count = bump m.regression_candidate m.regression_count x.phase in
      let conf = conf_of x.confidence in
      if terminal
      then if leb c.retry_after_terminal_confidence conf && terminal_retry_evidence x conf count
        then accept_back x.phase retry_after_terminal m
        else hold_back current x.phase count m
      else if leb c.correction_confidence conf
          || (leb c.correction_repeat count && leb c.forward_jump_confidence conf)
      then accept_back x.phase visual_correction m
      else hold_back current x.phase count m

  unfoldable pub regress : TaskConfig → Proposal → String → ℕ → Machine → String × Machine
  regress task x current i m =
      if is_idle_event x.event_type
      then (current, record m { last_reason = regression_suppressed })
      else (
        phase_at task.phases (i - 1),
        record m {
          current_phase = some (phase_at task.phases (i - 1));
          last_reason = regression_allowed;
        },
      )

  unfoldable pub backward : TaskConfig → Proposal → String → ℕ → Machine → String × Machine
  unfolding correct regress
  backward task x current i m =
      if c.allow_regression
      then regress task x current i (clear_forward m)
      else correct x current (i + 1 == length task.phases) (clear_forward m)

  -- From the two calls of `phases.index` on.
  unfoldable pub move :
      TaskConfig
      → Proposal
      → String
      → Option ℕ
      → Option ℕ
      → Machine
      → Result PhaseError String × Machine
  move task x current none target m = (err value_error, m)
  move task x current (some i) none m = (err value_error, m)
  move task x current (some i) (some j) m =
      let (phase, m') =
        if ltb i j then forward task x current i j m else backward task x current i m in
      (ok phase, m')

  unfoldable pub first_phase : List String → String → String
  first_phase phases p = if contains p phases then p else phase_at phases 0

  unfoldable pub continue_from :
      TaskConfig → Proposal → Option String → Machine → Result PhaseError String × Machine
  continue_from task x none m =
      let p = first_phase task.phases x.phase in
      (ok p, record m { current_phase = some p; last_reason = initialize })
  continue_from task x (some current) m =
      if not (contains x.phase task.phases)
      then (ok current, record m { last_reason = invalid_proposed })
      else if str_eq x.phase current
      then (ok current, clear_forward (clear_regression (record m { last_reason = keep })))
      else move task x current (index_of current task.phases) (index_of x.phase task.phases) m

  unfoldable pub apply : TaskConfig → Proposal → Machine → Result PhaseError String × Machine
  apply task x m =
      if length task.phases == 0
      then (ok x.phase, record m { last_reason = no_phases })
      else continue_from task x m.current_phase m
