-- ===== src/Phase/Tests.antt =====
-- The phase machine on concrete inputs.
use robolineage.Prelude.{ℕ, ◌≡◌, ◌≤◌, ◌<◌, refl, String, false, none, some, [], ◌∷◌, arith}
use robolineage.Prelude.Dict
use robolineage.Prelude.Result.{ok}
use robolineage.Phase.Task.{TaskConfig, index_of, contains}
use robolineage.Phase.Machine.{
  Config, Machine, Proposal, not_applied, apply, continue_from, move, forward, forward_decision,
}
use robolineage.Phase.Machine.Jumps.{with_confidence}
use robolineage.Phase.Stabilizer.{
  Raw, Stabilizer, create, risk_order, recent, push, stabilize_risk, tally, tally_all, winner,
  elect, majority_vote, stabilize_phase, stabilize,
}
use robolineage.Phase.Stabilizer.Risk.{risk_covers}
use robolineage.Phase.Machine.Repeats.{apply_times, repeats_reach}

-- The defaults, in hundredths.
abbrev defaults : Config
defaults = record {
  allow_regression = false;
  forward_jump_confidence = 60;
  event_forward_jump_confidence = 50;
  risk_forward_jump_confidence = 45;
  forward_jump_repeat = 2;
  terminal_forward_jump_confidence = 80;
  terminal_forward_jump_repeat = 2;
  correction_confidence = 82;
  correction_repeat = 2;
  retry_after_terminal_confidence = 70;
}

abbrev task : TaskConfig
task = record { phases = "approach" ∷ "grasp" ∷ "lift" ∷ "place" ∷ []; phase_transition_hint = [] }

abbrev at_approach : Machine
at_approach = record {
  current_phase = some "approach";
  last_reason = not_applied;
  forward_candidate = some "place";
  forward_count = 1;
  regression_candidate = none;
  regression_count = 0;
}

abbrev propose : String → ℕ → Proposal
propose p confidence_ = record {
  phase = p;
  event_type = none;
  confidence = some confidence_;
  risk_level = none;
  imminent_failure = none;
  progress = none;
}

lift_accepted :
    (apply defaults task (with_confidence 60 (propose "lift" 0)) at_approach).0 ≡ ok "lift"
unfolding apply continue_from move forward forward_decision index_of contains Dict.get
lift_accepted = refl

repeats_reach_example :
    (apply_times defaults task (propose "lift" 55) 2 at_approach).current_phase ≡ some "lift"
unfolding index_of contains Dict.get
repeats_reach_example =
    repeats_reach defaults task (propose "lift" 55) at_approach "approach" 0 2 2 refl refl refl
      (omega arith) refl (omega arith) (omega arith) (omega arith)

-- A new stabilizer of the default windows, and an observation of high risk.
abbrev observed : Raw
observed = record {
  phase = "lift";
  confidence = 30;
  progress = "advancing";
  risk_level = "high";
  imminent_failure = false;
}

risk_covers_example : 3 ≤ risk_order (stabilize observed task none (create 3 3 3)).0.risk_level
unfolding risk_order
risk_covers_example = risk_covers observed task none (create 3 3 3)

-- High risk was followed by two low ones; a third comes.
abbrev calmed : Stabilizer
calmed = record (create 3 3 3) { risk_history = "high" ∷ "low" ∷ "low" ∷ []; stable_risk = "high" }

abbrev low_risk : Raw
low_risk = record observed { risk_level = "low" }

calmed_falls :
    risk_order (stabilize low_risk task none calmed).0.risk_level < risk_order calmed.stable_risk
unfolding stabilize stabilize_risk stabilize_phase majority_vote tally_all tally elect winner push
    recent risk_order create
calmed_falls = omega arith
