-- ===== src/Evaluation/Tests.antt =====
-- Three evaluated rollouts of a policy.
use native.Mathlib.Nat.{le-div_iff_mul-le}
use robolineage.Prelude.{
  ℕ, zero, suc, ◌+◌, ◌*◌, ◌/◌, ◌≡◌, ◌≤◌, refl, Bool, true, false, some, none, List, [], ◌∷◌, arith,
  length, ◌==◌,
}
use robolineage.Session.Events.{advancing, low}
use robolineage.Review.Timeline.{Segment}
use robolineage.Review.Outcome.{Outcome, success}
use robolineage.Evaluation.{
  Evaluation, continue_evaluation, is_none, rollout_evaluation, collection_from_rollout,
}
use robolineage.Evaluation.Session.{
  deployment, is_deploy, is_none_needed, Summary, DeploymentDecision, Brief, count_successes,
  aggregate_policy_evaluations, deployment_decision, session_collection, next_collection_brief,
}
use robolineage.Evaluation.Decision.{
  is_pass, is_pending, rate_passes, rate_of, no_collection_exact, session_exact,
}
use robolineage.Evaluation.Monotone.{pass_monotone}

abbrev thousandths : ℕ → ℕ → ℕ
thousandths m zero = 0
thousandths m (suc n) = (m * 1000) / suc n

abbrev rollout : Bool → Evaluation
rollout b = record {
  rollout_id = "r";
  final_success = b;
  phases_seen = "place" ∷ [];
  phase_weakness = [];
  failure_type_counts = [];
  recommended_action = continue_evaluation;
}

abbrev weaker : List Evaluation
weaker = rollout true ∷ rollout true ∷ rollout false ∷ []

abbrev stronger : List Evaluation
stronger = rollout true ∷ rollout true ∷ rollout true ∷ []

abbrev summary : Summary
summary = aggregate_policy_evaluations thousandths deployment weaker

abbrev decision : DeploymentDecision
decision = deployment_decision summary 600 300 deployment

abbrev brief : Brief
brief = next_collection_brief decision (session_collection summary decision)

session_exact_example :
    (summary.success_count + summary.failure_count ≡ summary.rollout_count)
    × (is_pass decision.gating_result ≡ rate_passes deployment 600 300 (rate_of thousandths weaker))
    × (is_deploy decision.decision ≡ is_pass decision.gating_result)
    × (is_pending decision.gating_result ≡ (length weaker == 0))
    × ((brief.target_count == 0) ≡ is_pass decision.gating_result)
    × (is_none brief.scene_variations ≡ is_pass decision.gating_result)
    × (brief.target_count ≤ 30)
session_exact_example =
    session_exact thousandths deployment weaker 600 300 summary decision brief refl refl refl

thousandths_mono : (m n k : ℕ) → m ≤ n → thousandths m k ≤ thousandths n k
thousandths_mono m n zero h = omega arith
thousandths_mono m n (suc k) h =
    let whole : (m * 1000) / suc k * suc k ≤ m * 1000 =
      (le-div_iff_mul-le (omega arith)).0 (omega arith) in
    (le-div_iff_mul-le (omega arith)).1 (omega (arith, whole))

pass_monotone_example :
    is_pass
      (deployment_decision
        (aggregate_policy_evaluations thousandths deployment stronger)
        600
        300
        deployment).gating_result
    ≡ true
unfolding count_successes aggregate_policy_evaluations deployment_decision
pass_monotone_example =
    pass_monotone thousandths deployment weaker stronger 600 300 refl (omega arith) thousandths_mono
      refl

abbrev segment : Segment
segment = record {
  segment_index = 0;
  phase = "place";
  start_frame = 1;
  end_frame = 9;
  start_timestamp = 1;
  end_timestamp = 9;
  duration_sec = 8;
  snapshot_count = 4;
  dominant_progress = advancing;
  max_risk = low;
  needs_review_count = 0;
  imminent_failure_count = 0;
  mean_confidence = 800;
  triggers = [];
  corrected_by_review = false;
  correction_reasons = [];
  online_phases = "place" ∷ [];
  raw_visual_phases = [];
  evidence_frames = 1 ∷ 9 ∷ [];
  zero_duration_reason = none;
}

abbrev outcome : Outcome
outcome = record {
  final_success = true;
  success_status = success;
  success_confidence = 800;
  final_phase = "place";
  final_segment_index = some 0;
  terminal_reached = true;
  terminal_evidence = none;
  retry_count = 0;
  used_vlm = false;
  reasoning = "";
}

no_collection_exact_example :
    is_none_needed
      (collection_from_rollout
        (rollout_evaluation "r" (segment ∷ []) outcome [] 0)
        0).recommended_mode
    ≡ true
no_collection_exact_example = no_collection_exact "r" (segment ∷ []) outcome [] 0 0
