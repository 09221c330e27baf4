-- ===== src/Evaluation/Session.antt =====
-- A session of evaluated rollouts: `aggregate_policy_evaluations`, the decision about the policy and
-- what to collect next. A rate is a number of thousandths, rounded as the parameter says.
use robolineage.Prelude.{
  ℕ, suc, ◌-◌, String, Bool, true, false, not, ◌&&◌, ◌||◌, Option, none, some, List, [], ◌∷◌, ◌++◌,
  map, length, max, ltb, leb, ◌==◌, str_eq, if◌then◌else◌,
}
use robolineage.Prelude.Dict.{Dict, get}
use robolineage.Review.Admission.{dedupe_preserve_order_str}
use robolineage.Evaluation.{
  PhaseWeakness, Evaluation, CollectionMode, none_needed, b2_deployment_monitoring,
  a_generalization, Collection, or_zero, add_count, is_none,
}

pub data Mode : Type 0 where
  deployment evaluation : Mode

pub record WeakPhase : Type 0 where
  pub phase : String
  pub failure_or_weak_rollouts : ℕ
  pub attempted_rollouts : ℕ
  pub weakness_rate : ℕ

pub record Summary : Type 0 where
  pub mode : Mode
  pub rollout_count : ℕ
  pub success_count : ℕ
  pub failure_count : ℕ
  pub success_rate : Option ℕ
  pub failure_type_counts : Dict ℕ
  pub phase_weakness : List WeakPhase
  pub rollout_ids : List String

abbrev pub count_phases : List String → Dict ℕ → Dict ℕ
count_phases [] d = d
count_phases (p ∷ ps) d = count_phases ps (add_count p 1 d)

abbrev pub add_counts : Dict ℕ → Dict ℕ → Dict ℕ
add_counts [] d = d
add_counts ((k, n) ∷ l) d = add_counts l (add_count k n d)

abbrev pub weakness_phase : PhaseWeakness → String
weakness_phase w = if str_eq w.phase "" then "unknown" else w.phase

unfoldable pub phase_attempts : List Evaluation → Dict ℕ → Dict ℕ
phase_attempts [] d = d
phase_attempts (e ∷ es) d = phase_attempts es (count_phases e.phases_seen d)

unfoldable pub failure_types : List Evaluation → Dict ℕ → Dict ℕ
failure_types [] d = d
failure_types (e ∷ es) d = failure_types es (add_counts e.failure_type_counts d)

unfoldable pub phase_failures : List Evaluation → Dict ℕ → Dict ℕ
phase_failures [] d = d
phase_failures (e ∷ es) d = phase_failures es (count_phases (map weakness_phase e.phase_weakness) d)

-- Counter.most_common(): falling counts, equal ones in their order.
unfoldable pub insert_common : String × ℕ → Dict ℕ → Dict ℕ
insert_common x [] = x ∷ []
insert_common (k, n) ((j, m) ∷ d) =
    let rest = insert_common (k, n) d in if ltb n m then (j, m) ∷ rest else (k, n) ∷ (j, m) ∷ d

unfoldable pub most_common : Dict ℕ → Dict ℕ
unfolding insert_common
most_common [] = []
most_common (x ∷ d) = insert_common x (most_common d)

unfoldable pub count_successes : List Evaluation → ℕ
count_successes [] = 0
count_successes (e ∷ es) =
    let rest = count_successes es in if e.final_success then suc rest else rest

abbrev pub or_count : Option ℕ → ℕ → ℕ
or_count none d = d
or_count (some n) d = n

module _ (round_rate : ℕ → ℕ → ℕ) where
  abbrev pub weak_phases : ℕ → Dict ℕ → Dict ℕ → List WeakPhase
  weak_phases total attempts [] = []
  weak_phases total attempts ((p, n) ∷ d) =
      record {
        phase = p;
        failure_or_weak_rollouts = n;
        attempted_rollouts = or_zero (get p attempts);
        weakness_rate = round_rate n (max 1 (or_count (get p attempts) total));
      }
      ∷ weak_phases total attempts d

  unfoldable pub aggregate_policy_evaluations : Mode → List Evaluation → Summary
  unfolding phase_attempts failure_types phase_failures most_common count_successes
  aggregate_policy_evaluations mode evaluations =
      let total = length evaluations in
      let successes = count_successes evaluations in
      record {
        mode = mode;
        rollout_count = total;
        success_count = successes;
        failure_count = total - successes;
        success_rate = if total == 0 then none else some (round_rate successes total);
        failure_type_counts = failure_types evaluations [];
        phase_weakness =
            weak_phases total (phase_attempts evaluations [])
              (most_common (phase_failures evaluations []));
        rollout_ids = map (λ e. e.rollout_id) evaluations;
      }

pub data PolicyDecision : Type 0 where
  hold rollback_recommended deploy_recommended collect_more_data : PolicyDecision

pub data Gating : Type 0 where
  pass fail pending : Gating

pub record DeploymentDecision : Type 0 where
  pub decision : PolicyDecision
  pub gating_result : Gating
  pub success_rate : Option ℕ
  pub reasons : List String

abbrev pub is_deployment : Mode → Bool
is_deployment deployment = true
is_deployment evaluation = false

abbrev pub decided : PolicyDecision → Gating → String → Summary → DeploymentDecision
decided d g reason s = record {
  decision = d;
  gating_result = g;
  success_rate = s.success_rate;
  reasons = dedupe_preserve_order_str [] (
      reason
      ∷ ((if is_none s.phase_weakness then [] else "phase_level_weakness_detected" ∷ [])
          ++ (if is_none s.failure_type_counts then [] else "failure_modes_detected" ∷ [])));
}

-- By the session's success rate, if it has one, with the thresholds for deployment and rollback.
unfoldable pub decision_at : Option ℕ → ℕ → ℕ → Mode → Summary → DeploymentDecision
unfolding dedupe_preserve_order_str
decision_at none deploy rollback mode s = decided hold pending "no_completed_evaluation_rollouts" s
decision_at (some rate) deploy rollback mode s =
    if is_deployment mode && ltb rate rollback
    then decided rollback_recommended fail "deployment_success_rate_below_rollback_threshold" s
    else if leb deploy rate
    then decided deploy_recommended pass "success_rate_meets_deploy_threshold" s
    else if leb rollback rate
    then decided collect_more_data fail "success_rate_between_rollback_and_deploy_threshold" s
    else decided hold fail "success_rate_below_minimum" s

-- _deployment_decision
unfoldable pub deployment_decision : Summary → ℕ → ℕ → Mode → DeploymentDecision
unfolding decision_at
deployment_decision s deploy rollback mode = decision_at s.success_rate deploy rollback mode s

abbrev pub is_deploy : PolicyDecision → Bool
is_deploy deploy_recommended = true
is_deploy _ = false

abbrev pub is_rollback : PolicyDecision → Bool
is_rollback rollback_recommended = true
is_rollback _ = false

abbrev pub named_phases : List WeakPhase → List String
named_phases [] = []
named_phases (w ∷ ws) =
    let rest = named_phases ws in if str_eq w.phase "" then rest else w.phase ∷ rest

-- _session_collection_recommendation
unfoldable pub session_collection : Summary → DeploymentDecision → Collection
unfolding dedupe_preserve_order_str
session_collection s d = record {
  recommended_mode =
      if is_deploy d.decision
      then none_needed
      else if not (is_none s.failure_type_counts)
      then b2_deployment_monitoring
      else a_generalization;
  focus_phases = dedupe_preserve_order_str [] (named_phases s.phase_weakness);
  focus_failure_modes = dedupe_preserve_order_str [] (map (λ p. p.0) s.failure_type_counts);
}

-- _brief_target_count
unfoldable pub brief_target_count : PolicyDecision → List String → List String → ℕ
brief_target_count d focus_phases failure_modes =
    if is_deploy d
    then 0
    else if is_rollback d
    then 30
    else if not (is_none failure_modes)
    then 20
    else if not (is_none focus_phases)
    then 15
    else 12

-- _scene_variations
unfoldable pub scene_variations : List String → List String → List String
unfolding dedupe_preserve_order_str
scene_variations failure_modes focus_phases =
    let variations =
      (if is_none failure_modes
        then []
        else "recreate the observed failure conditions with small object pose changes"
          ∷ "include at least a few corrected or recovered attempts" ∷ [])
      ++ (if is_none focus_phases
          then []
          else "vary object placement near the weak phase boundary"
            ∷ "capture both clean and borderline executions for the focus phases" ∷ []) in
    if is_none variations
    then "vary object pose, distance and mild occlusion while keeping the same task goal" ∷ []
    else dedupe_preserve_order_str [] variations

abbrev pub is_none_needed : CollectionMode → Bool
is_none_needed none_needed = true
is_none_needed _ = false

pub record Brief : Type 0 where
  pub source_decision : PolicyDecision
  pub recommended_mode : CollectionMode
  pub target_count : ℕ
  pub scene_variations : List String

-- _next_collection_brief, without its sentences for the operator
unfoldable pub next_collection_brief : DeploymentDecision → Collection → Brief
unfolding brief_target_count scene_variations
next_collection_brief d c = record {
  source_decision = d.decision;
  recommended_mode = c.recommended_mode;
  target_count = brief_target_count d.decision c.focus_phases c.focus_failure_modes;
  scene_variations =
      if is_none_needed c.recommended_mode || is_deploy d.decision
      then []
      else scene_variations c.focus_failure_modes c.focus_phases;
}
