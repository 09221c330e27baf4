-- ===== src/Evaluation/Decision.antt =====
-- What an evaluation decides.
use mathlib.Core.Path.{subst}
use robolineage.Prelude.{
  ℕ, ◌+◌, ◌-◌, ◌≡◌, ◌≤◌, refl, sym, ap, ◌∙◌, String, Bool, true, false, not, ◌&&◌, ◌||◌, Option,
  none, some, List, [], ◌∷◌, all, any, length, leb, ltb, ◌==◌, str_eq, arith, if◌then◌else◌,
}
use robolineage.Session.Events.{Progress, advancing, stalled, regressing}
use robolineage.Review.Points.{is_high}
use robolineage.Review.Timeline.{Segment}
use robolineage.Review.Outcome.{Outcome}
use robolineage.Review.Admission.{dedupe_preserve_order_str}
use robolineage.Evaluation.{
  FailureEvent, PhaseWeakness, Evaluation, Collection, is_none, weakness_reasons, weakness_row,
  reason_if, progress_reason, phase_weakness_of, recommended_next_action, rollout_evaluation,
  collection_from_rollout,
}
use robolineage.Evaluation.Session.{
  Mode, Summary, Gating, pass, pending, DeploymentDecision, Brief, count_successes,
  aggregate_policy_evaluations, is_deployment, is_deploy, is_none_needed, decision_at,
  deployment_decision, session_collection, brief_target_count, scene_variations,
  next_collection_brief,
}

abbrev pub is_steady : Progress → Bool
is_steady stalled = false
is_steady regressing = false
is_steady _ = true

-- The phase that a segment is filed under.
abbrev pub filed_phase : Segment → String
filed_phase s = if str_eq s.phase "" then "unknown" else s.phase

-- A segment without high risk, trouble or doubt, in a phase without a failure.
abbrev pub is_strong : List FailureEvent → Segment → Bool
is_strong events s =
    not (is_high s.max_risk)
    && (is_steady s.dominant_progress
        && ((s.needs_review_count == 0) && not (any (λ e. str_eq e.phase (filed_phase s)) events)))

no_reasons :
    (high review failed : Bool) (p : Progress)
    → is_none (
        reason_if high "high_risk" (
          progress_reason p
            (reason_if (not review) "needs_review" (reason_if failed "failure_event" []))))
      ≡ (not high && (is_steady p && (review && not failed)))
no_reasons high review failed advancing = ground arith
no_reasons high review failed stalled = ground arith
no_reasons high review failed regressing = ground arith
no_reasons high review failed Progress.unknown = ground arith

is_none-row :
    (s : Segment) (reasons : List String) (rest : List PhaseWeakness)
    → is_none (weakness_row s reasons rest) ≡ (is_none reasons && is_none rest)
is_none-row s [] rest = refl
is_none-row s (r ∷ rs) rest = refl

is_none-weakness :
    (timeline : List Segment) (events : List FailureEvent)
    → is_none (phase_weakness_of timeline events) ≡ all (is_strong events) timeline
unfolding phase_weakness_of
is_none-weakness [] events = refl
is_none-weakness (s ∷ ss) events =
    is_none-row s (weakness_reasons s events) (phase_weakness_of ss events)
    ∙ rw (is_none-weakness ss events) (
        ap (λ b. b && all (is_strong events) ss)
          (no_reasons (is_high s.max_risk) (s.needs_review_count == 0)
            (any (λ e. str_eq e.phase (filed_phase s)) events) s.dominant_progress))

-- Of an evaluated rollout nothing more is to be collected exactly if it succeeded and each segment
-- of its timeline is without high risk, stall, regress and doubt and in a phase without a failure, a
-- segment without a phase counting as one of the phase "unknown".
pub no_collection_exact :
    (rollout_id : String) (timeline : List Segment) (outcome : Outcome) (events : List FailureEvent)
    (candidate_count recovered_count : ℕ)
    → is_none_needed
        (collection_from_rollout
          (rollout_evaluation rollout_id timeline outcome events candidate_count)
          recovered_count).recommended_mode
      ≡ (outcome.final_success && all (is_strong events) timeline)
unfolding collection_from_rollout rollout_evaluation recommended_next_action
no_collection_exact rollout_id timeline outcome events candidate_count recovered_count =
    rw (is_none-weakness timeline events) (ground arith)

successes_fit : (es : List Evaluation) → count_successes es ≤ length es
unfolding count_successes
successes_fit [] = omega arith
successes_fit (e ∷ es) = ground (arith, successes_fit es)

abbrev pub is_pass : Gating → Bool
is_pass pass = true
is_pass _ = false

abbrev pub is_pending : Gating → Bool
is_pending pending = true
is_pending _ = false

-- The deployment rule: the rate reaches the threshold, and no rollback is due.
abbrev pub passes : Mode → ℕ → ℕ → ℕ → Bool
passes mode deploy rollback rate = not (is_deployment mode && ltb rate rollback) && leb deploy rate

abbrev pub rate_passes : Mode → ℕ → ℕ → Option ℕ → Bool
rate_passes mode deploy rollback none = false
rate_passes mode deploy rollback (some rate) = passes mode deploy rollback rate

abbrev pub has_no_rate : Option ℕ → Bool
has_no_rate none = true
has_no_rate (some n) = false

pub record Follows (mode : Mode) (deploy rollback : ℕ) (rate : Option ℕ) (d : DeploymentDecision)
    : Type 0 where
  pub gated : is_pass d.gating_result ≡ rate_passes mode deploy rollback rate
  pub deployed : is_deploy d.decision ≡ is_pass d.gating_result
  pub waits : is_pending d.gating_result ≡ has_no_rate rate

pub decision-Follows :
    (rate : Option ℕ) (mode : Mode) (deploy rollback : ℕ) (s : Summary)
    → Follows mode deploy rollback rate (decision_at rate deploy rollback mode s)
unfolding decision_at
decision-Follows none mode deploy rollback s = record {
  gated = refl;
  deployed = refl;
  waits = refl;
}
decision-Follows (some rate) mode deploy rollback s = record {
  gated = ground arith;
  deployed = ground arith;
  waits = ground arith;
}

some_scenes : (modes phases : List String) → is_none (scene_variations modes phases) ≡ false
unfolding scene_variations dedupe_preserve_order_str
some_scenes [] [] = refl
some_scenes [] (p ∷ ps) = refl
some_scenes (m ∷ ms) [] = refl
some_scenes (m ∷ ms) (p ∷ ps) = refl

none_needed-deploy :
    (s : Summary) (d : DeploymentDecision)
    → is_none_needed (session_collection s d).recommended_mode ≡ is_deploy d.decision
unfolding session_collection
none_needed-deploy s d = ground arith

-- Nothing is to be collected next exactly after a decision to deploy.
brief_target :
    (d : DeploymentDecision) (c : Collection)
    → ((next_collection_brief d c).target_count == 0) ≡ is_deploy d.decision
unfolding next_collection_brief brief_target_count
brief_target d c = ground arith

brief_fits :
    (d : DeploymentDecision) (c : Collection) → (next_collection_brief d c).target_count ≤ 30
unfolding next_collection_brief brief_target_count
brief_fits d c = ground arith

scenes_if :
    (a b : Bool) (l : List String)
    → a ≡ b
    → is_none l ≡ false
    → is_none (if a || b then [] else l) ≡ b
scenes_if true true l h k = refl
scenes_if true false l h k = absurd (cc h)
scenes_if false true l h k = refl
scenes_if false false l h k = k

brief_scenes :
    (s : Summary) (d : DeploymentDecision)
    → is_none (next_collection_brief d (session_collection s d)).scene_variations
      ≡ is_deploy d.decision
unfolding next_collection_brief session_collection
brief_scenes s d =
    scenes_if (is_none_needed (session_collection s d).recommended_mode) (is_deploy d.decision)
      (scene_variations (session_collection s d).focus_failure_modes
        (session_collection s d).focus_phases)
      (none_needed-deploy s d)
      (some_scenes (session_collection s d).focus_failure_modes
        (session_collection s d).focus_phases)

-- The rate of a session, if it has rollouts.
abbrev pub rate_of : (ℕ → ℕ → ℕ) → List Evaluation → Option ℕ
rate_of round_rate es =
    if length es == 0 then none else some (round_rate (count_successes es) (length es))

has_no_rate-if : (b : Bool) (n : ℕ) → has_no_rate (if b then none else some n) ≡ b
has_no_rate-if true n = refl
has_no_rate-if false n = refl

split_count : (m n : ℕ) → m ≤ n → m + (n - m) ≡ n
split_count m n h = omega arith

-- A session's counts add up. Its policy passes the gate, and is to be deployed, exactly if there are
-- rollouts, their success rate reaches the threshold for deployment, and in deployment mode it is not
-- below the one for a rollback; the gate is pending exactly without rollouts. Nothing more is to be
-- collected, and no scene varied, exactly if the policy passes, and never more than 30 rollouts.
pub session_exact :
    (round_rate : ℕ → ℕ → ℕ) (mode : Mode) (es : List Evaluation) (deploy rollback : ℕ)
    (s : Summary) (d : DeploymentDecision) (b : Brief)
    → s ≡ aggregate_policy_evaluations round_rate mode es
    → d ≡ deployment_decision s deploy rollback mode
    → b ≡ next_collection_brief d (session_collection s d)
    → (s.success_count + s.failure_count ≡ s.rollout_count)
      × (is_pass d.gating_result ≡ rate_passes mode deploy rollback (rate_of round_rate es))
      × (is_deploy d.decision ≡ is_pass d.gating_result)
      × (is_pending d.gating_result ≡ (length es == 0))
      × ((b.target_count == 0) ≡ is_pass d.gating_result)
      × (is_none b.scene_variations ≡ is_pass d.gating_result)
      × (b.target_count ≤ 30)
unfolding aggregate_policy_evaluations deployment_decision
session_exact round_rate mode es deploy rollback s d b is_s is_d is_b =
    let f =
      subst (Follows mode deploy rollback s.success_rate) (sym is_d)
        (decision-Follows s.success_rate mode deploy rollback s) in
    let rate : s.success_rate ≡ rate_of round_rate es = ap (λ s. s.success_rate) is_s in
    (
      (λ i. (is_s i).success_count + (is_s i).failure_count)
          ∙ split_count (count_successes es) (length es) (successes_fit es)
          ∙ sym (ap (λ s. s.rollout_count) is_s),
      f.gated ∙ ap (rate_passes mode deploy rollback) rate,
      f.deployed,
      f.waits
          ∙ ap has_no_rate rate
          ∙ has_no_rate-if (length es == 0) (round_rate (count_successes es) (length es)),
      ap (λ b. b.target_count == 0) is_b ∙ brief_target d (session_collection s d) ∙ f.deployed,
      ap (λ b. is_none b.scene_variations) is_b ∙ brief_scenes s d ∙ f.deployed,
      subst (λ b. b.target_count ≤ 30) (sym is_b) (brief_fits d (session_collection s d)),
    )
