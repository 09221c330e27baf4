-- ===== src/Evaluation.antt =====
-- The evaluation of policies (src/robolineage_eval/agents.py): what one rollout shows, in this file,
-- and what a session of rollouts decides, in Evaluation/Session.
pub mod Session
pub mod Decision
pub mod Monotone
mod Tests
use robolineage.Prelude.{
  ℕ, suc, ◌+◌, String, Bool, true, false, not, ◌&&◌, ◌||◌, Option, none, some, List, [], ◌∷◌, ◌++◌,
  any, map, ◌==◌, str_eq, if◌then◌else◌,
}
use robolineage.Prelude.Dict.{Dict, get, put}
use robolineage.Session.Events.{Progress, stalled, regressing}
use robolineage.Review.Points.{is_high}
use robolineage.Review.Timeline.{Segment}
use robolineage.Review.Outcome.{Outcome}
use robolineage.Review.Admission.{dedupe_preserve_order_str}

pub data Severity : Type 0 where
  low medium high : Severity

-- A failure event, in the fields that are read; an absent type or phase is "unknown".
pub record FailureEvent : Type 0 where
  pub failure_type : String
  pub phase : String

pub record PhaseWeakness : Type 0 where
  pub phase : String
  pub segment_index : ℕ
  pub start_frame : ℕ
  pub end_frame : ℕ
  pub severity : Severity
  pub reasons : List String

abbrev pub contains : String → List String → Bool
contains s l = any (λ t. str_eq s t) l

unfoldable pub severity_from_reasons : List String → Severity
severity_from_reasons reasons =
    if contains "failure_event" reasons || contains "high_risk" reasons
    then high
    else if contains "regressing" reasons
    then medium
    else low

abbrev pub reason_if : Bool → String → List String → List String
reason_if true r l = r ∷ l
reason_if false r l = l

abbrev pub progress_reason : Progress → List String → List String
progress_reason stalled l = "stalled" ∷ l
progress_reason regressing l = "regressing" ∷ l
progress_reason _ l = l

-- str(segment.get("phase") or "unknown")
abbrev pub phase_or_unknown : Segment → String
phase_or_unknown s = if str_eq s.phase "" then "unknown" else s.phase

abbrev pub weakness_reasons : Segment → List FailureEvent → List String
weakness_reasons s events = reason_if (is_high s.max_risk) "high_risk" (
    progress_reason s.dominant_progress (
      reason_if (not (s.needs_review_count == 0)) "needs_review"
        (reason_if (any (λ e. str_eq e.phase (phase_or_unknown s)) events) "failure_event" [])))

abbrev pub weakness_row : Segment → List String → List PhaseWeakness → List PhaseWeakness
weakness_row s [] rest = rest
weakness_row s (r ∷ rs) rest =
    record {
      phase = phase_or_unknown s;
      segment_index = s.segment_index;
      start_frame = s.start_frame;
      end_frame = s.end_frame;
      severity = severity_from_reasons (r ∷ rs);
      reasons = dedupe_preserve_order_str [] (r ∷ rs);
    }
    ∷ rest

-- _phase_weakness
unfoldable pub phase_weakness_of : List Segment → List FailureEvent → List PhaseWeakness
unfolding severity_from_reasons dedupe_preserve_order_str
phase_weakness_of [] events = []
phase_weakness_of (s ∷ ss) events =
    weakness_row s (weakness_reasons s events) (phase_weakness_of ss events)

pub data NextAction : Type 0 where
  continue_evaluation collect_recovery_or_edge_cases collect_targeted_failure_data
        collect_more_generalization_data :
      NextAction

abbrev pub is_none : {A : Type 0} → List A → Bool
is_none [] = true
is_none (x ∷ xs) = false

unfoldable pub recommended_next_action : Bool → ℕ → List PhaseWeakness → NextAction
recommended_next_action final_success candidate_count weakness =
    if final_success && is_none weakness
    then continue_evaluation
    else if final_success
    then collect_recovery_or_edge_cases
    else if not (candidate_count == 0)
    then collect_targeted_failure_data
    else collect_more_generalization_data

-- counter[k] += n
abbrev pub or_zero : Option ℕ → ℕ
or_zero none = 0
or_zero (some n) = n

abbrev pub add_count : String → ℕ → Dict ℕ → Dict ℕ
add_count k n d = put k (or_zero (get k d) + n) d

unfoldable pub count_types : List FailureEvent → Dict ℕ → Dict ℕ
count_types [] d = d
count_types (e ∷ es) d = count_types es (add_count e.failure_type 1 d)

-- What the evaluation of a rollout says to the session, and to the collection of data.
pub record Evaluation : Type 0 where
  pub rollout_id : String
  pub final_success : Bool
  pub phases_seen : List String
  pub phase_weakness : List PhaseWeakness
  pub failure_type_counts : Dict ℕ
  pub recommended_action : NextAction

-- _rollout_evaluation
unfoldable pub rollout_evaluation :
    String → List Segment → Outcome → List FailureEvent → ℕ → Evaluation
unfolding phase_weakness_of recommended_next_action count_types
rollout_evaluation rollout_id timeline outcome events candidate_count =
    let weakness = phase_weakness_of timeline events in
    record {
      rollout_id = rollout_id;
      final_success = outcome.final_success;
      phases_seen = map (λ s. s.phase) timeline;
      phase_weakness = weakness;
      failure_type_counts = count_types events [];
      recommended_action = recommended_next_action outcome.final_success candidate_count weakness;
    }

pub data CollectionMode : Type 0 where
  none_needed b1_reference_correction b2_deployment_monitoring a_generalization : CollectionMode

pub record Collection : Type 0 where
  pub recommended_mode : CollectionMode
  pub focus_phases : List String
  pub focus_failure_modes : List String

abbrev pub continues : NextAction → Bool
continues continue_evaluation = true
continues _ = false

abbrev pub nonempty_phases : List PhaseWeakness → List String
nonempty_phases [] = []
nonempty_phases (w ∷ ws) =
    let rest = nonempty_phases ws in if str_eq w.phase "" then rest else w.phase ∷ rest

-- _collection_recommendation_from_rollout
unfoldable pub collection_from_rollout : Evaluation → ℕ → Collection
unfolding dedupe_preserve_order_str
collection_from_rollout e recovered_count = record {
  recommended_mode =
      if continues e.recommended_action
      then none_needed
      else if not (recovered_count == 0)
      then b1_reference_correction
      else if not e.final_success
      then b2_deployment_monitoring
      else a_generalization;
  focus_phases = dedupe_preserve_order_str [] (nonempty_phases e.phase_weakness);
  focus_failure_modes = dedupe_preserve_order_str [] (map (λ p. p.0) e.failure_type_counts);
}
