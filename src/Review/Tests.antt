-- ===== src/Review/Tests.antt =====
-- A task of three phases, a rollout of five snapshots, and its review.
use robolineage.Prelude.{ℕ, ◌≡◌, refl, String, true, false, some, none, List, [], ◌∷◌, map, All}
use robolineage.Session.Events.{advancing, low, high}
use robolineage.Review.Points.{
  Point, online_vsa, suppress_isolated_phase_jitter, suppress_after, is_low_evidence_phase_jitter,
}
use robolineage.Review.Timeline.{phase_timeline_from_points, Segment}
use robolineage.Review.Retry.{retry_events, retries_from}
use robolineage.Review.Retry.Returns.{IsReturn, retries-IsReturn}
use robolineage.Review.Outcome.{Outcome, Evidence, success, determine_outcome}
use robolineage.Review.Outcome.Final.{Judges, last_point_decides}
use robolineage.Review.Verdict.{VlmReview}
use robolineage.Review.Admission.{Review, decide}
use robolineage.Review.Admission.Decision.{Means, decide_exact}

abbrev at : ℕ → String → Point
at n phase = record {
  frame_id = n;
  timestamp = n;
  phase = phase;
  online_phase = phase;
  raw_visual_phase = none;
  progress = advancing;
  risk_level = low;
  imminent_failure = false;
  confidence = 600;
  needs_review = false;
  trigger = "periodic";
  source = online_vsa;
  corrected_by_review = false;
  correction_reason = none;
}

-- Phases that alternate with little confidence: each inner point is compared with its neighbours as
-- they were given, so all of them change, the one in the middle too.
alternation :
    map
      (λ p. p.phase)
      (suppress_isolated_phase_jitter (at 1 "a" ∷ at 2 "b" ∷ at 3 "a" ∷ at 4 "b" ∷ at 5 "a" ∷ []))
    ≡ "a" ∷ "a" ∷ "b" ∷ "a" ∷ "a" ∷ []
unfolding suppress_isolated_phase_jitter suppress_after is_low_evidence_phase_jitter
alternation = refl

abbrev points : List Point
points = at 2 "approach" ∷ at 3 "grasp" ∷ at 4 "grasp" ∷ at 5 "place" ∷ []

abbrev mean : List ℕ → ℕ
mean l = 600

abbrev evidence : Evidence
evidence = record {
  phases = "approach" ∷ "grasp" ∷ "place" ∷ [];
  snapshot_records = [];
  final_observation_frames = [];
}

last_point_decides_example : Judges true (some "place") (
    determine_outcome evidence
      (phase_timeline_from_points mean (at 1 "approach" ∷ points) (some "place"))
      [])
last_point_decides_example = last_point_decides mean evidence (at 1 "approach") points []

abbrev succeeded : Outcome
succeeded = record {
  final_success = true;
  success_status = success;
  success_confidence = 900;
  final_phase = "place";
  final_segment_index = some 2;
  terminal_reached = true;
  terminal_evidence = none;
  retry_count = 0;
  used_vlm = true;
  reasoning = "";
}

abbrev verdict : VlmReview
verdict = record {
  final_success = some false;
  success = none;
  covers_episode_end = some false;
  final_phase = "grasp";
  success_confidence = none;
  reasoning = "dropped";
}

-- A timeline that goes back from "place" to "approach" at high risk.
abbrev dropped_points : List Point
dropped_points =
    at 1 "place"
    ∷ at 2 "place"
    ∷ record (at 3 "approach") { risk_level = high }
    ∷ record (at 4 "approach") { risk_level = high }
    ∷ at 5 "place"
    ∷ []

abbrev retried : List Segment
retried = phase_timeline_from_points mean dropped_points (some "place")

one_retry : map (λ r. r.phase) (retry_events retried evidence.phases) ≡ "approach" ∷ []
unfolding retry_events retries_from phase_timeline_from_points robolineage.Prelude.Sort.insert_by
one_retry = refl

retries-IsReturn_example : All (IsReturn evidence.phases) (retry_events retried evidence.phases)
retries-IsReturn_example = retries-IsReturn retried evidence.phases

abbrev review : Review
review = record {
  final_success = true;
  success_status = success;
  used_vlm = false;
  snapshot_count = 4;
  needs_review_count = 3;
  candidate_count = 0;
  recovered_count = 0;
  vlm_review = none;
}

decide_exact_example : Means review (decide review)
decide_exact_example = decide_exact review
