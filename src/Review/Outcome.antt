-- ===== src/Review/Outcome.antt =====
-- The outcome of the rollout: `terminal_evidence` and `determine_outcome`. A confidence is a number of
-- thousandths.
pub mod Final
use robolineage.Prelude.{
  ℕ, suc, ◌-◌, String, Bool, true, false, not, ◌&&◌, ◌||◌, Option, none, some, List, [], ◌∷◌, ◌++◌,
  any, drop, last_or, length, reverse, max, min, ltb, ◌==◌, str_eq, if◌then◌else◌,
}
use robolineage.Review.Points.{
  SnapshotRecord, is_high, is_regressing, equals_option, phase_index, is_phase, terminal_of,
}
use robolineage.Review.Timeline.{Segment}
use robolineage.Review.Retry.{RetryEvent}

pub data EvidenceSource : Type 0 where
  final_observation_phase_segment final_observation_raw_visual_phase trailing_raw_visual_phase :
      EvidenceSource

pub record TerminalEvidence : Type 0 where
  pub source : EvidenceSource
  pub frame_id : ℕ
  pub segment_index : Option ℕ

-- The frames of the final observations, from the windows.
abbrev pub meets : List ℕ → List ℕ → Bool
meets frames l = any (λ n. any (λ m. m == n) frames) l

-- The first segment that shows the terminal phase at the final observation.
unfoldable pub segment_evidence : String → List ℕ → List Segment → Option TerminalEvidence
segment_evidence terminal frames [] = none
segment_evidence terminal frames (s ∷ ss) =
    if str_eq s.phase terminal
      && (any (λ t. str_eq t "final_observation") s.triggers || meets frames s.evidence_frames)
    then some (record {
      source = final_observation_phase_segment;
      frame_id = s.end_frame;
      segment_index = some s.segment_index;
    })
    else segment_evidence terminal frames ss

-- The first record that passes the test and whose image shows the terminal phase.
unfoldable pub record_evidence :
    EvidenceSource
    → (SnapshotRecord → Bool)
    → String
    → List SnapshotRecord
    → Option TerminalEvidence
record_evidence source passes terminal [] = none
record_evidence source passes terminal (r ∷ rs) =
    if passes r && equals_option r.raw_visual_phase terminal
    then some (record { source = source; frame_id = r.frame_id; segment_index = none })
    else record_evidence source passes terminal rs

abbrev pub or_evidence : Option TerminalEvidence → Option TerminalEvidence → Option TerminalEvidence
or_evidence none e = e
or_evidence (some e) e' = some e

abbrev pub is_final_observation : SnapshotRecord → Bool
is_final_observation r = equals_option r.trigger "final_observation"

-- What the outcome reads of the evidence.
pub record Evidence : Type 0 where
  pub phases : List String
  pub snapshot_records : List SnapshotRecord
  pub final_observation_frames : List ℕ

abbrev pub evidence_for : Option String → Evidence → List Segment → Option TerminalEvidence
evidence_for none evidence timeline = none
evidence_for (some terminal) evidence timeline =
    let records = evidence.snapshot_records in
    or_evidence (segment_evidence terminal evidence.final_observation_frames (reverse timeline)) (
      or_evidence
        (record_evidence final_observation_raw_visual_phase is_final_observation terminal
          (reverse records))
        (record_evidence trailing_raw_visual_phase (λ r. true) terminal
          (reverse (drop (length records - 3) records))))

unfoldable pub terminal_evidence : Evidence → List Segment → Option TerminalEvidence
unfolding segment_evidence record_evidence
terminal_evidence evidence timeline = evidence_for (terminal_of evidence.phases) evidence timeline

pub data SuccessStatus : Type 0 where
  unknown uncertain success failure : SuccessStatus

pub record Outcome : Type 0 where
  pub final_success : Bool
  pub success_status : SuccessStatus
  pub success_confidence : ℕ
  pub final_phase : String
  pub final_segment_index : Option ℕ
  pub terminal_reached : Bool
  pub terminal_evidence : Option TerminalEvidence
  pub retry_count : ℕ
  pub used_vlm : Bool
  pub reasoning : String

abbrev pub has {ℓ} : {A : Type ℓ} → Option A → Bool
has none = false
has (some a) = true

abbrev pub phase_or : Option String → String → String
phase_or none d = d
phase_or (some t) d = t

-- The outcome of a timeline that ends in the segment `final`.
abbrev pub outcome_at : Option String → Option TerminalEvidence → ℕ → Segment → Outcome
outcome_at terminal found retries final =
    let at_terminal = equals_option terminal final.phase in
    let reached = has terminal && (at_terminal || has found) in
    let final_risk_high = is_high final.max_risk in
    let final_regressing = is_regressing final.dominant_progress in
    let risky = reached && (final_risk_high || final_regressing) in
    record {
      final_success = reached;
      success_status =
          if risky
          then uncertain
          else if reached && has found
          then uncertain
          else if reached
          then success
          else failure;
      success_confidence = min 1000 (
          if reached && not (risky || has found)
          then max 550 final.mean_confidence
          else max 450 final.mean_confidence);
      final_phase = if has found then phase_or terminal final.phase else final.phase;
      final_segment_index = some final.segment_index;
      terminal_reached = reached;
      terminal_evidence = found;
      retry_count = retries;
      used_vlm = false;
      reasoning =
          if risky
          then (if final_risk_high
              then "terminal_phase_reached_with_unresolved_final_risk"
              else "terminal_phase_reached_but_final_progress_regressing")
          else if reached && has found
          then "terminal_phase_supported_by_terminal_evidence"
          else if reached
          then "terminal_phase_confirmed_without_final_high_risk"
          else if not (has terminal)
          then "task_has_no_terminal_phase"
          else "final_phase_not_terminal";
    }

-- The evidence is looked for where the timeline does not end in the terminal phase.
abbrev pub evidence_unless : Bool → Option TerminalEvidence → Option TerminalEvidence
evidence_unless true e = none
evidence_unless false e = e

-- Without a segment the terminal phase may still show in the records, but that is no success.
abbrev pub empty_outcome : Option TerminalEvidence → Option String → ℕ → Outcome
empty_outcome found terminal retries = record {
  final_success = false;
  success_status = unknown;
  success_confidence = 0;
  final_phase = if has found then phase_or terminal "unknown" else "unknown";
  final_segment_index = none;
  terminal_reached = has terminal && (equals_option terminal "unknown" || has found);
  terminal_evidence = found;
  retry_count = retries;
  used_vlm = false;
  reasoning = "no_snapshots";
}

unfoldable pub determine_outcome : Evidence → List Segment → List RetryEvent → Outcome
unfolding terminal_evidence
determine_outcome evidence [] retries =
    let terminal = terminal_of evidence.phases in
    let found =
      evidence_unless (equals_option terminal "unknown") (terminal_evidence evidence []) in
    empty_outcome found terminal (length retries)
determine_outcome evidence (s ∷ ss) retries =
    let terminal = terminal_of evidence.phases in
    let final = last_or s ss in
    let found =
      evidence_unless (equals_option terminal final.phase) (terminal_evidence evidence (s ∷ ss)) in
    outcome_at terminal found (length retries) final
