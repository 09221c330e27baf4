-- ===== src/Review/Outcome/Final.antt =====
-- What the outcome says about the points.
use mathlib.Core.Path.{subst}
use robolineage.Prelude.{
  ℕ, ◌≡◌, refl, ap, String, Bool, true, false, Option, none, some, List, [], ◌∷◌, arith, last_or,
  length, str_eq, eq_iff,
}
use robolineage.Review.Points.{Point, equals_option, terminal_of}
use robolineage.Review.Timeline.{Segment, phase_timeline_from_points}
use robolineage.Review.Timeline.Ends.{LastIs, Ends, timeline-Ends}
use robolineage.Review.Outcome.{
  SuccessStatus, success, Outcome, Evidence, TerminalEvidence, outcome_at, terminal_evidence,
  evidence_unless, determine_outcome, has,
}
use robolineage.Review.Retry.{RetryEvent}

abbrev pub is_success : SuccessStatus → Bool
is_success success = true
is_success _ = false

-- What the outcome says where the last point is, or is not, in the terminal phase.
abbrev pub Judges : Bool → Option String → Outcome → Type 0
Judges true terminal o =
    (o.final_success ≡ true) × (terminal ≡ some o.final_phase) × (has o.terminal_evidence ≡ false)
Judges false terminal o =
    (is_success o.success_status ≡ false) × (o.final_success ≡ has o.terminal_evidence)

last_is :
    (P : Segment → Type 0) (s : Segment) (ss : List Segment) → LastIs P (s ∷ ss) → P (last_or s ss)
last_is P s [] h = h
last_is P s (t ∷ ts) h = last_is P t ts h

equal : (s t : String) → str_eq s t ≡ true → s ≡ t
equal s t h = ground (arith, eq_iff s t)

with_found :
    (t : String) (found : Option TerminalEvidence) (retries : ℕ) (final : Segment)
    → str_eq t final.phase ≡ false
    → Judges false (some t) (outcome_at (some t) found retries final)
with_found t none retries final h = ground arith
with_found t (some e) retries final h = ground arith

outcome_some :
    (t : String) (found : Option TerminalEvidence) (retries : ℕ) (final : Segment) (at_end : Bool)
    → str_eq t final.phase ≡ at_end
    → Judges at_end (some t) (outcome_at (some t) (evidence_unless at_end found) retries final)
outcome_some t found retries final true h = rw h (refl, ap some (equal t final.phase h), refl)
outcome_some t found retries final false h = with_found t found retries final h

outcome_of :
    (terminal : Option String) (evidence : Evidence) (timeline : List Segment) (retries : ℕ)
    (final : Segment)
    → terminal_of evidence.phases ≡ terminal
    → Judges (equals_option terminal final.phase) terminal (
        outcome_at terminal
          (evidence_unless
            (equals_option terminal final.phase)
            (terminal_evidence evidence timeline))
          retries
          final)
unfolding terminal_evidence
outcome_of none evidence timeline retries final h = rw h (refl, refl)
outcome_of (some t) evidence timeline retries final h =
    outcome_some t (terminal_evidence evidence timeline) retries final (str_eq t final.phase) refl

judged :
    (evidence : Evidence) (timeline : List Segment) (retries : List RetryEvent) (q : Point)
    → LastIs (Ends q) timeline
    → Judges
        (equals_option (terminal_of evidence.phases) q.phase)
        (terminal_of evidence.phases)
        (determine_outcome evidence timeline retries)
unfolding determine_outcome
judged evidence [] retries q h = absurd h
judged evidence (s ∷ ss) retries q h =
    let terminal = terminal_of evidence.phases in
    let last = last_is (Ends q) s ss h in
    subst
      (λ x.
        Judges (equals_option terminal x) terminal (determine_outcome evidence (s ∷ ss) retries))
      (last.0) (outcome_of terminal evidence (s ∷ ss) (length retries) (last_or s ss) refl)

-- The outcome of the timeline of at least one point, with any retries: where the last point is in
-- the task's terminal phase, the rollout counts as successful and ends in that phase, without other
-- evidence. Where it is not, the status is never success, and the rollout counts as successful
-- exactly if other evidence of the terminal phase was found.
pub last_point_decides :
    (mean : List ℕ → ℕ) (evidence : Evidence) (p : Point) (ps : List Point)
    (retries : List RetryEvent)
    → Judges
        (equals_option (terminal_of evidence.phases) (last_or p ps).phase)
        (terminal_of evidence.phases)
        (determine_outcome evidence
          (phase_timeline_from_points mean (p ∷ ps) (terminal_of evidence.phases))
          retries)
last_point_decides mean evidence p ps retries =
    judged evidence (phase_timeline_from_points mean (p ∷ ps) (terminal_of evidence.phases)) retries
      (last_or p ps) ((timeline-Ends mean p ps (terminal_of evidence.phases)).1)
