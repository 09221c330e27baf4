-- ===== src/Review/Retry.antt =====
-- Retries on the timeline: `retry_events`.
pub mod Returns
use robolineage.Prelude.{
  ℕ, suc, ◌-◌, String, Bool, true, false, not, ◌&&◌, ◌||◌, Option, none, some, List, [], ◌∷◌, ◌++◌,
  any, drop, last_or, length, reverse, max, min, ltb, ◌==◌, str_eq, if◌then◌else◌,
}
use robolineage.Review.Points.{
  SnapshotRecord, is_high, is_regressing, equals_option, phase_index, is_phase, terminal_of,
}
use robolineage.Review.Timeline.{Segment}

-- The entries of a retry's evidence about one segment, "current" or "prior".
pub data RetryEvidence : Type 0 where
  high_risk imminent_failure regressing needs_review review_confirmed_retry : Bool → RetryEvidence

abbrev pub entry_if : Bool → RetryEvidence → List RetryEvidence → List RetryEvidence
entry_if true e l = e ∷ l
entry_if false e l = l

abbrev pub is_retry_reason : String → Bool
is_retry_reason r =
    str_eq r "terminal_phase_retry_evidence" || str_eq r "offline_vlm_retry_evidence"

abbrev pub evidence_of : Bool → Segment → List RetryEvidence
evidence_of current s = entry_if (is_high s.max_risk) (high_risk current) (
    entry_if (not (s.imminent_failure_count == 0)) (imminent_failure current) (
      entry_if (is_regressing s.dominant_progress) (regressing current) (
        entry_if (not (s.needs_review_count == 0)) (needs_review current) (
          entry_if (any is_retry_reason s.correction_reasons) (review_confirmed_retry current)
            []))))

-- The entries about different segments differ, so no entry stands twice.
unfoldable pub retry_evidence : Segment → Option Segment → List RetryEvidence
retry_evidence segment none = evidence_of true segment
retry_evidence segment (some prior) = evidence_of true segment ++ evidence_of false prior

pub record RetryEvent : Type 0 where
  pub start_frame : ℕ
  pub end_frame : ℕ
  pub phase : String
  pub from_phase : Option String
  pub evidence : List RetryEvidence
  pub evidence_frames : List ℕ

-- The latest phase that was reached: its index and its segment.
abbrev pub Reached : Type 0
Reached = Option (ℕ × Segment)

abbrev pub reached_phase : Reached → Option String
reached_phase none = none
reached_phase (some (n, s)) = some s.phase

abbrev pub reached_segment : Reached → Option Segment
reached_segment none = none
reached_segment (some (n, s)) = some s

abbrev pub is_before : ℕ → Reached → Bool
is_before n none = false
is_before n (some (m, s)) = ltb n m

abbrev pub further : ℕ → Segment → Reached → Reached
further n s none = some (n, s)
further n s (some (m, t)) = if ltb m n then some (n, s) else some (m, t)

abbrev pub with_evidence :
    Segment → Reached → List RetryEvidence → List RetryEvent → List RetryEvent
with_evidence s reached [] rest = rest
with_evidence s reached (e ∷ es) rest =
    record {
      start_frame = s.start_frame;
      end_frame = s.end_frame;
      phase = s.phase;
      from_phase = reached_phase reached;
      evidence = e ∷ es;
      evidence_frames = s.evidence_frames;
    }
    ∷ rest

abbrev pub retry_if : Bool → Segment → Reached → List RetryEvent → List RetryEvent
retry_if false s reached rest = rest
retry_if true s reached rest =
    with_evidence s reached (retry_evidence s (reached_segment reached)) rest

abbrev pub reached_after : Option ℕ → Segment → Reached → Reached
reached_after none s reached = reached
reached_after (some n) s reached = further n s reached

abbrev pub returned : Option ℕ → Reached → Bool
returned none reached = false
returned (some n) reached = is_before n reached

unfoldable pub retries_from : List String → Reached → List Segment → List RetryEvent
unfolding retry_evidence phase_index
retries_from phases reached [] = []
retries_from phases reached (s ∷ ss) =
    let index = phase_index phases s.phase in
    retry_if (returned index reached) s reached
      (retries_from phases (reached_after index s reached) ss)

unfoldable pub retry_events : List Segment → List String → List RetryEvent
unfolding retries_from
retry_events timeline phases = retries_from phases none timeline
