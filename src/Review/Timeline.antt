-- ===== src/Review/Timeline.antt =====
-- The timeline of phases: `phase_timeline_from_points`. The mean of confidences, rounded to
-- thousandths, is a parameter.
pub mod Segments
pub mod Ends
use robolineage.Prelude.{
  ℕ, suc, ◌+◌, ◌-◌, String, Bool, true, false, not, ◌&&◌, ◌||◌, Option, none, some, List, [], ◌∷◌,
  ◌++◌, map, filter, any, leb, ltb, ◌==◌, last_or, length, str_eq, if◌then◌else◌,
}
use robolineage.Prelude.Sort.{sort_by}
use robolineage.Dataset.Lock.{to_set}
use robolineage.Session.Events.{
  Progress, advancing, stalled, regressing, unknown, RiskLevel, low, medium, high,
}
use robolineage.Review.Points.{
  Point, is_high, is_regressing, equals_option, phase_index, suppress_isolated_phase_jitter,
}

pub record Segment : Type 0 where
  pub segment_index : ℕ
  pub phase : String
  pub start_frame : ℕ
  pub end_frame : ℕ
  pub start_timestamp : ℕ
  pub end_timestamp : ℕ
  pub duration_sec : ℕ
  pub snapshot_count : ℕ
  pub dominant_progress : Progress
  pub max_risk : RiskLevel
  pub needs_review_count : ℕ
  pub imminent_failure_count : ℕ
  pub mean_confidence : ℕ
  pub triggers : List String
  pub corrected_by_review : Bool
  pub correction_reasons : List String
  pub online_phases : List String
  pub raw_visual_phases : List String
  pub evidence_frames : List ℕ
  pub zero_duration_reason : Option String

abbrev pub same_progress : Progress → Progress → Bool
same_progress advancing advancing = true
same_progress stalled stalled = true
same_progress regressing regressing = true
same_progress Progress.unknown Progress.unknown = true
same_progress _ _ = false

abbrev pub count_progress : Progress → List Progress → ℕ
count_progress p l = length (filter (same_progress p) l)

-- The first of the values that stand most often.
unfoldable pub most_common : Progress → List Progress → List Progress → Progress
most_common best [] all = best
most_common best (p ∷ ps) all =
    most_common (if ltb (count_progress best all) (count_progress p all) then p else best) ps all

unfoldable pub dominant : List Progress → Progress
unfolding most_common
dominant [] = Progress.unknown
dominant (p ∷ ps) = most_common p ps (p ∷ ps)

abbrev pub is_medium : RiskLevel → Bool
is_medium medium = true
is_medium _ = false

abbrev pub is_low : RiskLevel → Bool
is_low low = true
is_low _ = false

unfoldable pub worst_risk : List RiskLevel → RiskLevel
worst_risk l =
    if any is_high l
    then high
    else if any is_medium l
    then medium
    else if any is_low l
    then low
    else RiskLevel.unknown

unfoldable pub dedupe_preserve_order_int : List ℕ → List ℕ → List ℕ
dedupe_preserve_order_int seen [] = []
dedupe_preserve_order_int seen (n ∷ ns) =
    let rest = dedupe_preserve_order_int (n ∷ seen) ns in
    let again = dedupe_preserve_order_int seen ns in
    if any (λ m. m == n) seen then again else n ∷ rest

-- sorted({…})
abbrev pub sorted_set : List String → List String
sorted_set l = sort_by (λ s. s) (to_set l)

abbrev pub given : Option String → List String → List String
given none l = l
given (some s) l = s ∷ l

-- The truthy ones.
abbrev pub truthy_reason : Option String → List String → List String
truthy_reason none l = l
truthy_reason (some s) l = if str_eq s "" then l else s ∷ l

abbrev pub raw_phases : List Point → List String
raw_phases [] = []
raw_phases (p ∷ ps) = given p.raw_visual_phase (raw_phases ps)

abbrev pub reasons_of : List Point → List String
reasons_of [] = []
reasons_of (p ∷ ps) = truthy_reason p.correction_reason (reasons_of ps)

abbrev pub is_alarming : Point → Bool
is_alarming p = is_high p.risk_level || p.imminent_failure

-- Consecutive points of one phase. A group is its first point and the points after it; here the
-- last group so far is `start` and `rest`.
unfoldable pub groups_from : Point → List Point → List Point → List (Point × List Point)
groups_from start rest [] = (start, rest) ∷ []
groups_from start rest (p ∷ ps) =
    let joins = groups_from start (rest ++ p ∷ []) ps in
    let splits = (start, rest) ∷ groups_from p [] ps in
    if str_eq p.phase (last_or start rest).phase then joins else splits

unfoldable pub groups_of : List Point → List (Point × List Point)
unfolding groups_from
groups_of [] = []
groups_of (p ∷ ps) = groups_from p [] ps

unfoldable pub zero_duration_evidence_reason : Segment → Option String → Option String
zero_duration_evidence_reason s terminal_phase =
    if is_high s.max_risk || not (s.imminent_failure_count == 0)
    then some "failure_evidence"
    else if not (s.needs_review_count == 0)
    then some "needs_review"
    else if is_regressing s.dominant_progress
    then some "regressing"
    else if any (λ t. str_eq t "final_observation") s.triggers
    then some "final_observation"
    else if any (λ t. str_eq t "sequence_start") s.triggers
    then some "sequence_start"
    else if equals_option terminal_phase s.phase
    then some "terminal_phase"
    else none

-- The reason to keep a segment without duration, at an end of the timeline or inside it.
abbrev pub or_boundary : Bool → Option String → Option String
or_boundary boundary (some r) = some r
or_boundary true none = some "timeline_boundary"
or_boundary false none = none

abbrev pub keep_with : Option String → Segment → List Segment → List Segment
keep_with none s rest = rest
keep_with (some r) s rest = record s { zero_duration_reason = some r } ∷ rest

abbrev pub is_empty : List Segment → Bool
is_empty [] = true
is_empty (s ∷ ss) = false

-- The segments that stay; the first one here is at the start where `first` says so.
unfoldable pub cleaned : Bool → Option String → List Segment → List Segment
unfolding zero_duration_evidence_reason
cleaned first terminal_phase [] = []
cleaned first terminal_phase (s ∷ ss) =
    let rest = cleaned false terminal_phase ss in
    if ltb 0 s.duration_sec
    then s ∷ rest
    else keep_with
        (or_boundary (first || is_empty ss) (zero_duration_evidence_reason s terminal_phase)) s rest

unfoldable pub renumber : ℕ → List Segment → List Segment
renumber idx [] = []
renumber idx (s ∷ ss) = record s { segment_index = idx } ∷ renumber (suc idx) ss

unfoldable pub cleanup_zero_duration_segments : List Segment → Option String → List Segment
unfolding cleaned renumber
cleanup_zero_duration_segments timeline terminal_phase =
    renumber 0 (cleaned true terminal_phase timeline)

module _ (mean : List ℕ → ℕ) where
  -- The group is `start` and the points after it.
  unfoldable pub timeline_record : Point → List Point → ℕ → Segment
  unfolding dominant worst_risk dedupe_preserve_order_int sort_by to_set
  timeline_record start rest idx =
      let group = start ∷ rest in
      let end = last_or start rest in
      record {
        segment_index = idx;
        phase = start.phase;
        start_frame = start.frame_id;
        end_frame = end.frame_id;
        start_timestamp = start.timestamp;
        end_timestamp = end.timestamp;
        duration_sec = end.timestamp - start.timestamp;
        snapshot_count = length group;
        dominant_progress = dominant (map (λ p. p.progress) group);
        max_risk = worst_risk (map (λ p. p.risk_level) group);
        needs_review_count = length (filter (λ p. p.needs_review) group);
        imminent_failure_count = length (filter (λ p. p.imminent_failure) group);
        mean_confidence = mean (map (λ p. p.confidence) group);
        triggers = sorted_set (map (λ p. p.trigger) group);
        corrected_by_review = any (λ p. p.corrected_by_review) group;
        correction_reasons = sorted_set (reasons_of group);
        online_phases = sorted_set (map (λ p. p.online_phase) group);
        raw_visual_phases = sorted_set (raw_phases group);
        evidence_frames = dedupe_preserve_order_int [] (
            (start.frame_id ∷ map (λ p. p.frame_id) (filter is_alarming group))
            ++ end.frame_id ∷ []);
        zero_duration_reason = none;
      }

  unfoldable pub number_from : ℕ → List (Point × List Point) → List Segment
  unfolding timeline_record
  number_from idx [] = []
  number_from idx ((p, ps) ∷ gs) = timeline_record p ps idx ∷ number_from (suc idx) gs

  unfoldable pub phase_timeline_from_points : List Point → Option String → List Segment
  unfolding groups_of number_from suppress_isolated_phase_jitter cleanup_zero_duration_segments
  phase_timeline_from_points points terminal_phase =
      cleanup_zero_duration_segments
        (number_from 0 (groups_of (suppress_isolated_phase_jitter points))) terminal_phase
