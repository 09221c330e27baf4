-- ===== src/Review/Points.antt =====
-- The phase of each snapshot as the review sees it: `initial_phase_points`, the model's corrections
-- and the suppression of isolated jitter. Confidences are thousandths.
use robolineage.Prelude.{
  ℕ, suc, ◌+◌, String, Bool, true, false, not, ◌&&◌, ◌||◌, Option, none, some, List, [], ◌∷◌, any,
  max, leb, ltb, str_eq, if◌then◌else◌,
}
use robolineage.Session.Events.{Progress, RiskLevel, high, regressing}

-- A record of EvidenceBundle.snapshot_records, in the fields that are read.
pub record SnapshotRecord : Type 0 where
  pub frame_id : ℕ
  pub timestamp : ℕ
  pub phase : String
  pub raw_visual_phase : Option String
  pub raw_visual_confidence : Option ℕ
  pub progress : Progress
  pub risk_level : RiskLevel
  pub imminent_failure : Bool
  pub confidence : ℕ
  pub needs_review : Bool
  pub trigger : Option String

pub data Source : Type 0 where
  online_vsa raw_vlm_visual timeline_filter offline_vlm : Source

pub record Point : Type 0 where
  pub frame_id : ℕ
  pub timestamp : ℕ
  pub phase : String
  pub online_phase : String
  pub raw_visual_phase : Option String
  pub progress : Progress
  pub risk_level : RiskLevel
  pub imminent_failure : Bool
  pub confidence : ℕ
  pub needs_review : Bool
  pub trigger : String
  pub source : Source
  pub corrected_by_review : Bool
  pub correction_reason : Option String

abbrev pub is_high : RiskLevel → Bool
is_high high = true
is_high _ = false

abbrev pub is_regressing : Progress → Bool
is_regressing regressing = true
is_regressing _ = false

-- phase in phases
abbrev pub is_phase : List String → String → Bool
is_phase phases phase = any (λ p. str_eq p phase) phases

abbrev pub next_index : Option ℕ → Option ℕ
next_index none = none
next_index (some n) = some (suc n)

unfoldable pub phase_index : List String → String → Option ℕ
phase_index [] phase = none
phase_index (p ∷ ps) phase = if str_eq p phase then some 0 else next_index (phase_index ps phase)

-- phases[-1], if any
abbrev pub terminal_of : List String → Option String
terminal_of [] = none
terminal_of (p ∷ []) = some p
terminal_of (p ∷ q ∷ ps) = terminal_of (q ∷ ps)

abbrev pub equals_option : Option String → String → Bool
equals_option none s = false
equals_option (some t) s = str_eq t s

abbrev pub below : Option ℕ → Option ℕ → Bool
below (some m) (some n) = ltb m n
below _ _ = false

abbrev pub at_least : ℕ → Option ℕ → Bool
at_least n none = false
at_least n (some m) = leb n m

abbrev pub trigger_or_unknown : Option String → String
trigger_or_unknown none = "unknown"
trigger_or_unknown (some t) = if str_eq t "" then "unknown" else t

-- The snapshot's own phase.
abbrev pub plain_point : SnapshotRecord → Point
plain_point r = record {
  frame_id = r.frame_id;
  timestamp = r.timestamp;
  phase = r.phase;
  online_phase = r.phase;
  raw_visual_phase = r.raw_visual_phase;
  progress = r.progress;
  risk_level = r.risk_level;
  imminent_failure = r.imminent_failure;
  confidence = r.confidence;
  needs_review = r.needs_review;
  trigger = trigger_or_unknown r.trigger;
  source = online_vsa;
  corrected_by_review = false;
  correction_reason = none;
}

-- The phase that the model named for the image takes the place of the online one.
abbrev pub corrected_point : List String → String → SnapshotRecord → Point
corrected_point phases raw r =
    let terminal_lock_suspect =
      equals_option (terminal_of phases) r.phase
      && below (phase_index phases raw) (phase_index phases r.phase) in
    let strong_raw_signal = at_least (max 550 (r.confidence + 50)) r.raw_visual_confidence in
    let uncertain_online = r.needs_review || is_high r.risk_level in
    if terminal_lock_suspect || (strong_raw_signal || uncertain_online)
    then record (plain_point r) {
      phase = raw;
      source = raw_vlm_visual;
      corrected_by_review = true;
      correction_reason = some (
          if terminal_lock_suspect
          then "terminal_phase_retry_evidence"
          else "raw_visual_phase_override");
    }
    else plain_point r

abbrev pub initial_point : List String → Option String → SnapshotRecord → Point
initial_point phases none r = plain_point r
initial_point phases (some raw) r =
    if is_phase phases raw && not (str_eq raw r.phase)
    then corrected_point phases raw r
    else plain_point r

unfoldable pub initial_phase_points : List String → List SnapshotRecord → List Point
unfolding phase_index
initial_phase_points phases [] = []
initial_phase_points phases (r ∷ rs) =
    initial_point phases r.raw_visual_phase r ∷ initial_phase_points phases rs

-- A correction of the model: a phase for the frames between two, in either order.
pub record PhaseCorrection : Type 0 where
  pub phase : String
  pub start_frame : Option ℕ
  pub end_frame : Option ℕ
  pub reason : String

abbrev pub offline_point : String → String → Point → Point
offline_point phase reason p = record p {
  phase = phase;
  source = offline_vlm;
  corrected_by_review = true;
  correction_reason = some reason;
}

abbrev pub reason_or_default : String → String
reason_or_default r = if str_eq r "" then "offline_vlm_phase_correction" else r

unfoldable pub correct_between : ℕ → ℕ → String → String → List Point → List Point
correct_between start end phase reason [] = []
correct_between start end phase reason (p ∷ ps) =
    (if leb start p.frame_id && leb p.frame_id end then offline_point phase reason p else p)
    ∷ correct_between start end phase reason ps

abbrev pub apply_correction :
    List String → String → Option ℕ → Option ℕ → String → List Point → List Point
apply_correction phases phase (some start) (some end) reason points =
    if not (is_phase phases phase)
    then points
    else if ltb end start
    then correct_between end start phase (reason_or_default reason) points
    else correct_between start end phase (reason_or_default reason) points
apply_correction phases phase _ _ reason points = points

unfoldable pub apply_vlm_phase_corrections :
    List PhaseCorrection → List String → List Point → List Point
unfolding correct_between
apply_vlm_phase_corrections [] phases points = points
apply_vlm_phase_corrections (c ∷ cs) phases points =
    apply_vlm_phase_corrections cs phases
      (apply_correction phases c.phase c.start_frame c.end_frame c.reason points)

unfoldable pub set_last : String → List Point → List Point
set_last phase [] = []
set_last phase (p ∷ []) =
    (if str_eq p.phase phase then p else offline_point phase "offline_vlm_final_phase" p) ∷ []
set_last phase (p ∷ q ∷ ps) = p ∷ set_last phase (q ∷ ps)

unfoldable pub apply_vlm_final_phase : String → List String → List Point → List Point
unfolding set_last
apply_vlm_final_phase final_phase phases points =
    if is_phase phases final_phase then set_last final_phase points else points

unfoldable pub is_low_evidence_phase_jitter : Point → Bool
is_low_evidence_phase_jitter p =
    not p.corrected_by_review
    && (not (is_high p.risk_level || p.imminent_failure)
        && (not (p.needs_review || is_regressing p.progress)
            && (not (str_eq p.trigger "final_observation" || str_eq p.trigger "sequence_start")
                && leb p.confidence 650)))

abbrev pub filtered_point : String → Point → Point
filtered_point phase p = record p {
  phase = phase;
  source = timeline_filter;
  corrected_by_review = true;
  correction_reason = some "isolated_phase_jitter_suppressed";
}

-- The point between two others, as it was given and as they were given.
abbrev pub suppress_point : Point → Point → Point → Point
suppress_point prev p next =
    if not (str_eq prev.phase next.phase) || str_eq p.phase prev.phase
    then p
    else if is_low_evidence_phase_jitter p
    then filtered_point prev.phase p
    else p

-- The points after `prev`.
unfoldable pub suppress_after : Point → List Point → List Point
unfolding is_low_evidence_phase_jitter
suppress_after prev [] = []
suppress_after prev (p ∷ []) = p ∷ []
suppress_after prev (p ∷ q ∷ ps) = suppress_point prev p q ∷ suppress_after p (q ∷ ps)

unfoldable pub suppress_isolated_phase_jitter : List Point → List Point
unfolding suppress_after
suppress_isolated_phase_jitter [] = []
suppress_isolated_phase_jitter (p ∷ ps) = p ∷ suppress_after p ps
