-- ===== src/Review/Admission.antt =====
-- Whether a reviewed rollout goes into a dataset: DataGovernanceAgent.decide.
pub mod Decision
use robolineage.Prelude.{
  ℕ, ◌/◌, String, Bool, true, false, not, ◌&&◌, ◌||◌, Option, none, some, List, [], ◌∷◌, ◌++◌, any,
  max, ltb, ◌==◌, str_eq, if◌then◌else◌,
}
use robolineage.Review.Outcome.{SuccessStatus}

pub data AdmissionDecision : Type 0 where
  accepted needs_review rejected retry_recommended : AdmissionDecision

pub data AdmissionClass : Type 0 where
  empty_rollout successful_but_ambiguous accepted_with_labels clean_success failure_pool_candidate
        insufficient_completion_evidence accepted_candidate_needs_review :
      AdmissionClass

pub data LabelQuality : Type 0 where
  clean needs_correction uncertain : LabelQuality

-- What the decision reads: the annotation's outcome, the counts of the failure analysis and of the
-- snapshots, and the model's review, if there is one.
pub record LabelReview : Type 0 where
  pub label_quality : Option LabelQuality
  pub reasoning : String
  pub training_usability : Option Bool

pub record Review : Type 0 where
  pub final_success : Bool
  pub success_status : SuccessStatus
  pub used_vlm : Bool
  pub snapshot_count : ℕ
  pub needs_review_count : ℕ
  pub candidate_count : ℕ
  pub recovered_count : ℕ
  pub vlm_review : Option LabelReview

pub record Admission : Type 0 where
  pub decision : AdmissionDecision
  pub accepted_for_training : Bool
  pub label_quality : LabelQuality
  pub review_reason : Option String
  pub admission_class : AdmissionClass
  pub reasons : List String
  pub data_use : List String
  pub recommended_split : Option String
  pub requires_review : Bool

abbrev pub is_uncertain : SuccessStatus → Bool
is_uncertain SuccessStatus.uncertain = true
is_uncertain _ = false

abbrev pub is_needs_review : AdmissionDecision → Bool
is_needs_review needs_review = true
is_needs_review _ = false

abbrev pub is_accepted : AdmissionDecision → Bool
is_accepted accepted = true
is_accepted _ = false

-- The fields that a branch sets; the last two of the result are filled in at the end.
abbrev pub admission :
    AdmissionDecision
    → Bool
    → LabelQuality
    → Option String
    → AdmissionClass
    → String
    → List String
    → Admission
admission decision usable quality why admission_class reason uses = record {
  decision = decision;
  accepted_for_training = usable;
  label_quality = quality;
  review_reason = why;
  admission_class = admission_class;
  reasons = reason ∷ [];
  data_use = uses;
  recommended_split = none;
  requires_review = false;
}

abbrev pub use_if : Bool → String → List String → List String
use_if true s l = s ∷ l
use_if false s l = l

unfoldable pub first_decision : Review → Admission
first_decision r =
    if r.snapshot_count == 0
    then admission rejected false uncertain
        (some "No VSA snapshots were available for this rollout.") empty_rollout "no_snapshots" []
    else if r.final_success && is_uncertain r.success_status
    then admission needs_review true uncertain
        (some "Terminal success evidence exists, but final labels or risk require review.")
        successful_but_ambiguous "terminal_success_with_uncertain_outcome"
        ("success_trajectory"
          ∷ "review_queue"
          ∷ use_if (ltb 0 r.candidate_count) "failure_analysis"
              (use_if (ltb 0 r.recovered_count) "recovery_training" []))
    else if r.final_success && ltb 0 r.recovered_count
    then admission accepted true clean none accepted_with_labels
        "final_success_with_recovered_failure"
        ("success_trajectory" ∷ "recovery_training" ∷ "failure_taxonomy" ∷ [])
    else if r.final_success && (r.candidate_count == 0)
    then admission accepted true clean none clean_success "final_success_without_failure_candidates"
        ("success_trajectory" ∷ [])
    else if r.final_success
    then admission needs_review true uncertain
        (some "Success was likely, but failure candidates or labels need review.")
        successful_but_ambiguous "success_with_unresolved_failure_candidates"
        ("success_trajectory" ∷ "review_queue" ∷ [])
    else if ltb 0 r.candidate_count
    then admission needs_review false uncertain
        (some "Failure evidence is useful for training or taxonomy, but labels need review.")
        failure_pool_candidate "final_failure_with_structured_failure_evidence"
        ("failure_analysis" ∷ "future_recovery_training" ∷ [])
    else admission (if ltb 0 r.needs_review_count then needs_review else retry_recommended) false
        uncertain
        (some
          "Terminal success was not confirmed; keep the trajectory available while labels are reviewed.")
        insufficient_completion_evidence "terminal_success_not_confirmed" ("review_queue" ∷ [])

unfoldable pub doubt_snapshots : Review → Admission → Admission
doubt_snapshots r a =
    if is_accepted a.decision
      && (ltb (max 1 (r.snapshot_count / 2)) r.needs_review_count && not r.used_vlm)
    then record a {
      decision = needs_review;
      admission_class = accepted_candidate_needs_review;
      label_quality = uncertain;
      review_reason = some "Many VSA snapshots were low-confidence or marked for review.";
      reasons = a.reasons ++ "many_low_confidence_or_review_snapshots" ∷ [];
    }
    else a

abbrev pub reason_unless : Option String → String → Option String
reason_unless (some r) s = some r
reason_unless none s = some (if str_eq s "" then "VLM marked labels for review." else s)

abbrev pub with_quality : Option LabelQuality → String → Admission → Admission
with_quality none reasoning a = a
with_quality (some clean) reasoning a = record a { label_quality = clean }
with_quality (some q) reasoning a = record a {
  label_quality = q;
  review_reason = reason_unless a.review_reason reasoning;
}

abbrev pub with_usability : Option Bool → Admission → Admission
with_usability (some false) a = record a {
  reasons = a.reasons ++ "vlm_training_usability_note" ∷ [];
}
with_usability _ a = a

unfoldable pub judge_labels : Option LabelReview → Admission → Admission
judge_labels none a = a
judge_labels (some v) a =
    with_usability v.training_usability (with_quality v.label_quality v.reasoning a)

unfoldable pub dedupe_preserve_order_str : List String → List String → List String
dedupe_preserve_order_str seen [] = []
dedupe_preserve_order_str seen (s ∷ l) =
    let rest = dedupe_preserve_order_str (s ∷ seen) l in
    let again = dedupe_preserve_order_str seen l in
    if any (λ t. str_eq t s) seen then again else s ∷ rest

unfoldable pub decide : Review → Admission
unfolding first_decision doubt_snapshots judge_labels dedupe_preserve_order_str
decide r =
    let a = judge_labels r.vlm_review (doubt_snapshots r (first_decision r)) in
    record a {
      reasons = dedupe_preserve_order_str [] a.reasons;
      data_use = dedupe_preserve_order_str [] a.data_use;
      recommended_split = if a.accepted_for_training then some "train" else none;
      requires_review = is_needs_review a.decision;
    }
