-- ===== src/Training/Selection.antt =====
-- Which rollouts train a policy.
use robolineage.Prelude.{◌≡◌, ap, String, not, ◌&&◌, Option, some, List, ◌==◌}
use robolineage.Review.Admission.{
  AdmissionDecision, accepted, needs_review, rejected, retry_recommended, Review, Admission, decide,
}
use robolineage.Review.Admission.Decision.{decide_exact}
use robolineage.Training.{AdmissionFile, RolloutFolder, is_allowed, selects}

abbrev pub decision_text : AdmissionDecision → String
decision_text accepted = "accepted"
decision_text needs_review = "needs_review"
decision_text rejected = "rejected"
decision_text retry_recommended = "retry_recommended"

-- The admission as the review writes it.
abbrev pub admission_file : Admission → AdmissionFile
admission_file a = record {
  accepted_for_training = some a.accepted_for_training;
  decision = decision_text a.decision;
  reasons = a.reasons;
}

-- A rollout that the review admitted is selected exactly if it is a folder of the rollouts asked for,
-- has snapshots and succeeded: the decisions to include play no part, so a success that still
-- requires review is selected even where only accepted ones are included.
pub selects_reviewed :
    (include : List String) (rollouts : Option (List String)) (f : RolloutFolder) (r : Review)
    → f.admission ≡ some (admission_file (decide r))
    → selects include rollouts f ≡ (
        f.is_dir
        && (is_allowed rollouts f.name && (not (r.snapshot_count == 0) && r.final_success)))
unfolding selects
selects_reviewed include rollouts f r h =
    rw h (ap (λ b. f.is_dir && (is_allowed rollouts f.name && b)) ((decide_exact r).usable))
