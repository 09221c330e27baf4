-- ===== src/Review/Admission/Decision.antt =====
-- What an admission means.
use robolineage.Prelude.{
  ◌/◌, ◌≡◌, refl, ap, ◌∙◌, String, Bool, true, false, not, ◌&&◌, ◌||◌, Option, none, some, ltb,
  ◌==◌, max, arith, if◌then◌else◌,
}
use robolineage.Review.Admission.{
  LabelQuality, clean, needs_correction, LabelReview, Review, Admission, is_uncertain, is_accepted,
  is_needs_review, first_decision, doubt_snapshots, judge_labels, with_quality, with_usability,
  reason_unless, decide,
}

abbrev pub is_clean : LabelQuality → Bool
is_clean clean = true
is_clean _ = false

abbrev pub has : Option String → Bool
has none = false
has (some r) = true

-- Labels that are not clean have a reason for their review.
abbrev pub Explained : Admission → Type 0
Explained a = (is_clean a.label_quality || has a.review_reason) ≡ true

abbrev pub Same : Admission → Admission → Type 0
Same b a = (b.decision ≡ a.decision) × (b.accepted_for_training ≡ a.accepted_for_training)

Same-usability : (u : Option Bool) (a : Admission) → Same (with_usability u a) a
Same-usability none a = (refl, refl)
Same-usability (some true) a = (refl, refl)
Same-usability (some false) a = (refl, refl)

Same-quality : (q : Option LabelQuality) (s : String) (a : Admission) → Same (with_quality q s a) a
Same-quality none s a = (refl, refl)
Same-quality (some clean) s a = (refl, refl)
Same-quality (some needs_correction) s a = (refl, refl)
Same-quality (some LabelQuality.uncertain) s a = (refl, refl)

Same-labels : (v : Option LabelReview) (a : Admission) → Same (judge_labels v a) a
unfolding judge_labels
Same-labels none a = (refl, refl)
Same-labels (some v) a =
    let usability =
      Same-usability v.training_usability (with_quality v.label_quality v.reasoning a) in
    let quality = Same-quality v.label_quality v.reasoning a in
    (usability.0 ∙ quality.0, usability.1 ∙ quality.1)

always_given :
    (b : Bool) (why : Option String) (s : String) → (b || has (reason_unless why s)) ≡ true
always_given true why s = refl
always_given false none s = refl
always_given false (some r) s = refl

Explained-quality :
    (q : Option LabelQuality) (s : String) (a : Admission)
    → Explained a
    → Explained (with_quality q s a)
Explained-quality none s a h = h
Explained-quality (some clean) s a h = refl
Explained-quality (some needs_correction) s a h = always_given false a.review_reason s
Explained-quality (some LabelQuality.uncertain) s a h = always_given false a.review_reason s

Explained-usability :
    (u : Option Bool) (a : Admission) → Explained a → Explained (with_usability u a)
Explained-usability none a h = h
Explained-usability (some true) a h = h
Explained-usability (some false) a h = h

Explained-labels :
    (v : Option LabelReview) (a : Admission) → Explained a → Explained (judge_labels v a)
unfolding judge_labels
Explained-labels none a h = h
Explained-labels (some v) a h =
    Explained-usability v.training_usability (with_quality v.label_quality v.reasoning a)
      (Explained-quality v.label_quality v.reasoning a h)

first_means :
    (r : Review)
    → ((first_decision r).accepted_for_training ≡ (not (r.snapshot_count == 0) && r.final_success))
      × (is_accepted (first_decision r).decision ≡ (
          (not (r.snapshot_count == 0) && (r.final_success && not (is_uncertain r.success_status)))
          && (ltb 0 r.recovered_count || (r.candidate_count == 0))))
unfolding first_decision
first_means r = (ground arith, ground arith)

first-Explained : (r : Review) → Explained (first_decision r)
unfolding first_decision
first-Explained r = ground arith

doubted :
    (r : Review) (a : Admission)
    → Explained a
    → Explained (doubt_snapshots r a)
      × ((doubt_snapshots r a).accepted_for_training ≡ a.accepted_for_training)
      × (is_accepted (doubt_snapshots r a).decision ≡ (
          is_accepted a.decision
          && not (ltb (max 1 (r.snapshot_count / 2)) r.needs_review_count && not r.used_vlm)))
unfolding doubt_snapshots
doubted r a h = (ground arith, ground arith, ground arith)

and_assoc : (p q r : Bool) → ((p && q) && r) ≡ (p && (q && r))
and_assoc true q r = refl
and_assoc false q r = refl

-- What holds of every admission.
pub record Means (r : Review) (a : Admission) : Type 0 where
  -- The trajectory is used for training exactly if there are snapshots and the rollout succeeded.
  pub usable : a.accepted_for_training ≡ (not (r.snapshot_count == 0) && r.final_success)
  -- Accepted without review: a success that is not in doubt, and not many snapshots in doubt either
  -- unless the model looked at them.
  pub sure : is_accepted a.decision ≡ (
      (not (r.snapshot_count == 0) && (r.final_success && not (is_uncertain r.success_status)))
      && ((ltb 0 r.recovered_count || (r.candidate_count == 0))
          && not (ltb (max 1 (r.snapshot_count / 2)) r.needs_review_count && not r.used_vlm)))
  -- Labels that are not clean have a reason for their review.
  pub explained : Explained a
  pub split :
      a.recommended_split
      ≡ (if r.final_success && not (r.snapshot_count == 0) then some "train" else none)
  pub review : a.requires_review ≡ is_needs_review a.decision

and_comm : (p q : Bool) → (p && q) ≡ (q && p)
and_comm true true = refl
and_comm true false = refl
and_comm false true = refl
and_comm false false = refl

-- A rollout is used for training, and goes to the training split, exactly if it has snapshots and
-- its outcome is a success. It is accepted without review exactly if moreover the success is not in
-- doubt, some failure was recovered or there is no failure candidate at all, and no more than half
-- of the snapshots (one, if there are few) are marked for review unless the model reviewed them. An
-- admission requires a review exactly if its decision is that one is needed, and labels that are not
-- clean have a reason.
pub decide_exact : (r : Review) → Means r (decide r)
unfolding decide
decide_exact r =
    let a = first_decision r in
    let first = first_means r in
    let doubt = doubted r a (first-Explained r) in
    let b = doubt_snapshots r a in
    let labels = Same-labels r.vlm_review b in
    let usable = labels.1 ∙ doubt.1 ∙ first.0 in
    record {
      usable = usable;
      sure =
          ap is_accepted labels.0
          ∙ doubt.2
          ∙ ap
              (λ x.
                x
                && not (ltb (max 1 (r.snapshot_count / 2)) r.needs_review_count && not r.used_vlm))
              first.1
          ∙ and_assoc
              (not (r.snapshot_count == 0)
                && (r.final_success && not (is_uncertain r.success_status)))
              (ltb 0 r.recovered_count || (r.candidate_count == 0))
              (not (ltb (max 1 (r.snapshot_count / 2)) r.needs_review_count && not r.used_vlm));
      explained = Explained-labels r.vlm_review b doubt.0;
      split =
          ap (λ x. if x then some "train" else none)
            (usable ∙ and_comm (not (r.snapshot_count == 0)) r.final_success);
      review = refl;
    }
