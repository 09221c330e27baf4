-- ===== src/Review/Verdict.antt =====
-- The model's answer and the outcome: `outcome_with_vlm`.
pub mod Bounds
use robolineage.Prelude.{
  ℕ, suc, ◌-◌, String, Bool, true, false, not, ◌&&◌, ◌||◌, Option, none, some, List, [], ◌∷◌, ◌++◌,
  any, drop, last_or, length, reverse, max, min, ltb, ◌==◌, str_eq, if◌then◌else◌,
}
use robolineage.Prelude.Int.{ℤ, pos, negsuc}
use robolineage.Review.Points.{
  SnapshotRecord, is_high, is_regressing, equals_option, phase_index, is_phase, terminal_of,
}
use robolineage.Review.Outcome.{SuccessStatus, unknown, uncertain, success, failure, Outcome}

-- What the model's answer says of the outcome. Values of another type than the source expects are
-- absent; `covers_episode_end` is absent where there is no terminal_image_coverage object.
pub record VlmReview : Type 0 where
  pub final_success : Option Bool
  pub success : Option Bool
  pub covers_episode_end : Option Bool
  pub final_phase : String
  pub success_confidence : Option ℤ
  pub reasoning : String

abbrev pub or_value : Option Bool → Option Bool → Option Bool
or_value none b = b
or_value (some b) b' = some b

abbrev pub vlm_success_value : VlmReview → Option Bool
vlm_success_value v = or_value v.final_success v.success

abbrev pub is_false : Option Bool → Bool
is_false (some false) = true
is_false _ = false

-- _vlm_failure_without_terminal_image_coverage
unfoldable pub is_blocked_failure : VlmReview → Outcome → Bool
is_blocked_failure v outcome =
    is_false (vlm_success_value v) && (outcome.final_success && is_false v.covers_episode_end)

abbrev pub reasoning_or : String → String → String
reasoning_or d s = if str_eq s "" then d else s

abbrev pub with_verdict : Bool → Option Bool → VlmReview → Outcome → Outcome
with_verdict blocked none v o = o
with_verdict true (some b) v o = record o {
  success_status = uncertain;
  reasoning = "offline_vlm_failure_without_terminal_image_coverage";
}
with_verdict false (some b) v o = record o {
  final_success = b;
  success_status = if b then success else failure;
  reasoning = reasoning_or "offline_vlm_final_review" v.reasoning;
}

abbrev pub with_phase : Bool → List String → String → Outcome → Outcome
with_phase blocked phases final_phase o =
    if is_phase phases final_phase && not blocked
    then record o {
      final_phase = final_phase;
      terminal_reached = equals_option (terminal_of phases) final_phase;
    }
    else o

-- min(1.0, max(0.0, c))
abbrev pub clamp : ℤ → ℕ
clamp (pos n) = min 1000 n
clamp (negsuc n) = 0

abbrev pub vlm_confidence : Bool → Option ℤ → ℕ → ℕ
vlm_confidence true c current = min 650 (max 450 current)
vlm_confidence false (some c) current = clamp c
vlm_confidence false none current = max current 650

unfoldable pub outcome_with_vlm : Outcome → VlmReview → List String → Outcome
unfolding is_blocked_failure
outcome_with_vlm o v phases =
    let blocked = is_blocked_failure v o in
    let judged =
      with_phase blocked phases v.final_phase (with_verdict blocked (vlm_success_value v) v o) in
    record judged {
      success_confidence = vlm_confidence blocked v.success_confidence o.success_confidence;
    }
