-- ===== src/Review.antt =====
-- The offline review of a closed rollout (src/robolineage_post_rollout/formal_review.py), without the
-- reading of artifacts, the images and the model's call.
pub mod Points
pub mod Timeline
pub mod Retry
pub mod Outcome
pub mod Verdict
pub mod Admission
mod Tests
