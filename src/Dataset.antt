-- ===== src/Dataset.antt =====
-- Dataset versions, their locks and the policies that are trained on them
-- (src/robolineage_dataset, src/robolineage_contracts/pipeline, src/robolineage_train/policy_meta.py).
pub mod Version
pub mod Lock
pub mod Files
pub mod Updater
pub mod Diff
pub mod Policy
mod Tests
