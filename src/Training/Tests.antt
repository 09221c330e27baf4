-- ===== src/Training/Tests.antt =====
-- Two reviewed rollouts and three dataset folders.
use robolineage.Prelude.{
  ◌≡◌, ◌≢◌, ◌⊎◌, inl, inr, str_eq, eq_iff, arith, refl, String, true, false, some, none, List, [],
  ◌∷◌, All,
}
use robolineage.Prelude.Int.{pos}
use robolineage.Prelude.Result.{ok}
use robolineage.Dataset.Lock.{
  Entry, DatasetLock, create_lock, to_set, is_sha256, all_hex, count_chars,
}
use robolineage.Dataset.Files.{rows_file, lock_file, Files, same_folder, read_file}
use robolineage.Dataset.Updater.{update}
use robolineage.Dataset.Updater.Merge.{HasIds}
use robolineage.Dataset.Version.{read_digits, read_number, parse_version, write_version}
use robolineage.Review.Outcome.{success}
use robolineage.Review.Admission.{Review, decide}
use robolineage.Training.{RolloutFolder, selects, DatasetFolder, latest_from, latest_dataset_lock}
use robolineage.Training.Selection.{admission_file, selects_reviewed}
use robolineage.Training.Latest.{IsFree, latest_fresh}

-- A success whose failure candidates were not recovered: it needs review.
abbrev doubtful : Review
doubtful = record {
  final_success = true;
  success_status = success;
  used_vlm = false;
  snapshot_count = 4;
  needs_review_count = 0;
  candidate_count = 2;
  recovered_count = 0;
  vlm_review = none;
}

abbrev folder : RolloutFolder
folder = record {
  name = "r2";
  is_dir = true;
  admission = some (admission_file (decide doubtful));
  success_confidence = some (pos 700);
  phases = none;
}

selects_reviewed_example : selects ("accepted" ∷ []) none folder ≡ true
selects_reviewed_example = selects_reviewed ("accepted" ∷ []) none folder doubtful refl

abbrev datasets : List DatasetFolder
datasets = ("v2", true) ∷ ("v10", true) ∷ ("v11", false) ∷ ("notes", true) ∷ []

newest_is_v10 : latest_dataset_lock datasets ≡ some (10, "v10")
unfolding latest_dataset_lock latest_from parse_version read_number read_digits
newest_is_v10 = refl

abbrev row : Entry
row = record { rollout_id = some "r1"; content = "" }

abbrev hex64 : String
hex64 = "0123456789abcdef0123456789abcdef0123456789abcdef0123456789abcdef"

abbrev lock_v10 : DatasetLock
lock_v10 = record {
  version_id = "v10";
  created_at = "monday";
  base_version_id = none;
  included_rollout_ids = "r1" ∷ [];
  total_samples = 1;
  manifest_sha256 = hex64;
  changelog = "";
}

abbrev files : Files
files =
    (("data" ∷ [], "train.jsonl"), rows_file (row ∷ []))
    ∷ (("v10" ∷ "out" ∷ [], "manifest.jsonl"), rows_file (row ∷ []))
    ∷ (("v10" ∷ "out" ∷ [], "dataset.lock"), lock_file lock_v10)
    ∷ (("v2" ∷ "out" ∷ [], "dataset.lock"), lock_file lock_v10)
    ∷ []

differs : (s v : String) → (true ≡ false) ⊎ (s ≢ v) → str_eq s v ≡ false
differs s v (inl h) = absurd (cc h)
differs s v (inr h) = ground (arith, eq_iff s v)

listed-All :
    (v : String) → All (IsFree v) datasets → read_file (v ∷ "out" ∷ [], "dataset.lock") files ≡ none
unfolding read_file same_folder
listed-All v free = rw (differs "v2" v free.0, differs "v10" v free.1.0) refl

latest_fresh_example :
    (lock : DatasetLock) × (g : Files) × (update
        (λ l. hex64)
        ("data" ∷ [], "train.jsonl")
        (some ("v10" ∷ "out" ∷ [], "dataset.lock"))
        ("out" ∷ [])
        "now"
        ""
        files
      ≡ (ok lock, g))
    × (lock.version_id ≡ write_version 11)
    × (lock.base_version_id ≡ some "v10")
unfolding read_file same_folder create_lock to_set is_sha256 all_hex count_chars HasIds
latest_fresh_example =
    latest_fresh (λ l. hex64) datasets 10 "v10" ("data" ∷ [], "train.jsonl") ("out" ∷ []) "now" ""
      files (row ∷ []) (row ∷ []) lock_v10 newest_is_v10 listed-All refl refl refl refl refl
      (("r1", refl), tt) (("r1", refl), tt) (λ l. refl)
