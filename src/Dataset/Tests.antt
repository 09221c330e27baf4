-- ===== src/Dataset/Tests.antt =====
-- A dataset of one rollout and its update by another and a newer row of the first.
use robolineage.Prelude.{ℕ, ◌≡◌, refl, String, Bool, true, some, none, List, [], ◌∷◌, eq_iff, arith}
use robolineage.Prelude.Int.{pos}
use robolineage.Prelude.Result.{ok}
use robolineage.Prelude.Dict.{Dict, put}
use robolineage.Prelude.Text.{str_lt}
use robolineage.Prelude.Sort.{insert_by, sort_by, find_by, Ascending, Distinct}
use robolineage.Dataset.Version.{
  read_digits, read_number, parse_version, write_digits, write_version,
}
use robolineage.Dataset.Lock.{
  Entry, DatasetLock, create_lock, entry_key, to_set, all_hex, count_chars, is_sha256,
  compute_manifest_sha256,
}
use robolineage.Dataset.Updater.{collect, render_readme, merge_manifest_entries, update}
use robolineage.Dataset.Updater.Merge.{HasIds, newest, merge_newest}
use robolineage.Dataset.Updater.Locks.{update_keeps_locks}
use robolineage.Dataset.Updater.Frozen.{Frozen, compute_manifest_sha256-order, update_freezes}
use robolineage.Dataset.Diff.{diff_locks, sorted_difference}
use robolineage.Dataset.Diff.Removed.{update_removes_none}
use robolineage.Dataset.Files.{
  rows_file, lock_file, text_file, Files, same_folder, read_file, write_file,
}
use robolineage.Dataset.Policy.{pending, MetaFile, stored, plain_meta, framework_meta, FrameworkRun}

abbrev first : Entry
first = record { rollout_id = some "r1"; content = "old" }

abbrev first_again : Entry
first_again = record { rollout_id = some "r1"; content = "new" }

abbrev second : Entry
second = record { rollout_id = some "r0"; content = "other" }

merged :
    merge_manifest_entries (first ∷ []) (second ∷ first_again ∷ []) ≡ ok (second ∷ first_again ∷ [])
unfolding merge_manifest_entries collect put sort_by insert_by str_lt
merged = refl

merge_newest_example :
    (rows : List Entry) × (merge_manifest_entries (first ∷ []) (second ∷ first_again ∷ [])
      ≡ ok rows)
    × Ascending entry_key rows
    × ((k : String) → find_by entry_key k rows ≡ newest k (first ∷ second ∷ first_again ∷ []) none)
unfolding HasIds
merge_newest_example =
    merge_newest (first ∷ []) (second ∷ first_again ∷ []) (("r1", refl), tt)
      (("r0", refl), (("r1", refl), tt))

abbrev hex64 : String
hex64 = "0123456789abcdef0123456789abcdef0123456789abcdef0123456789abcdef"

abbrev digest : List Entry → String
digest l = hex64

swapped :
    (k : String)
    → find_by entry_key k (first ∷ second ∷ []) ≡ find_by entry_key k (second ∷ first ∷ [])
unfolding find_by
swapped k = ground (arith, eq_iff "r1" k, eq_iff "r0" k, eq_iff "r0" "r1")

compute_manifest_sha256-order_example :
    compute_manifest_sha256 digest (first ∷ second ∷ [])
    ≡ compute_manifest_sha256 digest (second ∷ first ∷ [])
unfolding Distinct find_by
compute_manifest_sha256-order_example =
    compute_manifest_sha256-order digest (first ∷ second ∷ []) (second ∷ first ∷ [])
      (refl, (refl, tt)) (refl, (refl, tt)) swapped

abbrev lock_v1 : DatasetLock
lock_v1 = record {
  version_id = "v1";
  created_at = "monday";
  base_version_id = none;
  included_rollout_ids = "r1" ∷ [];
  total_samples = 1;
  manifest_sha256 = hex64;
  changelog = "";
}

abbrev files : Files
files =
    (("data" ∷ [], "train.jsonl"), rows_file (second ∷ first_again ∷ []))
    ∷ (("v1" ∷ "out" ∷ [], "manifest.jsonl"), rows_file (first ∷ []))
    ∷ (("v1" ∷ "out" ∷ [], "dataset.lock"), lock_file lock_v1)
    ∷ []

update_keeps_locks_example :
    read_file
      ("v1" ∷ "out" ∷ [], "dataset.lock")
      (update digest
        ("data" ∷ [], "train.jsonl")
        (some ("v1" ∷ "out" ∷ [], "dataset.lock"))
        ("out" ∷ [])
        "now"
        ""
        files).1
    ≡ some (lock_file lock_v1)
unfolding read_file same_folder
update_keeps_locks_example =
    update_keeps_locks ("v1" ∷ "out" ∷ []) lock_v1 digest ("data" ∷ [], "train.jsonl")
      (some ("v1" ∷ "out" ∷ [], "dataset.lock")) ("out" ∷ []) "now" "" files refl

update_freezes_example :
    (rows : List Entry) × (lock : DatasetLock) × (g : Files) × (update digest
        ("data" ∷ [], "train.jsonl")
        (some ("v1" ∷ "out" ∷ [], "dataset.lock"))
        ("out" ∷ [])
        "now"
        ""
        files
      ≡ (ok lock, g))
    × Ascending entry_key rows
    × ((k : String) → find_by entry_key k rows ≡ newest k (first ∷ second ∷ first_again ∷ []) none)
    × Frozen digest (write_version 2 ∷ "out" ∷ []) lock_v1 1 rows lock g
unfolding read_file same_folder create_lock to_set HasIds parse_version read_number read_digits
    write_version write_digits is_sha256 all_hex count_chars
update_freezes_example =
    update_freezes digest ("data" ∷ [], "train.jsonl") ("v1" ∷ "out" ∷ []) "dataset.lock"
      ("out" ∷ []) "now" "" files (second ∷ first_again ∷ []) (first ∷ []) lock_v1 1 refl refl refl
      refl (("r1", refl), tt) (("r0", refl), (("r1", refl), tt)) refl refl (λ l. refl)

abbrev lock_v2 : DatasetLock
lock_v2 = record {
  version_id = "v2";
  created_at = "tuesday";
  base_version_id = some "v1";
  included_rollout_ids = "r0" ∷ "r1" ∷ [];
  total_samples = 2;
  manifest_sha256 = hex64;
  changelog = "";
}

abbrev files_v2 : Files
files_v2 =
    (("data" ∷ [], "train.jsonl"), rows_file (second ∷ first_again ∷ []))
    ∷ (("v1" ∷ "out" ∷ [], "manifest.jsonl"), rows_file (first ∷ []))
    ∷ (("v1" ∷ "out" ∷ [], "dataset.lock"), lock_file lock_v1)
    ∷ (("v2" ∷ "out" ∷ [], "manifest.jsonl"), rows_file (second ∷ first_again ∷ []))
    ∷ (("v2" ∷ "out" ∷ [], "README.md"), text_file (render_readme lock_v2))
    ∷ (("v2" ∷ "out" ∷ [], "dataset.lock"), lock_file lock_v2)
    ∷ []

updated :
    update digest
      ("data" ∷ [], "train.jsonl")
      (some ("v1" ∷ "out" ∷ [], "dataset.lock"))
      ("out" ∷ [])
      "tuesday"
      ""
      files
    ≡ (ok lock_v2, files_v2)
unfolding update merge_manifest_entries read_file write_file same_folder create_lock to_set
    parse_version read_number read_digits write_version write_digits is_sha256 all_hex count_chars
    sort_by put insert_by str_lt
updated = refl

update_removes_none_example : (diff_locks lock_v1 lock_v2).removed_rollout_ids ≡ []
unfolding read_file same_folder create_lock to_set HasIds parse_version read_number read_digits
    write_version write_digits is_sha256 all_hex count_chars
update_removes_none_example =
    update_removes_none digest ("data" ∷ [], "train.jsonl") ("v1" ∷ "out" ∷ []) "dataset.lock"
      ("out" ∷ []) "tuesday" "" files files_v2 (second ∷ first_again ∷ []) (first ∷ []) lock_v1
      lock_v2 1 refl refl refl refl refl (("r1", refl), tt) (("r0", refl), (("r1", refl), tt)) refl
      refl (λ l. refl) updated

added : (diff_locks lock_v1 lock_v2).added_rollout_ids ≡ "r0" ∷ []
unfolding diff_locks sorted_difference to_set sort_by insert_by
added = refl

abbrev run : FrameworkRun
run = record {
  framework_name = "act";
  framework_type = "il";
  adapter_version = "1";
  checkpoint_path = none;
  training_result_path = "result.json";
  eval_result_path = none;
  robolineage_context_path = none;
}

abbrev percent : ℕ → Bool
percent n = true

abbrev metas : Dict (MetaFile ℕ)
metas = []

abbrev meta_v2 : MetaFile ℕ
meta_v2 = stored (plain_meta percent "1.2.0" "act" (pos 100) "now" (some 80) pending lock_v2)

abbrev framework_meta_v2 : MetaFile ℕ
framework_meta_v2 = stored (
    framework_meta percent run
      (plain_meta percent "1.2.0" "act" (pos 100) "now" (some 80) pending lock_v2))
