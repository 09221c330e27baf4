-- ===== src/Dataset/Updater/Frozen.antt =====
-- What a successful update leaves in the files.
use robolineage.Prelude.{
  ℕ, ◌+◌, String, ◌≡◌, refl, ap, sym, ◌∙◌, true, false, Option, none, some, List, [], ◌∷◌, ◌++◌,
  map, All, length, ◌==◌, any, arith, str_eq, eq_iff,
}
use robolineage.Prelude.Result.{ok}
use robolineage.Prelude.Text.{str_lt, str_lt_irrefl}
use robolineage.Prelude.Sort.{
  sort_by, find_by, find-sort, Ascending, Ascending-sort, Ascending-ext, Distinct,
}
use robolineage.Dataset.Lock.{
  Entry, entry_key, to_set, DatasetLock, create_lock, compute_manifest_sha256, is_sha256,
}
use robolineage.Dataset.Files.{
  rows_file, lock_file, text_file, Folder, FilePath, Files, read_file, write_file, read_other,
  read_written,
}
use robolineage.Dataset.Version.{parse_version, write_version, next_version_id}
use robolineage.Dataset.Updater.{write_lock, render_readme, lock_of, freeze, update}
use robolineage.Dataset.Updater.Merge.{HasIds, newest, merge_newest}

-- Among texts above s there is none equal to s.
none_equal :
    (s : String) (l : List Entry)
    → All (λ e. str_lt s (entry_key e) ≡ true) l
    → any (λ t. str_eq s t) (map entry_key l) ≡ false
none_equal s [] h = refl
none_equal s (e ∷ l) h = ground (arith, eq_iff s (entry_key e), str_lt_irrefl s, none_equal s l h.1)

to_set-Ascending :
    (l : List Entry) → Ascending entry_key l → to_set (map entry_key l) ≡ map entry_key l
unfolding to_set Ascending
to_set-Ascending [] h = refl
to_set-Ascending (e ∷ l) h = rw (none_equal (entry_key e) l h.0, to_set-Ascending l h.1) refl

equal_self : (n : ℕ) → (n == n) ≡ true
equal_self n = ground arith

-- A lock over ascending rows passes its own checks.
create-Ascending :
    (lock : DatasetLock) (l : List Entry)
    → lock.included_rollout_ids ≡ map entry_key l
    → Ascending entry_key l
    → is_sha256 lock.manifest_sha256 ≡ true
    → create_lock lock ≡ ok lock
unfolding create_lock
create-Ascending lock l ids h hash =
    ground (arith, ids, to_set-Ascending l h, hash, equal_self (length (map entry_key l)))

-- Rows with one row for each id have the same hash in every order.
pub compute_manifest_sha256-order :
    (digest : List Entry → String) (l m : List Entry)
    → Distinct entry_key l
    → Distinct entry_key m
    → ((k : String) → find_by entry_key k l ≡ find_by entry_key k m)
    → compute_manifest_sha256 digest l ≡ compute_manifest_sha256 digest m
unfolding compute_manifest_sha256
compute_manifest_sha256-order digest l m h h' same = ap digest (
    Ascending-ext entry_key (sort_by entry_key l) (sort_by entry_key m)
      (Ascending-sort entry_key l h) (Ascending-sort entry_key m h')
      (λ k. find-sort entry_key k l ∙ same k ∙ sym (find-sort entry_key k m)))

written_files : DatasetLock → List Entry → Folder → Files → Files
unfolding render_readme
written_files lock merged folder f =
    write_file (folder, "dataset.lock") (lock_file lock)
      (write_file (folder, "README.md") (text_file (render_readme lock))
        (write_file (folder, "manifest.jsonl") (rows_file merged) f))

-- The manifest and the README are other files than the lock.
still_free :
    (folder : Folder) (rows : List Entry) (readme : String) (f : Files)
    → read_file
        (folder, "dataset.lock")
        (write_file
          (folder, "README.md")
          (text_file readme)
          (write_file (folder, "manifest.jsonl") (rows_file rows) f))
      ≡ read_file (folder, "dataset.lock") f
still_free folder rows readme f =
    read_other folder folder "README.md" "dataset.lock" (text_file readme)
      (write_file (folder, "manifest.jsonl") (rows_file rows) f) refl
    ∙ read_other folder folder "manifest.jsonl" "dataset.lock" (rows_file rows) f refl

freeze_free :
    (digest : List Entry → String) (out_dir : Folder) (created_at changelog version : String)
    (prev : Option DatasetLock) (merged : List Entry) (f : Files)
    → read_file (version ∷ out_dir, "dataset.lock") f ≡ none
    → Ascending entry_key merged
    → ((l : List Entry) → is_sha256 (digest l) ≡ true)
    → freeze digest out_dir created_at changelog version prev merged f ≡ (
      ok (lock_of digest version created_at changelog prev merged),
      written_files
          (lock_of digest version created_at changelog prev merged)
          merged
          (version ∷ out_dir)
          f,
    )
unfolding written_files write_lock compute_manifest_sha256
freeze_free digest out_dir created_at changelog version prev merged f free ascends hex =
    let lock = lock_of digest version created_at changelog prev merged in
    rw
      (
        free,
        create-Ascending lock merged refl ascends (hex (sort_by entry_key merged)),
        still_free (version ∷ out_dir) merged (render_readme lock) f ∙ free,
      )
      refl

-- What a successful update has made of the files `f`: `g`.
pub record Frozen (digest : List Entry → String) (folder : Folder) (prev : DatasetLock) (n : ℕ)
    (merged : List Entry) (lock : DatasetLock) (g : Files) : Type 0 where
  pub version : lock.version_id ≡ write_version (n + 1)
  pub base : lock.base_version_id ≡ some prev.version_id
  pub ids : lock.included_rollout_ids ≡ map entry_key merged
  pub total : lock.total_samples ≡ length merged
  pub hash : lock.manifest_sha256 ≡ compute_manifest_sha256 digest merged
  pub written : read_file (folder, "dataset.lock") g ≡ some (lock_file lock)
  pub rows : read_file (folder, "manifest.jsonl") g ≡ some (rows_file merged)

lock_there :
    (lock : DatasetLock) (rows : List Entry) (folder : Folder) (f : Files)
    → read_file (folder, "dataset.lock") (written_files lock rows folder f) ≡ some (lock_file lock)
unfolding written_files
lock_there lock rows folder f = read_written (folder, "dataset.lock") (lock_file lock) _

rows_there :
    (lock : DatasetLock) (rows : List Entry) (folder : Folder) (f : Files)
    → read_file (folder, "manifest.jsonl") (written_files lock rows folder f)
      ≡ some (rows_file rows)
unfolding written_files
rows_there lock rows folder f =
    read_other folder folder "dataset.lock" "manifest.jsonl" (lock_file lock) _ refl
    ∙ read_other folder folder "README.md" "manifest.jsonl" (text_file (render_readme lock))
        (write_file (folder, "manifest.jsonl") (rows_file rows) f) refl
    ∙ read_written (folder, "manifest.jsonl") (rows_file rows) f

-- An update from a previous dataset whose version is n succeeds where the lock and both manifests are
-- there, the lock passes its checks, all rows have ids, the new folder has no lock and digests are 64
-- hexadecimal digits. The new lock has version n + 1, names the previous lock as its base, and its ids, count and hash are
-- those of the rows written beside it. These ascend by id, and each is the last one with its id
-- among the previous and the new rows.
pub update_freezes :
    (digest : List Entry → String) (train : FilePath) (folder : Folder) (name : String)
    (out_dir : Folder) (created_at changelog : String) (f : Files) (new prev_rows : List Entry)
    (prev : DatasetLock) (n : ℕ)
    → read_file train f ≡ some (rows_file new)
    → read_file (folder, name) f ≡ some (lock_file prev)
    → create_lock prev ≡ ok prev
    → read_file (folder, "manifest.jsonl") f ≡ some (rows_file prev_rows)
    → HasIds prev_rows
    → HasIds new
    → parse_version prev.version_id ≡ ok n
    → read_file (write_version (n + 1) ∷ out_dir, "dataset.lock") f ≡ none
    → ((l : List Entry) → is_sha256 (digest l) ≡ true)
    → (merged : List Entry) × (lock : DatasetLock) × (g : Files) × (update digest train
          (some (folder, name))
          out_dir
          created_at
          changelog
          f
        ≡ (ok lock, g))
      × Ascending entry_key merged
      × ((k : String) → find_by entry_key k merged ≡ newest k (prev_rows ++ new) none)
      × Frozen digest (write_version (n + 1) ∷ out_dir) prev n merged lock g
unfolding update next_version_id
update_freezes digest train folder name out_dir created_at changelog f new prev_rows prev n has_new
      has_lock valid has_rows ids ids' parses free hex =
    let (merged, merges, ascends, holds) = merge_newest prev_rows new ids ids' in
    let target = write_version (n + 1) ∷ out_dir in
    let lock = lock_of digest (write_version (n + 1)) created_at changelog (some prev) merged in
    (
      merged,
      lock,
      written_files lock merged target f,
      rw (has_new, has_lock, valid, has_rows, merges, parses)
          (freeze_free digest out_dir created_at changelog (write_version (n + 1)) (some prev)
            merged f free ascends hex),
      ascends,
      holds,
      record {
        version = refl;
        base = refl;
        ids = refl;
        total = refl;
        hash = refl;
        written = lock_there lock merged target f;
        rows = rows_there lock merged target f;
      },
    )
