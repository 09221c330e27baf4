-- ===== src/Dataset/Updater/Locks.antt =====
-- Locks are written once.
use robolineage.Prelude.{
  String, ◌≡◌, refl, ◌∙◌, ◌∷◌, false, inl, inr, Option, none, some, List, Bool-cases,
}
use robolineage.Prelude.Exec.{pure, bind_keeps}
use robolineage.Dataset.Lock.{Entry, DatasetLock, create_lock}
use robolineage.Dataset.Files.{
  rows_file, lock_file, text_file, Folder, FilePath, Files, read_file, write_file, read_other,
  read_kept,
}
use robolineage.Dataset.Version.{next_version_id}
use robolineage.Dataset.Updater.{
  Previous, read_lock, render_readme, read_previous, read_previous_rows, merge_manifest_entries,
  lift, lift_version, version_of, is_there, write_lock, lock_of, write_version_files, freeze,
  update, read_jsonl,
}

free : {A : Type 0} (o : Option A) → is_there o ≡ false → o ≡ none
free none h = refl
free (some a) h = absurd (cc h)

module _ (kept_in : Folder) (kept : DatasetLock) where
  Keeps : Files → Type 0
  Keeps f = read_file (kept_in, "dataset.lock") f ≡ some (lock_file kept)

  write_lock-Keeps :
      (lock : DatasetLock) (folder : Folder) (f : Files)
      → Keeps f
      → Keeps (write_lock lock folder f).1
  unfolding Keeps write_lock
  write_lock-Keeps lock folder f h =
      elim (Bool-cases (is_there (read_file (folder, "dataset.lock") f))) [
        | inl there ↦ rw there h
        | inr absent ↦ rw absent (
            read_kept (folder, "dataset.lock") (kept_in, "dataset.lock") (lock_file lock)
              (lock_file kept) f h (free (read_file (folder, "dataset.lock") f) absent))
      ]

  write_version_files-Keeps :
      (digest : List Entry → String) (lock : DatasetLock) (merged : List Entry) (folder : Folder)
      (f : Files)
      → Keeps f
      → Keeps (write_version_files digest lock merged folder f).1
  unfolding Keeps
  write_version_files-Keeps digest lock merged folder f h =
      let rows = write_file (folder, "manifest.jsonl") (rows_file merged) f in
      let readme = text_file (render_readme lock) in
      bind_keeps Keeps (write_lock lock folder) (λ _. pure lock) _
        (write_lock-Keeps lock folder _ (
          read_other folder kept_in "README.md" "dataset.lock" readme rows refl
          ∙ read_other folder kept_in "manifest.jsonl" "dataset.lock" (rows_file merged) f refl
          ∙ h))
        (λ _ t k. k)

  freeze-Keeps :
      (digest : List Entry → String) (out_dir : Folder) (created_at changelog version : String)
      (prev : Option DatasetLock) (merged : List Entry) (f : Files)
      → Keeps f
      → Keeps (freeze digest out_dir created_at changelog version prev merged f).1
  freeze-Keeps digest out_dir created_at changelog version prev merged f h =
      elim (Bool-cases (is_there (read_file (version ∷ out_dir, "dataset.lock") f))) [
        | inl there ↦ rw there h
        | inr absent ↦ rw absent (
            bind_keeps Keeps
              (lift (create_lock (lock_of digest version created_at changelog prev merged)))
              (λ lock. write_version_files digest lock merged (version ∷ out_dir)) f h
              (λ lock t k. write_version_files-Keeps digest lock merged (version ∷ out_dir) t k))
      ]

  read_previous-Keeps : (p : Previous) (f : Files) → Keeps f → Keeps (read_previous p f).1
  unfolding Keeps
  read_previous-Keeps none f h = h
  read_previous-Keeps (some (folder, name)) f h =
      bind_keeps Keeps (read_lock (folder, name)) (λ l. pure (some l)) f h (λ _ t k. k)

  read_previous_rows-Keeps : (p : Previous) (f : Files) → Keeps f → Keeps (read_previous_rows p f).1
  unfolding Keeps
  read_previous_rows-Keeps none f h = h
  read_previous_rows-Keeps (some (folder, name)) f h = h

  -- A lock that stands in a file "dataset.lock" stays there as it is, whatever update is called and
  -- whether or not it raises.
  pub update_keeps_locks :
      (digest : List Entry → String) (train_manifest_path : FilePath) (prev_lock_path : Previous)
      (out_dir : Folder) (created_at changelog : String) (f : Files)
      → read_file (kept_in, "dataset.lock") f ≡ some (lock_file kept)
      → read_file
          (kept_in, "dataset.lock")
          (update digest train_manifest_path prev_lock_path out_dir created_at changelog f).1
        ≡ some (lock_file kept)
  unfolding update Keeps
  update_keeps_locks digest train prev out_dir created_at changelog f h =
      bind_keeps Keeps (read_jsonl train) _ f h (λ new t k.
        bind_keeps Keeps (read_previous prev) _ t (read_previous-Keeps prev t k) (λ lock t k.
          bind_keeps Keeps (read_previous_rows prev) _ t (read_previous_rows-Keeps prev t k)
            (λ rows t k.
              bind_keeps Keeps (lift (merge_manifest_entries rows new)) _ t k (λ merged t k.
                bind_keeps Keeps (lift (lift_version (next_version_id (version_of lock)))) _ t k
                  (λ version t k.
                    freeze-Keeps digest out_dir created_at changelog version lock merged t k)))))
