-- ===== src/Dataset/Updater.antt =====
-- A dataset's next version (src/robolineage_dataset/updater.py, lock_writer.py). Writing a file that
-- may be written does not fail in the model, and every file that is there can be read. The temporary
-- files that are renamed into place are not modelled.
pub mod Merge
pub mod Locks
pub mod Frozen
use Prim.Native.String.{◌++◌ as append}
use robolineage.Prelude.{
  ℕ, suc, ◌+◌, String, Bool, true, false, not, Option, none, some, List, [], ◌∷◌, map, ◌++◌, any,
  filter, length, str_eq, if◌then◌else◌,
}
use robolineage.Prelude.Result.{Result, ok, err}
use robolineage.Prelude.Dict.{Dict, get, put}
use robolineage.Prelude.Exec.{Exec, pure, raise, gets, modify, ◌>>=◌, ◌>>◌}
use robolineage.Prelude.Sort.{sort_by}
use robolineage.Dataset.Lock.{
  DatasetError, value_error, key_error, file_not_found, file_exists, Entry, DatasetLock,
  create_lock, entry_key, compute_manifest_sha256, to_set,
}
use robolineage.Dataset.Files.{
  Content, rows_file, lock_file, text_file, Folder, FilePath, Files, read_file, write_file,
}
use robolineage.Dataset.Version.{VersionError, next_version_id, write_digits}

-- folder / name
abbrev pub file_in : String → String → String
file_in folder name = append folder (append "/" name)

-- What a file is as a manifest, and as a lock: a DatasetLock is made of the latter's fields, which
-- checks them. The exceptions of a file of another kind are one here.
abbrev pub rows_in : Option Content → Result DatasetError (List Entry)
rows_in none = err file_not_found
rows_in (some (rows_file l)) = ok l
rows_in (some _) = err value_error

abbrev pub lock_in : Option Content → Result DatasetError DatasetLock
lock_in none = err file_not_found
lock_in (some (lock_file l)) = create_lock l
lock_in (some _) = err value_error

abbrev pub read_jsonl : FilePath → Exec Files DatasetError (List Entry)
read_jsonl path f = (rows_in (read_file path f), f)

abbrev pub read_lock : FilePath → Exec Files DatasetError DatasetLock
read_lock path f = (lock_in (read_file path f), f)

-- by_rollout, filled by the rows in their order
abbrev pub add_entry : Option String → Entry → Dict Entry → Result DatasetError (Dict Entry)
add_entry none e d = err key_error
add_entry (some k) e d = ok (put k e d)

abbrev pub or_fail :
    {A B : Type 0} → Result DatasetError A → (A → Result DatasetError B) → Result DatasetError B
or_fail (err e) f = err e
or_fail (ok a) f = f a

unfoldable pub collect : List Entry → Dict Entry → Result DatasetError (Dict Entry)
collect [] d = ok d
collect (e ∷ es) d = or_fail (add_entry e.rollout_id e d) (collect es)

abbrev pub by_id : String × Entry → String
by_id p = p.0

unfoldable pub merge_manifest_entries : List Entry → List Entry → Result DatasetError (List Entry)
unfolding collect
merge_manifest_entries prev new =
    or_fail (collect (prev ++ new) []) (λ d. ok (map (λ p. p.1) (sort_by by_id d)))

abbrev pub lift_version : Result VersionError String → Result DatasetError String
lift_version (ok v) = ok v
lift_version (err e) = err value_error

abbrev pub lift : {A : Type 0} → Result DatasetError A → Exec Files DatasetError A
lift r f = (r, f)

abbrev pub Previous : Type 0
Previous = Option FilePath

abbrev pub read_previous : Previous → Exec Files DatasetError (Option DatasetLock)
read_previous none = pure none
read_previous (some (folder, name)) = read_lock (folder, name) >>= λ l. pure (some l)

abbrev pub read_previous_rows : Previous → Exec Files DatasetError (List Entry)
read_previous_rows none = pure []
read_previous_rows (some (folder, name)) = read_jsonl (folder, "manifest.jsonl")

abbrev pub version_of : Option DatasetLock → Option String
version_of none = none
version_of (some l) = some l.version_id

abbrev pub is_there {ℓ} : {A : Type ℓ} → Option A → Bool
is_there none = false
is_there (some a) = true

-- DatasetLockWriter.write: once written, a lock stays.
unfoldable pub write_lock : DatasetLock → Folder → Exec Files DatasetError FilePath
unfolding read_file write_file
write_lock lock folder f =
    let target : FilePath = (folder, "dataset.lock") in
    if is_there (read_file target f)
    then (err file_exists, f)
    else (ok target, write_file target (lock_file lock) f)

abbrev pub or_else : Option String → String → String
or_else none d = d
or_else (some s) d = s

abbrev pub truthy : String → Option String
truthy s = if str_eq s "" then none else some s

abbrev pub if_truthy : Option String → Option String
if_truthy none = none
if_truthy (some s) = truthy s

abbrev pub line : String → String → String
line label text = append label (append text "`\n")

-- DatasetUpdater._render_readme
unfoldable pub render_readme : DatasetLock → String
unfolding write_digits
render_readme lock = append "# Dataset " (
    append lock.version_id (
      append "\n\n" (
        append (line "- created_at: `" lock.created_at) (
          append (line "- base_version_id: `" (or_else (if_truthy lock.base_version_id) "None")) (
            append
              (line "- total_samples: `"
                (write_digits (suc lock.total_samples) lock.total_samples ""))
              (append (line "- manifest_sha256: `" lock.manifest_sha256) (
                append "- changelog: "
                  (append (or_else (truthy lock.changelog) "(empty)") "\n"))))))))

module _ (digest : List Entry → String) where
  -- The lock that describes the rows.
  abbrev pub lock_of : String → String → String → Option DatasetLock → List Entry → DatasetLock
  lock_of version created_at changelog prev merged = record {
    version_id = version;
    created_at = created_at;
    base_version_id = version_of prev;
    included_rollout_ids = map entry_key merged;
    total_samples = length merged;
    manifest_sha256 = compute_manifest_sha256 digest merged;
    changelog = changelog;
  }

  abbrev pub write_version_files :
      DatasetLock → List Entry → Folder → Exec Files DatasetError DatasetLock
  write_version_files lock merged folder =
      modify (write_file (folder, "manifest.jsonl") (rows_file merged))
      >> modify (write_file (folder, "README.md") (text_file (render_readme lock)))
      >> write_lock lock folder
      >> pure lock

  abbrev pub freeze :
      Folder
      → String
      → String
      → String
      → Option DatasetLock
      → List Entry
      → Exec Files DatasetError DatasetLock
  freeze out_dir created_at changelog version prev merged f =
      let folder = version ∷ out_dir in
      if is_there (read_file (folder, "dataset.lock") f)
      then (err file_exists, f)
      else (lift (create_lock (lock_of version created_at changelog prev merged)) >>= λ lock.
            write_version_files lock merged folder)
          f

  -- DatasetUpdater.update
  unfoldable pub update :
      FilePath → Previous → Folder → String → String → Exec Files DatasetError DatasetLock
  unfolding merge_manifest_entries next_version_id create_lock write_lock render_readme
      compute_manifest_sha256 read_file write_file
  update train_manifest_path prev_lock_path out_dir created_at changelog =
      read_jsonl train_manifest_path >>= λ new. read_previous prev_lock_path >>= λ prev.
      read_previous_rows prev_lock_path >>= λ prev_rows.
      lift (merge_manifest_entries prev_rows new) >>= λ merged.
      lift (lift_version (next_version_id (version_of prev))) >>= λ version.
      freeze out_dir created_at changelog version prev merged
