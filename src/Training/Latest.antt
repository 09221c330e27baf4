-- ===== src/Training/Latest.antt =====
-- The latest dataset, and the update that follows it.
use mathlib.Core.Path.{subst}
use robolineage.Prelude.{
  ℕ, ◌+◌, ◌≡◌, ◌≢◌, ◌≤◌, ◌⊎◌, refl, sym, ap, ◌∙◌, String, Bool, true, false, inl, inr, Bool-cases,
  Option, none, some, List, [], ◌∷◌, All, ltb, arith,
}
use robolineage.Prelude.Result.{Result, ok, err}
use robolineage.Dataset.Version.{VersionError, parse_version, write_version}
use robolineage.Dataset.Version.RoundTrip.{next_version_counts}
use robolineage.Dataset.Lock.{Entry, DatasetLock, create_lock, is_sha256}
use robolineage.Dataset.Files.{rows_file, lock_file, Folder, FilePath, Files, read_file}
use robolineage.Dataset.Updater.{update}
use robolineage.Dataset.Updater.Merge.{HasIds}
use robolineage.Dataset.Updater.Frozen.{update_freezes}
use robolineage.Training.{DatasetFolder, numbered, later, latest_from, latest_dataset_lock}

abbrev Bounded : ℕ → Option ℕ → Type 0
Bounded n none = Unit
Bounded n (some m) = m ≤ n

-- A dataset with a lock has at most this number, if it has one.
abbrev AtMost : ℕ → DatasetFolder → Type 0
AtMost n (name, has_lock) = Bounded n (numbered has_lock (parse_version name))

abbrev number_of : Option (ℕ × String) → Option ℕ
number_of none = none
number_of (some (n, name)) = some n

-- The number is read from the name.
abbrev Sourced : Option (ℕ × String) → Type 0
Sourced none = Unit
Sourced (some (n, name)) = parse_version name ≡ ok n

Sourced-later :
    (name : String) (has_lock : Bool) (r : Result VersionError ℕ) (best : Option (ℕ × String))
    → parse_version name ≡ r
    → Sourced best
    → Sourced (later name (numbered has_lock r) best)
Sourced-later name false r best h k = k
Sourced-later name true (err e) best h k = k
Sourced-later name true (ok n) none h k = h
Sourced-later name true (ok n) (some (m, other)) h k = elim (Bool-cases (ltb n m)) [
  | inl lower ↦ rw lower k
  | inr higher ↦ rw higher h
]

Bounded-later :
    (name : String) (o : Option ℕ) (best : Option (ℕ × String)) (n : ℕ)
    → Bounded n (number_of (later name o best))
    → Bounded n o × Bounded n (number_of best)
Bounded-later name none best n h = (tt, h)
Bounded-later name (some m) none n h = (h, tt)
Bounded-later name (some m) (some (k, other)) n h = elim (Bool-cases (ltb m k)) [
  | inl lower ↦ (ground arith, ground arith)
  | inr higher ↦ (ground arith, ground arith)
]

latest_exact :
    (best : Option (ℕ × String)) (fs : List DatasetFolder) (n : ℕ) (name : String)
    → Sourced best
    → latest_from best fs ≡ some (n, name)
    → (parse_version name ≡ ok n) × Bounded n (number_of best) × All (AtMost n) fs
unfolding latest_from
latest_exact best [] n name sourced h =
    (subst Sourced h sourced, subst (Bounded n) (sym (ap number_of h)) (omega arith), tt)
latest_exact best ((other, has_lock) ∷ fs) n name sourced h =
    let o = numbered has_lock (parse_version other) in
    let (parses, bound, rest) =
      latest_exact (later other o best) fs n name
        (Sourced-later other has_lock (parse_version other) best refl sourced) h in
    let (here, before) = Bounded-later other o best n bound in (parses, before, (here, rest))

-- Without a lock, or under another name.
abbrev pub IsFree : String → DatasetFolder → Type 0
IsFree v (name, has_lock) = (has_lock ≡ false) ⊎ (name ≢ v)

too_high : (n : ℕ) → Bounded n (some (n + 1)) → ⊥
too_high n h = absurd (omega arith)

AtMost-IsFree :
    (n : ℕ) (v name : String) (has_lock : Bool)
    → parse_version v ≡ ok (n + 1)
    → AtMost n (name, has_lock)
    → IsFree v (name, has_lock)
AtMost-IsFree n v name false parses h = inl refl
AtMost-IsFree n v name true parses h =
    inr (λ same.
      too_high n (subst (Bounded n) (ap (numbered true) (ap parse_version same ∙ parses)) h))

All-IsFree :
    (n : ℕ) (v : String) (fs : List DatasetFolder)
    → parse_version v ≡ ok (n + 1)
    → All (AtMost n) fs
    → All (IsFree v) fs
All-IsFree n v [] parses h = tt
All-IsFree n v ((name, has_lock) ∷ fs) parses h =
    (AtMost-IsFree n v name has_lock parses h.0, All-IsFree n v fs parses h.1)

latest-IsFree :
    (folders : List DatasetFolder) (n : ℕ) (name : String)
    → latest_dataset_lock folders ≡ some (n, name)
    → (parse_version name ≡ ok n) × All (IsFree (write_version (n + 1))) folders
unfolding latest_dataset_lock
latest-IsFree folders n name h =
    let (parses, bound, all) = latest_exact none folders n name tt h in
    (
      parses,
      All-IsFree n (write_version (n + 1)) folders ((next_version_counts name n parses).1) all,
    )

-- An update from the latest dataset of out_dir finds its place free and succeeds: it makes the version
-- after the number that the latest folder's name says, with that folder as its base. This is where
-- the latest lock says the version that its folder is named, out_dir's locks stand in the folders
-- that were listed with a lock, the lock passes its checks, both manifests are there, all rows have
-- ids and digests are 64 hexadecimal digits.
pub latest_fresh :
    (digest : List Entry → String) (folders : List DatasetFolder) (n : ℕ) (name : String)
    (train : FilePath) (out_dir : Folder) (created_at changelog : String) (f : Files)
    (new prev_rows : List Entry) (prev : DatasetLock)
    → latest_dataset_lock folders ≡ some (n, name)
    → ((v : String) → All (IsFree v) folders → read_file (v ∷ out_dir, "dataset.lock") f ≡ none)
    → read_file (name ∷ out_dir, "dataset.lock") f ≡ some (lock_file prev)
    → prev.version_id ≡ name
    → create_lock prev ≡ ok prev
    → read_file (name ∷ out_dir, "manifest.jsonl") f ≡ some (rows_file prev_rows)
    → read_file train f ≡ some (rows_file new)
    → HasIds prev_rows
    → HasIds new
    → ((l : List Entry) → is_sha256 (digest l) ≡ true)
    → (lock : DatasetLock) × (g : Files) × (update digest train
          (some (name ∷ out_dir, "dataset.lock"))
          out_dir
          created_at
          changelog
          f
        ≡ (ok lock, g))
      × (lock.version_id ≡ write_version (n + 1))
      × (lock.base_version_id ≡ some name)
latest_fresh digest folders n name train out_dir created_at changelog f new prev_rows prev latest
      listed has_lock named valid has_rows has_new ids ids' hex =
    let (parses, all) = latest-IsFree folders n name latest in
    let (merged, lock, g, runs, ascends, holds, frozen) =
      update_freezes digest train (name ∷ out_dir) "dataset.lock" out_dir created_at changelog f new
        prev_rows prev n has_new has_lock valid has_rows ids ids' (ap parse_version named ∙ parses)
        (listed (write_version (n + 1)) all) hex in
    (lock, g, runs, frozen.version, frozen.base ∙ ap (λ v. some v) named)
