-- ===== src/Dataset/Diff/Removed.antt =====
-- An update keeps the rollouts of its base.
use mathlib.Core.Path.{subst}
use robolineage.Prelude.{
  ℕ, ◌+◌, String, ◌≡◌, refl, ap, sym, ◌∙◌, true, not, ◌||◌, List, [], ◌∷◌, map, filter, arith,
  str_eq, eq_iff, if◌then◌else◌, ◌++◌, Option, none, some,
}
use robolineage.Prelude.Result.{Result, ok, err}
use robolineage.Prelude.Sort.{sort_by, find_by}
use robolineage.Dataset.Lock.{
  DatasetError, Entry, entry_key, to_set, DatasetLock, create_lock, is_sha256,
}
use robolineage.Dataset.Version.{parse_version, write_version}
use robolineage.Dataset.Files.{rows_file, lock_file, Folder, FilePath, Files, read_file}
use robolineage.Dataset.Updater.{is_there, update}
use robolineage.Dataset.Updater.Merge.{HasIds, newest}
use robolineage.Dataset.Updater.Frozen.{Frozen, update_freezes}
use robolineage.Dataset.Diff.{contains, itself, sorted_difference, diff_locks, contains-to_set}

contains-ids :
    (s : String) (l : List Entry) → contains s (map entry_key l) ≡ is_there (find_by entry_key s l)
unfolding find_by
contains-ids s [] = refl
contains-ids s (e ∷ l) =
    ground (arith, eq_iff s (entry_key e), eq_iff (entry_key e) s, contains-ids s l)

there_before :
    (s : String) (l : List Entry) (o : Option Entry)
    → is_there (newest s l o) ≡ (is_there o || contains s (map entry_key l))
unfolding newest
there_before s [] none = refl
there_before s [] (some e) = refl
there_before s (e ∷ l) o =
    there_before s l (if str_eq (entry_key e) s then some e else o)
    ∙ ground (arith, eq_iff s (entry_key e), eq_iff (entry_key e) s)

still_contained :
    (s : String) (l m : List Entry)
    → contains s (map entry_key l) ≡ true
    → contains s (map entry_key (l ++ m)) ≡ true
still_contained s [] m h = absurd (cc h)
still_contained s (e ∷ l) m h = ground (arith, still_contained s l m)

none_left :
    (a b l : List String)
    → ((s : String) → contains s a ≡ true → contains s b ≡ true)
    → ((s : String) → contains s l ≡ true → contains s a ≡ true)
    → filter (λ s. not (contains s b)) l ≡ []
none_left a b [] h k = refl
none_left a b (t ∷ l) h k =
    let here = h t (k t (ground (arith, eq_iff t t))) in
    let rest = none_left a b l h (λ s i. k s (ground arith)) in ground (arith, here, rest)

Frozen-removes_none :
    (digest : List Entry → String) (folder : Folder) (f : Files) (prev lock : DatasetLock) (n : ℕ)
    (prev_rows new merged : List Entry)
    → prev.included_rollout_ids ≡ map entry_key prev_rows
    → ((k : String) → find_by entry_key k merged ≡ newest k (prev_rows ++ new) none)
    → Frozen digest folder prev n merged lock f
    → (diff_locks prev lock).removed_rollout_ids ≡ []
unfolding diff_locks sorted_difference sort_by
Frozen-removes_none digest folder f prev lock n prev_rows new merged listed holds frozen =
    rw (frozen.ids, listed)
      (ap (sort_by itself) (
        none_left (map entry_key prev_rows) (map entry_key merged)
          (to_set (map entry_key prev_rows))
          (λ s h.
            contains-ids s merged
            ∙ ap is_there (holds s)
            ∙ there_before s (prev_rows ++ new) none
            ∙ still_contained s prev_rows new h)
          (λ s h. sym (contains-to_set s (map entry_key prev_rows)) ∙ h)))

RemovesNone : DatasetLock → Result DatasetError DatasetLock → Type 0
RemovesNone prev (err e) = Unit
RemovesNone prev (ok lock) = (diff_locks prev lock).removed_rollout_ids ≡ []

-- An update from a previous dataset whose lock passes its checks, has a version with a number and
-- lists the ids of its manifest's rows removes no rollout, where both manifests are there, all rows
-- have ids, the new folder has no lock and digests are 64 hexadecimal digits: the difference from the previous lock to the one that it returns has nothing
-- removed.
pub update_removes_none :
    (digest : List Entry → String) (train : FilePath) (folder : Folder) (name : String)
    (out_dir : Folder) (created_at changelog : String) (f g : Files) (new prev_rows : List Entry)
    (prev lock : DatasetLock) (n : ℕ)
    → read_file train f ≡ some (rows_file new)
    → read_file (folder, name) f ≡ some (lock_file prev)
    → create_lock prev ≡ ok prev
    → read_file (folder, "manifest.jsonl") f ≡ some (rows_file prev_rows)
    → prev.included_rollout_ids ≡ map entry_key prev_rows
    → HasIds prev_rows
    → HasIds new
    → parse_version prev.version_id ≡ ok n
    → read_file (write_version (n + 1) ∷ out_dir, "dataset.lock") f ≡ none
    → ((l : List Entry) → is_sha256 (digest l) ≡ true)
    → update digest train (some (folder, name)) out_dir created_at changelog f ≡ (ok lock, g)
    → (diff_locks prev lock).removed_rollout_ids ≡ []
unfolding RemovesNone
update_removes_none digest train folder name out_dir created_at changelog f g new prev_rows prev
      lock n has_new has_lock valid has_rows listed ids ids' parses free hex runs =
    let (merged, frozen_lock, h, freezes, ascends, holds, frozen) =
      update_freezes digest train folder name out_dir created_at changelog f new prev_rows prev n
        has_new has_lock valid has_rows ids ids' parses free hex in
    subst (RemovesNone prev) (ap (λ x. x.0) (sym freezes ∙ runs)) (
      Frozen-removes_none digest (write_version (n + 1) ∷ out_dir) h prev frozen_lock n prev_rows
        new merged listed holds frozen)
