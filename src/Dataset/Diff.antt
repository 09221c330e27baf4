-- ===== src/Dataset/Diff.antt =====
-- The difference of two datasets (src/robolineage_dataset/diff.py).
pub mod Removed
use robolineage.Prelude.{
  ℕ, String, ◌≡◌, refl, ap, sym, ◌∙◌, Bool, true, false, not, ◌&&◌, ◌||◌, inl, inr, Bool-cases,
  List, [], ◌∷◌, map, any, filter, arith, str_eq, eq_iff, if◌then◌else◌, ◌++◌, Option, none, some,
}
use robolineage.Prelude.Int.{ℤ, minus}
use robolineage.Prelude.Sort.{insert_by, sort_by, find_by, Ascending, Ascending-sort, Distinct}
use robolineage.Dataset.Lock.{Entry, entry_key, to_set, DatasetLock}

pub record DatasetDiff : Type 0 where
  pub from_version : String
  pub to_version : String
  pub added_rollout_ids : List String
  pub removed_rollout_ids : List String
  pub total_delta : ℤ

abbrev pub contains : String → List String → Bool
contains s l = any (λ t. str_eq s t) l

abbrev pub itself : String → String
itself s = s

-- sorted(set(a) - set(b))
unfoldable pub sorted_difference : List String → List String → List String
sorted_difference a b = sort_by itself (filter (λ s. not (contains s b)) (to_set a))

unfoldable pub diff_locks : DatasetLock → DatasetLock → DatasetDiff
unfolding sorted_difference
diff_locks a b =
    let a_ids = a.included_rollout_ids in
    let b_ids = b.included_rollout_ids in
    record {
      from_version = a.version_id;
      to_version = b.version_id;
      added_rollout_ids = sorted_difference b_ids a_ids;
      removed_rollout_ids = sorted_difference a_ids b_ids;
      total_delta = minus b.total_samples a.total_samples;
    }

contains-insert :
    (s t : String) (l : List String)
    → contains s (insert_by itself t l) ≡ (str_eq s t || contains s l)
unfolding insert_by
contains-insert s t [] = refl
contains-insert s t (u ∷ l) = ground (arith, contains-insert s t l)

contains-sort : (s : String) (l : List String) → contains s (sort_by itself l) ≡ contains s l
unfolding sort_by
contains-sort s [] = refl
contains-sort s (t ∷ l) =
    contains-insert s t (sort_by itself l) ∙ ap (λ b. str_eq s t || b) (contains-sort s l)

equal : (s t : String) → str_eq s t ≡ true → s ≡ t
equal s t h = ground (arith, eq_iff s t)

same_contained : (s t : String) (l : List String) → str_eq s t ≡ true → contains s l ≡ contains t l
same_contained s t l h = ap (λ u. contains u l) (equal s t h)

pub contains-to_set : (s : String) (l : List String) → contains s (to_set l) ≡ contains s l
unfolding to_set
contains-to_set s [] = refl
contains-to_set s (t ∷ l) = ground (arith, same_contained s t l, contains-to_set s l)

contains-filter :
    (s : String) (l b : List String)
    → contains s (filter (λ t. not (contains t b)) l) ≡ (contains s l && not (contains s b))
contains-filter s [] b = refl
contains-filter s (t ∷ l) b = ground (arith, same_contained s t b, contains-filter s l b)

contains-difference :
    (s : String) (a b : List String)
    → contains s (sorted_difference a b) ≡ (contains s a && not (contains s b))
unfolding sorted_difference
contains-difference s a b =
    contains-sort s (filter (λ t. not (contains t b)) (to_set a))
    ∙ contains-filter s (to_set a) b
    ∙ ap (λ h. h && not (contains s b)) (contains-to_set s a)

find_absent : (s : String) (l : List String) → contains s l ≡ false → find_by itself s l ≡ none
unfolding find_by
find_absent s [] h = refl
find_absent s (t ∷ l) h = ground (arith, eq_iff s t, eq_iff t s, find_absent s l)

absent-kept :
    (s : String) (p : String → Bool) (l : List String)
    → contains s l ≡ false
    → contains s (filter p l) ≡ false
absent-kept s p [] h = refl
absent-kept s p (t ∷ l) h = ground (arith, absent-kept s p l)

Distinct-filter : (p : String → Bool) (l : List String) → Distinct itself (filter p (to_set l))
unfolding Distinct to_set
Distinct-filter p [] = tt
Distinct-filter p (t ∷ l) = elim (Bool-cases (contains t l)) [
  | inl again ↦ rw again (Distinct-filter p l)
  | inr first ↦ rw first (elim (Bool-cases (p t)) [
    | inl kept ↦ rw kept (
      find_absent t (filter p (to_set l))
          (absent-kept t p (to_set l) (contains-to_set t l ∙ first)),
      Distinct-filter p l,
    )
    | inr dropped ↦ rw dropped (Distinct-filter p l)
  ])
]

-- The added ids are exactly those of b that a lacks, the removed ones those of a that b lacks, and
-- both lists ascend strictly.
pub diff_exact :
    (a b : DatasetLock)
    → ((s : String)
        → (contains s (diff_locks a b).added_rollout_ids
            ≡ (contains s b.included_rollout_ids && not (contains s a.included_rollout_ids)))
          × (contains s (diff_locks a b).removed_rollout_ids
              ≡ (contains s a.included_rollout_ids && not (contains s b.included_rollout_ids))))
      × Ascending itself (diff_locks a b).added_rollout_ids
      × Ascending itself (diff_locks a b).removed_rollout_ids
unfolding diff_locks sorted_difference
diff_exact a b =
    let x = a.included_rollout_ids in
    let y = b.included_rollout_ids in
    (
      (λ s. (contains-difference s y x, contains-difference s x y)),
      Ascending-sort itself (filter (λ s. not (contains s x)) (to_set y))
          (Distinct-filter (λ s. not (contains s x)) y),
      Ascending-sort itself (filter (λ s. not (contains s y)) (to_set x))
          (Distinct-filter (λ s. not (contains s y)) x),
    )
