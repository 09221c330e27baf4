-- ===== src/Dataset/Updater/Merge.antt =====
-- The rows of the merged manifest.
use robolineage.Prelude.{
  String, ◌≡◌, refl, ap, sym, ◌∙◌, true, false, inl, inr, Option, none, some, List, [], ◌∷◌, ◌++◌,
  map, Bool-cases, arith, str_eq, eq_iff, if◌then◌else◌,
}
use robolineage.Prelude.Result.{ok, err}
use robolineage.Prelude.Text.{str_lt}
use robolineage.Prelude.Sort.{
  insert_by, sort_by, find_by, find-sort, Ascending, Ascending-sort, Distinct,
}
use robolineage.Prelude.Dict.{Dict, get, put, get-put}
use robolineage.Dataset.Lock.{key_error, Entry, entry_key, or_empty}
use robolineage.Dataset.Updater.{or_fail, add_entry, collect, by_id, merge_manifest_entries}

-- Every row has its "rollout_id".
unfoldable pub HasIds : List Entry → Type 0
HasIds [] = Unit
HasIds (e ∷ es) = ((k : String) × (e.rollout_id ≡ some k)) × HasIds es

-- The last row with the id, or `before` where no row has it.
unfoldable pub newest : String → List Entry → Option Entry → Option Entry
newest k [] before = before
newest k (e ∷ es) before = newest k es (if str_eq (entry_key e) k then some e else before)

-- Each row stands under its own id.
unfoldable Keyed : Dict Entry → Type 0
Keyed [] = Unit
Keyed ((k, e) ∷ d) = (e.rollout_id ≡ some k) × Keyed d

key_of : (e : Entry) (k : String) → e.rollout_id ≡ some k → entry_key e ≡ k
key_of e k h = ap or_empty h

abbrev value : String × Entry → Entry
value p = p.1

eq_from : (j k : String) → str_eq j k ≡ true → j ≡ k
eq_from j k h = ground (arith, eq_iff j k)

Keyed-put :
    (k : String) (e : Entry) (d : Dict Entry) → e.rollout_id ≡ some k → Keyed d → Keyed (put k e d)
unfolding Keyed put
Keyed-put k e [] h keyed = (h, tt)
Keyed-put k e ((j, w) ∷ d) h keyed = elim (Bool-cases (str_eq j k)) [
  | inl same ↦ rw same (h ∙ ap some (sym (eq_from j k same)), keyed.1)
  | inr other ↦ rw other (keyed.0, Keyed-put k e d h keyed.1)
]

-- A key stands once.
unfoldable KeysOnce : Dict Entry → Type 0
KeysOnce [] = Unit
KeysOnce ((k, e) ∷ d) = (get k d ≡ none) × KeysOnce d

absent-put :
    (j k : String) (e : Entry) (d : Dict Entry)
    → str_eq j k ≡ false
    → get j d ≡ none
    → get j (put k e d) ≡ none
absent-put j k e d other h = get-put k j e d ∙ ground (arith, eq_iff j k, eq_iff k j)

KeysOnce-put : (k : String) (e : Entry) (d : Dict Entry) → KeysOnce d → KeysOnce (put k e d)
unfolding KeysOnce put get
KeysOnce-put k e [] h = (refl, tt)
KeysOnce-put k e ((j, w) ∷ d) h = elim (Bool-cases (str_eq j k)) [
  | inl same ↦ rw same h
  | inr other ↦ rw other (absent-put j k e d other h.0, KeysOnce-put k e d h.1)
]

find_get : (k : String) (d : Dict Entry) → Keyed d → find_by entry_key k (map value d) ≡ get k d
unfolding find_by get Keyed
find_get k [] keyed = refl
find_get k ((j, e) ∷ d) keyed =
    rw (key_of e j keyed.0) (ap (λ o. if str_eq j k then some e else o) (find_get k d keyed.1))

Distinct-values : (d : Dict Entry) → Keyed d → KeysOnce d → Distinct entry_key (map value d)
unfolding Distinct Keyed KeysOnce
Distinct-values [] keyed once = tt
Distinct-values ((k, e) ∷ d) keyed once =
    (rw (key_of e k keyed.0) (find_get k d keyed.1 ∙ once.0), Distinct-values d keyed.1 once.1)

values-insert :
    (k : String) (e : Entry) (d : Dict Entry)
    → e.rollout_id ≡ some k
    → Keyed d
    → map value (insert_by by_id (k, e) d) ≡ insert_by entry_key e (map value d)
unfolding insert_by Keyed
values-insert k e [] h keyed = refl
values-insert k e ((j, w) ∷ d) h keyed =
    rw (key_of w j keyed.0, key_of e k h)
      (elim (Bool-cases (str_lt j k)) [
        | inl before ↦ rw before (ap (λ l. w ∷ l) (values-insert k e d h keyed.1))
        | inr after ↦ rw after refl
      ])

Keyed-insert :
    (k : String) (e : Entry) (d : Dict Entry)
    → e.rollout_id ≡ some k
    → Keyed d
    → Keyed (insert_by by_id (k, e) d)
unfolding insert_by Keyed
Keyed-insert k e [] h keyed = (h, tt)
Keyed-insert k e ((j, w) ∷ d) h keyed = elim (Bool-cases (str_lt j k)) [
  | inl before ↦ rw before (keyed.0, Keyed-insert k e d h keyed.1)
  | inr after ↦ rw after (h, keyed)
]

Keyed-sort : (d : Dict Entry) → Keyed d → Keyed (sort_by by_id d)
unfolding sort_by Keyed
Keyed-sort [] keyed = tt
Keyed-sort ((k, e) ∷ d) keyed = Keyed-insert k e (sort_by by_id d) keyed.0 (Keyed-sort d keyed.1)

values-sort :
    (d : Dict Entry) → Keyed d → map value (sort_by by_id d) ≡ sort_by entry_key (map value d)
unfolding sort_by Keyed
values-sort [] keyed = refl
values-sort ((k, e) ∷ d) keyed =
    values-insert k e (sort_by by_id d) keyed.0 (Keyed-sort d keyed.1)
    ∙ ap (insert_by entry_key e) (values-sort d keyed.1)

-- What collect gives, on rows that all have an id.
record Collected (es : List Entry) (d d' : Dict Entry) : Type 0 where
  pub keyed : Keyed d'
  pub once : KeysOnce d'
  pub holds : (k : String) → get k d' ≡ newest k es (get k d)

collected :
    (es : List Entry) (d : Dict Entry)
    → HasIds es
    → Keyed d
    → KeysOnce d
    → (d' : Dict Entry) × (collect es d ≡ ok d') × Collected es d d'
unfolding collect HasIds newest
collected [] d h keyed once = (d, refl, record { keyed = keyed; once = once; holds = λ k. refl })
collected (e ∷ es) d h keyed once =
    let (k, id) = h.0 in
    let (d', runs, c) =
      collected es (put k e d) h.1 (Keyed-put k e d id keyed) (KeysOnce-put k e d once) in
    (
      d',
      ap (λ o. or_fail (add_entry o e d) (collect es)) id ∙ runs,
      record {
        keyed = c.keyed;
        once = c.once;
        holds = λ j. c.holds j ∙ ap (newest j es) (get-put k j e d ∙ rw (key_of e k id) refl);
      },
    )

HasIds-append : (k l : List Entry) → HasIds k → HasIds l → HasIds (k ++ l)
unfolding HasIds
HasIds-append [] l h h' = h'
HasIds-append (e ∷ k) l h h' = (h.0, HasIds-append k l h.1 h')

-- Merging never fails on rows with ids. The merged rows ascend strictly by id, and under each id
-- stands the last row that has it among the previous and then the new ones.
pub merge_newest :
    (prev new : List Entry)
    → HasIds prev
    → HasIds new
    → (merged : List Entry) × (merge_manifest_entries prev new ≡ ok merged)
      × Ascending entry_key merged
      × ((k : String) → find_by entry_key k merged ≡ newest k (prev ++ new) none)
unfolding merge_manifest_entries Keyed KeysOnce get
merge_newest prev new h h' =
    let (d, runs, c) = collected (prev ++ new) [] (HasIds-append prev new h h') tt tt in
    let sorts = values-sort d c.keyed in
    (
      map value (sort_by by_id d),
      ap (λ r. or_fail r (λ d. ok (map value (sort_by by_id d)))) runs,
      rw sorts (Ascending-sort entry_key (map value d) (Distinct-values d c.keyed c.once)),
      λ k. rw sorts (find-sort entry_key k (map value d) ∙ find_get k d c.keyed ∙ c.holds k),
    )

-- A row without an id fails the merge.
collect_refuses :
    (es rest : List Entry) (e : Entry) (d : Dict Entry)
    → HasIds es
    → e.rollout_id ≡ none
    → collect (es ++ e ∷ rest) d ≡ err key_error
unfolding collect HasIds
collect_refuses [] rest e d h no_id = ap (λ o. or_fail (add_entry o e d) (collect rest)) no_id
collect_refuses (e' ∷ es) rest e d h no_id =
    let (k, id) = h.0 in
    ap (λ o. or_fail (add_entry o e' d) (collect (es ++ e ∷ rest))) id
    ∙ collect_refuses es rest e (put k e' d) h.1 no_id
