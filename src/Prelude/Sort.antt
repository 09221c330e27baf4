-- ===== src/Prelude/Sort.antt =====
-- Python's sorted(…, key=…) with text keys: stable insertion, and its laws.
use mathlib.Core.List.{Perm}
use mathlib.Core.List.Perm
use robolineage.Prelude.{
  String, ◌≡◌, refl, ap, sym, ◌∙◌, true, false, inl, inr, Option, none, some, List, [], ◌∷◌, All,
  Bool-cases, arith, str_eq, eq_iff, if◌then◌else◌,
}
use robolineage.Prelude.Text.{str_lt, str_lt_trans, str_lt_irrefl, str_lt_total}

module _ {ℓ} {A : Type ℓ} (key : A → String) where
  unfoldable pub insert_by : A → List A → List A
  insert_by x [] = x ∷ []
  insert_by x (y ∷ ys) =
      let rest = insert_by x ys in if str_lt (key y) (key x) then y ∷ rest else x ∷ y ∷ ys

  unfoldable pub sort_by : List A → List A
  sort_by [] = []
  sort_by (x ∷ xs) = insert_by x (sort_by xs)

  -- The first element with the key.
  unfoldable pub find_by : String → List A → Option A
  find_by k [] = none
  find_by k (x ∷ xs) = if str_eq (key x) k then some x else find_by k xs

  -- Strictly ascending keys, each below all that follow.
  unfoldable pub Ascending : List A → Type ℓ
  Ascending [] = Unit
  Ascending (x ∷ xs) = All (λ y. str_lt (key x) (key y) ≡ true) xs × Ascending xs

  -- No key stands twice.
  unfoldable pub Distinct : List A → Type ℓ
  Distinct [] = Unit
  Distinct (x ∷ xs) = (find_by (key x) xs ≡ none) × Distinct xs

  pub find-insert :
      (k : String) (x : A) (l : List A)
      → find_by k (insert_by x l) ≡ (if str_eq (key x) k then some x else find_by k l)
  unfolding find_by insert_by
  find-insert k x [] = refl
  find-insert k x (y ∷ ys) =
      ground (arith, eq_iff (key x) k, eq_iff (key y) k, str_lt_irrefl k, find-insert k x ys)

  pub find-sort : (k : String) (l : List A) → find_by k (sort_by l) ≡ find_by k l
  unfolding find_by sort_by
  find-sort k [] = refl
  find-sort k (x ∷ xs) =
      find-insert k x (sort_by xs)
      ∙ ap (λ o. if str_eq (key x) k then some x else o) (find-sort k xs)

  insert-Perm : (x : A) (l : List A) → Perm (insert_by x l) (x ∷ l)
  unfolding insert_by
  insert-Perm x [] = Perm.refl (x ∷ [])
  insert-Perm x (y ∷ ys) = elim (Bool-cases (str_lt (key y) (key x))) [
    | inl before ↦ rw before (Perm.trans (Perm.cons y (insert-Perm x ys)) (Perm.swap x y ys))
    | inr after ↦ rw after (Perm.refl (x ∷ y ∷ ys))
  ]

  pub sort-Perm : (l : List A) → Perm (sort_by l) l
  unfolding sort_by
  sort-Perm [] = Perm.refl []
  sort-Perm (x ∷ xs) = Perm.trans (insert-Perm x (sort_by xs)) (Perm.cons x (sort-Perm xs))

  above-insert :
      (s : String) (x : A) (l : List A)
      → str_lt s (key x) ≡ true
      → All (λ y. str_lt s (key y) ≡ true) l
      → All (λ y. str_lt s (key y) ≡ true) (insert_by x l)
  unfolding insert_by
  above-insert s x [] h k = (h, tt)
  above-insert s x (y ∷ ys) h k = elim (Bool-cases (str_lt (key y) (key x))) [
    | inl before ↦ rw before (k.0, above-insert s x ys h k.1)
    | inr after ↦ rw after (h, k)
  ]

  above_trans :
      (s t : String) (l : List A)
      → str_lt s t ≡ true
      → All (λ y. str_lt t (key y) ≡ true) l
      → All (λ y. str_lt s (key y) ≡ true) l
  above_trans s t [] h k = tt
  above_trans s t (y ∷ ys) h k = (str_lt_trans s t (key y) h k.0, above_trans s t ys h k.1)

  first_other :
      (k : String) (y : A) (ys : List A)
      → find_by k (y ∷ ys) ≡ none
      → (str_eq (key y) k ≡ false) × (find_by k ys ≡ none)
  unfolding find_by
  first_other k y ys h = ground arith

  smaller : (s t : String) → str_lt t s ≡ false → str_eq t s ≡ false → str_lt s t ≡ true
  smaller s t h k = elim (Bool-cases (str_lt s t)) [
    | inl lt ↦ lt
    | inr ge ↦ ground (arith, eq_iff t s, str_lt_total s t)
  ]

  pub Ascending-insert :
      (x : A) (l : List A) → Ascending l → find_by (key x) l ≡ none → Ascending (insert_by x l)
  unfolding insert_by Ascending
  Ascending-insert x [] h none_yet = (tt, tt)
  Ascending-insert x (y ∷ ys) h none_yet =
      let other = first_other (key x) y ys none_yet in
      elim (Bool-cases (str_lt (key y) (key x))) [
        | inl before ↦
            rw before (above-insert (key y) x ys before h.0, Ascending-insert x ys h.1 other.1)
        | inr after ↦ rw after (
            let lt = smaller (key x) (key y) after other.0 in
            ((lt, above_trans (key x) (key y) ys lt h.0), h))
      ]

  pub Ascending-sort : (l : List A) → Distinct l → Ascending (sort_by l)
  unfolding sort_by Distinct Ascending
  Ascending-sort [] h = tt
  Ascending-sort (x ∷ xs) h =
      Ascending-insert x (sort_by xs) (Ascending-sort xs h.1) (find-sort (key x) xs ∙ h.0)

  insert_first :
      (x : A) (l : List A) → All (λ y. str_lt (key x) (key y) ≡ true) l → insert_by x l ≡ x ∷ l
  unfolding insert_by
  insert_first x [] h = refl
  insert_first x (y ∷ ys) h =
      ground (arith, str_lt_irrefl (key x), str_lt_trans (key x) (key y) (key x))

  -- A list that ascends already stays as it is.
  pub sort-Ascending : (l : List A) → Ascending l → sort_by l ≡ l
  unfolding sort_by Ascending
  sort-Ascending [] h = refl
  sort-Ascending (x ∷ xs) h = ap (insert_by x) (sort-Ascending xs h.1) ∙ insert_first x xs h.0

  -- A key that the bound is not below is not found among the keys above the bound.
  find_above :
      (s k : String) (l : List A)
      → All (λ y. str_lt s (key y) ≡ true) l
      → str_lt s k ≡ false
      → find_by k l ≡ none
  unfolding find_by
  find_above s k [] h not_below = refl
  find_above s k (y ∷ ys) h not_below = ground (arith, eq_iff (key y) k, find_above s k ys)

  find_head : (x : A) (xs : List A) → find_by (key x) (x ∷ xs) ≡ some x
  unfolding find_by
  find_head x xs = ground (arith, eq_iff (key x) (key x))

  some≢none : {x : A} → Path (Option A) (some x) none → ⊥
  some≢none h = absurd (cc h)

  head_least :
      (x y : A) (xs ys : List A)
      → All (λ z. str_lt (key y) (key z) ≡ true) ys
      → ((k : String) → find_by k (x ∷ xs) ≡ find_by k (y ∷ ys))
      → str_lt (key x) (key y) ≡ false
  unfolding find_by
  head_least x y xs ys above same = elim (Bool-cases (str_lt (key x) (key y))) [
    | inl below ↦ absurd (
        some≢none (
          sym (find_head x xs)
          ∙ same (key x)
          ∙ find_above (key x) (key x) (y ∷ ys) (below, above_trans (key x) (key y) ys below above)
              (str_lt_irrefl (key x))))
    | inr not_below ↦ not_below
  ]

  tails_same :
      (x y : A) (xs ys : List A) (k : String)
      → key x ≡ key y
      → All (λ z. str_lt (key x) (key z) ≡ true) xs
      → All (λ z. str_lt (key y) (key z) ≡ true) ys
      → find_by k (x ∷ xs) ≡ find_by k (y ∷ ys)
      → find_by k xs ≡ find_by k ys
  unfolding find_by
  tails_same x y xs ys k x_y above above' same = ground (
    arith,
    eq_iff (key x) k,
    eq_iff (key y) k,
    str_lt_irrefl k,
    find_above (key x) k xs above,
    find_above (key y) k ys above',
  )

  heads_same :
      (x y : A) (xs ys : List A)
      → str_lt (key x) (key y) ≡ false
      → str_lt (key y) (key x) ≡ false
      → find_by (key x) (x ∷ xs) ≡ find_by (key x) (y ∷ ys)
      → x ≡ y
  unfolding find_by
  heads_same x y xs ys h k same =
      ground
        (arith, eq_iff (key x) (key x), eq_iff (key y) (key x), str_lt_total (key x) (key y) h k)

  -- Ascending lists that hold the same element at each key are the same list.
  pub Ascending-ext :
      (l m : List A)
      → Ascending l
      → Ascending m
      → ((k : String) → find_by k l ≡ find_by k m)
      → l ≡ m
  unfolding Ascending find_by
  Ascending-ext [] [] h h' same = refl
  Ascending-ext [] (y ∷ ys) h h' same =
      absurd (some≢none (sym (find_head y ys) ∙ sym (same (key y))))
  Ascending-ext (x ∷ xs) [] h h' same = absurd (some≢none (sym (find_head x xs) ∙ same (key x)))
  Ascending-ext (x ∷ xs) (y ∷ ys) h h' same =
      let x_y =
        heads_same x y xs ys (head_least x y xs ys h'.0 same)
          (head_least y x ys xs h.0 (λ k. sym (same k))) (same (key x)) in
      λ i.
        x_y i
        ∷ Ascending-ext xs ys h.1 h'.1 (λ k. tails_same x y xs ys k (ap key x_y) h.0 h'.0 (same k))
            i
