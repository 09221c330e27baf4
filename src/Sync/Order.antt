-- ===== src/Sync/Order.antt =====
-- The order of the adapters.
use mathlib.Core.List.{append_assoc}
use robolineage.Prelude.{
  ℕ, ◌+◌, ◌≤◌, ◌≡◌, ◌⊎◌, refl, sym, ap, ◌∙◌, String, true, false, inl, inr, some, List, [], ◌∷◌,
  ◌++◌, if◌then◌else◌, str_eq, eq_iff, Bool-cases, arith,
}
use robolineage.Sync.{
  Group, Call, member, Seen, rejected, accepted, check_name, check_names, check_groups,
  validate_groups, grouped_order, ungrouped, start_order, Manager, create,
}

-- How often the name stands in the list.
abbrev pub count : String → List String → ℕ
count n [] = 0
count n (m ∷ ms) = let rest = count n ms in if str_eq m n then rest + 1 else rest

count-append : (n : String) (k l : List String) → count n (k ++ l) ≡ count n k + count n l
count-append n [] l = omega arith
count-append n (m ∷ ms) l = ground (arith, count-append n ms l)

count-member : (n : String) (l : List String) → member n l ≡ false → count n l ≡ 0
count-member n [] h = refl
count-member n (m ∷ ms) h = ground (arith, count-member n ms)

member-count : (n : String) (l : List String) → member n l ≡ true → 1 ≤ count n l
member-count n [] h = cc
member-count n (m ∷ ms) h = ground (arith, member-count n ms)

-- What the checks of some names establish of a name: how often it is seen, and that it is known.
IsChecked : List String → String → List String → List String → List String → Type 0
IsChecked known n names seen seen' =
    (count n seen' ≡ count n seen + count n names)
    × (count n seen ≤ 1 → count n seen' ≤ 1)
    × (1 ≤ count n names → 1 ≤ count n known)

name-IsChecked :
    (known : List String) (n x : String) (seen : List String)
    → member x known ≡ true
    → member x seen ≡ false
    → IsChecked known n (x ∷ []) seen (x ∷ seen)
unfolding IsChecked
name-IsChecked known n x seen k h = elim (Bool-cases (str_eq x n)) [
  | inl same ↦ ground (arith, eq_iff x n, count-member x seen h, member-count x known k)
  | inr other ↦ ground arith
]

IsChecked-append :
    (known : List String) (n : String) (k l s t u : List String)
    → IsChecked known n k s t
    → IsChecked known n l t u
    → IsChecked known n (k ++ l) s u
unfolding IsChecked
IsChecked-append known n k l s t u h g = (
  omega (arith, h.0, g.0, count-append n k l),
  (λ p. g.1 (h.1 p)),
  (λ p. grind (arith, h.2, g.2, count-append n k l)),
)

-- A rejection stays one.
rejects : (known names seen' : List String) → ¬ (check_names known names rejected ≡ accepted seen')
unfolding check_names
rejects known [] seen' e = cc e
rejects known (x ∷ xs) seen' e = cc e

check-cases :
    (known : List String) (x : String) (xs seen seen' : List String) (s : Seen)
    → check_name known x seen ≡ s
    → check_names known xs s ≡ accepted seen'
    → (member x known ≡ true) × (member x seen ≡ false) × (s ≡ accepted (x ∷ seen))
check-cases known x xs seen seen' rejected d e = absurd (rejects known xs seen' e)
check-cases known x xs seen seen' (accepted t) d e = ground arith

accepted-name :
    (known : List String) (x : String) (xs seen seen' : List String)
    → check_names known (x ∷ xs) (accepted seen) ≡ accepted seen'
    → (member x known ≡ true)
      × (member x seen ≡ false)
      × (check_names known xs (accepted (x ∷ seen)) ≡ accepted seen')
unfolding check_names
accepted-name known x xs seen seen' e =
    let c = check-cases known x xs seen seen' (check_name known x seen) refl e in
    (c.0, c.1, sym (ap (check_names known xs) c.2) ∙ e)

accepted-seen : (s t : List String) (n : String) → accepted s ≡ accepted t → count n s ≡ count n t
accepted-seen s t n e = cc e

names-IsChecked :
    (known : List String) (n : String) (names seen seen' : List String)
    → check_names known names (accepted seen) ≡ accepted seen'
    → IsChecked known n names seen seen'
unfolding check_names IsChecked
names-IsChecked known n [] seen seen' e = (
  omega (arith, accepted-seen seen seen' n e),
  (λ p. omega (arith, accepted-seen seen seen' n e)),
  (λ p. omega arith),
)
names-IsChecked known n (x ∷ xs) seen seen' e =
    let (known_, new, rest) = accepted-name known x xs seen seen' e in
    IsChecked-append known n (x ∷ []) xs seen (x ∷ seen) seen'
      (name-IsChecked known n x seen known_ new) (names-IsChecked known n xs (x ∷ seen) seen' rest)

Seen-cases : (s : Seen) → (s ≡ rejected) ⊎ (t : List String) × (s ≡ accepted t)
Seen-cases rejected = inl refl
Seen-cases (accepted t) = inr (t, refl)

rejects_groups :
    (known : List String) (gs : List Group) (s : Seen) (seen' : List String)
    → s ≡ rejected
    → ¬ (check_groups known gs s ≡ accepted seen')
unfolding check_groups check_names
rejects_groups known [] s seen' h e = cc (h, e)
rejects_groups known (g ∷ gs) s seen' h e =
    rejects_groups known gs (check_names known (g.master ∷ g.slaves) s) seen' (rw h refl) e

IsChecked-count :
    (known : List String) (n : String) (k l s t : List String)
    → count n k ≡ count n l
    → IsChecked known n k s t
    → IsChecked known n l s t
unfolding IsChecked
IsChecked-count known n k l s t e h = (omega (arith, h.0), h.1, (λ p. h.2 (omega arith)))

count-group :
    (n : String) (g : Group) (rest : List String)
    → count n ((g.master ∷ g.slaves) ++ rest) ≡ count n (g.slaves ++ g.master ∷ rest)
count-group n g rest =
    ground (arith, count-append n g.slaves rest, count-append n g.slaves (g.master ∷ rest))

groups-IsChecked :
    (known : List String) (n : String) (gs : List Group) (seen seen' : List String)
    → check_groups known gs (accepted seen) ≡ accepted seen'
    → IsChecked known n (grouped_order gs) seen seen'
unfolding check_groups grouped_order check_names
groups-IsChecked known n [] seen seen' e = names-IsChecked known n [] seen seen' e
groups-IsChecked known n (g ∷ gs) seen seen' e =
    elim (Seen-cases (check_names known (g.master ∷ g.slaves) (accepted seen))) [
      | inl bad ↦ absurd (rejects_groups known gs _ seen' bad e)
      | inr (t, good) ↦
          IsChecked-count known n _ _ seen seen' (count-group n g (grouped_order gs)) (
            IsChecked-append known n (g.master ∷ g.slaves) (grouped_order gs) seen t seen'
              (names-IsChecked known n (g.master ∷ g.slaves) seen t good)
              (groups-IsChecked known n gs t seen' (sym (ap (check_groups known gs) good) ∙ e)))
    ]

count-ungrouped :
    (n : String) (grouped known : List String)
    → count n (ungrouped grouped known) ≡ (if member n grouped then 0 else count n known)
unfolding ungrouped
count-ungrouped n grouped [] = ground arith
count-ungrouped n grouped (m ∷ ms) = ground (arith, eq_iff m n, count-ungrouped n grouped ms)

create-order :
    (names : List String) (groups : List Group) (calls : List Call) (m : Manager)
    → create names groups calls ≡ some m
    → (validate_groups names groups ≡ true) × (m.order ≡ start_order names groups)
unfolding create
create-order names groups calls m e = ground arith

validate-IsChecked :
    (names : List String) (groups : List Group) (n : String)
    → validate_groups names groups ≡ true
    → (seen : List String) × IsChecked names n (grouped_order groups) [] seen
unfolding validate_groups
validate-IsChecked names groups n h = elim (Seen-cases (check_groups names groups (accepted []))) [
  | inl bad ↦ absurd (cc (h, bad))
  | inr (t, good) ↦ (t, groups-IsChecked names n groups [] t good)
]

split_count :
    (n : String) (grouped names : List String)
    → count n names ≤ 1
    → count n grouped ≤ 1
    → (1 ≤ count n grouped → 1 ≤ count n names)
    → count n grouped + (if member n grouped then 0 else count n names) ≡ count n names
split_count n grouped names once single known = elim (Bool-cases (member n grouped)) [
  | inl here ↦ rw here grind (arith, member-count n grouped here, known)
  | inr out ↦ rw out (omega (arith, count-member n grouped out))
]

-- In a manager that its constructor accepts, an adapter, and nothing else, stands in the start order,
-- exactly once, whether it is in a group or not.
pub create_complete :
    (names : List String) (groups : List Group) (calls : List Call) (m : Manager) (n : String)
    → count n names ≤ 1
    → create names groups calls ≡ some m
    → count n m.order ≡ count n names
unfolding start_order IsChecked
create_complete names groups calls m n once e =
    let (valid, order) = create-order names groups calls m e in
    let (seen, checked) = validate-IsChecked names groups n valid in
    let grouped = grouped_order groups in
    ap (count n) order
    ∙ count-append n grouped (ungrouped grouped names)
    ∙ ap (λ k. count n grouped + k) (count-ungrouped n grouped names)
    ∙ split_count n grouped names once (omega (arith, checked.0, checked.1)) checked.2

grouped-append :
    (gs : List Group) (g : Group) (hs : List Group)
    → grouped_order (gs ++ g ∷ hs) ≡ grouped_order gs ++ (g.slaves ++ g.master ∷ grouped_order hs)
unfolding grouped_order
grouped-append [] g hs = refl
grouped-append (f ∷ fs) g hs =
    ap (λ l. f.slaves ++ f.master ∷ l) (grouped-append fs g hs)
    ∙ sym (append_assoc f.slaves (f.master ∷ grouped_order fs) _)

-- In the start order the slaves of a group come right before its master, the groups in the order in
-- which they are given, and the adapters in no group after all of them.
pub slaves_first :
    (names : List String) (gs : List Group) (g : Group) (hs : List Group) (calls : List Call)
    (m : Manager)
    → create names (gs ++ g ∷ hs) calls ≡ some m
    → m.order
      ≡ grouped_order gs
        ++ ((g.slaves ++ g.master ∷ grouped_order hs)
            ++ ungrouped (grouped_order (gs ++ g ∷ hs)) names)
unfolding start_order
slaves_first names gs g hs calls m e =
    (create-order names (gs ++ g ∷ hs) calls m e).1
    ∙ ap (λ l. l ++ ungrouped (grouped_order (gs ++ g ∷ hs)) names) (grouped-append gs g hs)
    ∙ append_assoc (grouped_order gs) _ _
