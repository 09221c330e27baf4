-- ===== src/Phase/Task.antt =====
-- The parts of TaskConfig that the phase logic reads (types.py), and the list operations on phases.
use robolineage.Prelude.{
  ℕ, zero, suc, ◌<◌, ◌≡◌, String, Bool, true, false, ◌||◌, Option, none, some, List, [], ◌∷◌,
  if◌then◌else◌, str_eq, eq_iff, length, is_some, arith, Bool-cases, Option-cases, inl, inr,
}
use robolineage.Prelude.Dict.{Dict}

pub record TaskConfig : Type 0 where
  pub phases : List String
  pub phase_transition_hint : Dict (List String)

-- x in phases
unfoldable pub contains : String → List String → Bool
contains p [] = false
contains p (q ∷ qs) = str_eq q p || contains p qs

abbrev next_index : Option ℕ → Option ℕ
next_index none = none
next_index (some i) = some (suc i)

-- phases.index(p), where it does not raise ValueError.
unfoldable pub index_of : String → List String → Option ℕ
index_of p [] = none
index_of p (q ∷ qs) = let rest = next_index (index_of p qs) in if str_eq q p then some 0 else rest

-- phases[i]
abbrev pub phase_at : List String → ℕ → String
phase_at [] i = ""
phase_at (q ∷ qs) zero = q
phase_at (q ∷ qs) (suc i) = phase_at qs i

-- What `index` gives is a place of the phase, and it gives one exactly for a phase of the list.
pub index_of_lem :
    (p : String) (l : List String) (i : ℕ)
    → index_of p l ≡ some i
    → (i < length l) × (phase_at l i ≡ p) × (contains p l ≡ true)
unfolding index_of contains
index_of_lem p [] i h = cc
index_of_lem p (q ∷ qs) i h = elim (Bool-cases (str_eq q p)) [
  | inl here ↦ ground (arith, eq_iff q p)
  | inr there ↦ elim (Option-cases (index_of p qs)) [
    | inl gone ↦ cc (gone, there)
    | inr (j, e) ↦ ground (arith, index_of_lem p qs j e)
  ]
]

pub contains-phase_at : (l : List String) (i : ℕ) → i < length l → contains (phase_at l i) l ≡ true
unfolding contains
contains-phase_at [] i h = elim h [ ]
contains-phase_at (q ∷ qs) zero h = ground (arith, eq_iff q q)
contains-phase_at (q ∷ qs) (suc i) h = ground (arith, contains-phase_at qs i)

pub index_of-contains :
    (p : String) (l : List String) → contains p l ≡ true → is_some (index_of p l) ≡ true
unfolding index_of contains
index_of-contains p [] h = cc
index_of-contains p (q ∷ qs) h = elim (Bool-cases (str_eq q p)) [
  | inl here ↦ cc here
  | inr there ↦ elim (Option-cases (index_of p qs)) [
    | inl gone ↦ ground (arith, index_of-contains p qs)
    | inr (j, e) ↦ cc (e, there)
  ]
]
