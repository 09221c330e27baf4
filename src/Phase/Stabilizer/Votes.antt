-- ===== src/Phase/Stabilizer/Votes.antt =====
-- The stable phase is a phase of the task.
use robolineage.Prelude.{
  ℕ, ◌<◌, ◌≡◌, refl, String, Bool, true, false, ◌&&◌, Option, List, [], ◌∷◌, if◌then◌else◌, ltb,
  length, arith, Bool-cases, inl, inr, str_eq, eq_iff,
}
use robolineage.Realtime.Event.{EventType}
use robolineage.Phase.Task.{TaskConfig, contains}
use robolineage.Phase.Stabilizer.{
  Raw, Stabilizer, tally, tally_all, winner, elect, majority_vote, default_phase, stabilize_phase,
  stabilize,
}

module _ (valid : String → Bool) where
  abbrev AreValid : List (String × ℕ) → Type 0
  AreValid [] = Unit
  AreValid ((k, n) ∷ rest) = (valid k ≡ true) × AreValid rest

  AreValid-tally :
      (v : String) (l : List (String × ℕ)) → valid v ≡ true → AreValid l → AreValid (tally v l)
  unfolding tally
  AreValid-tally v [] h a = (h, tt)
  AreValid-tally v ((k, n) ∷ rest) h a = elim (Bool-cases (str_eq k v)) [
    | inl same ↦ rw same a
    | inr other ↦ rw other (a.0, AreValid-tally v rest h a.1)
  ]

  AreValid-tally_all :
      (counts : List (String × ℕ)) (l : List String)
      → AreValid counts
      → AreValid (tally_all valid counts l)
  unfolding tally_all
  AreValid-tally_all counts [] a = a
  AreValid-tally_all counts (v ∷ vs) a = elim (Bool-cases (valid v)) [
    | inl good ↦ rw good (AreValid-tally_all (tally v counts) vs (AreValid-tally v counts good a))
    | inr bad ↦ rw bad (AreValid-tally_all counts vs a)
  ]

  valid-winner :
      (best : String × ℕ) (l : List (String × ℕ))
      → valid best.0 ≡ true
      → AreValid l
      → valid (winner best l) ≡ true
  unfolding winner
  valid-winner best [] h a = h
  valid-winner best ((k, n) ∷ rest) h a = elim (Bool-cases (ltb best.1 n)) [
    | inl more ↦ rw more (valid-winner (k, n) rest a.0 a.1)
    | inr less ↦ rw less (valid-winner best rest h a.1)
  ]

  valid-elect :
      (default : String) (l : List (String × ℕ))
      → valid default ≡ true
      → AreValid l
      → valid (elect default l) ≡ true
  unfolding elect
  valid-elect default [] h a = h
  valid-elect default (c ∷ rest) h a = valid-winner c rest a.0 a.1

  valid-majority_vote :
      (history : List String) (default : String)
      → valid default ≡ true
      → valid (majority_vote valid history default) ≡ true
  unfolding majority_vote
  valid-majority_vote history default h =
      valid-elect default (tally_all valid [] history) h (AreValid-tally_all [] history tt)

contains-default :
    (l : List String) (p : String) → 0 < length l → contains (default_phase l p) l ≡ true
unfolding contains
contains-default [] p h = absurd (omega arith)
contains-default (q ∷ qs) p h = ground (arith, eq_iff q q)

chosen :
    (phases : List String) (v b : Bool) (p q : String × Stabilizer)
    → contains p.0 phases ≡ v
    → contains q.0 phases ≡ true
    → contains (if v && b then p else q).0 phases ≡ true
chosen phases true true p q h k = h
chosen phases true false p q h k = k
chosen phases false b p q h k = k

-- With phases in the task, the phase that is reported is one of them, whatever the model answers and
-- whatever was seen before.
pub contains-stabilize :
    (raw : Raw) (task : TaskConfig) (event_type : Option EventType) (s : Stabilizer)
    → 0 < length task.phases
    → contains (stabilize raw task event_type s).0.phase task.phases ≡ true
unfolding stabilize stabilize_phase
contains-stabilize raw task event_type s h =
    chosen task.phases (contains raw.phase task.phases) _ _ _ refl (
      valid-majority_vote (λ v. contains v task.phases) _ _
        (contains-default task.phases raw.phase h))
