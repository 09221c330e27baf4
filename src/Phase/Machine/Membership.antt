-- ===== src/Phase/Machine/Membership.antt =====
-- Where the phase machine stands: the cases of `apply`, and the invariant that its phase is one of
-- the task's.
use robolineage.Prelude.{
  ℕ, ◌+◌, ◌-◌, ◌<◌, ◌≡◌, refl, String, Bool, true, false, Option, none, some, inl, inr, List, [],
  ◌∷◌, str_eq, ltb, ◌==◌, length, arith, Bool-cases, Option-cases, All,
}
use robolineage.Prelude.Result.{Result, ok, err}
use robolineage.Phase.Task.{
  TaskConfig, contains, index_of, index_of_lem, contains-phase_at, index_of-contains,
}
use robolineage.Phase.Machine.{
  Config, Machine, Reason, Proposal, PhaseError, settle_forward, forward, correct, regress,
  backward, move, first_phase, continue_from, apply,
}

-- The phase that is answered is the current one, and is in the list.
abbrev pub IsStanding : List String → String × Machine → Type 0
IsStanding phases r = (r.1.current_phase ≡ some r.0) × (contains r.0 phases ≡ true)

abbrev pub IsAt : List String → Result PhaseError String × Machine → Type 0
IsAt phases (ok p, m) = IsStanding phases (p, m)
IsAt phases (err e, m) = true ≡ false

abbrev pub IsKnown : List String → Option String → Type 0
IsKnown phases none = Unit
IsKnown phases (some p) = contains p phases ≡ true

module _ (c : Config) (task : TaskConfig) (x : Proposal) where
  settle_forward-IsStanding :
      (current : String) (count : ℕ) (d : Bool × Reason) (m : Machine)
      → contains current task.phases ≡ true
      → contains x.phase task.phases ≡ true
      → IsStanding task.phases (settle_forward c current x.phase count d m)
  settle_forward-IsStanding current count (true, reason) m h k = (refl, k)
  settle_forward-IsStanding current count (false, reason) m h k = (refl, h)

  forward-IsStanding :
      (current : String) (i j : ℕ) (m : Machine)
      → contains current task.phases ≡ true
      → contains x.phase task.phases ≡ true
      → IsStanding task.phases (forward c task x current i j m)
  unfolding forward
  forward-IsStanding current i j m h k = settle_forward-IsStanding current _ _ m h k

  correct-IsStanding :
      (current : String) (terminal : Bool) (m : Machine)
      → m.current_phase ≡ some current
      → contains current task.phases ≡ true
      → contains x.phase task.phases ≡ true
      → IsStanding task.phases (correct c x current terminal m)
  unfolding correct
  correct-IsStanding current terminal m e h k = ground arith

  regress-IsStanding :
      (current : String) (i : ℕ) (m : Machine)
      → m.current_phase ≡ some current
      → contains current task.phases ≡ true
      → i < length task.phases
      → IsStanding task.phases (regress c task x current i m)
  unfolding regress
  regress-IsStanding current i m e h k =
      ground (arith, contains-phase_at task.phases (i - 1) (omega arith))

  move-IsAt :
      (current : String) (i j : ℕ) (m : Machine)
      → m.current_phase ≡ some current
      → contains current task.phases ≡ true
      → contains x.phase task.phases ≡ true
      → i < length task.phases
      → IsAt task.phases (move c task x current (some i) (some j) m)
  unfolding move backward
  move-IsAt current i j m e h k l = elim (Bool-cases (ltb i j)) [
    | inl less ↦ rw less (forward-IsStanding current i j m h k)
    | inr more ↦ rw more (elim (Bool-cases c.allow_regression) [
      | inl allowed ↦ rw allowed (
          regress-IsStanding current i (record m { forward_candidate = none; forward_count = 0 }) e
            h l)
      | inr strict ↦ rw strict (
          correct-IsStanding current (i + 1 == length task.phases)
            (record m { forward_candidate = none; forward_count = 0 }) e h k)
    ])
  ]

  first_phase-contains :
      0 < length task.phases → contains (first_phase c task.phases x.phase) task.phases ≡ true
  unfolding first_phase
  first_phase-contains l = ground (arith, contains-phase_at task.phases 0 l)

  move-phases :
      (current : String) (m : Machine)
      → m.current_phase ≡ some current
      → contains current task.phases ≡ true
      → contains x.phase task.phases ≡ true
      → IsAt task.phases
          (move c task x current (index_of current task.phases) (index_of x.phase task.phases) m)
  move-phases current m e h k = elim (Option-cases (index_of current task.phases)) [
    | inl gone ↦ absurd (cc (index_of-contains current task.phases h, gone))
    | inr (i, at) ↦ elim (Option-cases (index_of x.phase task.phases)) [
      | inl gone ↦ absurd (cc (index_of-contains x.phase task.phases k, gone))
      | inr (j, to) ↦
          rw (at, to) (move-IsAt current i j m e h k (index_of_lem current task.phases i at).0)
    ]
  ]

  continue-IsAt :
      (o : Option String) (m : Machine)
      → 0 < length task.phases
      → m.current_phase ≡ o
      → IsKnown task.phases o
      → IsAt task.phases (continue_from c task x o m)
  unfolding continue_from
  continue-IsAt none m l e k = (refl, first_phase-contains l)
  continue-IsAt (some current) m l e k = elim (Bool-cases (contains x.phase task.phases)) [
    | inr out ↦ rw out (e, k)
    | inl in_ ↦ rw in_ (elim (Bool-cases (str_eq x.phase current)) [
      | inl same ↦ rw same (e, k)
      | inr other ↦ rw other (move-phases current m e k in_)
    ])
  ]

  -- With phases in the task and a current phase among them, if any, `apply` always answers with a
  -- phase of the task, and this is the machine's phase afterwards.
  pub apply-IsAt :
      (m : Machine)
      → 0 < length task.phases
      → IsKnown task.phases m.current_phase
      → IsAt task.phases (apply c task x m)
  unfolding apply
  apply-IsAt m l k = ground (arith, continue-IsAt m.current_phase m l refl k)

  IsKnown-next :
      (r : Result PhaseError String × Machine)
      → IsAt task.phases r
      → IsKnown task.phases r.1.current_phase
  IsKnown-next (ok p, m) h = rw h.0 h.1
  IsKnown-next (err e, m) h = absurd (cc h)

-- The calls of `apply` of one rollout.
unfoldable pub apply_all :
    Config → TaskConfig → List Proposal → Machine → List (Result PhaseError String) × Machine
apply_all c task [] m = ([], m)
apply_all c task (x ∷ xs) m =
    let (p, m') = apply c task x m in let (ps, last) = apply_all c task xs m' in (p ∷ ps, last)

-- The answer is a phase of the list.
abbrev pub IsPhase : List String → Result PhaseError String → Type 0
IsPhase phases (ok p) = contains p phases ≡ true
IsPhase phases (err e) = true ≡ false

IsAt-IsPhase :
    (phases : List String) (r : Result PhaseError String × Machine)
    → IsAt phases r
    → IsPhase phases r.0
IsAt-IsPhase phases (ok p, m) h = h.1
IsAt-IsPhase phases (err e, m) h = h

-- With phases in the task and a current phase among them, if any, every one of any sequence of
-- proposals is answered with a phase of the task, whatever phase it names, and the current phase is
-- one of the task's afterwards, if there is one.
pub apply_all-IsPhase :
    (c : Config) (task : TaskConfig) (xs : List Proposal) (m : Machine)
    → 0 < length task.phases
    → IsKnown task.phases m.current_phase
    → All (IsPhase task.phases) (apply_all c task xs m).0
      × IsKnown task.phases (apply_all c task xs m).1.current_phase
unfolding apply_all
apply_all-IsPhase c task [] m l k = (tt, k)
apply_all-IsPhase c task (x ∷ xs) m l k =
    let at = apply-IsAt c task x m l k in
    let r = apply c task x m in
    let rest = apply_all-IsPhase c task xs r.1 l (IsKnown-next c task x r at) in
    ((IsAt-IsPhase task.phases r at, rest.0), rest.1)
