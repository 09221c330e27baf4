-- ===== src/Phase/Machine/Jumps.antt =====
-- Which phase changes the machine accepts.
use robolineage.Prelude.{
  ℕ, ◌+◌, ◌≤◌, ◌<◌, ◌≡◌, sym, ◌∙◌, ap, ◌≢◌, refl, String, Bool, true, false, Option, none, some,
  inl, inr, List, if◌then◌else◌, str_eq, eq_iff, ltb, ◌==◌, length, arith, Bool-cases,
}
use robolineage.Prelude.Dict
use robolineage.Prelude.Result.{ok}
use robolineage.Phase.Task.{TaskConfig, index_of, index_of_lem}
use robolineage.Phase.Machine.{
  terminal_retry_evidence, Config, Machine, Reason, Proposal, bump, conf_of, is_risky, hinted,
  early_skip, is_boundary, settle_forward, forward_decision, forward, correct, regress, backward,
  move, continue_from, apply,
}

same_index :
    (l : List String) (p q : String) (i j : ℕ)
    → p ≡ q
    → index_of q l ≡ some i
    → index_of p l ≡ some j
    → i ≡ j
same_index l p q i j e at to = cc

pub if-then {ℓ} : {A : Type ℓ} (b : Bool) (p q : A) → b ≡ true → (if b then p else q) ≡ p
if-then true p q h = refl
if-then false p q h = cc

settle-answer :
    (c : Config) (current p : String) (count : ℕ) (d : Bool × Reason) (m : Machine)
    → (settle_forward c current p count d m).0 ≡ (if d.0 then p else current)
settle-answer c current p count (true, reason) m = refl
settle-answer c current p count (false, reason) m = refl

module _ (c : Config) (task : TaskConfig) (x : Proposal) (m : Machine) where
  -- From a phase of the task, the proposal of a phase with another index is decided by `move`.
  pub apply-move :
      (current : String) (i j : ℕ)
      → m.current_phase ≡ some current
      → index_of current task.phases ≡ some i
      → index_of x.phase task.phases ≡ some j
      → i ≢ j
      → apply c task x m ≡ move c task x current (some i) (some j) m
  unfolding apply continue_from
  apply-move current i j e at to ne = elim (Bool-cases (str_eq x.phase current)) [
    | inl same ↦
        absurd
          (ne (same_index task.phases x.phase current i j ((eq_iff x.phase current).0 same) at to))
    | inr other ↦ ground (arith, index_of_lem x.phase task.phases j to)
  ]

  -- What decides a proposal of a later phase.
  abbrev pub decided : String → (i j : ℕ) → Bool
  decided current i j =
      (forward_decision c (conf_of x.confidence) (bump m.forward_candidate m.forward_count x.phase)
        (early_skip c (length task.phases) i j) (is_risky x)
        (hinted (Dict.get current task.phase_transition_hint) x.phase) (j == i + 1)
        (is_boundary x.event_type)).0

  forward-answer :
      (current : String) (i j : ℕ)
      → (forward c task x current i j m).0 ≡ (if decided current i j then x.phase else current)
  unfolding forward
  forward-answer current i j = settle-answer c current x.phase _ _ m

  apply-forward :
      (current : String) (i j : ℕ)
      → m.current_phase ≡ some current
      → index_of current task.phases ≡ some i
      → index_of x.phase task.phases ≡ some j
      → i < j
      → (apply c task x m).0 ≡ ok (if decided current i j then x.phase else current)
  unfolding move
  apply-forward current i j e at to less = rw (apply-move current i j e at to (omega arith)) (
      ap (λ r. ok r.0)
        (if-then (ltb i j) (forward c task x current i j m) (backward c task x current i m)
          (ground arith))
      ∙ ap (λ p. ok p) (forward-answer current i j))

step_decision :
    (c : Config) (conf count : ℕ) (skip risky hint step boundary : Bool)
    → skip ≡ false
    → step ≡ true
    → (forward_decision c conf count skip risky hint step boundary).0 ≡ true
unfolding forward_decision
step_decision c conf count skip risky hint step boundary h k = ground arith

-- A proposal of the phase after the current one is accepted, whatever the evidence and confidence.
pub single_step_accepted :
    (c : Config) (task : TaskConfig) (x : Proposal) (m : Machine) (current : String) (i : ℕ)
    → m.current_phase ≡ some current
    → index_of current task.phases ≡ some i
    → index_of x.phase task.phases ≡ some (i + 1)
    → (apply c task x m).0 ≡ ok x.phase
single_step_accepted c task x m current i e at to =
    apply-forward c task x m current i (i + 1) e at to (omega arith)
    ∙ ap (λ b. ok (if b then x.phase else current))
        (step_decision c _ _ _ _ _ _ _ (ground arith) (ground arith))

forward-monotone :
    (c : Config) (low high count : ℕ) (skip risky hint step boundary : Bool)
    → low ≤ high
    → (forward_decision c low count skip risky hint step boundary).0 ≡ true
    → (forward_decision c high count skip risky hint step boundary).0 ≡ true
unfolding forward_decision
forward-monotone c low high count true true hint step boundary le h = cc h
forward-monotone c low high count true false true step boundary le h = refl
forward-monotone c low high count true false false true boundary le h = refl
forward-monotone c low high count true false false false boundary le h = ground arith
forward-monotone c low high count false risky true step boundary le h = refl
forward-monotone c low high count false risky false true boundary le h = refl
forward-monotone c low high count false risky false false boundary le h = ground arith

abbrev pub with_confidence : ℕ → Proposal → Proposal
with_confidence n x = record x { confidence = some n }

correct-monotone :
    (c : Config) (x : Proposal) (current : String) (terminal : Bool) (m : Machine) (low high : ℕ)
    → low ≤ high
    → current ≢ x.phase
    → (correct c (with_confidence low x) current terminal m).0 ≡ x.phase
    → (correct c (with_confidence high x) current terminal m).0 ≡ x.phase
unfolding correct terminal_retry_evidence
correct-monotone c x current true m low high le ne h = ground arith
correct-monotone c x current false m low high le ne h = ground arith

decided-accepts :
    (b : Bool) (p current : String) → current ≢ p → (if b then p else current) ≡ p → b ≡ true
decided-accepts true p current ne h = refl
decided-accepts false p current ne h = absurd (ne h)

module _ (c : Config) (task : TaskConfig) (x : Proposal) (low high : ℕ) (le : low ≤ high) where
  forward_answer-monotone :
      (current : String) (i j : ℕ) (m : Machine)
      → current ≢ x.phase
      → (forward c task (with_confidence low x) current i j m).0 ≡ x.phase
      → (forward c task (with_confidence high x) current i j m).0 ≡ x.phase
  forward_answer-monotone current i j m ne h =
      forward-answer c task (with_confidence high x) m current i j
      ∙ if-then (decided c task (with_confidence high x) m current i j) x.phase current (
          forward-monotone c low high _ _ _ _ _ _ le (
            decided-accepts _ x.phase current ne
              (sym (forward-answer c task (with_confidence low x) m current i j) ∙ h)))

  backward-monotone :
      (current : String) (i : ℕ) (m : Machine)
      → current ≢ x.phase
      → (backward c task (with_confidence low x) current i m).0 ≡ x.phase
      → (backward c task (with_confidence high x) current i m).0 ≡ x.phase
  unfolding backward regress
  backward-monotone current i m ne h = elim (Bool-cases c.allow_regression) [
    | inl allowed ↦ ground arith
    | inr strict ↦ ground (
      arith,
      correct-monotone c x current (i + 1 == length task.phases)
          (record m { forward_candidate = none; forward_count = 0 }) low high le ne,
    )
  ]

  move-monotone :
      (current : String) (i j : Option ℕ) (m : Machine)
      → current ≢ x.phase
      → (move c task (with_confidence low x) current i j m).0 ≡ ok x.phase
      → (move c task (with_confidence high x) current i j m).0 ≡ ok x.phase
  unfolding move
  move-monotone current none j m ne h = h
  move-monotone current (some i) none m ne h = h
  move-monotone current (some i) (some j) m ne h =
      ground (arith, forward_answer-monotone current i j m ne, backward-monotone current i m ne)

  continue-monotone :
      (o : Option String) (m : Machine)
      → (continue_from c task (with_confidence low x) o m).0 ≡ ok x.phase
      → (continue_from c task (with_confidence high x) o m).0 ≡ ok x.phase
  unfolding continue_from
  continue-monotone none m h = h
  continue-monotone (some current) m h = elim (Bool-cases (str_eq x.phase current)) [
    | inl same ↦ ground arith
    | inr other ↦ ground (
      arith,
      move-monotone current (index_of current task.phases) (index_of x.phase task.phases) m
          (λ e. cc ((eq_iff x.phase current).1 (sym e), other)),
    )
  ]

  -- A proposal that is answered by its own phase at some confidence is so at any higher one, the
  -- rest of the proposal and the machine being the same.
  pub confidence_monotone :
      (m : Machine)
      → (apply c task (with_confidence low x) m).0 ≡ ok x.phase
      → (apply c task (with_confidence high x) m).0 ≡ ok x.phase
  unfolding apply
  confidence_monotone m h = ground (arith, continue-monotone m.current_phase m)
