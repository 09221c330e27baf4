-- ===== src/Phase/Machine/Repeats.antt =====
-- A later phase that is proposed again and again is reached.
use robolineage.Prelude.{
  ℕ, zero, suc, ◌+◌, ◌≤◌, ◌<◌, ◌≡◌, ◌⊎◌, ap, ◌∙◌, refl, String, Bool, true, false, some, inl, inr,
  eq_iff, length, arith,
}
use robolineage.Phase.Task.{TaskConfig, index_of, index_of_lem}
use robolineage.Phase.Machine.{
  Config, Machine, Reason, Proposal, bump, conf_of, early_skip, settle_forward, forward_decision,
  forward, move, continue_from, apply,
}
use robolineage.Phase.Machine.Jumps.{apply-move, decided}

-- A decision with enough confidence that is negative has seen too few repeats.
held-early :
    (c : Config) (conf count : ℕ) (skip risky hint step boundary : Bool)
    → (forward_decision c conf count skip risky hint step boundary).0 ≡ false
    → skip ≡ false
    → c.event_forward_jump_confidence ≤ conf
    → count < c.forward_jump_repeat
unfolding forward_decision
held-early c conf count skip risky hint step boundary held k l = ground arith

-- The machine after a forward proposal that is held.
abbrev IsHeld : String → String → ℕ → Machine → Type 0
IsHeld current p count m =
    (m.current_phase ≡ some current) × (m.forward_candidate ≡ some p) × (m.forward_count ≡ count)

settle-cases :
    (c : Config) (current p : String) (count : ℕ) (d : Bool × Reason) (m : Machine)
    → ((settle_forward c current p count d m).1.current_phase ≡ some p)
      ⊎ (d.0 ≡ false) × IsHeld current p count (settle_forward c current p count d m).1
settle-cases c current p count (true, reason) m = inl refl
settle-cases c current p count (false, reason) m = inr (refl, (refl, refl, refl))

-- The same proposal, n times.
unfoldable pub apply_times : Config → TaskConfig → Proposal → ℕ → Machine → Machine
apply_times c task x zero m = m
apply_times c task x (suc n) m = apply_times c task x n (apply c task x m).1

module _ (c : Config) (task : TaskConfig) (x : Proposal) (current : String) (i j : ℕ)
    (at : index_of current task.phases ≡ some i) (to : index_of x.phase task.phases ≡ some j)
    (less : i < j) where
  forward-cases :
      (m : Machine)
      → ((forward c task x current i j m).1.current_phase ≡ some x.phase)
        ⊎ (decided c task x m current i j ≡ false)
          × IsHeld current x.phase
              (bump m.forward_candidate m.forward_count x.phase)
              (forward c task x current i j m).1
  unfolding forward
  forward-cases m = settle-cases c current x.phase _ _ m

  apply-next :
      (m : Machine)
      → m.current_phase ≡ some current
      → (apply c task x m).1 ≡ (forward c task x current i j m).1
  unfolding move
  apply-next m e =
      ap (λ r. r.1) (apply-move c task x m current i j e at to (omega arith)) ∙ ground arith

  -- A machine at the proposed phase stays there.
  stays :
      (m : Machine)
      → m.current_phase ≡ some x.phase
      → (apply c task x m).1.current_phase ≡ some x.phase
  unfolding apply continue_from
  stays m e = ground (arith, eq_iff x.phase x.phase, index_of_lem x.phase task.phases j to)

  stays_times :
      (n : ℕ) (m : Machine)
      → m.current_phase ≡ some x.phase
      → (apply_times c task x n m).current_phase ≡ some x.phase
  unfolding apply_times
  stays_times zero m e = e
  stays_times (suc n) m e = stays_times n (apply c task x m).1 (stays m e)

  -- The machine accepts when the count, this proposal included, has come to the repeat.
  next-cases :
      (m : Machine)
      → m.current_phase ≡ some current
      → early_skip c (length task.phases) i j ≡ false
      → c.event_forward_jump_confidence ≤ conf_of x.confidence
      → ((apply c task x m).1.current_phase ≡ some x.phase)
        ⊎ (bump m.forward_candidate m.forward_count x.phase < c.forward_jump_repeat)
          × IsHeld current x.phase
              (bump m.forward_candidate m.forward_count x.phase)
              (apply c task x m).1
  next-cases m e early sure = rw (apply-next m e) elim (forward-cases m) [
    | inl there ↦ inl there
    | inr (pending, held) ↦ inr (held-early c _ _ _ _ _ _ _ pending early sure, held)
  ]

  abbrev seen : Machine → ℕ
  seen m = bump m.forward_candidate m.forward_count x.phase

  some-seen : (m : Machine) → 1 ≤ seen m
  some-seen m = ground arith

  seen-IsHeld : (n : ℕ) (m : Machine) → IsHeld current x.phase n m → seen m ≡ n + 1
  seen-IsHeld n m h = ground (arith, eq_iff x.phase x.phase)

  reaches :
      (early_skip c (length task.phases) i j ≡ false)
      → c.event_forward_jump_confidence ≤ conf_of x.confidence
      → (n : ℕ) (m : Machine) → m.current_phase ≡ some current
      → c.forward_jump_repeat ≤ seen m + n
      → (apply_times c task x (suc n) m).current_phase ≡ some x.phase
  unfolding apply_times
  reaches early sure zero m e enough = elim (next-cases m e early sure) [
    | inl there ↦ there
    | inr (few, held) ↦ absurd (omega arith)
  ]
  reaches early sure (suc n) m e enough = elim (next-cases m e early sure) [
    | inl there ↦ stays_times (suc n) (apply c task x m).1 there
    | inr (few, held) ↦
        reaches early sure n (apply c task x m).1 held.0
          (omega (arith, seen-IsHeld (seen m) (apply c task x m).1 held))
  ]

-- Proposed n times in a row, with n positive and at least forward_jump_repeat, and with at least
-- event_forward_jump_confidence, a later phase becomes the current one, whatever was proposed before,
-- unless the jump to it skips phases and ends at the last one.
pub repeats_reach :
    (c : Config) (task : TaskConfig) (x : Proposal) (m : Machine) (current : String) (i j n : ℕ)
    → m.current_phase ≡ some current
    → index_of current task.phases ≡ some i
    → index_of x.phase task.phases ≡ some j
    → i < j
    → early_skip c (length task.phases) i j ≡ false
    → c.event_forward_jump_confidence ≤ conf_of x.confidence
    → 1 ≤ n
    → c.forward_jump_repeat ≤ n
    → (apply_times c task x n m).current_phase ≡ some x.phase
repeats_reach c task x m current i j zero e at to less early sure once enough = absurd (omega arith)
repeats_reach c task x m current i j (suc n) e at to less early sure once enough =
    reaches c task x current i j at to less early sure n m e
      (omega (arith, some-seen c task x current i j at to less m))
