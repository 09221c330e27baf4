-- ===== src/Evaluation/Monotone.antt =====
-- More successes never turn a passing policy away.
use mathlib.Core.Path.{subst}
use robolineage.Prelude.{
  ℕ, ◌≡◌, ◌≤◌, sym, ◌∙◌, Bool, true, false, not, ◌&&◌, none, some, List, length, leb, ltb, ◌==◌,
  arith, if◌then◌else◌,
}
use robolineage.Evaluation.{Evaluation}
use robolineage.Evaluation.Session.{
  Mode, count_successes, aggregate_policy_evaluations, is_deployment, deployment_decision,
}
use robolineage.Evaluation.Decision.{is_pass, rate_passes, rate_of, decision-Follows}

gate_is :
    (round_rate : ℕ → ℕ → ℕ) (mode : Mode) (es : List Evaluation) (deploy rollback : ℕ)
    → is_pass
        (deployment_decision
          (aggregate_policy_evaluations round_rate mode es)
          deploy
          rollback
          mode).gating_result
      ≡ rate_passes mode deploy rollback (rate_of round_rate es)
unfolding deployment_decision aggregate_policy_evaluations
gate_is round_rate mode es deploy rollback =
    (decision-Follows (rate_of round_rate es) mode deploy rollback
      (aggregate_policy_evaluations round_rate mode es)).gated

higher_passes :
    (deployed : Bool) (deploy rollback r q : ℕ)
    → r ≤ q
    → (not (deployed && ltb r rollback) && leb deploy r) ≡ true
    → (not (deployed && ltb q rollback) && leb deploy q) ≡ true
higher_passes deployed deploy rollback r q h k = ground arith

rate_passes_mono :
    (mode : Mode) (deploy rollback r q : ℕ) (empty : Bool)
    → r ≤ q
    → rate_passes mode deploy rollback (if empty then none else some r) ≡ true
    → rate_passes mode deploy rollback (if empty then none else some q) ≡ true
rate_passes_mono mode deploy rollback r q true h k = absurd (cc k)
rate_passes_mono mode deploy rollback r q false h k =
    higher_passes (is_deployment mode) deploy rollback r q h k

-- Where the rounding respects the order of the counts, a session with as many rollouts and no fewer
-- successes than one whose policy passes the gate passes it too, with the same thresholds and mode.
pub pass_monotone :
    (round_rate : ℕ → ℕ → ℕ) (mode : Mode) (es fs : List Evaluation) (deploy rollback : ℕ)
    → length es ≡ length fs
    → count_successes es ≤ count_successes fs
    → ((m n k : ℕ) → m ≤ n → round_rate m k ≤ round_rate n k)
    → is_pass
        (deployment_decision
          (aggregate_policy_evaluations round_rate mode es)
          deploy
          rollback
          mode).gating_result
      ≡ true
    → is_pass
        (deployment_decision
          (aggregate_policy_evaluations round_rate mode fs)
          deploy
          rollback
          mode).gating_result
      ≡ true
pass_monotone round_rate mode es fs deploy rollback same more rule h =
    gate_is round_rate mode fs deploy rollback
    ∙ subst
        (λ n.
          rate_passes mode deploy rollback
            (if n == 0 then none else some (round_rate (count_successes fs) n))
          ≡ true)
        same
        (rate_passes_mono mode deploy rollback (round_rate (count_successes es) (length es))
          (round_rate (count_successes fs) (length es)) (length es == 0)
          (rule (count_successes es) (count_successes fs) (length es) more)
          (sym (gate_is round_rate mode es deploy rollback) ∙ h))
