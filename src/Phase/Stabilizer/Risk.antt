-- ===== src/Phase/Stabilizer/Risk.antt =====
-- How the stable risk follows the raw one.
use robolineage.Prelude.{ℕ, ◌+◌, ◌≤◌, ◌<◌, ◌≡◌, String, true, Option, List, leb, length, all, arith}
use robolineage.Realtime.Event.{EventType}
use robolineage.Phase.Task.{TaskConfig}
use robolineage.Phase.Stabilizer.{
  Raw, Stabilizer, risk_order, recent, push, stabilize_risk, stabilize,
}

covers :
    (steps : ℕ) (history : List String) (stable new : String)
    → risk_order new ≤ risk_order (stabilize_risk steps history stable new)
unfolding stabilize_risk
covers steps history stable new = ground arith

falls :
    (steps : ℕ) (history : List String) (stable new : String)
    → risk_order (stabilize_risk steps history stable new) < risk_order stable
    → (stabilize_risk steps history stable new ≡ new)
      × (steps ≤ length (recent steps history))
      × (all (λ r. leb (risk_order r) (risk_order new)) (recent steps history) ≡ true)
unfolding stabilize_risk
falls steps history stable new h = ground arith

-- No observation is reported with a lower risk than its own.
pub risk_covers :
    (raw : Raw) (task : TaskConfig) (event_type : Option EventType) (s : Stabilizer)
    → risk_order raw.risk_level ≤ risk_order (stabilize raw task event_type s).0.risk_level
unfolding stabilize
risk_covers raw task event_type s =
    covers s.risk_down_steps (push (s.risk_down_steps + 2) raw.risk_level s.risk_history)
      s.stable_risk raw.risk_level

-- Where the reported risk falls below the stable one, it is that of the observation, and each of the
-- last risk_down_steps observations, of which there are so many, had no higher one.
pub risk_falls :
    (raw : Raw) (task : TaskConfig) (event_type : Option EventType) (s : Stabilizer)
    → risk_order (stabilize raw task event_type s).0.risk_level < risk_order s.stable_risk
    → ((stabilize raw task event_type s).0.risk_level ≡ raw.risk_level)
      × (s.risk_down_steps
          ≤ length (recent s.risk_down_steps (stabilize raw task event_type s).1.risk_history))
      × (all
            (λ r. leb (risk_order r) (risk_order raw.risk_level))
            (recent s.risk_down_steps (stabilize raw task event_type s).1.risk_history)
          ≡ true)
unfolding stabilize
risk_falls raw task event_type s h =
    falls s.risk_down_steps (push (s.risk_down_steps + 2) raw.risk_level s.risk_history)
      s.stable_risk raw.risk_level h
