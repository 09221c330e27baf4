-- ===== src/Priority.antt =====
-- VLMOnlinePriorityCoordinator (src/robolineage_shared_agents/visual_snapshot/vlm_priority.py). Each
-- function is what one thread does while it holds the condition's lock. Times are natural numbers of
-- milliseconds; `now` is what time.monotonic gives.
pub mod Calls
pub mod Turns
mod Tests
use robolineage.Prelude.{
  ℕ, ◌+◌, ◌-◌, String, Bool, true, false, not, ◌&&◌, ◌||◌, Option, none, some, List, [], ◌∷◌, ◌++◌,
  if◌then◌else◌, str_eq, leb, ◌==◌, filter, any,
}

pub record Coordinator : Type 0 where
  pub online_rollout_order : List String
  pub online_inflight : Bool
  pub offline_waiting : ℕ
  pub offline_inflight : ℕ
  pub last_online_ended_at : Option ℕ

abbrev pub init : Coordinator
init = record {
  online_rollout_order = [];
  online_inflight = false;
  offline_waiting = 0;
  offline_inflight = 0;
  last_online_ended_at = none;
}

-- rollout_id in self._online_rollout_order
abbrev pub registered : String → List String → Bool
registered r [] = false
registered r (q ∷ qs) = str_eq q r || registered r qs

unfoldable pub register : String → List String → List String
register r order = if registered r order then order else order ++ r ∷ []

unfoldable pub unregister : String → List String → List String
unregister r [] = []
unregister r (q ∷ qs) = let rest = unregister r qs in if str_eq q r then rest else q ∷ rest

unfoldable pub enter_online : Option String → Coordinator → Coordinator
unfolding register
enter_online none c = c
enter_online (some r) c = record c { online_rollout_order = register r c.online_rollout_order }

unfoldable pub remaining : Option String → List String → List String
unfolding unregister
remaining none order = []
remaining (some r) order = unregister r order

abbrev pub is_nil : List String → Bool
is_nil [] = true
is_nil (r ∷ rs) = false

unfoldable pub exit_online : Option String → (now : ℕ) → Coordinator → Coordinator
unfolding remaining
exit_online o now c =
    let order = remaining o c.online_rollout_order in
    record c {
      online_rollout_order = order;
      last_online_ended_at = if is_nil order then some now else c.last_online_ended_at;
    }

-- is_turn
abbrev pub is_turn : String → List String → Bool
is_turn r [] = false
is_turn r (q ∷ qs) = str_eq q r

-- online_slot: what comes before the loop, one round of the loop that is not stopped, and what comes
-- after the call. The Boolean tells whether the slot is acquired.
unfoldable pub online_join : String → Coordinator → Coordinator
unfolding register
online_join r c = record c { online_rollout_order = register r c.online_rollout_order }

unfoldable pub online_try : String → Coordinator → Bool × Coordinator
online_try r c =
    if is_turn r c.online_rollout_order && not c.online_inflight
    then (true, record c { online_inflight = true })
    else (false, c)

unfoldable pub online_release : Coordinator → Coordinator
online_release c = record c { online_inflight = false }

-- The rest of the quiet period, where there is one.
unfoldable pub quiet_left : (quiet_period now : ℕ) → Option ℕ → ℕ
quiet_left quiet_period now none = 0
quiet_left quiet_period now (some ended) = quiet_period - (now - ended)

unfoldable pub wait_time : (quiet_period now : ℕ) → Coordinator → ℕ
unfolding quiet_left
wait_time quiet_period now c =
    if not (is_nil c.online_rollout_order) || c.online_inflight
    then 3600000
    else quiet_left quiet_period now c.last_online_ended_at

-- offline_slot: what comes before the loop, one round that is not stopped, the round that a stop
-- event ends, and what comes after the call.
unfoldable pub offline_join : Coordinator → Coordinator
offline_join c = record c { offline_waiting = c.offline_waiting + 1 }

unfoldable pub offline_try : (quiet_period now : ℕ) → Coordinator → Bool × Coordinator
offline_try quiet_period now c =
    if wait_time quiet_period now c == 0
    then (
      true,
      record c {
        offline_waiting = c.offline_waiting - 1;
        offline_inflight = c.offline_inflight + 1;
      },
    )
    else (false, c)

unfoldable pub offline_stop : Coordinator → Coordinator
offline_stop c = record c { offline_waiting = c.offline_waiting - 1 }

unfoldable pub offline_release : Coordinator → Coordinator
offline_release c = record c { offline_inflight = c.offline_inflight - 1 }

pub record Usage : Type 0 where
  pub online_active : Bool
  pub online_rollout_id : Option String
  pub online_rollout_queue : List String
  pub offline_waiting : ℕ
  pub offline_inflight : ℕ
  pub last_online_ended_at : Option ℕ

abbrev pub first : List String → Option String
first [] = none
first (r ∷ rs) = some r

unfoldable pub snapshot : Coordinator → Usage
snapshot c = record {
  online_active = not (is_nil c.online_rollout_order) || c.online_inflight;
  online_rollout_id = first c.online_rollout_order;
  online_rollout_queue = c.online_rollout_order;
  offline_waiting = c.offline_waiting;
  offline_inflight = c.offline_inflight;
  last_online_ended_at = c.last_online_ended_at;
}
