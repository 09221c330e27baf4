-- ===== src/Priority/Calls.antt =====
-- VLM calls of any number of threads, interleaved at the coordinator's lock.
use robolineage.Prelude.{
  ℕ, ◌+◌, ◌-◌, ◌<◌, ◌≡◌, sym, ◌∙◌, refl, inl, inr, String, Bool, true, false, ◌&&◌, ◌||◌, Option,
  none, some, List, [], ◌∷◌, if◌then◌else◌, leb, ◌==◌, length, arith, Option-cases,
}
use robolineage.Priority.{
  Coordinator, enter_online, exit_online, is_nil, is_turn, online_join, online_try, online_release,
  wait_time, quiet_left, offline_join, offline_try, offline_stop, offline_release, init,
}

-- The coordinator, the rollouts of the online calls that run, and the offline calls that wait and
-- that run.
pub record World : Type 0 where
  pub coordinator : Coordinator
  pub online_calls : List String
  pub offline_waits : ℕ
  pub offline_calls : ℕ

pub data Action : Type 0 where
  enter : Option String → Action
  exit : Option String → (now : ℕ) → Action
  join : String → Action
  begin : String → Action
  finish : Action
  wait : Action
  admit : (quiet_period now : ℕ) → Action
  abandon : Action
  leave : Action

abbrev pub start : World
start = record { coordinator = init; online_calls = []; offline_waits = 0; offline_calls = 0 }

abbrev begun : String → World → Bool × Coordinator → Option World
begun r w (true, c) = some (record w { coordinator = c; online_calls = r ∷ w.online_calls })
begun r w (false, c) = none

abbrev admitted : World → Bool × Coordinator → Option World
admitted w (true, c) = some (record w {
  coordinator = c;
  offline_waits = w.offline_waits - 1;
  offline_calls = w.offline_calls + 1;
})
admitted w (false, c) = none

abbrev finished : Coordinator → List String → World → Option World
finished c [] w = none
finished c (r ∷ rs) w = some (record w { coordinator = c; online_calls = rs })

-- One action, if it can happen: a slot is acquired where the coordinator gives it, and what runs or
-- waits may end.
unfoldable pub perform : Action → World → Option World
perform (enter r) w = some (record w { coordinator = enter_online r w.coordinator })
perform (exit r now) w = some (record w { coordinator = exit_online r now w.coordinator })
perform (join r) w = some (record w { coordinator = online_join r w.coordinator })
perform (begin r) w = begun r w (online_try r w.coordinator)
perform finish w = finished (online_release w.coordinator) w.online_calls w
perform wait w =
    some
      (record w { coordinator = offline_join w.coordinator; offline_waits = w.offline_waits + 1 })
perform (admit quiet_period now) w =
    if w.offline_waits == 0 then none else admitted w (offline_try quiet_period now w.coordinator)
perform abandon w =
    if w.offline_waits == 0
    then none
    else some
        (record w { coordinator = offline_stop w.coordinator; offline_waits = w.offline_waits - 1 })
perform leave w =
    if w.offline_calls == 0
    then none
    else some (record w {
      coordinator = offline_release w.coordinator;
      offline_calls = w.offline_calls - 1;
    })

abbrev perform_then : (World → Option World) → Option World → Option World
perform_then f none = none
perform_then f (some w) = f w

unfoldable pub run : List Action → World → Option World
run [] w = some w
run (a ∷ more) w = perform_then (λ w'. run more w') (perform a w)

-- At most one online call runs, and the coordinator counts what runs and waits.
pub record IsCounted (w : World) : Type 0 where
  pub linear : length w.online_calls ≡ (if w.coordinator.online_inflight then 1 else 0)
  pub waiting : w.coordinator.offline_waiting ≡ w.offline_waits
  pub running : w.coordinator.offline_inflight ≡ w.offline_calls

perform-IsCounted : (a : Action) (w w' : World) → IsCounted w → perform a w ≡ some w' → IsCounted w'
unfolding perform enter_online exit_online online_join online_try online_release offline_join
    offline_try offline_stop offline_release
perform-IsCounted (enter r) w w' h e = ground arith
perform-IsCounted (exit r now) w w' h e = ground arith
perform-IsCounted (join r) w w' h e = ground arith
perform-IsCounted (begin r) w w' h e = ground arith
perform-IsCounted finish w w' h e = ground arith
perform-IsCounted wait w w' h e = ground arith
perform-IsCounted (admit quiet_period now) w w' h e = ground arith
perform-IsCounted abandon w w' h e = ground arith
perform-IsCounted leave w w' h e = ground arith

pub run-next :
    (a : Action) (more : List Action) (w next : World)
    → perform a w ≡ some next
    → run (a ∷ more) w ≡ run more next
unfolding run
run-next a more w next at = rw at

pub run-stuck :
    (a : Action) (more : List Action) (w : World) → perform a w ≡ none → run (a ∷ more) w ≡ none
unfolding run
run-stuck a more w at = rw at

-- Whatever the threads do, in any order, at most one online call runs, and the coordinator's counts
-- are those of the offline calls that wait and run.
pub run-IsCounted :
    (as_ : List Action) (w w' : World) → IsCounted w → run as_ w ≡ some w' → IsCounted w'
unfolding run
run-IsCounted [] w w' h e = ground arith
run-IsCounted (a ∷ more) w w' h e = elim (Option-cases (perform a w)) [
  | inl stuck ↦ absurd (cc (e, run-stuck a more w stuck))
  | inr (next, at) ↦
      run-IsCounted more next w' (perform-IsCounted a w next h at)
        (sym (run-next a more w next at) ∙ e)
]

-- The quiet period has passed, or there is none.
abbrev pub is_quiet : (quiet_period now : ℕ) → Option ℕ → Bool
is_quiet quiet_period now none = true
is_quiet quiet_period now (some ended) = leb (ended + quiet_period) now || quiet_period == 0

quiet_left_zero :
    (quiet_period now : ℕ) (o : Option ℕ)
    → (quiet_left quiet_period now o == 0) ≡ is_quiet quiet_period now o
unfolding quiet_left
quiet_left_zero quiet_period now none = refl
quiet_left_zero quiet_period now (some ended) = ground arith

abbrev pub is_possible : Option World → Bool
is_possible none = false
is_possible (some w) = true

-- A waiting offline call is let through exactly when no rollout is registered, no online call runs
-- and the quiet period since the last rollout left has passed.
pub admit_exact :
    (w : World) (quiet_period now : ℕ)
    → IsCounted w
    → 0 < w.offline_waits
    → is_possible (perform (admit quiet_period now) w) ≡ (
        is_nil w.coordinator.online_rollout_order
        && (is_nil w.online_calls && is_quiet quiet_period now w.coordinator.last_online_ended_at))
unfolding perform offline_try wait_time
admit_exact w quiet_period now h k =
    ground (arith, quiet_left_zero quiet_period now w.coordinator.last_online_ended_at)

-- An online call begins exactly when its rollout is the oldest that is registered and no online call
-- runs.
pub begin_exact :
    (w : World) (r : String)
    → IsCounted w
    → is_possible (perform (begin r) w)
      ≡ (is_turn r w.coordinator.online_rollout_order && is_nil w.online_calls)
unfolding perform online_try
begin_exact w r h = ground arith
