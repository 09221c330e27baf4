-- ===== src/Priority/Tests.antt =====
-- The coordinator on concrete sequences of actions.
use robolineage.Prelude.{◌≡◌, refl, not, true, false, some, none, List, [], ◌∷◌, all, eq_iff}
use robolineage.Priority.{
  register, enter_online, online_join, online_try, online_release, offline_join,
}
use robolineage.Priority.Calls.{
  World, Action, enter, join, begin, finish, wait, start, perform, run, IsCounted, run-IsCounted,
}
use robolineage.Priority.Turns.{begins, no_overtaking}

start-IsCounted : IsCounted start
start-IsCounted = record { linear = refl; waiting = refl; running = refl }

-- Two rollouts; the call of the first one runs, and an offline call waits.
abbrev actions : List Action
actions = enter (some "r1") ∷ enter (some "r2") ∷ wait ∷ begin "r1" ∷ []

abbrev busy : World
busy = record {
  coordinator = record {
    online_rollout_order = "r1" ∷ "r2" ∷ [];
    online_inflight = true;
    offline_waiting = 1;
    offline_inflight = 0;
    last_online_ended_at = none;
  };
  online_calls = "r1" ∷ [];
  offline_waits = 1;
  offline_calls = 0;
}

run-actions : run actions start ≡ some busy
unfolding run perform enter_online register offline_join online_try
run-actions = refl

busy-IsCounted : IsCounted busy
busy-IsCounted = record { linear = refl; waiting = refl; running = refl }

run-IsCounted_example : IsCounted busy
run-IsCounted_example = run-IsCounted actions start busy start-IsCounted run-actions

-- The last rollout has left at 1000; the quiet period of 5000 is over at 6000.
abbrev quiet : World
quiet = record {
  coordinator = record {
    online_rollout_order = [];
    online_inflight = false;
    offline_waiting = 1;
    offline_inflight = 0;
    last_online_ended_at = some 1000;
  };
  online_calls = [];
  offline_waits = 1;
  offline_calls = 0;
}

abbrev entered : World
entered = record {
  coordinator = record {
    online_rollout_order = "r1" ∷ "r2" ∷ [];
    online_inflight = false;
    offline_waiting = 0;
    offline_inflight = 0;
    last_online_ended_at = none;
  };
  online_calls = [];
  offline_waits = 0;
  offline_calls = 0;
}

run-entered : run (wait ∷ begin "r1" ∷ []) entered ≡ some busy
unfolding run perform offline_join online_try
run-entered = refl

no_overtaking_example : all (λ x. not (begins "r2" x)) (wait ∷ begin "r1" ∷ []) ≡ true
no_overtaking_example =
    no_overtaking "r1" "r2" (wait ∷ begin "r1" ∷ []) entered busy (λ e. cc ((eq_iff "r1" "r2").1 e))
      refl refl run-entered

-- A call of a rollout that has left, from its begin to its end.
abbrev late : World
late = record quiet {
  coordinator = record (quiet.coordinator) { online_rollout_order = "r1" ∷ [] };
}

run-late : run (join "r1" ∷ begin "r1" ∷ finish ∷ []) quiet ≡ some late
unfolding run perform online_join register online_try online_release
run-late = refl
