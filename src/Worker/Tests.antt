-- ===== src/Worker/Tests.antt =====
-- Workers whose jobs are paths, with the path itself as the name.
use robolineage.Prelude.{◌≡◌, refl, String, true, false, none, some, List, [], ◌∷◌}
use robolineage.Worker.{
  job, sentinel, sleeping, running, finished, Worker, Action, add_job, put_job, start, test, take,
  wake, finish_ok, Event, accepted, put, taken, reviewed, dropped, discard_text, is_idle,
  stop_worker, enqueue_job, perform_action, run, EvaluationJob, pick,
}
use robolineage.Worker.Stops.{reviewed_of, rounds, ready, rounds_drain, stop_in_pause}

abbrev path : String → String
path s = s

-- The second caller is the first to put its job into the queue; a third one has yet to do so.
abbrev actions : List (Action String)
actions =
    add_job "a"
    ∷ add_job "b"
    ∷ put_job 1
    ∷ add_job "a"
    ∷ put_job 0
    ∷ start
    ∷ test
    ∷ take
    ∷ wake
    ∷ finish_ok "b"
    ∷ add_job "c"
    ∷ test
    ∷ take
    ∷ []

abbrev events : List (Event String)
events =
    accepted "a"
    ∷ accepted "b"
    ∷ put "b"
    ∷ put "a"
    ∷ taken "b"
    ∷ reviewed "b"
    ∷ accepted "c"
    ∷ taken "a"
    ∷ []

abbrev in_pause : Worker String
in_pause = record {
  offered = "c" ∷ [];
  queue = [];
  thread = sleeping "a";
  stop_event = false;
  current_rollout = some "a";
  last_result = some "b";
  last_error = none;
  enqueued = "a" ∷ "c" ∷ [];
  queued_rollouts = "c" ∷ [];
}

rounds_drain_example :
    (es : List (Event String)) × (w : Worker String) × (run path path true
        (rounds ("a" ∷ "b" ∷ []))
        (ready path ("a" ∷ "b" ∷ []) [] none none)
      ≡ some (es, w))
    × (reviewed_of es ≡ "a" ∷ "b" ∷ [])
    × (is_idle w ≡ true)
rounds_drain_example = rounds_drain path path true ("a" ∷ "b" ∷ []) [] none none

abbrev halted : Worker String
halted = record {
  offered = [];
  queue = sentinel ∷ job "c" ∷ [];
  thread = finished;
  stop_event = true;
  current_rollout = some "a";
  last_result = some "b";
  last_error = none;
  enqueued = "c" ∷ [];
  queued_rollouts = "c" ∷ [];
}

stop_in_pause_example :
    ((fs : List (Event String)) × (dropped "a" ∷ put "c" ∷ [] ≡ dropped "a" ∷ fs))
    × (is_idle halted ≡ false)
    × (halted.thread ≡ finished)
    × (halted.current_rollout ≡ some "a")
unfolding run perform_action enqueue_job stop_worker discard_text pick
stop_in_pause_example =
    stop_in_pause path path false "a" "a" in_pause halted (put_job 0 ∷ [])
      (dropped "a" ∷ put "c" ∷ []) refl refl refl refl

abbrev evaluation : String → EvaluationJob
evaluation s = record {
  rollout_dir = s;
  policy_version = some "1.0.0";
  evaluation_session_id = none;
  evaluation_mode = "deployment";
}

-- In the review of the only job.
abbrev in_review : Worker EvaluationJob
in_review = record {
  offered = [];
  queue = [];
  thread = running (evaluation "a");
  stop_event = false;
  current_rollout = some "a";
  last_result = none;
  last_error = none;
  enqueued = "a" ∷ [];
  queued_rollouts = [];
}

-- The job that came after the start stays in the queue.
abbrev left_over : Worker EvaluationJob
left_over = record {
  offered = [];
  queue = job (evaluation "b") ∷ [];
  thread = finished;
  stop_event = false;
  current_rollout = none;
  last_result = some "ok";
  last_error = none;
  enqueued = "b" ∷ [];
  queued_rollouts = "b" ∷ [];
}
