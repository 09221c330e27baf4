-- ===== src/Worker.antt =====
-- The background workers that review closed rollouts one by one
-- (src/robolineage_post_rollout/worker.py, src/robolineage_eval/worker.py). An action is what a
-- caller or the worker's thread does at once; the thread's sleep ends at any time. enqueue() is two
-- actions: under the lock it adds the path to the set, and after that it puts the job into the queue,
-- so that other callers' actions may come in between. The jobs that wait for their `put` are
-- `offered`, and `put_job n` is the caller of the n-th of them going on. The two workers
-- differ in their jobs, and in when they forget the last error: EvaluationReviewWorker when it takes
-- a job (`early`), PostRolloutReviewWorker when it begins to review it.
pub mod Jobs
pub mod Moves
pub mod Steps
pub mod Order
pub mod Stops
pub mod Restart
mod Tests
use robolineage.Prelude.{
  ℕ, zero, suc, String, Bool, true, false, not, ◌&&◌, ◌||◌, Option, none, some, List, [], ◌∷◌, ◌++◌,
  any, length, ◌==◌, str_eq, if◌then◌else◌,
}

pub data Item (J : Type 0) : Type 0 where
  job : J → Item J
  sentinel : Item J

-- Where the thread is: not started or at its end, before the loop's test, in queue.get(), in the
-- pause before a job's review, or in the review.
pub data Thread (J : Type 0) : Type 0 where
  absent at_test waiting finished : Thread J
  sleeping running : J → Thread J

pub record Worker (J : Type 0) : Type 0 where
  pub offered : List J
  pub queue : List (Item J)
  pub thread : Thread J
  pub stop_event : Bool
  pub current_rollout : Option String
  pub last_result : Option String
  pub last_error : Option String
  pub enqueued : List String
  pub queued_rollouts : List String

pub data Action (J : Type 0) : Type 0 where
  add_job : J → Action J
  put_job : ℕ → Action J
  start stop test take wake : Action J
  finish_ok finish_error : String → Action J

-- What becomes of a job.
pub data Event (J : Type 0) : Type 0 where
  accepted put taken reviewed failed dropped : J → Event J

abbrev pub new_worker : (J : Type 0) → Worker J
new_worker J = record {
  offered = [];
  queue = [];
  thread = absent;
  stop_event = false;
  current_rollout = none;
  last_result = none;
  last_error = none;
  enqueued = [];
  queued_rollouts = [];
}

-- set.discard_text, and list.remove where the text is there
unfoldable pub discard_text : String → List String → List String
discard_text s [] = []
discard_text s (t ∷ l) = if str_eq t s then l else t ∷ discard_text s l

abbrev pub contains : String → List String → Bool
contains s l = any (λ t. str_eq t s) l

abbrev pub has_none : Option String → Bool
has_none none = true
has_none (some s) = false

abbrev pub is_empty : {A : Type 0} → List A → Bool
is_empty [] = true
is_empty (x ∷ xs) = false

-- What happened, and the state after; an action that is not possible has none.
abbrev pub Step : Type 0 → Type 0
Step J = Option (List (Event J) × Worker J)

module _ {J : Type 0} where
  abbrev pub is_alive : Thread J → Bool
  is_alive absent = false
  is_alive finished = false
  is_alive _ = true

  abbrev pub is_test : Action J → Bool
  is_test test = true
  is_test _ = false

  abbrev pub is_take : Action J → Bool
  is_take take = true
  is_take _ = false

  abbrev pub is_wake : Action J → Bool
  is_wake wake = true
  is_wake _ = false

  -- A review that ended well, with its result, or badly, with its error.
  abbrev pub finish_of : Action J → Option (Bool × String)
  finish_of (finish_ok r) = some (true, r)
  finish_of (finish_error e) = some (false, e)
  finish_of _ = none

  unfoldable pub is_idle : Worker J → Bool
  is_idle w = is_empty w.queue && (has_none w.current_rollout && is_empty w.enqueued)

  unfoldable pub start_worker : Worker J → Worker J
  start_worker w =
      if is_alive w.thread then w else record w { stop_event = false; thread = at_test }

  -- stop() until it joins the thread
  unfoldable pub stop_worker : Worker J → Worker J
  stop_worker w = record w { stop_event = true; queue = w.queue ++ sentinel ∷ [] }

  abbrev pub cons_rest : J → Option (J × List J) → Option (J × List J)
  cons_rest j none = none
  cons_rest j (some (k, rest)) = some (k, j ∷ rest)

  -- The n-th job of a list and the others.
  unfoldable pub pick : ℕ → List J → Option (J × List J)
  pick n [] = none
  pick zero (j ∷ js) = some (j, js)
  pick (suc n) (j ∷ js) = cons_rest j (pick n js)

  -- self._queue.put(path), by the caller that has offered the job
  abbrev pub put_picked : Option (J × List J) → Worker J → Step J
  put_picked none w = none
  put_picked (some (j, rest)) w =
      some (put j ∷ [], record w { offered = rest; queue = w.queue ++ job j ∷ [] })

  abbrev pub accept : J → Bool × Worker J → List (Event J) × Worker J
  accept j (true, w) = (accepted j ∷ [], w)
  accept j (false, w) = ([], w)

  abbrev pub after : List (Event J) → Step J → Step J
  after es none = none
  after es (some (fs, w)) = some (es ++ fs, w)

  abbrev pub continue : Step J → (Worker J → Step J) → Step J
  continue none f = none
  continue (some (es, w)) f = after es (f w)

module _ {J : Type 0} (path_of : J → String) (name : String → String) (early : Bool) where
  abbrev pub job_name : J → String
  job_name j = name (path_of j)

  -- enqueue() until it releases the lock
  unfoldable pub enqueue_job : J → Worker J → Bool × Worker J
  enqueue_job j w = if contains (path_of j) w.enqueued then (false, w) else (
    true,
    record w {
      enqueued = w.enqueued ++ path_of j ∷ [];
      queued_rollouts = w.queued_rollouts ++ job_name j ∷ [];
      offered = w.offered ++ j ∷ [];
    },
  )

  -- The finally clause, for a job that was taken.
  abbrev pub release_job : J → Worker J → Worker J
  release_job j w = record w {
    enqueued = discard_text (path_of j) w.enqueued;
    queued_rollouts = discard_text (job_name j) w.queued_rollouts;
  }

  abbrev pub forget_error : Bool → Worker J → Worker J
  forget_error true w = record w { last_error = none }
  forget_error false w = w

  abbrev pub take_item : List (Item J) → Worker J → Step J
  take_item [] w = none
  take_item (sentinel ∷ q) w = some ([], record w { queue = q; thread = finished })
  take_item (job j ∷ q) w = some (
    taken j ∷ [],
    forget_error early (record w {
      queue = q;
      current_rollout = some (job_name j);
      queued_rollouts = discard_text (job_name j) w.queued_rollouts;
      thread = sleeping j;
    }),
  )

  abbrev pub wake_up : J → Worker J → List (Event J) × Worker J
  wake_up j w =
      if w.stop_event
      then (dropped j ∷ [], record (release_job j w) { thread = finished })
      else ([], record (forget_error (not early) w) { thread = running j })

  abbrev pub end_job : J → Worker J → Worker J
  end_job j w = record (release_job j w) { current_rollout = none; thread = at_test }

  abbrev pub finish_with : Option (Bool × String) → J → Worker J → Step J
  finish_with none j w = none
  finish_with (some (true, r)) j w =
      some (reviewed j ∷ [], record (end_job j w) { last_result = some r })
  finish_with (some (false, e)) j w =
      some (failed j ∷ [], record (end_job j w) { last_error = some e })

  -- What the thread may do where it is.
  abbrev pub thread_step : Thread J → Action J → Worker J → Step J
  thread_step absent a w = none
  thread_step finished a w = none
  thread_step at_test a w =
      if is_test a
      then some ([], record w { thread = if w.stop_event then finished else waiting })
      else none
  thread_step waiting a w = if is_take a then take_item w.queue w else none
  thread_step (sleeping j) a w = if is_wake a then some (wake_up j w) else none
  thread_step (running j) a w = finish_with (finish_of a) j w

  unfoldable pub perform_action : Action J → Worker J → Step J
  unfolding enqueue_job start_worker stop_worker discard_text pick
  perform_action (add_job j) w = some (accept j (enqueue_job j w))
  perform_action (put_job n) w = put_picked (pick n w.offered) w
  perform_action start w = some ([], start_worker w)
  perform_action stop w = some ([], stop_worker w)
  perform_action a w = thread_step w.thread a w

  unfoldable pub run : List (Action J) → Worker J → Step J
  unfolding perform_action
  run [] w = some ([], w)
  run (a ∷ actions) w = continue (perform_action a w) (run actions)

-- What status() answers.
pub record Status : Type 0 where
  pub active : Bool
  pub queue_size : ℕ
  pub current_rollout : Option String
  pub queued_rollouts : List String
  pub last_rollout : Option String
  pub last_error : Option String

unfoldable pub status : {J : Type 0} → Worker J → Status
status w = record {
  active = is_alive w.thread;
  queue_size = length w.queue;
  current_rollout = w.current_rollout;
  queued_rollouts = w.queued_rollouts;
  last_rollout = w.last_result;
  last_error = w.last_error;
}

-- The evaluation worker's jobs.
pub record EvaluationJob : Type 0 where
  pub rollout_dir : String
  pub policy_version : Option String
  pub evaluation_session_id : Option String
  pub evaluation_mode : String
