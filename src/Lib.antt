-- ===== src/Lib.antt =====
-- RoboLineage keeps the data lifecycle of robot policies: sessions record rollouts, agents watch them
-- while they run and review them afterwards, and datasets, policies and deployments are derived from
-- what was accepted, each by artifacts that name their origin. This library models the parts of the
-- Python package under src/ that decide, without the servers, models, cameras and robots around them.
--
-- Parts, and the files that model them:
--
-- * Session (src/robolineage_session, src/robolineage_contracts/session). Session/State has the
--   transition table and StateMachine.transition; Session/Registry the registry of one session;
--   Session/Events the envelopes; Session/Service and Session/Api the endpoint POST /events
--   (`post_event`, with `start`, `control_event` and `finish` for its branches); Session/Dispatcher
--   FeedbackDispatcher.on_snapshot over EventLogger.append. A request is one step; the outcomes of its
--   file system calls are an argument, and so are the identifiers and times that it draws. Whether a
--   rollout was archived before (runtime_archive.py) is part of the state.
-- * Realtime (src/robolineage_shared_agents/visual_snapshot/realtime). Realtime/Frames is
--   FrameRingBuffer, Realtime/Pending PendingWindowQueue, Realtime/Detector StreamingEventDetector,
--   whose `feed` is split into its stages, Realtime/Scheduler WindowScheduler, with the events that
--   stand for a cluster in Realtime/Represent.
-- * Phase (src/robolineage_shared_agents/visual_snapshot/phase_state_machine.py). Phase/Machine is
--   PhaseStateMachine: `apply` runs through `continue_from`, `move`, `forward` and `backward`;
--   Phase/Task has the parts of TaskConfig that it reads. Confidences are natural numbers of one unit.
--   Phase/Stabilizer is TemporalStabilizer (temporal_stabilizer.py) with `stabilize` in its parts;
--   Phase/Progress is ProgressDeriver.derive (progress_deriver.py).
-- * Priority (src/robolineage_shared_agents/visual_snapshot/vlm_priority.py). Priority has what a
--   thread does at VLMOnlinePriorityCoordinator while it holds the lock; Priority/Calls interleaves
--   the online and offline calls of any number of threads as a sequence of actions.
-- * Sync (src/robolineage_data_source/sync/manager.py). Sync has SyncManager's constructor (`create`,
--   with `validate_groups` and `start_order`), `start_manager` and `stop_manager`; what the adapters
--   answer is an argument, and the calls that they have had are part of the state.
-- * Gate (src/robolineage_train/gate.py, src/robolineage_train/deploy.py). Gate has
--   ConfirmMergeGate's `issue`, `load`, `check` and `require_pass` over a directory of tickets, and
--   `deploy_policy`; the digest of a ticket is a parameter, and its equality test with it. A ticket's
--   file whose JSON is no object makes `load` raise.
-- * Review (src/robolineage_post_rollout/formal_review.py). Review/Points has the phase of each
--   snapshot with its corrections and the suppression of jitter, Review/Timeline the segments
--   (`phase_timeline_from_points`), Review/Retry the retries, Review/Outcome the evidence of the
--   terminal phase and `determine_outcome`, Review/Verdict `outcome_with_vlm`, Review/Admission
--   DataGovernanceAgent.decide in its parts. The rounded mean of confidences is a parameter;
--   confidences are thousandths.
-- * Evaluation (src/robolineage_eval/agents.py). Evaluation has the evaluation of one rollout from its
--   timeline, outcome and failure events, Evaluation/Session `aggregate_policy_evaluations`, the
--   decision about the policy and what to collect next. The rounding of rates to thousandths is a
--   parameter.
-- * Worker (src/robolineage_post_rollout/worker.py, src/robolineage_eval/worker.py). Worker is both
--   background workers as one machine: an action is what a caller or the thread does at once, and
--   the thread's place in its loop is part of the state. enqueue() is two actions, since it leaves the
--   lock before it puts the job into the queue. Worker/Order, Worker/Stops and Worker/Restart are
--   about sequences of actions.
-- * Dataset (src/robolineage_dataset, src/robolineage_contracts/pipeline,
--   src/robolineage_train/policy_meta.py). Dataset/Version has version identifiers, Dataset/Lock the
--   lock and its checks, Dataset/Files one store of manifests, locks and texts by their paths,
--   Dataset/Updater DatasetUpdater.update over it, Dataset/Diff the difference of two locks,
--   Dataset/Policy the metadata of policies, their writers and the check of their source. The digest
--   of rows is a parameter; digits are the ASCII ones.
-- * Training (src/robolineage_train/lifecycle.py, src/robolineage_contracts/pipeline/manifest.py).
--   Training has `build_train_manifest` over the rollouts' folders, latest_dataset_lock and
--   deployment_recommendation. Training/Selection joins it with the review's admission,
--   Training/Latest with the update of a dataset.
--
-- How the parts follow one another: a rollout that a session closes is enqueued at a worker, which
-- reviews it; the review's admission selects it for training, the selected rollouts become the next
-- version of the dataset, and a policy's metadata, tickets and deployment name that version.
--
-- Conventions. A method that changes an object returns the new object; where it may raise it is an
-- action `S → Result E A × S` (Prelude/Exec), so that what was written before a raise stays. Times
-- are natural numbers of a small unit, and where the code compares a difference with an interval the
-- model compares with a sum, or with a truncated difference where the code cuts it off at 0.
-- Frame indices are natural numbers. Loops over a collection are recursions on the list, so no fuel is
-- needed; only the digits of a number are written with fuel, one more than
-- the number.
--
-- Not modelled: HTTP routing, JSON texts and file formats, threads inside a request, ROS2 and camera
-- drivers, prompts and model calls.
pub mod Dataset
pub mod Evaluation
pub mod Gate
pub mod Phase
pub mod Prelude
pub mod Priority
pub mod Realtime
pub mod Review
pub mod Session
pub mod Sync
pub mod Training
pub mod Worker
