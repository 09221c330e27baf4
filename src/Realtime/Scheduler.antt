-- ===== src/Realtime/Scheduler.antt =====
-- WindowScheduler (window_scheduler.py): trigger candidates that are close in time or whose windows
-- overlap are coalesced. Context and merge window are natural numbers, so a difference that is
-- compared with one is written as a sum.
pub mod Conservation
use Prim.Native.String.{compare}
use text.Mathlib.Text.{is_lt}
use robolineage.Prelude.{
  ℕ, ◌+◌, ◌-◌, max, min, String, Bool, true, false, not, ◌&&◌, ◌||◌, Option, none, some, List, [],
  ◌∷◌, ◌++◌, map, if◌then◌else◌, ltb, leb, ◌==◌, length, any, filter,
}
use robolineage.Realtime.Event.{
  EventType, gripper_close, gripper_open, still_start, motion_resume, periodic_sample, heartbeat,
  sequence_start, final_observation, gripper_burst, contact_transition, other, same_type, Covered,
  Detail, gripper_state, still_frames, from_still_frames, interval, source_event_types,
  covered_event_types, covered_events, scheduler_coalesced_count, scheduler_anchor_frames,
  ActionEvent,
}
use robolineage.Realtime.Represent.{represent}

abbrev pub type_name : EventType → String
type_name gripper_close = "gripper_close"
type_name gripper_open = "gripper_open"
type_name still_start = "still_start"
type_name motion_resume = "motion_resume"
type_name periodic_sample = "periodic_sample"
type_name heartbeat = "heartbeat"
type_name sequence_start = "sequence_start"
type_name final_observation = "final_observation"
type_name gripper_burst = "gripper_burst"
type_name contact_transition = "contact_transition"
type_name (other name) = name

abbrev pub is_protected : EventType → Bool
is_protected sequence_start = true
is_protected final_observation = true
is_protected t = false

pub record Scheduler : Type 0 where
  pub context_frames : ℕ
  pub merge_window : ℕ
  pub pending_events : List ActionEvent

-- The order of (timestamp_sec, anchor_frame, event_type).
unfoldable pub comes_before : ActionEvent → ActionEvent → Bool
comes_before a b =
    ltb a.timestamp b.timestamp
    || (a.timestamp == b.timestamp
        && (ltb a.anchor_frame b.anchor_frame
            || (a.anchor_frame == b.anchor_frame
                && is_lt (compare (type_name a.event_type) (type_name b.event_type)))))

-- sorted(events, key=...), which is stable: an event goes behind those that it does not come before.
unfoldable pub insert : ActionEvent → List ActionEvent → List ActionEvent
insert e [] = e ∷ []
insert e (x ∷ xs) = let rest = insert e xs in if comes_before x e then x ∷ rest else e ∷ x ∷ xs

unfoldable pub sorted : List ActionEvent → List ActionEvent
sorted [] = []
sorted (e ∷ es) = insert e (sorted es)

abbrev pub within : ℕ → ℕ → ℕ → Bool
within gap a b = leb a (b + gap) && leb b (a + gap)

-- _cluster's latest timestamp
unfoldable pub latest : List ActionEvent → ℕ
latest [] = 0
latest (e ∷ es) = max e.timestamp (latest es)

abbrev pub has_protected : List ActionEvent → Bool
has_protected l = any (λ e. is_protected e.event_type) l

module _ (context merge : ℕ) where
  -- _events_overlap, with the frame ranges around the anchors
  unfoldable pub events_overlap : ActionEvent → ActionEvent → Bool
  events_overlap a b =
      within merge a.timestamp b.timestamp
      || within (context + context) a.anchor_frame b.anchor_frame

  unfoldable pub belongs_to_cluster : ActionEvent → List ActionEvent → Bool
  belongs_to_cluster e cluster =
      not (is_protected e.event_type)
      && (not (has_protected cluster) && any (events_overlap e) cluster)

  -- The loop over the sorted events, with the cluster that is being built.
  unfoldable pub cluster_from : List ActionEvent → List ActionEvent → List (List ActionEvent)
  cluster_from current [] = current ∷ []
  cluster_from current (e ∷ es) =
      let joined = cluster_from (current ++ e ∷ []) es in
      let split = current ∷ cluster_from (e ∷ []) es in
      if belongs_to_cluster e current then joined else split

  unfoldable pub clusters_of : List ActionEvent → List (List ActionEvent)
  clusters_of [] = []
  clusters_of (e ∷ es) = cluster_from (e ∷ []) es

  -- _clusters
  unfoldable pub clusters : List ActionEvent → List (List ActionEvent)
  clusters events = clusters_of (sorted events)

-- _cluster_ready
unfoldable pub cluster_ready : ℕ → List ActionEvent → Option ℕ → Bool
cluster_ready merge cluster none = has_protected cluster
cluster_ready merge cluster (some watermark) =
    has_protected cluster || leb (latest cluster + merge) watermark

abbrev pub represent_all : List (List ActionEvent) → List ActionEvent
represent_all [] = []
represent_all ([] ∷ rest) = represent_all rest
represent_all ((e ∷ es) ∷ rest) = represent e es ∷ represent_all rest

unfoldable pub coalesce : List ActionEvent → Scheduler → List ActionEvent
coalesce events s =
    if ltb (length events) 2
    then events
    else represent_all (clusters s.context_frames s.merge_window events)

-- The loop of `schedule`: the clusters before the first that is not ready, and the others.
unfoldable pub release :
    (merge : ℕ) (force : Bool)
    → Option ℕ
    → List (List ActionEvent)
    → List (List ActionEvent) × List (List ActionEvent)
release merge force watermark [] = ([], [])
release merge force watermark (c ∷ cs) =
    let next = release merge force watermark cs in
    if force || cluster_ready merge c watermark then (c ∷ next.0, next.1) else ([], c ∷ cs)

unfoldable pub flatten : List (List ActionEvent) → List ActionEvent
flatten [] = []
flatten (c ∷ cs) = c ++ flatten cs

unfoldable pub schedule :
    List ActionEvent → Option ℕ → (force : Bool) → Scheduler → List ActionEvent × Scheduler
schedule events watermark force s =
    let split =
      release s.merge_window force watermark
        (clusters s.context_frames s.merge_window (s.pending_events ++ events)) in
    (represent_all split.0, record s { pending_events = flatten split.1 })
