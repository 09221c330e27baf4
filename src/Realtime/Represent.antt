-- ===== src/Realtime/Represent.antt =====
-- The event that stands for a cluster of coalesced candidates (WindowScheduler._represent and
-- _dedupe, window_scheduler.py). A dictionary of details is a list with at most one entry of a key.
use robolineage.Prelude.{
  ℕ, max, Bool, true, false, not, ◌&&◌, ◌||◌, List, [], ◌∷◌, map, if◌then◌else◌, ltb, ◌==◌, length,
  any, filter,
}
use robolineage.Realtime.Event.{
  EventType, gripper_close, gripper_open, still_start, motion_resume, periodic_sample, heartbeat,
  sequence_start, final_observation, gripper_burst, contact_transition, other, same_type, Covered,
  Detail, gripper_state, still_frames, from_still_frames, interval, source_event_types,
  covered_event_types, covered_events, scheduler_coalesced_count, scheduler_anchor_frames,
  ActionEvent,
}

abbrev pub is_coverage : EventType → Bool
is_coverage periodic_sample = true
is_coverage heartbeat = true
is_coverage t = false

abbrev pub is_gripper : EventType → Bool
is_gripper gripper_open = true
is_gripper gripper_close = true
is_gripper t = false

abbrev pub is_contact_motion : EventType → Bool
is_contact_motion still_start = true
is_contact_motion motion_resume = true
is_contact_motion t = false

-- _PRIORITY.get(event_type, 50)
unfoldable pub priority : EventType → ℕ
priority sequence_start = 80
priority gripper_burst = 75
priority contact_transition = 74
priority gripper_close = 70
priority gripper_open = 70
priority motion_resume = 60
priority still_start = 55
priority final_observation = 90
priority periodic_sample = 10
priority heartbeat = 5
priority (other name) = 50

-- max(cluster, key=...): the first event with the largest key, for `less` on keys.
unfoldable pub largest :
    (ActionEvent → ActionEvent → Bool) → ActionEvent → List ActionEvent → ActionEvent
largest less best [] = best
largest less best (e ∷ es) = largest less (if less best e then e else best) es

-- (anchor_frame, timestamp_sec)
unfoldable pub earlier_frame : ActionEvent → ActionEvent → Bool
earlier_frame a b =
    ltb a.anchor_frame b.anchor_frame
    || (a.anchor_frame == b.anchor_frame && ltb a.timestamp b.timestamp)

-- (priority, confidence, anchor_frame, timestamp_sec)
unfoldable pub lower_priority : ActionEvent → ActionEvent → Bool
lower_priority a b =
    ltb (priority a.event_type) (priority b.event_type)
    || (priority a.event_type == priority b.event_type
        && (ltb a.confidence b.confidence || (a.confidence == b.confidence && earlier_frame a b)))

-- The type and the event that stand for a cluster.
unfoldable pub representative :
    List EventType → ActionEvent → List ActionEvent → EventType × ActionEvent
representative sources first rest =
    let last_ = largest earlier_frame first rest in
    let best = largest lower_priority first rest in
    if any is_gripper sources && any is_contact_motion sources
    then (contact_transition, last_)
    else if any (same_type gripper_open) sources && any (same_type gripper_close) sources
    then (gripper_burst, last_)
    else (best.event_type, best)

-- _dedupe, for what was seen before
unfoldable pub dedupe : List EventType → List EventType → List EventType
dedupe seen [] = []
dedupe seen (t ∷ ts) = elim (any (same_type t) seen) [
  | true ↦ dedupe seen ts
  | false ↦ t ∷ dedupe (t ∷ seen) ts
]

-- details[key] = value, where a key that is there keeps its place
abbrev pub key : Detail → ℕ
key (gripper_state s) = 0
key (still_frames n) = 1
key (from_still_frames n) = 2
key (interval n) = 3
key (source_event_types l) = 4
key (covered_event_types l) = 5
key (covered_events l) = 6
key (scheduler_coalesced_count n) = 7
key (scheduler_anchor_frames l) = 8

unfoldable pub set_detail : Detail → List Detail → List Detail
set_detail d [] = d ∷ []
set_detail d (x ∷ xs) = let rest = set_detail d xs in if key x == key d then d ∷ xs else x ∷ rest

abbrev pub no_types : List EventType → Bool
no_types [] = true
no_types (t ∷ ts) = false

abbrev pub covered_by : EventType → ActionEvent → Covered
covered_by t e = record {
  event_type = e.event_type;
  anchor_frame = e.anchor_frame;
  timestamp = e.timestamp;
  coalesced_with = t;
}

unfoldable pub merged_details :
    EventType → List EventType → List ActionEvent → List ActionEvent → List Detail → List Detail
merged_details event_type sources covered cluster details =
    let covered_types = map (λ e. e.event_type) covered in
    let with_sources =
      if no_types sources
      then details
      else set_detail (source_event_types (dedupe [] sources)) details in
    let with_covered =
      if no_types covered_types
      then with_sources
      else set_detail (covered_events (map (covered_by event_type) covered))
          (set_detail (covered_event_types (dedupe [] covered_types)) with_sources) in
    set_detail (scheduler_anchor_frames (map (λ e. e.anchor_frame) cluster))
      (set_detail (scheduler_coalesced_count (length cluster)) with_covered)

unfoldable pub top_confidence : List ActionEvent → ℕ
top_confidence [] = 0
top_confidence (e ∷ es) = max e.confidence (top_confidence es)

-- _represent, for a cluster of a first event and the rest
unfoldable pub represent : ActionEvent → List ActionEvent → ActionEvent
represent first [] = first
represent first (second ∷ more) =
    let cluster = first ∷ second ∷ more in
    let sources = map (λ e. e.event_type) (filter (λ e. not (is_coverage e.event_type)) cluster) in
    let covered = filter (λ e. is_coverage e.event_type) cluster in
    let (event_type, event) = representative sources first (second ∷ more) in
    record {
      event_type = event_type;
      anchor_frame = event.anchor_frame;
      timestamp = event.timestamp;
      confidence = top_confidence cluster;
      details = merged_details event_type sources covered cluster event.details;
    }
