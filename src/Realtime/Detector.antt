-- ===== src/Realtime/Detector.antt =====
-- StreamingEventDetector (streaming_event_detector.py). `feed` is one function in the source; its
-- stages stand here in its order, each with the part of the state that it changes.
pub mod Pacing
pub mod Coverage
use robolineage.Prelude.{
  ℕ, suc, ◌+◌, max, Bool, true, false, not, ◌&&◌, Option, none, some, List, [], ◌∷◌, ◌++◌,
  if◌then◌else◌, ltb, leb,
}
use robolineage.Realtime.Event.{
  EventType, gripper_close, gripper_open, still_start, motion_resume, periodic_sample, heartbeat,
  same_type, GripperEdge, closing_edge, opening_edge, no_edge, Detail, gripper_state, still_frames,
  from_still_frames, interval, ActionEvent, Signal,
}

pub record Config : Type 0 where
  pub still_min_frames : ℕ
  pub heartbeat_interval : ℕ
  pub periodic_interval : ℕ
  pub motion_resume_threshold : ℕ
  pub min_same_event_interval : ℕ

-- `last_ts_by_type` is a dictionary: the time of a type that has one.
pub record Detector : Type 0 where
  pub still_count : ℕ
  pub still_emitted : Bool
  pub last_event_ts : Option ℕ
  pub last_periodic_ts : Option ℕ
  pub last_ts_by_type : EventType → Option ℕ

abbrev pub fresh : Detector
fresh = record {
  still_count = 0;
  still_emitted = false;
  last_event_ts = none;
  last_periodic_ts = none;
  last_ts_by_type = λ t. none;
}

-- event_type in _RATE_LIMITED_EVENTS
abbrev pub is_rate_limited : EventType → Bool
is_rate_limited still_start = true
is_rate_limited motion_resume = true
is_rate_limited heartbeat = true
is_rate_limited _ = false

-- ts - last >= gap, with no subtraction.
abbrev pub elapsed : ℕ → Option ℕ → ℕ → Bool
elapsed gap none ts = true
elapsed gap (some last) ts = leb (last + gap) ts

abbrev pub event_at : Signal → EventType → ℕ → List Detail → ActionEvent
event_at s t confidence details = record {
  event_type = t;
  anchor_frame = s.frame_index;
  timestamp = s.timestamp;
  confidence = confidence;
  details = details;
}

abbrev pub is_empty : List ActionEvent → Bool
is_empty [] = true
is_empty (e ∷ es) = false

abbrev pub last_ts : ℕ → List ActionEvent → ℕ
last_ts d [] = d
last_ts d (e ∷ es) = last_ts e.timestamp es

-- d[event_type] = ts
unfoldable pub mark : (EventType → Option ℕ) → ActionEvent → EventType → Option ℕ
mark d e t = if same_type e.event_type t then some e.timestamp else d t

unfoldable pub mark_all : (EventType → Option ℕ) → List ActionEvent → EventType → Option ℕ
unfolding mark
mark_all d [] = d
mark_all d (e ∷ es) = mark_all (if is_rate_limited e.event_type then mark d e else d) es

-- The first signal starts the period.
abbrev pub started : Option ℕ → ℕ → ℕ
started none ts = ts
started (some last) ts = last

unfoldable pub start_period : Signal → Detector → Detector
start_period s d = record d { last_periodic_ts = some (started d.last_periodic_ts s.timestamp) }

unfoldable pub gripper_events : Signal → GripperEdge → List ActionEvent
gripper_events s closing_edge =
    event_at s gripper_close 100 (gripper_state s.gripper_state ∷ []) ∷ []
gripper_events s opening_edge =
    event_at s gripper_open 100 (gripper_state s.gripper_state ∷ []) ∷ []
gripper_events s no_edge = []

module _ (c : Config) where
  -- _allow
  abbrev pub allow : Detector → EventType → ℕ → Bool
  allow d t ts =
      if is_rate_limited t then elapsed c.min_same_event_interval (d.last_ts_by_type t) ts else true

  -- The branch of a still signal.
  unfoldable pub still_events : Signal → Detector → List ActionEvent × Detector
  still_events s d =
      let count = d.still_count + 1 in
      if leb c.still_min_frames count && not d.still_emitted
      then (
        (if allow d still_start s.timestamp
            then event_at s still_start 85 (still_frames count ∷ []) ∷ []
            else []),
        record d { still_count = count; still_emitted = true },
      )
      else ([], record d { still_count = count })

  -- The branch of a moving signal.
  unfoldable pub motion_events : Signal → Detector → List ActionEvent × Detector
  motion_events s d = (
    (if d.still_emitted
          && leb c.motion_resume_threshold s.motion_energy_avg
          && allow d motion_resume s.timestamp
        then event_at s motion_resume 70 (from_still_frames d.still_count ∷ []) ∷ []
        else []),
    record d { still_count = 0; still_emitted = false },
  )

  unfoldable pub stillness_events : Signal → Detector → List ActionEvent × Detector
  unfolding still_events motion_events
  stillness_events s d = if s.is_still then still_events s d else motion_events s d

  unfoldable pub periodic_events : Signal → Detector → List ActionEvent → List ActionEvent
  periodic_events s d events =
      if is_empty events
        && ltb 0 c.periodic_interval
        && elapsed c.periodic_interval d.last_periodic_ts s.timestamp
      then event_at s periodic_sample 45 (interval c.periodic_interval ∷ []) ∷ []
      else events

  unfoldable pub heartbeat_due : Signal → Detector → Option ℕ → List ActionEvent × Detector
  heartbeat_due s d none = ([], record d { last_event_ts = some s.timestamp })
  heartbeat_due s d (some last) = (
    (if leb (last + c.heartbeat_interval) s.timestamp && allow d heartbeat s.timestamp
        then event_at s heartbeat 50 [] ∷ []
        else []),
    d,
  )

  unfoldable pub heartbeat_events :
      Signal → Detector → List ActionEvent → List ActionEvent × Detector
  unfolding heartbeat_due
  heartbeat_events s d events =
      if is_empty events && ltb 0 c.heartbeat_interval
      then heartbeat_due s d d.last_event_ts
      else (events, d)

  -- The bookkeeping at the end: nothing if there is no event.
  unfoldable pub remember : Signal → Detector → List ActionEvent → Detector
  remember s d events = if is_empty events then d else record d {
    last_event_ts = some (last_ts s.timestamp events);
    last_periodic_ts = some (last_ts s.timestamp events);
    last_ts_by_type = mark_all d.last_ts_by_type events;
  }

  -- From the periodic sample on.
  unfoldable pub finish : Signal → Detector → List ActionEvent → List ActionEvent × Detector
  finish s d events =
      let (out, d') = heartbeat_events s d (periodic_events s d events) in (out, remember s d' out)

  unfoldable pub feed : Signal → Detector → List ActionEvent × Detector
  feed s d =
      let (moves, d') = stillness_events s (start_period s d) in
      finish s d' (gripper_events s s.gripper_edge ++ moves)

  -- A stream of signals.
  unfoldable pub feed_all : List Signal → Detector → List ActionEvent × Detector
  feed_all [] d = ([], d)
  feed_all (s ∷ rest) d =
      let (out, d') = feed s d in let (more, last) = feed_all rest d' in (out ++ more, last)
