-- ===== src/Realtime/Tests.antt =====
-- The realtime parts on concrete inputs.
use robolineage.Prelude.{ℕ, ◌+◌, ◌*◌, ◌≡◌, true, none, some, List, [], ◌∷◌, ◌++◌, length, arith}
use robolineage.Realtime.Frames.{Buffer, create}
use robolineage.Realtime.Frames.Bounds.{IsValid}
use robolineage.Realtime.Frames.Window.{put_all, put_all-window}
use robolineage.Realtime.Pending.{Queue}
use robolineage.Realtime.Pending.Order.{Call, add, pop, flush, run, added, run-fifo}
use robolineage.Realtime.Event.{
  EventType, ActionEvent, gripper_close, periodic_sample, still_start, opened, no_edge,
  closing_edge, Signal,
}
use robolineage.Realtime.Scheduler.{Scheduler}
use robolineage.Realtime.Detector.{Config}

-- A full buffer of two frames.
abbrev full : Buffer ℕ
full = record { capacity = 2; frames = (3, 30) ∷ (4, 40) ∷ []; dropped = 3 }

full-IsValid : IsValid full
full-IsValid = omega arith

abbrev frames : List (ℕ × ℕ)
frames = (1, 10) ∷ (2, 20) ∷ (3, 30) ∷ []

put_all-window_example :
    ((put_all frames (create 2)).frames ≡ (2, 20) ∷ (3, 30) ∷ [])
    × ((put_all frames (create 2)).dropped + length (put_all frames (create 2)).frames ≡ 3)
put_all-window_example = put_all-window 2 frames (omega arith)

abbrev calls : List (Call ℕ)
calls =
    add (record { anchor_frame = 3; content = 1 })
    ∷ pop (some 20)
    ∷ add (record { anchor_frame = 9; content = 2 })
    ∷ pop none
    ∷ flush
    ∷ []

abbrev queue : Queue ℕ
queue = record {
  context_frames = 15;
  max_wait_frames = none;
  events = record { anchor_frame = 3; content = 1 } ∷ record { anchor_frame = 9; content = 2 } ∷ [];
}

run-fifo_example : (run calls queue).0 ++ (run calls queue).1.events ≡ queue.events ++ added calls
run-fifo_example = run-fifo calls queue

abbrev config : Config
config = record {
  still_min_frames = 2;
  heartbeat_interval = 5000;
  periodic_interval = 2000;
  motion_resume_threshold = 8;
  min_same_event_interval = 3000;
}

abbrev still_at : ℕ → Signal
still_at n = record {
  frame_index = n;
  timestamp = n * 1000;
  gripper_state = opened;
  gripper_edge = no_edge;
  motion_energy_avg = 0;
  is_still = true;
}

abbrev stream : List Signal
stream =
    still_at 0 ∷ still_at 1 ∷ still_at 3 ∷ record (still_at 4) { gripper_edge = closing_edge } ∷ []

abbrev candidate : EventType → ℕ → ℕ → ActionEvent
candidate t frame time = record {
  event_type = t;
  anchor_frame = frame;
  timestamp = time;
  confidence = 50;
  details = [];
}

-- An edge waits, and the contact after it comes, with a later sample.
abbrev waiting : Scheduler
waiting = record {
  context_frames = 2;
  merge_window = 10;
  pending_events = candidate gripper_close 5 100 ∷ [];
}

abbrev arrivals : List ActionEvent
arrivals = candidate still_start 6 105 ∷ candidate periodic_sample 90 900 ∷ []
