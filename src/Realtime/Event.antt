-- ===== src/Realtime/Event.antt =====
-- ActionEvent and its types (src/robolineage_shared_agents/visual_snapshot/types.py). A time is a
-- number of nanoseconds, which is what the recorder's seconds are made from; a confidence is a number
-- of hundredths; a motion energy is a number of some small unit. They are only compared and, for
-- times, compared after a sum. A frame index is a natural number.
use robolineage.Prelude.{ℕ, String, Bool, true, false, List, str_eq}

pub data EventType : Type 0 where
  gripper_close gripper_open still_start motion_resume periodic_sample heartbeat : EventType
  sequence_start final_observation gripper_burst contact_transition : EventType
  other : String → EventType

abbrev pub same_type : EventType → EventType → Bool
same_type gripper_close gripper_close = true
same_type gripper_open gripper_open = true
same_type still_start still_start = true
same_type motion_resume motion_resume = true
same_type periodic_sample periodic_sample = true
same_type heartbeat heartbeat = true
same_type sequence_start sequence_start = true
same_type final_observation final_observation = true
same_type gripper_burst gripper_burst = true
same_type contact_transition contact_transition = true
same_type (other a) (other b) = str_eq a b
same_type _ _ = false

pub data GripperState : Type 0 where
  opened closed : GripperState

pub data GripperEdge : Type 0 where
  closing_edge opening_edge no_edge : GripperEdge

pub record Covered : Type 0 where
  pub event_type : EventType
  pub anchor_frame : ℕ
  pub timestamp : ℕ
  pub coalesced_with : EventType

-- The keys that the detector and the scheduler write.
pub data Detail : Type 0 where
  gripper_state : GripperState → Detail
  still_frames from_still_frames interval : ℕ → Detail
  source_event_types covered_event_types : List EventType → Detail
  covered_events : List Covered → Detail
  scheduler_coalesced_count : ℕ → Detail
  scheduler_anchor_frames : List ℕ → Detail

pub record ActionEvent : Type 0 where
  pub event_type : EventType
  pub anchor_frame : ℕ
  pub timestamp : ℕ
  pub confidence : ℕ
  pub details : List Detail

-- The part of ActionDerivedSignal that the detector reads.
pub record Signal : Type 0 where
  pub frame_index : ℕ
  pub timestamp : ℕ
  pub gripper_state : GripperState
  pub gripper_edge : GripperEdge
  pub motion_energy_avg : ℕ
  pub is_still : Bool
