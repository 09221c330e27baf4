-- ===== src/Phase/Progress.antt =====
-- ProgressDeriver (progress_deriver.py). A fraction is a number of hundredths, a motion energy a number
-- of hundred-thousandths; the reason's text is left out.
use robolineage.Prelude.{
  ℕ, String, Bool, false, not, Option, none, some, if◌then◌else◌, str_eq, ltb,
}
use robolineage.Realtime.Event.{
  EventType, gripper_close, gripper_open, motion_resume, still_start, sequence_start, heartbeat,
  periodic_sample,
}
use robolineage.Session.Events.{Progress, advancing, stalled}

-- still_fraction and mean_motion_energy, 0 where they are missing.
pub record ActionSummary : Type 0 where
  pub still_fraction : ℕ
  pub mean_motion_energy : ℕ

-- last_phase is not None and fused_phase != last_phase
abbrev pub changed : Option String → String → Bool
changed none p = false
changed (some q) p = not (str_eq p q)

unfoldable pub from_summary : ActionSummary → Progress → Progress
from_summary a vlm_progress =
    if ltb 60 a.still_fraction
    then stalled
    else if ltb 80 a.mean_motion_energy
    then advancing
    else vlm_progress

unfoldable pub from_event : EventType → Option String → ActionSummary → Progress → Progress
unfolding from_summary
from_event gripper_close last a vlm_progress = advancing
from_event gripper_open last a vlm_progress = advancing
from_event motion_resume last a vlm_progress = advancing
from_event sequence_start none a vlm_progress = advancing
from_event still_start last a vlm_progress = stalled
from_event heartbeat last a vlm_progress = from_summary a vlm_progress
from_event periodic_sample last a vlm_progress = from_summary a vlm_progress
from_event t last a vlm_progress = vlm_progress

unfoldable pub derive : EventType → String → Option String → ActionSummary → Progress → Progress
unfolding from_event
derive t fused_phase last_phase a vlm_progress =
    if changed last_phase fused_phase then advancing else from_event t last_phase a vlm_progress
