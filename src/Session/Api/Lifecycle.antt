-- ===== src/Session/Api/Lifecycle.antt =====
-- What the control endpoint does to the registered session, over single requests and over runs.
use robolineage.Prelude.{
  ◌≡◌, refl, Bool, true, false, Option, none, some, List, [], ◌∷◌, ◌++◌, arith, All, if◌then◌else◌,
  ◌&&◌, ◌∙◌, not, any, str_eq, String,
}
use robolineage.Prelude.Result.{ok}
use robolineage.Prelude.Exec.{attempt, bind_keeps}
use robolineage.Session.State.{
  SessionState, idle, reviewing, submitted, same_state, transition, validate_transition,
}
use robolineage.Session.Registry
use robolineage.Session.Registry.{Session}
use robolineage.Session.Events.{
  ControlEventName, start_collecting, pause_collecting, resume_collecting, stop_collecting,
  submit_rollout, discard_rollout, session_open_failed, session_close_failed,
  illegal_state_transition, Outside, EventName, Payload, feedback, session_opened,
}
use robolineage.Session.Service.{
  Service, Body, Disk, state, error, state_payload, os_error, Exn, value_error, need,
}
use robolineage.Session.Api.{
  log_feedback, announce_opened, try_open, log_control, try_control, finish, proceed_control,
  control_event, dispatch, start, post_event,
}

-- A START whose payload is an object and that finds a session in progress answers 500 and drops that
-- session: the registry is empty afterwards, and nothing was logged, broadcast, closed or moved.
pub start_drops_session :
    (w : Outside) (body : Body) (disk : Disk) (s : Service) (session : Session) (payload : String)
    → body.event ≡ some start_collecting
    → body.payload ≡ some payload
    → s.current ≡ some session
    → ((post_event w body disk s).0 ≡ ok (error 500 session_open_failed))
      × ((post_event w body disk s).1.current ≡ none)
      × ((post_event w body disk s).1.events ≡ s.events)
      × ((post_event w body disk s).1.broadcasts ≡ s.broadcasts)
      × ((post_event w body disk s).1.closed ≡ s.closed)
      × ((post_event w body disk s).1.trash ≡ s.trash)
unfolding post_event dispatch start try_open announce_opened Registry.create Registry.clear
start_drops_session w body disk s session payload e p c = ground arith

abbrev is_live : SessionState → Bool
is_live idle = false
is_live submitted = false
is_live _ = true

abbrev live_registry : Option Session → Bool
live_registry none = true
live_registry (some session) = is_live session.state_machine.state

-- The registered session, if there is one, is being collected, paused or reviewed.
abbrev pub IsLive : Service → Type 0
IsLive s = live_registry s.current ≡ true

-- Logging leaves the registry alone.
current-log_control :
    (w : Outside) (body : Body) (disk : Disk) (name : ControlEventName) (x : Session) (s : Service)
    → (log_control w body disk name x s).1.current ≡ s.current
unfolding log_control
current-log_control w body disk name x s = ground arith

current-log_feedback :
    (w : Outside) (body : Body) (disk : Disk) (name : EventName) (payload : Payload) (x : Session)
    (s : Service)
    → (log_feedback w body disk name payload x s).1.current ≡ s.current
unfolding log_feedback
current-log_feedback w body disk name payload x s = ground arith

-- What follows an attempt to open a session leaves the registry alone.
current-announce_opened :
    (w : Outside) (body : Body) (disk : Disk) (o : Option Session) (s : Service)
    → (announce_opened w body disk o s).1.current ≡ s.current
unfolding announce_opened
current-announce_opened w body disk none s = refl
current-announce_opened w body disk (some session) s =
    let Same = λ (t : Service). t.current ≡ s.current in
    let opened = feedback session_opened in
    let payload = Payload.state (state_payload session) in
    bind_keeps Same (attempt os_error disk.log_dir) _ s (ground arith) (λ _ t h.
      bind_keeps Same (log_control w body disk start_collecting session) _ t
        (current-log_control w body disk start_collecting session t ∙ h)
        (λ _ t h.
          bind_keeps Same (log_feedback w body disk opened payload session) _ t
            (current-log_feedback w body disk opened payload session t ∙ h) (λ _ t h. h)))

try_open-IsLive :
    (w : Outside) (body : Body) (disk : Disk) (s : Service) → IsLive (try_open w body disk s).1
unfolding try_open Registry.create Registry.clear transition validate_transition
try_open-IsLive w body disk s = ground arith

need_keeps : (e : Exn) (o : Option String) (s : Service) → (need e o s).1 ≡ s
need_keeps e none s = refl
need_keeps e (some a) s = refl

start-IsLive :
    (w : Outside) (body : Body) (disk : Disk) (s : Service)
    → IsLive s
    → IsLive (start w body disk s).1
unfolding start
start-IsLive w body disk s live =
    bind_keeps IsLive (need value_error body.payload) _ s
      (rw (need_keeps value_error body.payload s) live)
      (λ _ t _.
        bind_keeps IsLive (try_open w body disk) (announce_opened w body disk) t
          (try_open-IsLive w body disk t)
          (λ o t live. rw (current-announce_opened w body disk o t) live))

try_control-IsLive :
    (w : Outside) (body : Body) (disk : Disk) (name : ControlEventName) (x : Session) (s : Service)
    → IsLive s
    → IsLive (try_control w body disk name x s).1
unfolding try_control transition validate_transition
try_control-IsLive w body disk start_collecting x s live = ground arith
try_control-IsLive w body disk _ x s live = ground arith

module _ (w : Outside) (body : Body) (disk : Disk) (works : disk.feedback_append ≡ true) where
  finish-IsLive :
      (name : ControlEventName) (x : Session) (s : Service)
      → IsLive s
      → IsLive (finish w body disk name x s).1
  unfolding finish transition validate_transition Registry.clear
  finish-IsLive submit_rollout x s live = ground arith
  finish-IsLive discard_rollout x s live = ground arith
  finish-IsLive _ x s live = ground arith

  proceed_control-IsLive :
      (name : ControlEventName) (o : Option Session) (s : Service)
      → IsLive s
      → IsLive (proceed_control w body disk name o s).1
  unfolding proceed_control
  proceed_control-IsLive name none s live = live
  proceed_control-IsLive name (some x) s live =
      bind_keeps IsLive (log_control w body disk name x) (λ _. finish w body disk name x) s
        (rw (current-log_control w body disk name x s) live) (λ _. finish-IsLive name x)

  control_event-IsLive :
      (name : ControlEventName) (o : Option Session) (s : Service)
      → IsLive s
      → IsLive (control_event w body disk name o s).1
  unfolding control_event
  control_event-IsLive name none s live = live
  control_event-IsLive name (some x) s live =
      bind_keeps IsLive (attempt os_error disk.log_dir) _ s (ground arith) (λ _ t h.
        bind_keeps IsLive (try_control w body disk name x) (proceed_control w body disk name) t
          (try_control-IsLive w body disk name x t h) (proceed_control-IsLive name))

  dispatch-IsLive :
      (event : Option ControlEventName) (s : Service)
      → IsLive s
      → IsLive (dispatch w body disk event s).1
  unfolding dispatch
  dispatch-IsLive none s live = live
  dispatch-IsLive (some start_collecting) s live = start-IsLive w body disk s live
  dispatch-IsLive (some pause_collecting) s live =
      control_event-IsLive pause_collecting s.current s live
  dispatch-IsLive (some resume_collecting) s live =
      control_event-IsLive resume_collecting s.current s live
  dispatch-IsLive (some stop_collecting) s live =
      control_event-IsLive stop_collecting s.current s live
  dispatch-IsLive (some submit_rollout) s live =
      control_event-IsLive submit_rollout s.current s live
  dispatch-IsLive (some discard_rollout) s live =
      control_event-IsLive discard_rollout s.current s live

-- The requests of a run, with what the file system does in each.
abbrev pub serve : Outside → List (Body × Disk) → Service → Service
serve w [] s = s
serve w ((body, disk) ∷ rest) s = serve w rest (post_event w body disk s).1

-- From a service whose session is being collected, paused or reviewed (or that has none), any
-- requests leave it so, if the append of a feedback event never fails: a submitted session is never
-- left registered, whatever else fails.
pub serve-IsLive :
    (w : Outside) (requests : List (Body × Disk)) (s : Service)
    → All (λ r. r.1.feedback_append ≡ true) requests
    → IsLive s
    → IsLive (serve w requests s)
unfolding post_event
serve-IsLive w [] s works live = live
serve-IsLive w ((body, disk) ∷ rest) s works live =
    serve-IsLive w rest (post_event w body disk s).1 works.1
      (dispatch-IsLive w body disk works.0 body.event s live)

module _ (w : Outside) (body : Body) (disk : Disk) (payload : String) where
  log_control_ok :
      (name : ControlEventName) (x : Session) (s : Service)
      → disk.control_append ≡ true
      → body.payload ≡ some payload
      → (log_control w body disk name x s ≡ (ok tt, (log_control w body disk name x s).1))
        × ((log_control w body disk name x s).1.closed ≡ s.closed)
        × ((log_control w body disk name x s).1.archives ≡ s.archives)
  unfolding log_control
  log_control_ok name x s a p = ground arith

try_submit :
    (w : Outside) (body : Body) (disk : Disk) (x : Session) (s : Service)
    → try_control w body disk submit_rollout x s
      ≡ (ok (if same_state x.state_machine.state reviewing then some x else none), s)
unfolding try_control validate_transition
try_submit w body disk x s = ground arith

-- The archive is written: it works, and there is none from an earlier submission.
abbrev pub archives_now : Disk → Session → Service → Bool
archives_now disk x s = not (any (λ r. str_eq r x.rollout_id) s.archives) && disk.archive

finish_submit :
    (w : Outside) (body : Body) (disk : Disk) (x : Session) (s : Service)
    → s.current ≡ some x
    → x.state_machine.state ≡ reviewing
    → disk.feedback_append ≡ true
    → let archived = archives_now disk x s in
      let written = archived && disk.closed_mark in
      ((finish w body disk submit_rollout x s).0 ≡ (
        if written
        then ok (state (record (state_payload x) { state = idle }))
        else ok (error 500 session_close_failed)))
      × ((finish w body disk submit_rollout x s).1.current ≡ (if written then none else some x))
      × ((finish w body disk submit_rollout x s).1.closed
          ≡ (if written then s.closed ++ x.rollout_id ∷ [] else s.closed))
      × ((finish w body disk submit_rollout x s).1.archives
          ≡ (if archived then s.archives ++ x.rollout_id ∷ [] else s.archives))
unfolding finish transition validate_transition Registry.clear
finish_submit w body disk x s c r f = ground arith

-- A SUBMIT of the registered session x with an object as its payload, where the log can be written.
-- From REVIEWING the archive is written, unless that fails or an earlier submission wrote it, and
-- then the close mark, unless that fails. With both it answers with state IDLE and clears the
-- registry; otherwise, which is so whenever x's archive stands there from before, it answers 500 and
-- keeps x as it was, and an archive that it wrote stays. From any other state it answers 400, keeps x
-- and archives nothing. Closed are exactly the rollouts that were, and x if it answers with IDLE.
pub submit_outcome :
    (w : Outside) (body : Body) (disk : Disk) (s : Service) (x : Session) (payload : String)
    → body.event ≡ some submit_rollout
    → body.payload ≡ some payload
    → s.current ≡ some x
    → disk.log_dir ≡ true
    → disk.control_append ≡ true
    → disk.feedback_append ≡ true
    → let reviewed = same_state x.state_machine.state reviewing in
      let archived = archives_now disk x s in
      let written = archived && disk.closed_mark in
      ((post_event w body disk s).0 ≡ (
        if reviewed
        then if written
          then ok (state (record (state_payload x) { state = idle }))
          else ok (error 500 session_close_failed)
        else ok (error 400 illegal_state_transition)))
      × ((post_event w body disk s).1.current ≡ (if reviewed && written then none else some x))
      × ((post_event w body disk s).1.closed
          ≡ (if reviewed && written then s.closed ++ x.rollout_id ∷ [] else s.closed))
      × ((post_event w body disk s).1.archives
          ≡ (if reviewed && archived then s.archives ++ x.rollout_id ∷ [] else s.archives))
unfolding post_event dispatch control_event proceed_control
submit_outcome w body disk s x payload e p c l a f = ground (
  arith,
  try_submit w body disk x s,
  log_control_ok w body disk payload submit_rollout x s a p,
  current-log_control w body disk submit_rollout x s,
  finish_submit w body disk x (log_control w body disk submit_rollout x s).1,
)
