-- ===== src/Realtime/Detector/Coverage.antt =====
-- No period passes without a mark, and what that means for the heartbeat.
use robolineage.Prelude.{
  ℕ, ◌+◌, ◌≤◌, ◌<◌, ◌≡◌, refl, ◌⊎◌, inl, inr, false, Option, none, some, List, [], ◌∷◌, ◌++◌, All,
  All-append, arith, ◌∙◌,
}
use robolineage.Realtime.Event.{
  heartbeat, same_type, GripperEdge, closing_edge, opening_edge, no_edge, ActionEvent, Signal,
}
use robolineage.Realtime.Detector.{
  Config, Detector, fresh, started, start_period, is_empty, last_ts, gripper_events,
  stillness_events, periodic_events, heartbeat_events, remember, finish, feed, feed_all,
}

-- The event stands at the signal.
abbrev IsAt : Signal → ActionEvent → Type 0
IsAt s e = (e.timestamp ≡ s.timestamp) × (e.anchor_frame ≡ s.frame_index)

abbrev IsNoHeartbeat : ActionEvent → Type 0
IsNoHeartbeat e = same_type e.event_type heartbeat ≡ false

gripper-IsAt :
    (s : Signal) (g : GripperEdge)
    → All (IsAt s) (gripper_events s g) × All IsNoHeartbeat (gripper_events s g)
unfolding gripper_events
gripper-IsAt s closing_edge = ground arith
gripper-IsAt s opening_edge = ground arith
gripper-IsAt s no_edge = ground arith

module _ (c : Config) where
  stillness_lem :
      (s : Signal) (d : Detector)
      → All (IsAt s) (stillness_events c s d).0
        × All IsNoHeartbeat (stillness_events c s d).0
        × ((stillness_events c s d).1.last_periodic_ts ≡ d.last_periodic_ts)
        × ((stillness_events c s d).1.last_event_ts ≡ d.last_event_ts)
  unfolding stillness_events
  stillness_lem s d = ground arith

  last_ts-IsAt :
      (s : Signal) (l : List ActionEvent) → All (IsAt s) l → last_ts s.timestamp l ≡ s.timestamp
  last_ts-IsAt s [] h = refl
  last_ts-IsAt s (e ∷ []) h = h.0.0
  last_ts-IsAt s (e ∷ x ∷ l) h = last_ts-IsAt s (x ∷ l) h.1

  finish-IsAt :
      (s : Signal) (d : Detector) (l : List ActionEvent)
      → All (IsAt s) l
      → All (IsAt s) (finish c s d l).0
  unfolding finish periodic_events heartbeat_events
  finish-IsAt s d [] h = ground arith
  finish-IsAt s d (e ∷ l) h = ground arith

  finish_coverage :
      (s : Signal) (d : Detector) (l : List ActionEvent) (p : ℕ)
      → 0 < c.periodic_interval
      → d.last_periodic_ts ≡ some p
      → All (IsAt s) l
      → ((finish c s d l).0 ≡ [])
          × ((finish c s d l).1.last_periodic_ts ≡ some p)
          × (s.timestamp < p + c.periodic_interval)
        ⊎ (is_empty (finish c s d l).0 ≡ false)
          × ((finish c s d l).1.last_periodic_ts ≡ some s.timestamp)
  unfolding finish periodic_events heartbeat_events remember
  finish_coverage s d [] p pos e h = ground arith
  finish_coverage s d (x ∷ l) p pos e h = ground (arith, last_ts-IsAt s (x ∷ l))

  before_finish :
      (s : Signal) (d : Detector)
      → let (moves, d') = stillness_events c s (start_period s d) in
        let l = gripper_events s s.gripper_edge ++ moves in
        All (IsAt s) l
        × All IsNoHeartbeat l
        × (d'.last_periodic_ts ≡ some (started d.last_periodic_ts s.timestamp))
        × (d'.last_event_ts ≡ d.last_event_ts)
  unfolding start_period
  before_finish s d =
      let (moves, _) = stillness_events c s (start_period s d) in
      let (at_, calm, periodic, event) = stillness_lem s (start_period s d) in
      let (g_at, g_calm) = gripper-IsAt s s.gripper_edge in
      let g = gripper_events s s.gripper_edge in
      (
        All-append (IsAt s) g moves g_at at_,
        All-append IsNoHeartbeat g moves g_calm calm,
        periodic,
        event,
      )

  -- Every event of a feed stands at the signal's frame and time. With a positive period, a feed
  -- without events leaves the last mark where it was (the signal's own time at the first signal), less
  -- than one period before the signal; a feed with events moves the mark to the signal.
  pub feed_coverage :
      (s : Signal) (d : Detector)
      → 0 < c.periodic_interval
      → let mark = started d.last_periodic_ts s.timestamp in
        All (IsAt s) (feed c s d).0
        × (((feed c s d).0 ≡ [])
              × ((feed c s d).1.last_periodic_ts ≡ some mark)
              × (s.timestamp < mark + c.periodic_interval)
            ⊎ (is_empty (feed c s d).0 ≡ false)
              × ((feed c s d).1.last_periodic_ts ≡ some s.timestamp))
  unfolding feed
  feed_coverage s d pos =
      let (moves, d') = stillness_events c s (start_period s d) in
      let l = gripper_events s s.gripper_edge ++ moves in
      let (at_, _, periodic, _) = before_finish s d in
      (
        finish-IsAt s d' l at_,
        finish_coverage s d' l (started d.last_periodic_ts s.timestamp) pos periodic at_,
      )

  -- After the first feed the two marks agree.
  abbrev MarksAgree : Detector → Type 0
  MarksAgree d = d.last_event_ts ≡ d.last_periodic_ts

  finish_quiet :
      (s : Signal) (d : Detector) (l : List ActionEvent) (p : ℕ)
      → 0 < c.periodic_interval
      → c.periodic_interval ≤ c.heartbeat_interval
      → d.last_periodic_ts ≡ some p
      → (d.last_event_ts ≡ some p) ⊎ (d.last_event_ts ≡ none) × (p ≡ s.timestamp)
      → All IsNoHeartbeat l
      → All IsNoHeartbeat (finish c s d l).0 × MarksAgree (finish c s d l).1
  unfolding finish periodic_events heartbeat_events remember
  finish_quiet s d [] p pos le e (inl same) calm = ground arith
  finish_quiet s d [] p pos le e (inr (unset, now)) calm = ground arith
  finish_quiet s d (x ∷ l) p pos le e h calm = ground arith

  feed_quiet :
      (s : Signal) (d : Detector)
      → 0 < c.periodic_interval
      → c.periodic_interval ≤ c.heartbeat_interval
      → MarksAgree d
      → All IsNoHeartbeat (feed c s d).0 × MarksAgree (feed c s d).1
  unfolding feed
  feed_quiet s d pos le agree =
      let (moves, d') = stillness_events c s (start_period s d) in
      let (_, calm, periodic, event) = before_finish s d in
      finish_quiet s d' (gripper_events s s.gripper_edge ++ moves)
        (started d.last_periodic_ts s.timestamp) pos le periodic
        (marks d.last_periodic_ts (event ∙ agree)) calm
    where
      marks :
          (o : Option ℕ)
          → (stillness_events c s (start_period s d)).1.last_event_ts ≡ o
          → ((stillness_events c s (start_period s d)).1.last_event_ts
              ≡ some (started o s.timestamp))
            ⊎ ((stillness_events c s (start_period s d)).1.last_event_ts ≡ none)
              × (started o s.timestamp ≡ s.timestamp)
      marks none e = inr (e, refl)
      marks (some p) e = inl e

  feed_all_quiet :
      (signals : List Signal) (d : Detector)
      → 0 < c.periodic_interval
      → c.periodic_interval ≤ c.heartbeat_interval
      → MarksAgree d
      → All IsNoHeartbeat (feed_all c signals d).0
  unfolding feed_all
  feed_all_quiet [] d pos le agree = tt
  feed_all_quiet (s ∷ rest) d pos le agree =
      let (out, d') = feed c s d in
      let (calm, agree') = feed_quiet s d pos le agree in
      All-append IsNoHeartbeat out (feed_all c rest d').0 calm
        (feed_all_quiet rest d' pos le agree')

-- With a positive period no longer than the heartbeat interval, as in the default configuration (2 and
-- 5 seconds), a new detector never emits a heartbeat, whatever signals it is fed.
pub heartbeat_never :
    (c : Config) (signals : List Signal)
    → 0 < c.periodic_interval
    → c.periodic_interval ≤ c.heartbeat_interval
    → All (λ e. same_type e.event_type heartbeat ≡ false) (feed_all c signals fresh).0
heartbeat_never c signals pos le = feed_all_quiet c signals fresh pos le refl
