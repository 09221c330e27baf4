-- ===== src/Worker/Stops.antt =====
-- A worker without a stop reviews all of its jobs; what a stop leaves behind.
use mathlib.Core.Path.{subst}
use robolineage.Prelude.{
  ◌≡◌, refl, sym, ap, String, Bool, true, false, inl, inr, Bool-cases, Option, none, some, List, [],
  ◌∷◌, map, any, arith,
}
use robolineage.Worker.{
  job, at_test, finished, sleeping, Worker, Action, add_job, put_job, start, stop, test, take, wake,
  finish_ok, finish_error, Event, taken, reviewed, dropped, discard_text, contains, Step,
  stop_worker, enqueue_job, is_idle, thread_step, accept, after, perform_action, continue, run,
  pick, put_picked,
}
use robolineage.Worker.Jobs.{discard_head}

module _ {J : Type 0} where
  unfoldable pub reviewed_of : List (Event J) → List J
  reviewed_of [] = []
  reviewed_of (reviewed j ∷ es) = j ∷ reviewed_of es
  reviewed_of (_ ∷ es) = reviewed_of es

  -- For each job, the thread takes it, wakes up and reviews it.
  unfoldable pub rounds : List J → List (Action J)
  rounds [] = []
  rounds (j ∷ js) = test ∷ take ∷ wake ∷ finish_ok "result" ∷ rounds js

  abbrev pub is_start : Action J → Bool
  is_start start = true
  is_start _ = false

module _ {J : Type 0} (path_of : J → String) where
  -- A worker that was not stopped, with the jobs in its queue.
  abbrev pub ready : List J → List String → Option String → Option String → Worker J
  ready js queued result error = record {
    offered = [];
    queue = map job js;
    thread = at_test;
    stop_event = false;
    current_rollout = none;
    last_result = result;
    last_error = error;
    enqueued = map path_of js;
    queued_rollouts = queued;
  }

  round :
      (name : String → String) (early : Bool) (j : J) (js : List J) (queued : List String)
      (result error : Option String) (actions : List (Action J)) (es : List (Event J))
      (w : Worker J)
      → run path_of name early actions (
          ready js
            (discard_text (name (path_of j)) (discard_text (name (path_of j)) queued))
            (some "result")
            none)
        ≡ some (es, w)
      → run path_of name early
          (test ∷ take ∷ wake ∷ finish_ok "result" ∷ actions)
          (ready (j ∷ js) queued result error)
        ≡ some (taken j ∷ reviewed j ∷ es, w)
  unfolding run perform_action
  round name true j js queued result error actions es w h =
      rw (discard_head (path_of j) (map path_of js), h) refl
  round name false j js queued result error actions es w h =
      rw (discard_head (path_of j) (map path_of js), h) refl

module _ {J : Type 0} (path_of : J → String) (name : String → String) (early : Bool) where
  -- A worker that is not stopped reviews the jobs of its queue, one after the other and in their
  -- order, and is idle then.
  pub rounds_drain :
      (js : List J) (queued : List String) (result error : Option String)
      → (es : List (Event J)) × (w : Worker J) × (run path_of name early
            (rounds js)
            (ready path_of js queued result error)
          ≡ some (es, w))
        × (reviewed_of es ≡ js)
        × (is_idle w ≡ true)
  unfolding run rounds reviewed_of is_idle
  rounds_drain [] queued result error = ([], ready path_of [] queued result error, refl, refl, refl)
  rounds_drain (j ∷ js) queued result error =
      let queued' = discard_text (name (path_of j)) (discard_text (name (path_of j)) queued) in
      let (es, w, runs, all, idle) = rounds_drain js queued' (some "result") none in
      (
        taken j ∷ reviewed j ∷ es,
        w,
        round path_of name early j js queued result error (rounds js) es w runs,
        ap (λ l. j ∷ l) all,
        idle,
      )

  -- After a stop in the pause before a review the worker never counts as idle again, unless it is
  -- started again: the rollout that was dropped stays the current one.
  Halted : String → Worker J → Type 0
  Halted r w = (w.thread ≡ finished) × (w.current_rollout ≡ some r)

  HaltedAfter : String → Step J → Type 0
  HaltedAfter r none = Unit
  HaltedAfter r (some (es, w)) = Halted r w

  Halted-accept :
      (r : String) (j : J) (w : Worker J)
      → Halted r w
      → Halted r (accept j (enqueue_job path_of name early j w)).1
  unfolding enqueue_job Halted
  Halted-accept r j w h = elim (Bool-cases (contains (path_of j) w.enqueued)) [
    | inl there ↦ rw there h
    | inr free ↦ rw free h
  ]

  Halted-put :
      (r : String) (o : Option (J × List J)) (w : Worker J)
      → Halted r w
      → HaltedAfter r (put_picked o w)
  unfolding Halted HaltedAfter
  Halted-put r none w h = tt
  Halted-put r (some (j, rest)) w h = h

  perform_action-Halted :
      (r : String) (a : Action J) (w : Worker J)
      → is_start a ≡ false
      → Halted r w
      → HaltedAfter r (perform_action path_of name early a w)
  unfolding perform_action Halted HaltedAfter
  perform_action-Halted r (add_job j) w h halted = Halted-accept r j w halted
  perform_action-Halted r (put_job n) w h halted = Halted-put r (pick n w.offered) w halted
  perform_action-Halted r start w h halted = absurd (cc h)
  perform_action-Halted r stop w h halted = halted
  perform_action-Halted r test w h halted = rw halted.0 tt
  perform_action-Halted r take w h halted = rw halted.0 tt
  perform_action-Halted r wake w h halted = rw halted.0 tt
  perform_action-Halted r (finish_ok x) w h halted = rw halted.0 tt
  perform_action-Halted r (finish_error x) w h halted = rw halted.0 tt

  HaltedAfter-after :
      (r : String) (es : List (Event J)) (s : Step J) → HaltedAfter r s → HaltedAfter r (after es s)
  unfolding HaltedAfter
  HaltedAfter-after r es none h = tt
  HaltedAfter-after r es (some (fs, w)) h = h

  HaltedAfter-continue :
      (r : String) (s : Step J) (f : Worker J → Step J)
      → HaltedAfter r s
      → ((w : Worker J) → Halted r w → HaltedAfter r (f w))
      → HaltedAfter r (continue s f)
  unfolding HaltedAfter
  HaltedAfter-continue r none f h rule = tt
  HaltedAfter-continue r (some (es, w)) f h rule = HaltedAfter-after r es (f w) (rule w h)

  run-Halted :
      (r : String) (actions : List (Action J)) (w : Worker J)
      → any is_start actions ≡ false
      → Halted r w
      → HaltedAfter r (run path_of name early actions w)
  unfolding run HaltedAfter
  run-Halted r [] w h halted = halted
  run-Halted r (a ∷ actions) w h halted =
      HaltedAfter-continue r (perform_action path_of name early a w)
        (run path_of name early actions) (perform_action-Halted r a w (ground arith) halted)
        (λ v k. run-Halted r actions v (ground arith) k)

  stopped_wake :
      (r : String) (j : J) (w : Worker J)
      → w.thread ≡ sleeping j
      → w.current_rollout ≡ some r
      → HaltedAfter r (perform_action path_of name early wake (stop_worker w))
  unfolding perform_action stop_worker HaltedAfter Halted
  stopped_wake r j w there current =
      subst (HaltedAfter r)
        (sym (ap (λ t. thread_step path_of name early t wake (stop_worker w)) there))
        (refl, current)

  -- The first event is that the job is dropped.
  Drops : J → Step J → Type 0
  Drops j none = Unit
  Drops j (some (es, w)) = (fs : List (Event J)) × (es ≡ dropped j ∷ fs)

  Drops-nothing : (j : J) (s : Step J) → Drops j s → Drops j (after [] s)
  unfolding Drops
  Drops-nothing j none h = tt
  Drops-nothing j (some (es, w)) h = h

  Drops-first : (j : J) (s : Step J) → Drops j (after (dropped j ∷ []) s)
  unfolding Drops
  Drops-first j none = tt
  Drops-first j (some (es, w)) = (es, refl)

  -- A stop that comes in the pause before a review drops the rollout: that is what happens first. The
  -- rollout stays the current one, and whatever is enqueued or stopped later, the worker is finished
  -- and not idle until it is started again.
  pub stop_in_pause :
      (r : String) (j : J) (w w' : Worker J) (actions : List (Action J)) (es : List (Event J))
      → w.thread ≡ sleeping j
      → w.current_rollout ≡ some r
      → any is_start actions ≡ false
      → run path_of name early (stop ∷ wake ∷ actions) w ≡ some (es, w')
      → ((fs : List (Event J)) × (es ≡ dropped j ∷ fs))
        × (is_idle w' ≡ false)
        × (w'.thread ≡ finished)
        × (w'.current_rollout ≡ some r)
  unfolding run perform_action stop_worker HaltedAfter Halted Drops is_idle
  stop_in_pause r j w w' actions es there current no_start runs =
      let halted = subst (HaltedAfter r) runs (
        HaltedAfter-after r [] (run path_of name early (wake ∷ actions) (stop_worker w)) (
          HaltedAfter-continue r (perform_action path_of name early wake (stop_worker w))
            (run path_of name early actions) (stopped_wake r j w there current)
            (λ v k. run-Halted r actions v no_start k))) in
      let drops = subst (Drops j) runs (
        Drops-nothing j (run path_of name early (wake ∷ actions) (stop_worker w)) (
          subst
            (λ t. Drops j (
              continue (thread_step path_of name early t wake (stop_worker w))
                (run path_of name early actions)))
            (sym there) (Drops-first j _))) in
      (drops, rw halted.1 (ground arith), halted.0, halted.1)
