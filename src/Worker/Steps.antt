-- ===== src/Worker/Steps.antt =====
-- Each action keeps the jobs in order and the set of paths in step with them.
use mathlib.Core.List.{append-nil}
use robolineage.Prelude.{
  ◌+◌, ◌≡◌, refl, sym, ap, ◌∙◌, String, Bool, true, false, not, inl, inr, Bool-cases, Option, none,
  some, List, [], ◌∷◌, ◌++◌, if◌then◌else◌, str_eq, arith,
}
use robolineage.Worker.{
  Item, job, sentinel, Thread, absent, at_test, waiting, finished, sleeping, running, Worker,
  Action, add_job, put_job, start, stop, test, take, wake, finish_ok, finish_error, Event,
  discard_text, is_alive, start_worker, stop_worker, forget_error, take_item, wake_up, finish_with,
  finish_of, is_test, is_take, is_wake, thread_step, perform_action, pick,
}
use robolineage.Worker.Jobs.{
  jobs_of, held, pending, accepted_of, put_of, ended_of, jobs_of-append, count_if, times, paths,
  times-discard_text, count_if-pick,
}
use robolineage.Worker.Moves.{
  IsTidy, Moves, Good, Good-if, quiet, add_job-Good, put-Good, ended_listed, fewer,
}

module _ {J : Type 0} (path_of : J → String) (name : String → String) (early : Bool) where
  held_dead : (t : Thread J) → is_alive t ≡ false → held t ≡ []
  held_dead absent h = refl
  held_dead finished h = refl
  held_dead at_test h = refl
  held_dead waiting h = refl
  held_dead (sleeping j) h = absurd (cc h)
  held_dead (running j) h = absurd (cc h)

  start-Good :
      (w : Worker J)
      → IsTidy path_of name early w
      → Good path_of name early w (some ([], start_worker w))
  unfolding Good start_worker accepted_of put_of ended_of
  start-Good w tidy = elim (Bool-cases (is_alive w.thread)) [
    | inl alive ↦ rw alive (quiet path_of name early w w [] refl refl refl refl refl refl tidy)
    | inr dead ↦ rw dead (
        quiet path_of name early w (record w { stop_event = false; thread = at_test }) [] refl refl
          refl refl refl (ap (λ l. l ++ jobs_of w.queue) (held_dead w.thread dead)) tidy)
  ]

  stop-Good :
      (w : Worker J)
      → IsTidy path_of name early w
      → Good path_of name early w (some ([], stop_worker w))
  unfolding Good stop_worker accepted_of put_of ended_of jobs_of
  stop-Good w tidy =
      quiet path_of name early w (record w { stop_event = true; queue = w.queue ++ sentinel ∷ [] })
        [] refl refl refl refl refl
        (ap (λ l. held w.thread ++ l)
          (sym (append-nil (jobs_of w.queue)) ∙ sym (jobs_of-append w.queue (sentinel ∷ []))))
        tidy

  held_tested : (b : Bool) → held {J = J} (if b then finished else waiting) ≡ []
  held_tested true = refl
  held_tested false = refl

  test-Good :
      (w : Worker J)
      → w.thread ≡ at_test
      → IsTidy path_of name early w
      → Good path_of name early w
          (some ([], record w { thread = if w.stop_event then finished else waiting }))
  unfolding Good accepted_of put_of ended_of
  test-Good w there tidy =
      quiet path_of name early w (record w { thread = if w.stop_event then finished else waiting })
        [] refl refl refl refl refl
        (ap (λ t. held t ++ jobs_of w.queue) there
          ∙ sym (ap (λ l. l ++ jobs_of w.queue) (held_tested w.stop_event)))
        tidy

  record Forgets (w w' : Worker J) : Type 0 where
    pub same_pending : pending w' ≡ pending w
    pub same_set : w'.enqueued ≡ w.enqueued
    pub same_offers : w'.offered ≡ w.offered
    pub same_queue : w'.queue ≡ w.queue

  forgotten : (b : Bool) (w : Worker J) → Forgets w (forget_error path_of name early b w)
  forgotten true w = record {
    same_pending = refl;
    same_set = refl;
    same_offers = refl;
    same_queue = refl;
  }
  forgotten false w = record {
    same_pending = refl;
    same_set = refl;
    same_offers = refl;
    same_queue = refl;
  }

  take-Good :
      (q : List (Item J)) (w : Worker J)
      → w.thread ≡ waiting
      → w.queue ≡ q
      → IsTidy path_of name early w
      → Good path_of name early w (take_item path_of name early q w)
  unfolding Good accepted_of put_of ended_of jobs_of
  take-Good [] w there holds tidy = tt
  take-Good (sentinel ∷ q) w there holds tidy =
      quiet path_of name early w (record w { queue = q; thread = finished }) [] refl refl refl refl
        refl (λ i. held (there i) ++ jobs_of (holds i)) tidy
  take-Good (job j ∷ q) w there holds tidy =
      let w' = record w {
        queue = q;
        current_rollout = some (name (path_of j));
        queued_rollouts = discard_text (name (path_of j)) w.queued_rollouts;
        thread = sleeping j;
      } in
      let same = forgotten early w' in
      quiet path_of name early w (forget_error path_of name early early w') _ refl refl refl
        same.same_set same.same_offers
        ((λ i. held (there i) ++ jobs_of (holds i)) ∙ sym same.same_pending) tidy

  -- A step that ends the thread's job.
  job_ended :
      (j : J) (w w' : Worker J) (es : List (Event J))
      → accepted_of es ≡ []
      → put_of es ≡ []
      → ended_of es ≡ j ∷ []
      → held w.thread ≡ j ∷ []
      → w'.enqueued ≡ discard_text (path_of j) w.enqueued
      → w'.offered ≡ w.offered
      → pending w' ≡ jobs_of w.queue
      → IsTidy path_of name early w
      → Moves path_of name early w es w'
  unfolding count_if
  job_ended j w w' es accepts puts ends has set offers rest tidy =
      let flow : pending w ≡ j ∷ pending w' =
        ap (λ l. l ++ jobs_of w.queue) has ∙ ap (λ l. j ∷ l) (sym rest) in
      record {
        tidy = record {
          listed = λ t.
              ap (times t) set
              ∙ times-discard_text (path_of j) t w.enqueued
              ∙ rw offers (
                  ended_listed (λ k. str_eq (path_of k) t) j (pending w') w.offered
                    (times t w.enqueued)
                    (tidy.listed t ∙ ap (λ l. paths path_of t l + paths path_of t w.offered) flow));
          once = λ t.
              rw (set, times-discard_text (path_of j) t w.enqueued)
                (fewer (str_eq (path_of j) t) (times t w.enqueued) (tidy.once t));
        };
        order = rw (puts, ends) (append-nil (pending w) ∙ flow);
        kept = λ p. rw (accepts, puts, offers) (omega arith);
      }

  Good-either :
      (b : Bool) (w : Worker J) (p q : List (Event J) × Worker J)
      → Good path_of name early w (some p)
      → Good path_of name early w (some q)
      → Good path_of name early w (some (if b then p else q))
  Good-either true w p q h k = h
  Good-either false w p q h k = k

  wake-Good :
      (j : J) (w : Worker J)
      → w.thread ≡ sleeping j
      → IsTidy path_of name early w
      → Good path_of name early w (some (wake_up path_of name early j w))
  unfolding Good accepted_of put_of ended_of
  wake-Good j w there tidy =
      let w' = forget_error path_of name early (not early) w in
      let same = forgotten (not early) w in
      Good-either w.stop_event w _ _
        (job_ended j w _ _ refl refl refl (ap held there) refl refl refl tidy)
        (quiet path_of name early w (record w' { thread = running j }) [] refl refl refl
          same.same_set same.same_offers
          (ap (λ t. held t ++ jobs_of w.queue) there
            ∙ ap (λ q. j ∷ jobs_of q) (sym same.same_queue))
          tidy)

  end_job-Good :
      (o : Option (Bool × String)) (j : J) (w : Worker J)
      → w.thread ≡ running j
      → IsTidy path_of name early w
      → Good path_of name early w (finish_with path_of name early o j w)
  unfolding Good accepted_of put_of ended_of
  end_job-Good none j w there tidy = tt
  end_job-Good (some (true, r)) j w there tidy =
      job_ended j w _ _ refl refl refl (ap held there) refl refl refl tidy
  end_job-Good (some (false, e)) j w there tidy =
      job_ended j w _ _ refl refl refl (ap held there) refl refl refl tidy

  thread_step-Good :
      (t : Thread J) (a : Action J) (w : Worker J)
      → w.thread ≡ t
      → IsTidy path_of name early w
      → Good path_of name early w (thread_step path_of name early t a w)
  unfolding Good
  thread_step-Good absent a w there tidy = tt
  thread_step-Good finished a w there tidy = tt
  thread_step-Good at_test a w there tidy =
      Good-if path_of name early (is_test a) w _ (test-Good w there tidy)
  thread_step-Good waiting a w there tidy =
      Good-if path_of name early (is_take a) w _ (take-Good w.queue w there refl tidy)
  thread_step-Good (sleeping j) a w there tidy =
      Good-if path_of name early (is_wake a) w _ (wake-Good j w there tidy)
  thread_step-Good (running j) a w there tidy = end_job-Good (finish_of a) j w there tidy

  pub perform_action-Good :
      (a : Action J) (w : Worker J)
      → IsTidy path_of name early w
      → Good path_of name early w (perform_action path_of name early a w)
  unfolding perform_action
  perform_action-Good (add_job j) w tidy = add_job-Good path_of name early j w tidy
  perform_action-Good (put_job n) w tidy =
      put-Good path_of name early (pick n w.offered) w
        (λ j rest h p. count_if-pick p n w.offered j rest h) tidy
  perform_action-Good start w tidy = start-Good w tidy
  perform_action-Good stop w tidy = stop-Good w tidy
  perform_action-Good test w tidy = thread_step-Good w.thread test w refl tidy
  perform_action-Good take w tidy = thread_step-Good w.thread take w refl tidy
  perform_action-Good wake w tidy = thread_step-Good w.thread wake w refl tidy
  perform_action-Good (finish_ok r) w tidy = thread_step-Good w.thread (finish_ok r) w refl tidy
  perform_action-Good (finish_error e) w tidy =
      thread_step-Good w.thread (finish_error e) w refl tidy
