-- ===== src/Worker/Moves.antt =====
-- What an action may do to the jobs, and the two actions that bring a job into the queue.
use mathlib.Core.List.{append_assoc, append-nil}
use mathlib.Core.Path.{subst}
use robolineage.Prelude.{
  ℕ, ◌+◌, ◌-◌, ◌≤◌, ◌≡◌, refl, sym, ap, ◌∙◌, String, Bool, true, false, inl, inr, Bool-cases,
  Option, none, some, List, [], ◌∷◌, ◌++◌, if◌then◌else◌, str_eq, arith, eq_iff,
}
use robolineage.Worker.{job, Worker, Event, contains, Step, enqueue_job, accept, put_picked}
use robolineage.Worker.Jobs.{
  jobs_of, held, pending, accepted_of, put_of, ended_of, jobs_of-append, count_if, count_if-append,
  times, paths, times-absent,
}

-- The numbers behind the steps.
module _ {J : Type 0} (p : J → Bool) (j : J) where
  accepted_kept :
      (l : List J) → count_if p l + count_if p (j ∷ []) ≡ count_if p [] + count_if p (l ++ j ∷ [])
  unfolding count_if
  accepted_kept l = ground (arith, count_if-append p l (j ∷ []))

  put_kept :
      (rest l : List J)
      → count_if p l ≡ count_if p (j ∷ rest)
      → count_if p l + count_if p [] ≡ count_if p (j ∷ []) + count_if p rest
  unfolding count_if
  put_kept rest l h = ground arith

  put_listed :
      (rest k l : List J)
      → count_if p l ≡ count_if p (j ∷ rest)
      → count_if p k + count_if p l ≡ count_if p (k ++ j ∷ []) + count_if p rest
  unfolding count_if
  put_listed rest k l h = ground (arith, count_if-append p k (j ∷ []))

  pub ended_listed :
      (k l : List J) (n : ℕ)
      → n ≡ count_if p (j ∷ k) + count_if p l
      → (if p j then n - 1 else n) ≡ count_if p k + count_if p l
  unfolding count_if
  ended_listed k l n h = ground arith

pub fewer : (b : Bool) (n : ℕ) → n ≤ 1 → (if b then n - 1 else n) ≤ 1
fewer true n h = omega arith
fewer false n h = omega arith

module _ {J : Type 0} (path_of : J → String) (name : String → String) (early : Bool) where
  -- The set of paths holds that of each job that is offered or pending, each once.
  pub record IsTidy (w : Worker J) : Type 0 where
    pub listed :
        (t : String) → times t w.enqueued ≡ paths path_of t (pending w) + paths path_of t w.offered
    pub once : (t : String) → times t w.enqueued ≤ 1

  -- What a step, or several, do to the jobs.
  pub record Moves (w : Worker J) (es : List (Event J)) (w' : Worker J) : Type 0 where
    pub tidy : IsTidy w'
    pub order : pending w ++ put_of es ≡ ended_of es ++ pending w'
    pub kept :
        (p : J → Bool)
        → count_if p w.offered + count_if p (accepted_of es)
          ≡ count_if p (put_of es) + count_if p w'.offered

  unfoldable pub Good : Worker J → Step J → Type 0
  Good w none = Unit
  Good w (some (es, w')) = Moves w es w'

  pub Good-if : (b : Bool) (w : Worker J) (s : Step J) → Good w s → Good w (if b then s else none)
  unfolding Good
  Good-if true w s h = h
  Good-if false w s h = tt

  -- A step without a job that is accepted, put or ended.
  pub quiet :
      (w w' : Worker J) (es : List (Event J))
      → accepted_of es ≡ []
      → put_of es ≡ []
      → ended_of es ≡ []
      → w'.enqueued ≡ w.enqueued
      → w'.offered ≡ w.offered
      → pending w ≡ pending w'
      → IsTidy w
      → Moves w es w'
  unfolding count_if
  quiet w w' es accepts puts ends set offers flow tidy = record {
    tidy = record {
      listed = λ t. rw (set, offers, sym flow) (tidy.listed t);
      once = λ t. rw set (tidy.once t);
    };
    order = rw (puts, ends) (append-nil (pending w) ∙ flow);
    kept = λ p. rw (accepts, puts, offers) (omega arith);
  }

  accept-Good :
      (j : J) (w : Worker J)
      → contains (path_of j) w.enqueued ≡ false
      → IsTidy w
      → (t : String)
      → (times t (w.enqueued ++ path_of j ∷ [])
          ≡ paths path_of t (pending w) + paths path_of t (w.offered ++ j ∷ []))
        × (times t (w.enqueued ++ path_of j ∷ []) ≤ 1)
  unfolding count_if
  accept-Good j w free tidy t =
      let texts = count_if-append (λ s. str_eq s t) w.enqueued (path_of j ∷ []) in
      let jobs = count_if-append (λ k. str_eq (path_of k) t) w.offered (j ∷ []) in
      let absent = times-absent (path_of j) w.enqueued free in
      let listed = tidy.listed t in
      let once = tidy.once t in
      (
        ground (arith, texts, jobs, listed),
        elim (Bool-cases (str_eq (path_of j) t)) [
          | inl same ↦
              let here =
                subst (λ u. times u w.enqueued ≡ 0) ((eq_iff (path_of j) t).0 same) absent in
              ground (arith, texts, here)
          | inr other ↦ ground (arith, texts, once)
        ],
      )

  pub add_job-Good :
      (j : J) (w : Worker J)
      → IsTidy w
      → Good w (some (accept j (enqueue_job path_of name early j w)))
  unfolding Good enqueue_job accepted_of put_of ended_of
  add_job-Good j w tidy = elim (Bool-cases (contains (path_of j) w.enqueued)) [
    | inl there ↦ rw there (quiet w w [] refl refl refl refl refl refl tidy)
    | inr free ↦ rw free (record {
      tidy = record {
        listed = λ t. (accept-Good j w free tidy t).0;
        once = λ t. (accept-Good j w free tidy t).1;
      };
      order = append-nil (pending w);
      kept = λ p. accepted_kept p j w.offered;
    })
  ]

  pub put-Good :
      (o : Option (J × List J)) (w : Worker J)
      → ((j : J) (rest : List J)
          → o ≡ some (j, rest)
          → (p : J → Bool) → count_if p w.offered ≡ count_if p (j ∷ rest))
      → IsTidy w
      → Good w (put_picked o w)
  unfolding Good accepted_of put_of ended_of jobs_of
  put-Good none w picks tidy = tt
  put-Good (some (j, rest)) w picks tidy =
      let flow =
        append_assoc (held w.thread) (jobs_of w.queue) (j ∷ [])
        ∙ ap (λ l. held w.thread ++ l) (sym (jobs_of-append w.queue (job j ∷ []))) in
      record {
        tidy = record {
          listed = λ t.
              tidy.listed t
              ∙ put_listed (λ k. str_eq (path_of k) t) j rest (pending w) w.offered
                  (picks j rest refl (λ k. str_eq (path_of k) t))
              ∙ ap (λ l. paths path_of t l + paths path_of t rest) flow;
          once = tidy.once;
        };
        order = flow;
        kept = λ p. put_kept p j rest w.offered (picks j rest refl p);
      }
