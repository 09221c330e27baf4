-- ===== src/Realtime/Pending/Order.antt =====
-- Events leave the queue in the order in which they came, none lost and none twice.
use mathlib.Core.List.{append-nil, append_assoc}
use robolineage.Prelude.{
  ℕ, ◌≤◌, ◌<◌, ◌≡◌, refl, sym, ◌∙◌, ap, Option, none, some, List, [], ◌∷◌, ◌++◌, ltb, ltb→lt, All,
  arith, inl, inr, Bool-cases,
}
use robolineage.Realtime.Pending.{
  Event, Queue, enqueue, release_frame, take_ready, pop_ready, pop_all,
}

-- The calls on a queue.
pub data Call {ℓ} (A : Type ℓ) : Type ℓ where
  add : Event A → Call A
  pop : Option ℕ → Call A
  flush : Call A

module _ {ℓ} {A : Type ℓ} where
  abbrev pub step : Call A → Queue A → List (Event A) × Queue A
  step (add e) q = ([], enqueue e q)
  step (pop latest) q = pop_ready latest q
  step flush q = pop_all q

  -- What a sequence of calls releases, and the queue that it leaves.
  abbrev pub run : List (Call A) → Queue A → List (Event A) × Queue A
  run [] q = ([], q)
  run (c ∷ cs) q = let (out, q') = step c q in let (more, last) = run cs q' in (out ++ more, last)

  abbrev pub added : List (Call A) → List (Event A)
  added [] = []
  added (add e ∷ cs) = e ∷ added cs
  added (c ∷ cs) = added cs

  added-cons : (c : Call A) (cs : List (Call A)) → added (c ∷ []) ++ added cs ≡ added (c ∷ cs)
  added-cons (add e) cs = refl
  added-cons (pop latest) cs = refl
  added-cons flush cs = refl

  take_ready-append :
      (latest context : ℕ) (wait : Option ℕ) (l : List (Event A))
      → (take_ready latest context wait l).0 ++ (take_ready latest context wait l).1 ≡ l
  unfolding take_ready
  take_ready-append latest context wait [] = refl
  take_ready-append latest context wait (e ∷ rest) =
      elim (Bool-cases (ltb latest (release_frame context wait e))) [
        | inl late ↦ rw late
        | inr now ↦ rw now (ap (λ l. e ∷ l) (take_ready-append latest context wait rest))
      ]

  step-append :
      (c : Call A) (q : Queue A) → (step c q).0 ++ (step c q).1.events ≡ q.events ++ added (c ∷ [])
  unfolding enqueue pop_ready pop_all
  step-append (add e) q = refl
  step-append (pop none) q = sym (append-nil q.events)
  step-append (pop (some latest)) q =
      take_ready-append latest q.context_frames q.max_wait_frames q.events
      ∙ sym (append-nil q.events)
  step-append flush q = refl

  -- First in, first out: after any calls, what was released followed by what still waits is what was
  -- in the queue followed by what was added, in that order.
  pub run-fifo :
      (calls : List (Call A)) (q : Queue A)
      → (run calls q).0 ++ (run calls q).1.events ≡ q.events ++ added calls
  run-fifo [] q = sym (append-nil q.events)
  run-fifo (c ∷ cs) q =
      let (out, q') = step c q in
      let (more, last) = run cs q' in
      append_assoc out more last.events
      ∙ ap (λ l. out ++ l) (run-fifo cs q')
      ∙ sym (append_assoc out q'.events (added cs))
      ∙ ap (λ l. l ++ added cs) (step-append c q)
      ∙ append_assoc q.events (added (c ∷ [])) (added cs)
      ∙ ap (λ l. q.events ++ l) (added-cons c cs)

  -- The anchor frames do not fall.
  abbrev pub IsAscending : List (Event A) → Type 0
  IsAscending [] = Unit
  IsAscending (e ∷ rest) = All (λ x. e.anchor_frame ≤ x.anchor_frame) rest × IsAscending rest

  release_mono :
      (context : ℕ) (wait : Option ℕ) (d e : Event A)
      → d.anchor_frame ≤ e.anchor_frame
      → release_frame context wait d ≤ release_frame context wait e
  unfolding release_frame
  release_mono context none d e h = omega arith
  release_mono context (some w) d e h = omega arith

  All-late :
      (latest context : ℕ) (wait : Option ℕ) (e : Event A) (l : List (Event A))
      → latest < release_frame context wait e
      → All (λ x. e.anchor_frame ≤ x.anchor_frame) l
      → All (λ x. latest < release_frame context wait x) l
  All-late latest context wait e [] late h = tt
  All-late latest context wait e (x ∷ l) late h =
      (omega (arith, release_mono context wait e x h.0), All-late latest context wait e l late h.1)

  take_ready_exact :
      (latest context : ℕ) (wait : Option ℕ) (l : List (Event A))
      → IsAscending l
      → All (λ x. release_frame context wait x ≤ latest) (take_ready latest context wait l).0
        × All (λ x. latest < release_frame context wait x) (take_ready latest context wait l).1
  unfolding take_ready
  take_ready_exact latest context wait [] h = (tt, tt)
  take_ready_exact latest context wait (e ∷ rest) h =
      elim (Bool-cases (ltb latest (release_frame context wait e))) [
        | inl late ↦
            rw late
              (tt, (ltb→lt _ _ late, All-late latest context wait e rest (ltb→lt _ _ late) h.0))
        | inr now ↦
            let (due, later) = take_ready_exact latest context wait rest h.1 in
            rw now ((ground arith, due), later)
      ]

  -- Where the anchor frames of the waiting events do not fall, `pop_ready` releases exactly the events
  -- that are due: every one released is due at the latest frame, and every one left is not.
  pub pop_ready_exact :
      (latest : ℕ) (q : Queue A)
      → IsAscending q.events
      → All
          (λ e. release_frame q.context_frames q.max_wait_frames e ≤ latest)
          (pop_ready (some latest) q).0
        × All
            (λ e. latest < release_frame q.context_frames q.max_wait_frames e)
            (pop_ready (some latest) q).1.events
  unfolding pop_ready
  pop_ready_exact latest q h = take_ready_exact latest q.context_frames q.max_wait_frames q.events h
