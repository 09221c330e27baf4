-- ===== src/Session/State/Reachability.antt =====
-- The lifecycle as a relation, and what a sequence of calls of `transition` can reach.
use robolineage.Prelude.{
  ◌≡◌, refl, ◌⊎◌, inl, inr, Bool, true, false, List, [], ◌∷◌, arith, Bool-cases, if◌then◌else◌,
}
use robolineage.Prelude.Result.{ok, err}
use robolineage.Session.State.{
  SessionState, idle, collecting, paused, reviewing, submitted, StateMachine, initial, contains,
  same_state, validate_transition, transition, transitions,
}

-- The lifecycle, as the design states it.
infix 40 ◌⟶◌
pub data ◌⟶◌ : SessionState → SessionState → Type 0 where
  start : idle ⟶ collecting
  pause : collecting ⟶ paused
  resume : paused ⟶ collecting
  stop : collecting ⟶ reviewing
  stop_paused : paused ⟶ reviewing
  submit : reviewing ⟶ submitted
  retake : reviewing ⟶ collecting
  close : submitted ⟶ idle

ruleset edges = (start, pause, resume, stop, stop_paused, submit, retake, close)

validate-edge :
    (m : StateMachine) (after : SessionState)
    → validate_transition m.state after ≡ true
    → m.state ⟶ after
unfolding validate_transition
validate-edge m after h = grind (arith, edges)

edge-transition :
    (m : StateMachine) (s after : SessionState)
    → m.state ≡ s
    → s ⟶ after
    → transition after m ≡ (ok after, record { state = after })
unfolding transition
edge-transition m s after e start = ground arith
edge-transition m s after e pause = ground arith
edge-transition m s after e resume = ground arith
edge-transition m s after e stop = ground arith
edge-transition m s after e stop_paused = ground arith
edge-transition m s after e submit = ground arith
edge-transition m s after e retake = ground arith
edge-transition m s after e close = ground arith

transition-rejects :
    (m : StateMachine) (after : SessionState)
    → validate_transition m.state after ≡ false
    → transition after m ≡ (err (record { before = m.state; after = after }), m)
unfolding transition
transition-rejects m after h = rw h

validate-false :
    (m : StateMachine) (after : SessionState)
    → validate_transition m.state after ≡ false
    → ¬ (m.state ⟶ after)
validate-false m after h e =
    cc (edge-transition m m.state after refl e, transition-rejects m after h)

-- A call along an edge of the lifecycle moves the machine and returns the new state; any other call
-- raises with both states and leaves the machine as it was.
pub transition_exact :
    (m : StateMachine) (after : SessionState)
    → (m.state ⟶ after) × (transition after m ≡ (ok after, record { state = after }))
      ⊎ ¬ (m.state ⟶ after)
        × (transition after m ≡ (err (record { before = m.state; after = after }), m))
transition_exact m after = elim (Bool-cases (validate_transition m.state after)) [
  | inl legal ↦
      let e = validate-edge m after legal in inl (e, edge-transition m m.state after refl e)
  | inr other ↦ inr (validate-false m after other, transition-rejects m after other)
]

-- The states that a sequence of calls entered.
abbrev pub accepted : List SessionState → StateMachine → List SessionState
accepted [] m = []
accepted (after ∷ rest) m =
    let entered = accepted rest (transition after m).1 in
    if validate_transition m.state after then after ∷ entered else entered

abbrev before_review : SessionState → Bool
before_review reviewing = false
before_review submitted = false
before_review _ = true

early-step :
    (m : StateMachine) (after : SessionState)
    → before_review m.state ≡ true
    → (validate_transition m.state after ≡ true) × (same_state after reviewing ≡ true)
      ⊎ (before_review (transition after m).1.state ≡ true)
unfolding transition
early-step m after early = ground arith

review_first :
    (calls : List SessionState) (m : StateMachine)
    → before_review m.state ≡ true
    → (transitions calls m).state ≡ submitted
    → contains (accepted calls m) reviewing ≡ true
unfolding transitions
review_first [] m early done = ground arith
review_first (after ∷ rest) m early done = elim (early-step m after early) [
  | inl (legal, entered) ↦ ground arith
  | inr e ↦ ground (arith, review_first rest (transition after m).1 e done)
]

-- Whatever is called from the start, a session that ends up submitted has been reviewed: among the
-- states it entered is REVIEWING.
pub submitted_was_reviewed :
    (calls : List SessionState)
    → (transitions calls initial).state ≡ submitted
    → contains (accepted calls initial) reviewing ≡ true
submitted_was_reviewed calls done = review_first calls initial refl done
