-- ===== src/Realtime/Pending.antt =====
-- PendingWindowQueue (pending_window_queue.py): events wait for the frames after them. The content
-- of an event beside its anchor frame is any type. `max_wait_frames` is a natural number, if given.
pub mod Order
use robolineage.Prelude.{
  ℕ, ◌+◌, min, Bool, true, false, Option, none, some, List, [], ◌∷◌, ◌++◌, if◌then◌else◌, ltb, leb,
  length,
}

pub record Event {ℓ} (A : Type ℓ) : Type ℓ where
  pub anchor_frame : ℕ
  pub content : A

pub record Queue {ℓ} (A : Type ℓ) : Type ℓ where
  pub context_frames : ℕ
  pub max_wait_frames : Option ℕ
  pub events : List (Event A)

module _ {ℓ} {A : Type ℓ} where
  unfoldable pub enqueue : Event A → Queue A → Queue A
  enqueue e q = record q { events = q.events ++ e ∷ [] }

  -- timeout_target
  abbrev pub timeout_target : Event A → ℕ → Option ℕ → ℕ
  timeout_target e target none = target
  timeout_target e target (some wait) = e.anchor_frame + wait

  -- min(target, timeout_target): the frame whose arrival releases the event.
  unfoldable pub release_frame : ℕ → Option ℕ → Event A → ℕ
  release_frame context wait e =
      let target = e.anchor_frame + context in min target (timeout_target e target wait)

  -- The `while` loop: the events taken from the front, and those left.
  unfoldable pub take_ready : ℕ → ℕ → Option ℕ → List (Event A) → List (Event A) × List (Event A)
  take_ready latest context wait [] = ([], [])
  take_ready latest context wait (e ∷ rest) =
      let next = take_ready latest context wait rest in
      if ltb latest (release_frame context wait e) then ([], e ∷ rest) else (e ∷ next.0, next.1)

  unfoldable pub pop_ready : Option ℕ → Queue A → List (Event A) × Queue A
  pop_ready none q = ([], q)
  pop_ready (some latest) q =
      let split = take_ready latest q.context_frames q.max_wait_frames q.events in
      (split.0, record q { events = split.1 })

  unfoldable pub pop_all : Queue A → List (Event A) × Queue A
  pop_all q = (q.events, record q { events = [] })
