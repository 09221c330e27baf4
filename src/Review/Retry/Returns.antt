-- ===== src/Review/Retry/Returns.antt =====
-- What a retry on the timeline is.
use robolineage.Prelude.{
  ℕ, ◌≡◌, ◌≢◌, ◌<◌, refl, String, true, Option, none, some, List, [], ◌∷◌, All, ltb, arith, inl,
  inr, Bool-cases,
}
use robolineage.Review.Points.{phase_index}
use robolineage.Review.Timeline.{Segment}
use robolineage.Review.Retry.{
  RetryEvidence, RetryEvent, Reached, retry_evidence, retry_if, retries_from, retry_events,
  reached_after, returned, with_evidence,
}

-- The event's phase comes before the one that it returned from, and it has evidence.
abbrev pub IsReturn : List String → RetryEvent → Type 0
IsReturn phases e =
    (q : String) × (m : ℕ) × (n : ℕ) × (e.from_phase ≡ some q)
    × (phase_index phases e.phase ≡ some m)
    × (phase_index phases q ≡ some n)
    × (m < n)
    × (e.evidence ≢ [])

-- The index is the one of the segment's phase.
abbrev pub Indexed : List String → Reached → Type 0
Indexed phases none = Unit
Indexed phases (some (n, s)) = phase_index phases s.phase ≡ some n

cons≢nil : (e : RetryEvidence) (es : List RetryEvidence) → ◌≢◌ {A = List RetryEvidence} (e ∷ es) []
cons≢nil e es h = absurd (cc h)

less : (m n : ℕ) → ltb m n ≡ true → m < n
less m n h = ground arith

event-IsReturn :
    (phases : List String) (s t : Segment) (m n : ℕ) (evidence : List RetryEvidence)
    (rest : List RetryEvent)
    → phase_index phases s.phase ≡ some m
    → phase_index phases t.phase ≡ some n
    → m < n
    → All (IsReturn phases) rest
    → All (IsReturn phases) (with_evidence s (some (n, t)) evidence rest)
event-IsReturn phases s t m n [] rest i j lt h = h
event-IsReturn phases s t m n (e ∷ es) rest i j lt h =
    ((t.phase, m, n, refl, i, j, lt, cons≢nil e es), h)

retry_if-IsReturn :
    (phases : List String) (index : Option ℕ) (s : Segment) (reached : Reached)
    (rest : List RetryEvent)
    → phase_index phases s.phase ≡ index
    → Indexed phases reached
    → All (IsReturn phases) rest
    → All (IsReturn phases) (retry_if (returned index reached) s reached rest)
retry_if-IsReturn phases none s reached rest i j h = h
retry_if-IsReturn phases (some m) s none rest i j h = h
retry_if-IsReturn phases (some m) s (some (n, t)) rest i j h = elim (Bool-cases (ltb m n)) [
  | inl lt ↦
      rw lt (event-IsReturn phases s t m n (retry_evidence s (some t)) rest i j (less m n lt) h)
  | inr ge ↦ rw ge h
]

Indexed-after :
    (phases : List String) (index : Option ℕ) (s : Segment) (reached : Reached)
    → phase_index phases s.phase ≡ index
    → Indexed phases reached
    → Indexed phases (reached_after index s reached)
Indexed-after phases none s reached i j = j
Indexed-after phases (some m) s none i j = i
Indexed-after phases (some m) s (some (n, t)) i j = elim (Bool-cases (ltb n m)) [
  | inl lt ↦ rw lt i
  | inr ge ↦ rw ge j
]

retries_from-IsReturn :
    (phases : List String) (reached : Reached) (l : List Segment)
    → Indexed phases reached
    → All (IsReturn phases) (retries_from phases reached l)
unfolding retries_from
retries_from-IsReturn phases reached [] h = tt
retries_from-IsReturn phases reached (s ∷ ss) h =
    let index = phase_index phases s.phase in
    retry_if-IsReturn phases index s reached
      (retries_from phases (reached_after index s reached) ss) refl h
      (retries_from-IsReturn phases (reached_after index s reached) ss
        (Indexed-after phases index s reached refl h))

-- Every retry on a timeline goes back to an earlier phase of the task than the one that it names as
-- reached before, and it has some evidence.
pub retries-IsReturn :
    (timeline : List Segment) (phases : List String)
    → All (IsReturn phases) (retry_events timeline phases)
unfolding retry_events
retries-IsReturn timeline phases = retries_from-IsReturn phases none timeline tt
