-- ===== src/Realtime/Detector/Pacing.antt =====
-- Rate-limited events of one type keep their distance.
use robolineage.Prelude.{ℕ, ◌≡◌, ◌⊎◌, true, Option, some, List, [], ◌∷◌, if◌then◌else◌}
use robolineage.Realtime.Event.{EventType, same_type, ActionEvent}
use robolineage.Realtime.Detector.{Detector, elapsed}

-- The times of the events of one type.
abbrev pub times : EventType → List ActionEvent → List ℕ
times t [] = []
times t (e ∷ l) =
    let rest = times t l in if same_type e.event_type t then e.timestamp ∷ rest else rest

-- Each time is at least `gap` after the one before it, the first after `last` if there is one.
abbrev pub IsSpaced : ℕ → Option ℕ → List ℕ → Type 0
IsSpaced gap last [] = Unit
IsSpaced gap last (t ∷ ts) = (elapsed gap last t ≡ true) × IsSpaced gap (some t) ts

abbrev latest : Option ℕ → List ℕ → Option ℕ
latest o [] = o
latest o (t ∷ ts) = latest (some t) ts

-- What one feed may do for a type: emit nothing of it, or one event that is allowed.
abbrev IsPaced : ℕ → Option ℕ → ℕ → List ℕ → Type 0
IsPaced gap last ts l = (l ≡ []) ⊎ (l ≡ ts ∷ []) × (elapsed gap last ts ≡ true)
