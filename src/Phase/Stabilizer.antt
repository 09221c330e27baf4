-- ===== src/Phase/Stabilizer.antt =====
-- TemporalStabilizer (temporal_stabilizer.py). A raw observation has its defaults filled in:
-- phase "", confidence 0.5, progress and risk "unknown"; confidences are hundredths. The dictionary's
-- other keys pass through and are left out.
pub mod Risk
pub mod Votes
use robolineage.Prelude.{
  ℕ, ◌+◌, ◌-◌, min, String, Bool, true, false, ◌&&◌, ◌||◌, Option, none, some, List, [], ◌∷◌, ◌++◌,
  if◌then◌else◌, str_eq, ltb, leb, length, drop, all, filter,
}
use robolineage.Realtime.Event.{EventType}
use robolineage.Phase.Task.{TaskConfig, contains, phase_at}
use robolineage.Phase.Machine.{is_phase, is_boundary}

pub record Raw : Type 0 where
  pub phase : String
  pub confidence : ℕ
  pub progress : String
  pub risk_level : String
  pub imminent_failure : Bool

pub record Stable : Type 0 where
  pub phase : String
  pub progress : String
  pub risk_level : String

pub record Stabilizer : Type 0 where
  pub phase_window : ℕ
  pub progress_window : ℕ
  pub risk_down_steps : ℕ
  pub phase_history : List String
  pub progress_history : List String
  pub risk_history : List String
  pub stable_risk : String
  pub phase_candidate : Option String
  pub phase_candidate_count : ℕ

unfoldable pub create : (phase_window progress_window risk_down_steps : ℕ) → Stabilizer
create phase_window progress_window risk_down_steps = record {
  phase_window = phase_window;
  progress_window = progress_window;
  risk_down_steps = risk_down_steps;
  phase_history = [];
  progress_history = [];
  risk_history = [];
  stable_risk = "unknown";
  phase_candidate = none;
  phase_candidate_count = 0;
}

unfoldable pub reset : Stabilizer → Stabilizer
unfolding create
reset s = create s.phase_window s.progress_window s.risk_down_steps

-- _RISK_ORDER.get(risk, 0)
unfoldable pub risk_order : String → ℕ
risk_order r =
    if str_eq r "high" then 3 else if str_eq r "medium" then 2 else if str_eq r "low" then 1 else 0

-- append to a deque with a maximal length
unfoldable pub push : ℕ → String → List String → List String
push maxlen x l = let next = l ++ x ∷ [] in drop (length next - maxlen) next

-- list(history)[-n:], which is the whole list at n = 0
unfoldable pub recent : ℕ → List String → List String
recent n l = if leb n 0 then l else drop (length l - n) l

-- counts[v] = counts.get(v, 0) + 1
unfoldable pub tally : String → List (String × ℕ) → List (String × ℕ)
tally v [] = (v, 1) ∷ []
tally v ((k, n) ∷ rest) = if str_eq k v then (k, n + 1) ∷ rest else (k, n) ∷ tally v rest

unfoldable pub tally_all : (String → Bool) → List (String × ℕ) → List String → List (String × ℕ)
unfolding tally
tally_all valid counts [] = counts
tally_all valid counts (v ∷ vs) = tally_all valid (if valid v then tally v counts else counts) vs

-- max(counts, key=counts.__getitem__): the first key with the largest count
unfoldable pub winner : String × ℕ → List (String × ℕ) → String
winner best [] = best.0
winner best ((k, n) ∷ rest) = winner (if ltb best.1 n then (k, n) else best) rest

unfoldable pub elect : String → List (String × ℕ) → String
unfolding winner
elect default [] = default
elect default (c ∷ rest) = winner c rest

-- _majority_vote
unfoldable pub majority_vote : (String → Bool) → List String → String → String
majority_vote valid history default = elect default (tally_all valid [] history)

-- _direct_phase_threshold
unfoldable pub direct_phase_threshold : Raw → Option EventType → ℕ
direct_phase_threshold raw event_type =
    let threshold = if is_boundary event_type then min 60 50 else 60 in
    if str_eq raw.risk_level "high" || raw.imminent_failure then min threshold 45 else threshold

-- _stabilize_risk, for the history that has the new risk at its end: the new stable risk.
unfoldable pub stabilize_risk : (risk_down_steps : ℕ) → List String → String → String → String
stabilize_risk steps history stable new =
    if ltb (risk_order stable) (risk_order new)
    then new
    else if ltb (risk_order new) (risk_order stable)
        && (leb steps (length (recent steps history))
            && all (λ r. leb (risk_order r) (risk_order new)) (recent steps history))
    then new
    else stable

abbrev pub default_phase : List String → String → String
default_phase [] p = p
default_phase (q ∷ qs) p = q

-- The phase's part of `stabilize`.
unfoldable pub stabilize_phase :
    Raw → List String → Option EventType → Stabilizer → String × Stabilizer
stabilize_phase raw phases event_type s =
    let cleared = if is_boundary event_type then [] else s.phase_history in
    let count = if is_phase s.phase_candidate raw.phase then s.phase_candidate_count + 1 else 1 in
    let valid = contains raw.phase phases in
    let history = if valid then push s.phase_window raw.phase cleared else cleared in
    if valid
      && (leb (direct_phase_threshold raw event_type) raw.confidence
          || leb 2 count && leb 50 raw.confidence)
    then (
      raw.phase,
      record s {
        phase_history = push s.phase_window raw.phase [];
        phase_candidate = none;
        phase_candidate_count = 0;
      },
    )
    else (
      majority_vote (λ v. contains v phases) history (default_phase phases raw.phase),
      record s {
        phase_history = history;
        phase_candidate = some raw.phase;
        phase_candidate_count = count;
      },
    )

unfoldable pub stabilize : Raw → TaskConfig → Option EventType → Stabilizer → Stable × Stabilizer
stabilize raw task event_type s =
    let (phase, s') = stabilize_phase raw task.phases event_type s in
    let progress_history = push s.progress_window raw.progress s.progress_history in
    let risk_history = push (s.risk_down_steps + 2) raw.risk_level s.risk_history in
    let risk = stabilize_risk s.risk_down_steps risk_history s.stable_risk raw.risk_level in
    (
      record {
        phase = phase;
        progress = majority_vote (λ v. true) progress_history raw.progress;
        risk_level = risk;
      },
      record s' {
        progress_history = progress_history;
        risk_history = risk_history;
        stable_risk = risk;
      },
    )
