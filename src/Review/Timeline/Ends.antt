-- ===== src/Review/Timeline/Ends.antt =====
-- Where the timeline begins and ends, and what it keeps.
use mathlib.Core.Path.{subst}
use robolineage.Prelude.{
  ℕ, suc, ◌≡◌, ◌≢◌, ◌⊎◌, inl, inr, refl, sym, ◌∙◌, String, Bool, true, false, ◌||◌, Bool-cases,
  Option, none, some, List, [], ◌∷◌, ◌++◌, All, ltb, last_or, str_eq, if◌then◌else◌,
}
use robolineage.Review.Points.{
  Point, suppress_point, suppress_after, suppress_isolated_phase_jitter,
}
use robolineage.Review.Timeline.{
  Segment, groups_from, groups_of, number_from, timeline_record, zero_duration_evidence_reason,
  or_boundary, keep_with, is_empty, cleaned, renumber, cleanup_zero_duration_segments,
  phase_timeline_from_points,
}
use robolineage.Review.Timeline.Segments.{All-snoc, last_phase, equal}

-- The first, and the last, segment has the property; there is one.
abbrev pub FirstIs : (Segment → Type 0) → List Segment → Type 0
FirstIs P [] = ⊥
FirstIs P (s ∷ ss) = P s

abbrev pub LastIs : (Segment → Type 0) → List Segment → Type 0
LastIs P [] = ⊥
LastIs P (s ∷ []) = P s
LastIs P (s ∷ t ∷ ss) = LastIs P (t ∷ ss)

abbrev pub Begins : Point → Segment → Type 0
Begins p s = (s.phase ≡ p.phase) × (s.start_frame ≡ p.frame_id)

abbrev pub Ends : Point → Segment → Type 0
Ends p s = (s.phase ≡ p.phase) × (s.end_frame ≡ p.frame_id)

LastIs-cons :
    (P : Segment → Type 0) (s : Segment) (l : List Segment) → LastIs P l → LastIs P (s ∷ l)
LastIs-cons P s [] h = absurd h
LastIs-cons P s (t ∷ l) h = h

last_or_snoc : (d x : Point) (l : List Point) → last_or d (l ++ x ∷ []) ≡ x
last_or_snoc d x [] = refl
last_or_snoc d x (y ∷ ys) = last_or_snoc y x ys

module _ (mean : List ℕ → ℕ) where
  LastIs-number_from :
      (start : Point) (rest ps : List Point) (idx : ℕ)
      → All (λ q. q.phase ≡ start.phase) rest
      → LastIs
          (Ends (last_or (last_or start rest) ps))
          (number_from mean idx (groups_from start rest ps))
  unfolding number_from groups_from timeline_record
  LastIs-number_from start rest [] idx h = (sym (last_phase start start rest refl h), refl)
  LastIs-number_from start rest (p ∷ ps) idx h =
      let last = last_phase start start rest refl h in
      elim (Bool-cases (str_eq p.phase (last_or start rest).phase)) [
        | inl joins ↦ rw joins (
            subst
              (λ d.
                LastIs (Ends (last_or d ps))
                  (number_from mean idx (groups_from start (rest ++ p ∷ []) ps)))
              (last_or_snoc start p rest)
              (LastIs-number_from start (rest ++ p ∷ []) ps idx (
                All-snoc (λ q. q.phase ≡ start.phase) rest p h
                  (equal p.phase (last_or start rest).phase joins ∙ last))))
        | inr splits ↦ rw splits (
            LastIs-cons (Ends (last_or p ps)) (timeline_record mean start rest idx)
              (number_from mean (suc idx) (groups_from p [] ps))
              (LastIs-number_from p [] ps (suc idx) tt))
      ]

  FirstIs-number_from :
      (start : Point) (rest ps : List Point) (idx : ℕ)
      → FirstIs (Begins start) (number_from mean idx (groups_from start rest ps))
  unfolding number_from groups_from timeline_record
  FirstIs-number_from start rest [] idx = (refl, refl)
  FirstIs-number_from start rest (p ∷ ps) idx =
      elim (Bool-cases (str_eq p.phase (last_or start rest).phase)) [
        | inl joins ↦ rw joins (FirstIs-number_from start (rest ++ p ∷ []) ps idx)
        | inr splits ↦ rw splits (refl, refl)
      ]

still_last :
    (p : Point) (keep : Bool) (reason : Option String) (s : Segment) (l : List Segment)
    → LastIs (Ends p) l
    → LastIs (Ends p) (if keep then s ∷ l else keep_with reason s l)
still_last p true reason s l h = LastIs-cons (Ends p) s l h
still_last p false none s l h = h
still_last p false (some r) s l h =
    LastIs-cons (Ends p) (record s { zero_duration_reason = some r }) l h

last_kept :
    (p : Point) (keep first : Bool) (reason : Option String) (s : Segment)
    → Ends p s
    → LastIs (Ends p) (if keep then s ∷ [] else keep_with (or_boundary (first || true) reason) s [])
last_kept p true first reason s h = h
last_kept p false first (some r) s h = h
last_kept p false true none s h = h
last_kept p false false none s h = h

LastIs-cleaned :
    (p : Point) (first : Bool) (terminal : Option String) (l : List Segment)
    → LastIs (Ends p) l
    → LastIs (Ends p) (cleaned first terminal l)
unfolding cleaned
LastIs-cleaned p first terminal [] h = h
LastIs-cleaned p first terminal (s ∷ []) h =
    last_kept p (ltb 0 s.duration_sec) first (zero_duration_evidence_reason s terminal) s h
LastIs-cleaned p first terminal (s ∷ t ∷ l) h =
    still_last p (ltb 0 s.duration_sec)
      (or_boundary (first || false) (zero_duration_evidence_reason s terminal)) s
      (cleaned false terminal (t ∷ l)) (LastIs-cleaned p false terminal (t ∷ l) h)

LastIs-renumber :
    (p : Point) (idx : ℕ) (l : List Segment) → LastIs (Ends p) l → LastIs (Ends p) (renumber idx l)
unfolding renumber
LastIs-renumber p idx [] h = h
LastIs-renumber p idx (s ∷ []) h = h
LastIs-renumber p idx (s ∷ t ∷ l) h = LastIs-renumber p (suc idx) (t ∷ l) h

last-suppress_after :
    (d e prev p : Point) (ps : List Point)
    → last_or d (suppress_after prev (p ∷ ps)) ≡ last_or e (p ∷ ps)
unfolding suppress_after
last-suppress_after d e prev p [] = refl
last-suppress_after d e prev p (q ∷ ps) = last-suppress_after (suppress_point prev p q) p p q ps

first_kept :
    (p : Point) (keep : Bool) (reason : Option String) (s : Segment) (l : List Segment)
    → Begins p s
    → FirstIs (Begins p) (if keep then s ∷ l else keep_with (or_boundary true reason) s l)
first_kept p true reason s l h = h
first_kept p false none s l h = h
first_kept p false (some r) s l h = h

FirstIs-cleanup :
    (p : Point) (terminal : Option String) (l : List Segment)
    → FirstIs (Begins p) l
    → FirstIs (Begins p) (cleaned true terminal l)
unfolding cleaned
FirstIs-cleanup p terminal [] h = h
FirstIs-cleanup p terminal (s ∷ ss) h =
    first_kept p (ltb 0 s.duration_sec) (zero_duration_evidence_reason s terminal) s
      (cleaned false terminal ss) h

FirstIs-renumber :
    (p : Point) (idx : ℕ) (l : List Segment)
    → FirstIs (Begins p) l
    → FirstIs (Begins p) (renumber idx l)
unfolding renumber
FirstIs-renumber p idx [] h = h
FirstIs-renumber p idx (s ∷ ss) h = h

last-suppress : (p : Point) (ps : List Point) → last_or p (suppress_after p ps) ≡ last_or p ps
unfolding suppress_after
last-suppress p [] = refl
last-suppress p (q ∷ ps) = last-suppress_after p p p q ps

-- The timeline of at least one point begins with the first point's phase and frame and ends with
-- the last one's: neither jitter suppression nor the removal of empty segments loses them.
pub timeline-Ends :
    (mean : List ℕ → ℕ) (p : Point) (ps : List Point) (terminal : Option String)
    → FirstIs (Begins p) (phase_timeline_from_points mean (p ∷ ps) terminal)
      × LastIs (Ends (last_or p ps)) (phase_timeline_from_points mean (p ∷ ps) terminal)
unfolding phase_timeline_from_points cleanup_zero_duration_segments suppress_isolated_phase_jitter
    groups_of
timeline-Ends mean p ps terminal =
    let l = number_from mean 0 (groups_from p [] (suppress_after p ps)) in
    (
      FirstIs-renumber p 0 (cleaned true terminal l)
          (FirstIs-cleanup p terminal l (FirstIs-number_from mean p [] (suppress_after p ps) 0)),
      LastIs-renumber (last_or p ps) 0 (cleaned true terminal l) (
          LastIs-cleaned (last_or p ps) true terminal l (
            subst (λ q. LastIs (Ends q) l) (last-suppress p ps)
              (LastIs-number_from mean p [] (suppress_after p ps) 0 tt))),
    )

-- A segment that stays has a duration, or the reason for which it stays.
abbrev pub Kept : Segment → Type 0
Kept s = (ltb 0 s.duration_sec ≡ true) ⊎ (s.zero_duration_reason ≢ none)

-- The segments' numbers count up from n.
abbrev pub Numbered : ℕ → List Segment → Type 0
Numbered n [] = Unit
Numbered n (s ∷ ss) = (s.segment_index ≡ n) × Numbered (suc n) ss

some≢none : (r : String) → ◌≢◌ {A = Option String} (some r) none
some≢none r h = absurd (cc h)

Kept-with :
    (keep : Bool) (reason : Option String) (s : Segment) (l : List Segment)
    → ltb 0 s.duration_sec ≡ keep
    → All Kept l
    → All Kept (if keep then s ∷ l else keep_with reason s l)
Kept-with true reason s l long h = (inl long, h)
Kept-with false none s l long h = h
Kept-with false (some r) s l long h = (inr (some≢none r), h)

Kept-cleaned :
    (first : Bool) (terminal : Option String) (l : List Segment)
    → All Kept (cleaned first terminal l)
unfolding cleaned
Kept-cleaned first terminal [] = tt
Kept-cleaned first terminal (s ∷ ss) =
    Kept-with (ltb 0 s.duration_sec)
      (or_boundary (first || is_empty ss) (zero_duration_evidence_reason s terminal)) s
      (cleaned false terminal ss) refl (Kept-cleaned false terminal ss)

Kept-renumber :
    (idx : ℕ) (l : List Segment)
    → All Kept l
    → All Kept (renumber idx l) × Numbered idx (renumber idx l)
unfolding renumber
Kept-renumber idx [] h = (tt, tt)
Kept-renumber idx (s ∷ ss) h =
    let rest = Kept-renumber (suc idx) ss h.1 in ((h.0, rest.0), (refl, rest.1))

-- In every timeline the segments are numbered from 0, and each has a duration or a reason to stay.
pub timeline-Kept :
    (mean : List ℕ → ℕ) (points : List Point) (terminal : Option String)
    → All Kept (phase_timeline_from_points mean points terminal)
      × Numbered 0 (phase_timeline_from_points mean points terminal)
unfolding phase_timeline_from_points cleanup_zero_duration_segments
timeline-Kept mean points terminal = Kept-renumber 0 _ (
    Kept-cleaned true terminal
      (number_from mean 0 (groups_of (suppress_isolated_phase_jitter points))))
