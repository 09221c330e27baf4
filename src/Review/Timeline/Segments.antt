-- ===== src/Review/Timeline/Segments.antt =====
-- Where the timeline begins and ends, and which segments it keeps.
use robolineage.Prelude.{
  ◌≡◌, inl, inr, refl, sym, ap, ◌∙◌, String, true, false, Bool-cases, List, [], ◌∷◌, ◌++◌, All,
  arith, last_or, str_eq, eq_iff,
}
use mathlib.Core.List.{append_assoc}
use mathlib.Core.Path.{subst}
use robolineage.Review.Points.{Point}
use robolineage.Review.Timeline.{groups_from, groups_of}

-- The points of the groups, in their order.
unfoldable pub points_of : List (Point × List Point) → List Point
points_of [] = []
points_of ((p, ps) ∷ gs) = (p ∷ ps) ++ points_of gs

-- All points of a group have the phase of the first.
unfoldable pub OnePhase : List (Point × List Point) → Type 0
OnePhase [] = Unit
OnePhase ((p, ps) ∷ gs) = All (λ q. q.phase ≡ p.phase) ps × OnePhase gs

-- The phases of adjacent groups differ.
unfoldable pub Changes : List (Point × List Point) → Type 0
Changes [] = Unit
Changes ((p, ps) ∷ []) = Unit
Changes ((p, ps) ∷ (q, qs) ∷ gs) = (str_eq q.phase p.phase ≡ false) × Changes ((q, qs) ∷ gs)

points_of-groups_from :
    (start : Point) (rest ps : List Point)
    → points_of (groups_from start rest ps) ≡ (start ∷ rest) ++ ps
unfolding points_of groups_from
points_of-groups_from start rest [] = refl
points_of-groups_from start rest (p ∷ ps) =
    elim (Bool-cases (str_eq p.phase (last_or start rest).phase)) [
      | inl joins ↦ rw joins (
          points_of-groups_from start (rest ++ p ∷ []) ps
          ∙ ap (λ l. start ∷ l) (append_assoc rest (p ∷ []) ps))
      | inr splits ↦ rw splits (ap (λ l. (start ∷ rest) ++ l) (points_of-groups_from p [] ps))
    ]

pub All-snoc :
    {A : Type 0} (P : A → Type 0) (l : List A) (x : A) → All P l → P x → All P (l ++ x ∷ [])
All-snoc P [] x h k = (k, tt)
All-snoc P (y ∷ ys) x h k = (h.0, All-snoc P ys x h.1 k)

pub last_phase :
    (start d : Point) (rest : List Point)
    → d.phase ≡ start.phase
    → All (λ q. q.phase ≡ start.phase) rest
    → (last_or d rest).phase ≡ start.phase
last_phase start d [] h k = h
last_phase start d (p ∷ ps) h k = last_phase start p ps k.0 k.1

pub equal : (s t : String) → str_eq s t ≡ true → s ≡ t
equal s t h = ground (arith, eq_iff s t)

OnePhase-groups_from :
    (start : Point) (rest ps : List Point)
    → All (λ q. q.phase ≡ start.phase) rest
    → OnePhase (groups_from start rest ps)
unfolding OnePhase groups_from
OnePhase-groups_from start rest [] h = (h, tt)
OnePhase-groups_from start rest (p ∷ ps) h =
    let last = last_phase start start rest refl h in
    elim (Bool-cases (str_eq p.phase (last_or start rest).phase)) [
      | inl joins ↦ rw joins (
          OnePhase-groups_from start (rest ++ p ∷ []) ps (
            All-snoc (λ q. q.phase ≡ start.phase) rest p h
              (equal p.phase (last_or start rest).phase joins ∙ last)))
      | inr splits ↦ rw splits (h, OnePhase-groups_from p [] ps tt)
    ]

-- The first group of the rest begins with the given point.
groups_from_begin :
    (start : Point) (rest ps : List Point)
    → (qs : List Point) × (gs : List (Point × List Point)) × (groups_from start rest ps
        ≡ (start, qs) ∷ gs)
unfolding groups_from
groups_from_begin start rest [] = (rest, [], refl)
groups_from_begin start rest (p ∷ ps) =
    elim (Bool-cases (str_eq p.phase (last_or start rest).phase)) [
      | inl joins ↦ rw joins (groups_from_begin start (rest ++ p ∷ []) ps)
      | inr splits ↦ rw splits (rest, groups_from p [] ps, refl)
    ]

Changes-before :
    (start p : Point) (rest qs : List Point) (gs g : List (Point × List Point))
    → g ≡ (p, qs) ∷ gs
    → str_eq p.phase start.phase ≡ false
    → Changes g
    → Changes ((start, rest) ∷ g)
unfolding Changes
Changes-before start p rest qs gs g begins h k =
    subst (λ x. Changes ((start, rest) ∷ x)) (sym begins) (h, subst Changes begins k)

Changes-groups_from :
    (start : Point) (rest ps : List Point)
    → All (λ q. q.phase ≡ start.phase) rest
    → Changes (groups_from start rest ps)
unfolding Changes groups_from
Changes-groups_from start rest [] h = tt
Changes-groups_from start rest (p ∷ ps) h =
    let last = last_phase start start rest refl h in
    elim (Bool-cases (str_eq p.phase (last_or start rest).phase)) [
      | inl joins ↦ rw joins (
          Changes-groups_from start (rest ++ p ∷ []) ps (
            All-snoc (λ q. q.phase ≡ start.phase) rest p h
              (equal p.phase (last_or start rest).phase joins ∙ last)))
      | inr splits ↦ rw splits (
          let (qs, gs, begins) = groups_from_begin p [] ps in
          Changes-before start p rest qs gs (groups_from p [] ps) begins
            (ap (str_eq p.phase) (sym last) ∙ splits) (Changes-groups_from p [] ps tt))
    ]

-- The groups are the points cut where the phase changes: together they are the points in their
-- order, each has one phase, and adjacent ones differ.
pub groups_partition :
    (points : List Point)
    → (points_of (groups_of points) ≡ points)
      × OnePhase (groups_of points)
      × Changes (groups_of points)
unfolding groups_of points_of OnePhase Changes
groups_partition [] = (refl, tt, tt)
groups_partition (p ∷ ps) =
    (points_of-groups_from p [] ps, OnePhase-groups_from p [] ps tt, Changes-groups_from p [] ps tt)
