-- ===== src/Realtime/Scheduler/Conservation.antt =====
-- No candidate is lost and none is doubled.
use mathlib.Core.List.{Perm}
use mathlib.Core.List.Perm
use robolineage.Prelude.{ℕ, refl, Bool, inl, inr, Option, List, [], ◌∷◌, ◌++◌, Bool-cases}
use robolineage.Realtime.Event.{ActionEvent}
use robolineage.Realtime.Scheduler.{Scheduler, comes_before, insert, sorted, clusters, release}

-- Sorting keeps the events, each as often as it stands there.
insert-Perm : (e : ActionEvent) (l : List ActionEvent) → Perm (insert e l) (e ∷ l)
unfolding insert
insert-Perm e [] = Perm.refl (e ∷ [])
insert-Perm e (x ∷ xs) = elim (Bool-cases (comes_before x e)) [
  | inl before ↦ rw before (Perm.trans (Perm.cons x (insert-Perm e xs)) (Perm.swap e x xs))
  | inr after ↦ rw after (Perm.refl (e ∷ x ∷ xs))
]

pub sorted-Perm : (l : List ActionEvent) → Perm (sorted l) l
unfolding sorted
sorted-Perm [] = Perm.refl []
sorted-Perm (e ∷ es) = Perm.trans (insert-Perm e (sorted es)) (Perm.cons e (sorted-Perm es))

-- The clusters that a call of `schedule` sends on.
abbrev pub sent : List ActionEvent → Option ℕ → Bool → Scheduler → List (List ActionEvent)
sent events watermark force s =
    (release s.merge_window force watermark
      (clusters s.context_frames s.merge_window (s.pending_events ++ events))).0
