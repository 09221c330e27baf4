-- ===== src/Worker/Restart.antt =====
-- A worker that is started again after a stop during a review.
use robolineage.Prelude.{◌≡◌, ◌⊎◌, Bool, true, false, none, some, List, [], ◌∷◌, ◌++◌}
use robolineage.Worker.{Item, job, sentinel, finished, Worker, Step}
use robolineage.Worker.Jobs.{held, ended_of}

module _ {J : Type 0} where
  -- The jobs before the first mark in the queue.
  unfoldable pub front : List (Item J) → List J
  front [] = []
  front (job j ∷ q) = j ∷ front q
  front (sentinel ∷ q) = []

  has_mark : List (Item J) → Bool
  has_mark [] = false
  has_mark (job j ∷ q) = has_mark q
  has_mark (sentinel ∷ q) = true

  -- Until it ends, the thread has at most the jobs `l` before it.
  IsBounded : List J → Worker J → Type 0
  IsBounded l w =
      (w.thread ≡ finished) ⊎ ((has_mark w.queue ≡ true) × (held w.thread ++ front w.queue ≡ l))

  Leads : List J → Step J → Type 0
  Leads l none = Unit
  Leads l (some (es, w)) = (rest : List J) × (l ≡ ended_of es ++ rest) × IsBounded rest w
