-- ===== src/Realtime/Frames.antt =====
-- FrameRingBuffer (frame_ring_buffer.py): an OrderedDict of frames by index, oldest first, with a
-- capacity of at least 1. The payload of a frame is any type. Each method holds the lock, so it is
-- one step. Frame indices are natural numbers.
pub mod Bounds
pub mod Window
use robolineage.Prelude.{
  ℕ, zero, suc, ◌+◌, max, Bool, true, false, Option, none, some, List, [], ◌∷◌, ◌++◌, if◌then◌else◌,
  ltb, leb, ◌==◌, length,
}

pub record Buffer {ℓ} (A : Type ℓ) : Type ℓ where
  pub capacity : ℕ
  pub frames : List (ℕ × A)
  pub dropped : ℕ

module _ {ℓ} {A : Type ℓ} where
  unfoldable pub create : ℕ → Buffer A
  create capacity = record { capacity = max 1 capacity; frames = []; dropped = 0 }

  -- self._frames.get(frame_index)
  unfoldable pub lookup : ℕ → List (ℕ × A) → Option A
  lookup i [] = none
  lookup i ((j, f) ∷ rest) = if j == i then some f else lookup i rest

  -- self._frames.pop(frame_index), if the index is there.
  unfoldable pub without : ℕ → List (ℕ × A) → List (ℕ × A)
  without i [] = []
  without i ((j, f) ∷ rest) = if j == i then rest else (j, f) ∷ without i rest

  -- The `while` loop: frames left, and how many were dropped.
  unfoldable pub evict : ℕ → List (ℕ × A) → List (ℕ × A) × ℕ
  evict capacity [] = ([], 0)
  evict capacity (x ∷ rest) =
      let next = evict capacity rest in
      if ltb capacity (length (x ∷ rest)) then (next.0, suc next.1) else (x ∷ rest, 0)

  unfoldable pub put : ℕ → A → Buffer A → ℕ × Buffer A
  put i f b =
      let kept = evict b.capacity (without i b.frames ++ (i, f) ∷ []) in
      (kept.1, record b { frames = kept.0; dropped = b.dropped + kept.1 })

  unfoldable pub get : ℕ → Buffer A → Option A
  unfolding lookup
  get i b = lookup i b.frames

  last_index : List (ℕ × A) → Option ℕ
  last_index [] = none
  last_index ((i, f) ∷ []) = some i
  last_index (x ∷ y ∷ rest) = last_index (y ∷ rest)

  unfoldable pub latest_frame_index : Buffer A → Option ℕ
  unfolding last_index
  latest_frame_index b = last_index b.frames

  unfoldable pub clear : Buffer A → ℕ × Buffer A
  clear b = (length b.frames, record b { frames = [] })
