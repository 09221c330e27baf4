-- ===== src/Review/Verdict/Bounds.antt =====
-- What the model's answer may change.
use robolineage.Prelude.{Bool, true, false, not, Option, none, some}
use robolineage.Review.Outcome.{Outcome, SuccessStatus, uncertain, success, failure}

-- The answer says outright that it does not show the episode's end.
abbrev pub uncovered : Option Bool → Bool
uncovered (some covers) = not covers
uncovered none = false

-- The status that a verdict leads to; `doubted` says that it contradicts a success it did not see.
abbrev pub status_after : Bool → Bool → SuccessStatus
status_after true doubted = success
status_after false true = uncertain
status_after false false = failure
