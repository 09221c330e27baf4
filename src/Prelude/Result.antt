-- ===== src/Prelude/Result.antt =====
-- The result of code that may raise: a value, or the exception.

pub data Result {ℓ} (E A : Type ℓ) : Type ℓ where
  ok : A → Result E A
  err : E → Result E A
