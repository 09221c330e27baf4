-- ===== src/Prelude/Exec.antt =====
-- Methods that change an object and may raise. What was written before a raise stays written, so
-- the state comes back beside the exception too.
use robolineage.Prelude.{Bool, true, false}
use robolineage.Prelude.Result.{Result, ok, err}

abbrev pub Exec {ℓ} : Type ℓ → Type ℓ → Type ℓ → Type ℓ
Exec S E A = S → Result E A × S

module _ {ℓ} {S E A : Type ℓ} where
  abbrev pub pure : A → Exec S E A
  pure a s = (ok a, s)

  abbrev pub raise : E → Exec S E A
  raise e s = (err e, s)

  abbrev pub gets : (S → A) → Exec S E A
  gets f s = (ok (f s), s)

module _ {ℓ} {S E : Type ℓ} where
  abbrev pub modify : (S → S) → Exec S E Unit
  modify f s = (ok tt, f s)

  -- A call of the outside that returns, or raises.
  abbrev pub attempt : E → Bool → Exec S E Unit
  attempt e true s = (ok tt, s)
  attempt e false s = (err e, s)

module _ {ℓ} {S E A B : Type ℓ} where
  abbrev pub proceed : Result E A → (A → Exec S E B) → Exec S E B
  proceed (ok a) f s = f a s
  proceed (err e) f s = (err e, s)

  infixl 5 ◌>>=◌ ◌>>◌
  abbrev pub ◌>>=◌ : Exec S E A → (A → Exec S E B) → Exec S E B
  ◌>>=◌ m f s = proceed (m s).0 f (m s).1

  abbrev pub ◌>>◌ : Exec S E A → Exec S E B → Exec S E B
  m >> n = m >>= λ _. n

module _ {ℓ} {S E A : Type ℓ} where
  abbrev pub handle : Result E A → (E → Exec S E A) → Exec S E A
  handle (ok a) h s = (ok a, s)
  handle (err e) h s = h e s

  -- try m, except e: h e
  abbrev pub try_except : Exec S E A → (E → Exec S E A) → Exec S E A
  try_except m h s = handle (m s).0 h (m s).1

module _ {ℓ κ} {S E A B : Type ℓ} (P : S → Type κ) where
  proceed_keeps :
      (r : Result E A) (f : A → Exec S E B) (s : S)
      → P s
      → ((a : A) (t : S) → P t → P (f a t).1)
      → P (proceed r f s).1
  proceed_keeps (ok a) f s h rule = rule a s h
  proceed_keeps (err e) f s h rule = h

  -- What the first part establishes and the second keeps holds after both.
  pub bind_keeps :
      (m : Exec S E A) (f : A → Exec S E B) (s : S)
      → P (m s).1
      → ((a : A) (t : S) → P t → P (f a t).1)
      → P ((m >>= f) s).1
  bind_keeps m f s h rule = proceed_keeps (m s).0 f (m s).1 h rule
