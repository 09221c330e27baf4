-- ===== src/Dataset/Version/RoundTrip.antt =====
-- The next version is read back as the next number.
use Prim.Native.Char.{Char, code}
use robolineage.Prelude.{
  ℕ, zero, suc, ◌+◌, ◌-◌, ◌*◌, ◌/◌, ◌%◌, ◌<◌, ◌≡◌, refl, ap, ◌∙◌, String, Bool, true, false, ◌&&◌,
  none, some, inl, inr, Bool-cases, leb, ◌==◌, arith,
}
use robolineage.Prelude.Result.{ok}
use robolineage.Dataset.Version.{
  is_digit, digit, read_digits, read_number, parse_version, write_digits, write_version,
  next_version_id,
}

all_below : ℕ → (ℕ → Bool) → Bool
all_below zero p = true
all_below (suc n) p = p n && all_below n p

all_below-at : (n : ℕ) (p : ℕ → Bool) (x : ℕ) → all_below n p ≡ true → x < n → p x ≡ true
unfolding all_below
all_below-at zero p x h lt = absurd (omega arith)
all_below-at (suc n) p x h lt = ground (arith, all_below-at n p x)

abbrev fits : ℕ → Bool
fits d = is_digit (digit d) && (code (digit d) - b'0' == d)

all-fits : all_below 10 fits ≡ true
unfolding all_below
all-fits = refl

both : (p q : Bool) → (p && q) ≡ true → (p ≡ true) × (q ≡ true)
both true true h = (refl, refl)
both true false h = absurd (cc h)
both false q h = absurd (cc h)

same : (m n : ℕ) → (m == n) ≡ true → m ≡ n
same m n h = ground arith

digit_lem : (d : ℕ) → d < 10 → (is_digit (digit d) ≡ true) × (code (digit d) - b'0' ≡ d)
digit_lem d h = let b = both _ _ (all_below-at 10 fits d all-fits h) in (b.0, same _ d b.1)

read-digit :
    (d n : ℕ) (rest : String)
    → d < 10
    → read_digits (String.◌∷◌ (digit d) rest) n ≡ read_digits rest (n * 10 + d)
unfolding read_digits
read-digit d n rest h =
    rw ((digit_lem d h).0) (ap (λ k. read_digits rest (n * 10 + k)) ((digit_lem d h).1))

small : (n : ℕ) → leb n 9 ≡ true → 0 * 10 + n % 10 ≡ n
small n h = ground arith

enough : (n f : ℕ) → leb n 9 ≡ false → n < suc f → n / 10 < f
enough n f h k = ground arith

read-write :
    (f n : ℕ) (rest : String) → n < f → read_digits (write_digits f n rest) 0 ≡ read_digits rest n
unfolding write_digits
read-write zero n rest h = absurd (omega arith)
read-write (suc f) n rest h = elim (Bool-cases (leb n 9)) [
  | inl last ↦
      rw last (read-digit (n % 10) 0 rest (omega arith) ∙ ap (read_digits rest) (small n last))
  | inr more ↦ rw more (
      read-write f (n / 10) (String.◌∷◌ (digit (n % 10)) rest) (enough n f more h)
      ∙ read-digit (n % 10) (n / 10) rest (omega arith)
      ∙ ap (read_digits rest) (omega arith))
]

-- Reading a number from its first digit on.
read_number-digits :
    (c : Char) (s : String)
    → is_digit c ≡ true
    → read_number (String.◌∷◌ c s) ≡ read_digits (String.◌∷◌ c s) 0
unfolding read_number
read_number-digits c s h = rw (h, read_digits) (ap (read_digits s) (omega arith))

-- What is written begins with a digit.
data BeginsWithDigit : String → Type 0 where
  begins : (d : ℕ) (s : String) → d < 10 → BeginsWithDigit (String.◌∷◌ (digit d) s)

BeginsWithDigit-write :
    (f n d : ℕ) (rest : String)
    → d < 10
    → BeginsWithDigit (write_digits f n (String.◌∷◌ (digit d) rest))
unfolding write_digits
BeginsWithDigit-write zero n d rest h = begins d rest h
BeginsWithDigit-write (suc f) n d rest h = elim (Bool-cases (leb n 9)) [
  | inl last ↦ rw last (begins (n % 10) (String.◌∷◌ (digit d) rest) (omega arith))
  | inr more ↦
      rw more (BeginsWithDigit-write f (n / 10) (n % 10) (String.◌∷◌ (digit d) rest) (omega arith))
]

-- With enough fuel and no rest.
BeginsWithDigit-all : (f n : ℕ) → n < f → BeginsWithDigit (write_digits f n "")
unfolding write_digits
BeginsWithDigit-all zero n h = absurd (omega arith)
BeginsWithDigit-all (suc f) n h = elim (Bool-cases (leb n 9)) [
  | inl last ↦ rw last (begins (n % 10) "" (omega arith))
  | inr more ↦ rw more (BeginsWithDigit-write f (n / 10) (n % 10) "" (omega arith))
]

read_number-begins : (s : String) → BeginsWithDigit s → read_number s ≡ read_digits s 0
read_number-begins _ (begins d s h) = read_number-digits (digit d) s ((digit_lem d h).0)

parse-write : (n : ℕ) → parse_version (write_version n) ≡ ok n
unfolding parse_version write_version
parse-write n =
    rw
      (read_number-begins (write_digits (suc n) n "") (BeginsWithDigit-all (suc n) n (omega arith))
        ∙ read-write (suc n) n "" (omega arith))
      refl

-- The version after one that is read as n is written, and is read as n + 1; so no version comes
-- again, and without a version before it the next one is "v1", which is read as 1.
pub next_version_counts :
    (prev : String) (n : ℕ)
    → parse_version prev ≡ ok n
    → (next_version_id (some prev) ≡ ok (write_version (n + 1)))
      × (parse_version (write_version (n + 1)) ≡ ok (n + 1))
      × (next_version_id none ≡ ok (write_version 1))
unfolding next_version_id write_version write_digits
next_version_counts prev n h = (rw h refl, parse-write (n + 1), refl)
