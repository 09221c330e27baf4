-- ===== src/Dataset/Version.antt =====
-- Version identifiers "v1", "v2", … (src/robolineage_dataset/version.py). The digits are the ASCII
-- ones; as in the pattern, one line break may follow them.
pub mod RoundTrip
use Prim.Native.Char.{Char, code}
use Prim.Native.String
use robolineage.Prelude.{
  ℕ, zero, suc, ◌+◌, ◌-◌, ◌*◌, ◌/◌, ◌%◌, String, Bool, true, false, ◌&&◌, ◌||◌, Option, none, some,
  if◌then◌else◌, str_eq, leb, ◌==◌,
}
use robolineage.Prelude.Result.{Result, ok, err}

pub data VersionError : Type 0 where
  value_error : VersionError

abbrev pub is_digit : Char → Bool
is_digit c = leb b'0' (code c) && leb (code c) b'9'

-- int(text): the number that the digits add to `n`, none at another character.
unfoldable pub read_digits : String → ℕ → Option ℕ
read_digits String.[] n = some n
read_digits (String.◌∷◌ c s) n =
    let rest = read_digits s (n * 10 + (code c - b'0')) in
    if is_digit c then rest else if code c == 10 && str_eq s "" then some n else none

-- (\d+)$, from the first digit on
unfoldable pub read_number : String → Option ℕ
unfolding read_digits
read_number String.[] = none
read_number (String.◌∷◌ c s) = if is_digit c then read_digits s (code c - b'0') else none

abbrev or_error : Option ℕ → Result VersionError ℕ
or_error none = err value_error
or_error (some n) = ok n

unfoldable pub parse_version : String → Result VersionError ℕ
unfolding read_number
parse_version String.[] = err value_error
parse_version (String.◌∷◌ c s) =
    if code c == b'v' then or_error (read_number s) else err value_error

abbrev pub digit : ℕ → Char
digit n =
    if n == 0
    then "0"
    else if n == 1
    then "1"
    else if n == 2
    then "2"
    else if n == 3
    then "3"
    else if n == 4
    then "4"
    else if n == 5
    then "5"
    else if n == 6
    then "6"
    else if n == 7
    then "7"
    else if n == 8
    then "8"
    else "9"

-- str(n): the digits of n before `rest`; a fuel of more than n is enough.
unfoldable pub write_digits : ℕ → ℕ → String → String
write_digits zero n rest = rest
write_digits (suc f) n rest =
    let more = write_digits f (n / 10) (String.◌∷◌ (digit (n % 10)) rest) in
    if leb n 9 then String.◌∷◌ (digit (n % 10)) rest else more

unfoldable pub write_version : ℕ → String
unfolding write_digits
write_version n = String.◌∷◌ "v" (write_digits (suc n) n "")

abbrev after : Result VersionError ℕ → Result VersionError String
after (err e) = err e
after (ok n) = ok (write_version (n + 1))

unfoldable pub next_version_id : Option String → Result VersionError String
unfolding write_version parse_version
next_version_id none = ok "v1"
next_version_id (some prev) = after (parse_version prev)
