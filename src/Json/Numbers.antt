-- ===== src/Json/Numbers.antt =====
-- Python's `int` on what `json.loads` gives, and numbers read from a file.
use Prim.Native.Char.{code}
use grix_hermes_python.Prelude.{
  ℕ, ◌+◌, ◌-◌, ◌*◌, String, ◌≡◌, refl, Bool, true, false, Option, none, some, ◌&&◌, leb, nat_eq,
  if◌then◌else◌,
}
use grix_hermes_python.Prelude.Int.{ℤ, pos, negsuc, minus}
use grix_hermes_python.Prelude.Text.{strip, is_space}
use grix_hermes_python.Json.{Value}

-- The number that the digits of a text make after `acc`; a `_` may stand between two digits. Only
-- the ASCII digits are read. `after` says whether a digit stands before.
read_digits : ℕ → Bool → String → Option ℕ
read_digits acc after String.[] = if after then some acc else none
read_digits acc after (String.◌∷◌ c s) =
    let n = code c in
    let more = read_digits (acc * 10 + (n - 48)) true s in
    let skipped = read_digits acc false s in
    if leb 48 n && leb n 57 then more else if nat_eq n 95 && after then skipped else none

abbrev signed : (ℕ → ℤ) → Option ℕ → Option ℤ
signed sign none = none
signed sign (some n) = some (sign n)

-- A text without blanks at its ends; `_` may not stand after the sign.
read_int : String → Option ℤ
read_int String.[] = none
read_int (String.◌∷◌ c s) =
    let n = code c in
    if nat_eq n 45
    then signed minus (read_digits 0 false s)
    else if nat_eq n 43
    then signed pos (read_digits 0 false s)
    else signed pos (read_digits 0 false (String.◌∷◌ c s))

abbrev pub as_number : Bool → ℕ
as_number true = 1
as_number false = 0

-- int(v): `none` where it raises TypeError or ValueError.
unfoldable pub int_of : Value → Option ℤ
unfolding read_digits read_int
int_of Value.null = none
int_of (Value.boolean b) = some (pos (as_number b))
int_of (Value.number n) = some n
int_of (Value.text s) = read_int (strip s)
int_of (Value.array vs) = none
int_of (Value.object fs) = none

-- int(v) where isinstance(v, (int, float)), of which `True` and `False` are instances.
unfoldable pub number_of : Value → Option ℤ
number_of (Value.boolean b) = some (pos (as_number b))
number_of (Value.number n) = some n
number_of _ = none

int_test : int_of (Value.text " -1_024 ") ≡ some (negsuc 1_023)
unfolding int_of strip is_space
int_test = refl

not_int_test : int_of (Value.text "1__0") ≡ none
unfolding int_of strip is_space
not_int_test = refl
