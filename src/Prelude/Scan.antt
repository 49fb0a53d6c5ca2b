-- ===== src/Prelude/Scan.antt =====
-- Python's `str.lower`, `str.startswith`, `in` and `str.split` with a separator, on native texts.
-- `lower` changes the ASCII letters only.
use Prim.Native.Char.{Char, code}
use Prim.Native.Nat.{ℕ, zero, suc, ◌-◌}
use Prim.Native.String.{String, [], ◌∷◌, ◌++◌}
use mathlib.Core.Path.{◌≡◌, refl}
use mathlib.Core.Bool.{Bool, true, false, ◌&&◌, ◌||◌}
use mathlib.Core.List.{List}
use grix_hermes_python.Prelude.Tests.{leb, nat_eq, if◌then◌else◌}

-- The character at a place, or the default past the end.
abbrev char_at : ℕ → String → Char → Char
char_at n [] c = c
char_at zero (d ∷ s) c = d
char_at (suc n) (d ∷ s) c = char_at n s c

lower_char : Char → Char
lower_char c =
    if leb 65 (code c) && leb (code c) 90
    then char_at (code c - 65) "abcdefghijklmnopqrstuvwxyz" c
    else c

-- s.lower()
unfoldable pub lower : String → String
unfolding lower_char
lower [] = []
lower (c ∷ s) = lower_char c ∷ lower s

-- s.startswith(p), with the prefix first
unfoldable pub starts_with : String → String → Bool
starts_with [] s = true
starts_with (p ∷ ps) [] = false
starts_with (p ∷ ps) (c ∷ s) = nat_eq (code p) (code c) && starts_with ps s

-- p in s
unfoldable pub contains : String → String → Bool
unfolding starts_with
contains p [] = starts_with p []
contains p (c ∷ s) = starts_with p (c ∷ s) || contains p s

-- The parts of `s` between the separators, where `word` has been read of the first one.
split_at : Char → String → String → List String
split_at sep word [] = List.◌∷◌ word List.[]
split_at sep word (c ∷ s) = elim (nat_eq (code c) (code sep)) [
  | true ↦ List.◌∷◌ word (split_at sep [] s)
  | false ↦ split_at sep (word ++ (c ∷ [])) s
]

-- s.split(sep)
unfoldable pub split_on : Char → String → List String
unfolding split_at
split_on sep s = split_at sep [] s

-- s.replace(a, b) for two characters
unfoldable pub replace : Char → Char → String → String
replace a b [] = []
replace a b (c ∷ s) = (if nat_eq (code c) (code a) then b else c) ∷ replace a b s

lower_test : lower "Group_ABZ9" ≡ "group_abz9"
unfolding lower
lower_test = refl

split_on_test : split_on "," "a,,b" ≡ List.◌∷◌ "a" (List.◌∷◌ "" (List.◌∷◌ "b" List.[]))
unfolding split_on
split_on_test = refl

contains_test : contains "card" "my.card.x" ≡ true
unfolding contains
contains_test = refl
