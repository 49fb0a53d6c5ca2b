-- ===== src/Prelude/Text.antt =====
-- Python's `str.isspace`, `str.strip` and `str.split` on native texts, and slices.
use Prim.Native.Char.{Char, code}
use Prim.Native.Nat.{ℕ, zero, suc, ◌+◌, ◌≤◌}
use Prim.Native.String.{String, [], ◌∷◌, ◌++◌}
use mathlib.Core.Logic.{inl, inr}
use mathlib.Core.Path.{◌≡◌, refl}
use mathlib.Core.Bool.{Bool, true, false, ◌&&◌, ◌||◌}
use mathlib.Core.List.{List}
use native.Mathlib.Omega.{arith}
use text.Mathlib.Text.{◌==◌}
use text.Mathlib.TextLemmas.{nil-append, cons-append}
use grix_hermes_python.Prelude.Tests.{Bool-cases, leb, nat_eq, if◌then◌else◌}

-- The code points for which `str.isspace` holds.
unfoldable pub is_space : Char → Bool
is_space ch =
    let c = code ch in
    (leb 9 c && leb c 13)
    || (leb 28 c && leb c 32)
    || nat_eq c 0x85
    || nat_eq c 0xA0
    || nat_eq c 0x1680
    || (leb 0x2000 c && leb c 0x200A)
    || nat_eq c 0x2028
    || nat_eq c 0x2029
    || nat_eq c 0x202F
    || nat_eq c 0x205F
    || nat_eq c 0x3000

-- s.lstrip()
unfoldable pub lstrip : String → String
lstrip [] = []
lstrip (c ∷ s) = let rest = lstrip s in if is_space c then rest else c ∷ s

-- s.rstrip()
unfoldable pub rstrip : String → String
rstrip [] = []
rstrip (c ∷ s) = let rest = rstrip s in if is_space c && rest == "" then [] else c ∷ rest

-- s.strip()
unfoldable pub strip : String → String
unfolding lstrip rstrip
strip s = rstrip (lstrip s)

abbrev flush : String → List String → List String
flush word rest = if word == "" then rest else List.◌∷◌ word rest

-- The words of `s`, where `word` has been read of the first one.
split_from : String → String → List String
split_from word [] = flush word List.[]
split_from word (c ∷ s) = elim (is_space c) [
  | true ↦ flush word (split_from [] s)
  | false ↦ split_from (word ++ (c ∷ [])) s
]

-- s.split()
unfoldable pub split : String → List String
unfolding split_from
split s = split_from [] s

-- sep.join(words)
unfoldable pub join : String → List String → String
join sep List.[] = []
join sep (List.◌∷◌ w List.[]) = w
join sep (List.◌∷◌ w (List.◌∷◌ v rest)) = w ++ (sep ++ join sep (List.◌∷◌ v rest))

-- len(s), in characters
unfoldable pub size : String → ℕ
size [] = 0
size (c ∷ s) = suc (size s)

-- s[:n]
unfoldable pub take : ℕ → String → String
take zero s = []
take (suc n) [] = []
take (suc n) (c ∷ s) = c ∷ take n s

pub size-append : (s t : String) → size (s ++ t) ≡ size s + size t
unfolding size
size-append [] t = rw nil-append (omega arith)
size-append (c ∷ s) t = rw cons-append (omega (arith, size-append s t))

pub size-take-le : (n : ℕ) (s : String) → size (take n s) ≤ n
unfolding size take
size-take-le zero s = omega arith
size-take-le (suc n) [] = omega arith
size-take-le (suc n) (c ∷ s) = omega (arith, size-take-le n s)

pub size_pos : (s : String) → (s == "") ≡ false → 1 ≤ size s
unfolding size
size_pos [] h = absurd (ground arith)
size_pos (c ∷ s) h = omega arith

strip_test : strip "  a b\n " ≡ "a b"
unfolding strip is_space
strip_test = refl

split_test : join " " (split "  a \t b c ") ≡ "a b c"
unfolding split join is_space
split_test = refl

lstrip_idem : (s : String) → lstrip (lstrip s) ≡ lstrip s
unfolding lstrip
lstrip_idem [] = refl
lstrip_idem (c ∷ s) = ground (arith, lstrip_idem s)

rstrip_idem : (s : String) → rstrip (rstrip s) ≡ rstrip s
unfolding rstrip
rstrip_idem [] = refl
rstrip_idem (c ∷ s) = elim (Bool-cases (is_space c && rstrip s == "")) [
  | inl blank ↦ simp blank
  | inr kept ↦ simp (kept, rstrip_idem s)
]

-- What starts with no blank does not after a cut at the end.
lstrip-rstrip : (s : String) → lstrip (rstrip (lstrip s)) ≡ rstrip (lstrip s)
unfolding lstrip rstrip
lstrip-rstrip [] = refl
lstrip-rstrip (c ∷ s) = ground (arith, lstrip-rstrip s)

pub strip_idem : (s : String) → strip (strip s) ≡ strip s
unfolding strip
strip_idem s = rw (lstrip-rstrip s) (rstrip_idem (lstrip s))
