-- ===== src/Prelude/Firsts.antt =====
-- The first occurrences in a list of texts, and lists kept by a test.
use Prim.Native.String.{String}
use mathlib.Core.Path.{◌≡◌, refl}
use mathlib.Core.Bool.{Bool, true, false, not, ◌&&◌}
use mathlib.Core.List.{List, [], ◌∷◌}
use native.Mathlib.Omega.{arith}
use text.Mathlib.Text.{◌==◌}
use text.Mathlib.TextEquality.{eq_iff}
use grix_hermes_python.Prelude.Lists.{keep, member}

-- The first occurrence of each name, in order.
unfoldable pub firsts : List String → List String
firsts [] = []
firsts (x ∷ xs) = x ∷ keep (λ y. not (x == y)) (firsts xs)

pub keep_comm {ℓ} :
    {A : Type ℓ} (p q : A → Bool) (xs : List A) → keep p (keep q xs) ≡ keep q (keep p xs)
keep_comm p q [] = refl
keep_comm p q (x ∷ xs) = ground (arith, keep_comm p q xs)

keep_without :
    (p : String → Bool) (v : String) (xs : List String)
    → p v ≡ false
    → keep p (keep (λ y. not (v == y)) xs) ≡ keep p xs
keep_without p v [] out = refl
keep_without p v (x ∷ xs) out = ground (arith, keep_without p v xs out, eq_iff v x)

-- Keeping what passes a test and taking first occurrences can be done in either order.
pub keep-firsts : (p : String → Bool) (xs : List String) → keep p (firsts xs) ≡ firsts (keep p xs)
unfolding firsts
keep-firsts p [] = refl
keep-firsts p (x ∷ xs) = ground (
  arith,
  keep-firsts p xs,
  keep_comm p (λ y. not (x == y)) (firsts xs),
  keep_without p x (firsts xs),
)

-- What is in a list that has lost a name.
pub member-without :
    (v x : String) (xs : List String)
    → member x (keep (λ y. not (v == y)) xs) ≡ member x xs && not (v == x)
unfolding member
member-without v x [] = refl
member-without v x (y ∷ xs) =
    ground (arith, member-without v x xs, eq_iff y x, eq_iff v x, eq_iff v y)

-- Two tests in a row are one.
pub keep_both {ℓ} :
    {A : Type ℓ} (p q r : A → Bool) (xs : List A)
    → ((x : A) → r x ≡ p x && q x)
    → keep q (keep p xs) ≡ keep r xs
keep_both p q r [] both = refl
keep_both p q r (x ∷ xs) both = ground (arith, keep_both p q r xs both, both x)

pub keep_all {ℓ} :
    {A : Type ℓ} (p : A → Bool) (xs : List A) → ((x : A) → p x ≡ true) → keep p xs ≡ xs
keep_all p [] all = refl
keep_all p (x ∷ xs) all = ground (arith, keep_all p xs all, all x)

pub keep_absent :
    (v : String) (xs : List String) → member v xs ≡ false → keep (λ y. not (v == y)) xs ≡ xs
unfolding member
keep_absent v [] out = refl
keep_absent v (x ∷ xs) out = ground (arith, keep_absent v xs, eq_iff v x, eq_iff x v)
