-- ===== src/Protocol/Distinct.antt =====
-- The lists of names that grix_hermes/protocol.py makes, by `normalize_names` and `_ensure_names`.
use grix_hermes_python.Prelude.{
  String, ◌≡◌, refl, sym, ◌∙◌, arith, Bool, true, false, List, [], ◌∷◌, ◌++◌, map, ◌==◌, ◌&&◌, ◌||◌,
  not, eq_iff, eq_refl, keep, member, member-append, if_elim, if◌then◌else◌,
}
use mathlib.Core.Path.{subst}
use grix_hermes_python.Prelude.Firsts.{firsts}
use grix_hermes_python.Prelude.Text.{strip}
use grix_hermes_python.Json.{Value}
use grix_hermes_python.Protocol.Names.{normalize_text, names_from, normalize_names, ensure_names}

abbrev pub is_named : String → Bool
is_named s = not (s == "")

abbrev absent_from : List String → String → Bool
absent_from seen x = not (member x seen)

keep_seen :
    (v : String) (seen xs : List String)
    → member v seen ≡ true
    → keep (absent_from seen) (keep (λ y. not (v == y)) xs) ≡ keep (absent_from seen) xs
keep_seen v seen [] there = refl
keep_seen v seen (x ∷ xs) there = ground (arith, keep_seen v seen xs there, eq_iff v x)

keep_more :
    (v : String) (seen xs : List String)
    → keep (absent_from (v ∷ seen)) xs ≡ keep (absent_from seen) (keep (λ y. not (v == y)) xs)
unfolding member
keep_more v seen [] = refl
keep_more v seen (x ∷ xs) = ground (arith, keep_more v seen xs)

names_from-firsts :
    (seen values : List String)
    → names_from seen values ≡ keep (absent_from seen) (firsts (keep is_named values))
unfolding names_from firsts
names_from-firsts seen [] = refl
names_from-firsts seen (v ∷ vs) = ground (
  arith,
  names_from-firsts seen vs,
  names_from-firsts (v ∷ seen) vs,
  keep_seen v seen (firsts (keep is_named vs)),
  keep_more v seen (firsts (keep is_named vs)),
)

keep_all : (xs : List String) → keep (absent_from []) xs ≡ xs
unfolding member
keep_all [] = refl
keep_all (x ∷ xs) = ground (arith, keep_all xs)

-- The loop of `normalize_names` with its set of names gives the first occurrence of each text that
-- is not blank, in order and with no space around it.
pub normalize_names-firsts :
    (values : List Value)
    → normalize_names values ≡ firsts (keep is_named (map normalize_text values))
unfolding normalize_names
normalize_names-firsts values = names_from-firsts [] (map normalize_text values) ∙ keep_all _

abbrev pub distinct : List String → Bool
distinct [] = true
distinct (x ∷ xs) = not (member x xs) && distinct xs

-- Every name of the second list is in the first.
abbrev pub includes : List String → List String → Bool
includes xs [] = true
includes xs (y ∷ ys) = member y xs && includes xs ys

names_from-absent :
    (x : String) (seen values : List String)
    → member x seen ≡ true
    → member x (names_from seen values) ≡ false
unfolding names_from member
names_from-absent x seen [] there = refl
names_from-absent x seen (v ∷ vs) there =
    ground (arith, names_from-absent x seen vs there, names_from-absent x (v ∷ seen) vs, eq_iff v x)

pub names_from-distinct : (seen values : List String) → distinct (names_from seen values) ≡ true
unfolding names_from member
names_from-distinct seen [] = refl
names_from-distinct seen (v ∷ vs) = ground (
  arith,
  names_from-distinct seen vs,
  names_from-distinct (v ∷ seen) vs,
  names_from-absent v (v ∷ seen) vs,
  eq_refl v,
)

pub normalize_names-distinct : (values : List Value) → distinct (normalize_names values) ≡ true
unfolding normalize_names
normalize_names-distinct values = names_from-distinct [] (map normalize_text values)

distinct-snoc :
    (xs : List String) (n : String)
    → distinct xs ≡ true
    → member n xs ≡ false
    → distinct (xs ++ n ∷ []) ≡ true
unfolding member
distinct-snoc [] n apart absent = refl
distinct-snoc (x ∷ xs) n apart absent =
    ground (arith, distinct-snoc xs n, member-append x xs (n ∷ []), eq_iff x n, eq_iff n x)

-- One round of the loop of `_ensure_names`.
abbrev joined : List String → String → List String
joined xs name = if name == "" || member name xs then xs else xs ++ name ∷ []

pub ensure_names-distinct :
    (ys xs : List String) → distinct xs ≡ true → distinct (ensure_names xs ys) ≡ true
unfolding ensure_names
ensure_names-distinct [] xs apart = apart
ensure_names-distinct (y ∷ ys) xs apart = ensure_names-distinct ys (joined xs (strip y)) (
    if_elim (λ names. distinct names ≡ true) (strip y == "" || member (strip y) xs) xs
      (xs ++ strip y ∷ []) (λ _. apart) (λ away. distinct-snoc xs (strip y) apart (ground arith)))

pub ensure_names-member :
    (x : String) (ys xs : List String) → member x xs ≡ true → member x (ensure_names xs ys) ≡ true
unfolding ensure_names
ensure_names-member x [] xs there = there
ensure_names-member x (y ∷ ys) xs there = ensure_names-member x ys (joined xs (strip y)) (
    if_elim (λ names. member x names ≡ true) (strip y == "" || member (strip y) xs) xs
      (xs ++ strip y ∷ []) (λ _. there) (λ _. ground (arith, member-append x xs (strip y ∷ []))))

pub ensure_names-includes_kept :
    (zs ys xs : List String) → includes xs zs ≡ true → includes (ensure_names xs ys) zs ≡ true
ensure_names-includes_kept [] ys xs there = refl
ensure_names-includes_kept (z ∷ zs) ys xs there =
    ground (arith, ensure_names-includes_kept zs ys xs, ensure_names-member z ys xs)

-- Names with a character and no space around them.
abbrev pub AreClean : List String → Type 0
AreClean [] = Unit
AreClean (y ∷ ys) = strip y ≡ y × (y == "") ≡ false × AreClean ys

joined-member : (y : String) (xs : List String) → (y == "") ≡ false → member y (joined xs y) ≡ true
unfolding member
joined-member y xs named = ground (arith, member-append y xs (y ∷ []), eq_refl y)

ensure_names-clean :
    (y : String) (ys xs : List String)
    → strip y ≡ y
    → ensure_names xs (y ∷ ys) ≡ ensure_names (joined xs y) ys
unfolding ensure_names
ensure_names-clean y ys xs clean = rw clean refl

pub ensure_names-includes :
    (ys xs : List String) → AreClean ys → includes (ensure_names xs ys) ys ≡ true
ensure_names-includes [] xs clean = refl
ensure_names-includes (y ∷ ys) xs clean =
    let there = joined-member y xs clean.1 in
    let kept = ensure_names-member y ys (joined xs y) there in
    subst (λ names. includes names (y ∷ ys) ≡ true) (sym (ensure_names-clean y ys xs clean.0))
      (ground (arith, kept, ensure_names-includes ys (joined xs y) clean.2))
