-- ===== src/Persistence/StopResults/Keys.antt =====
-- The keys of grix_hermes/persistence/stop_result_outbox.py.
use Prim.Native.Char.{Char, code}
use Prim.Native.String.{String, [], ◌∷◌, ◌++◌}
use text.Mathlib.TextLemmas.{nil-append, cons-append}
use grix_hermes_python.Prelude.{◌≡◌, refl, ap, sym, ◌∙◌, Bool, false, ◌||◌, arith, nat_eq}
use grix_hermes_python.Persistence.StopResults.{join_key}

abbrev zero_char : Char
zero_char = "\0"

-- Does the text have the character that the key puts between the two ids?
unfoldable pub has_zero : String → Bool
has_zero [] = false
has_zero (c ∷ s) = nat_eq (code c) 0 || has_zero s

key-nil : (s : String) → join_key [] s ≡ zero_char ∷ s
unfolding join_key
key-nil s =
    nil-append ("\0" ++ s) ∙ cons-append zero_char [] s ∙ ap (λ r. zero_char ∷ r) (nil-append s)

key-cons : (c : Char) (a s : String) → join_key (c ∷ a) s ≡ c ∷ join_key a s
unfolding join_key
key-cons c a s = cons-append c a ("\0" ++ s)

same_head : (c d : Char) (x y : String) → c ∷ x ≡ d ∷ y → c ≡ d
same_head c d x y h = cc

same_tail : (c d : Char) (x y : String) → c ∷ x ≡ d ∷ y → x ≡ y
same_tail c d x y h = cc

-- Two keys of stop results are the same only if both ids are, where neither event id has the
-- separating character.
pub join_key-injective :
    (a b s t : String)
    → has_zero a ≡ false
    → has_zero b ≡ false
    → join_key a s ≡ join_key b t
    → (a ≡ b) × (s ≡ t)
unfolding join_key has_zero
join_key-injective [] [] s t ha hb h =
    (refl, same_tail zero_char zero_char s t (sym (key-nil s) ∙ h ∙ key-nil t))
join_key-injective [] (d ∷ b) s t ha hb h =
    let first = same_head zero_char d s (join_key b t) (sym (key-nil s) ∙ h ∙ key-cons d b t) in
    let zero_code : 0 ≡ code d = ap code first in absurd (ground arith)
join_key-injective (c ∷ a) [] s t ha hb h =
    let first = same_head c zero_char (join_key a s) t (sym (key-cons c a s) ∙ h ∙ key-nil t) in
    let zero_code : code c ≡ 0 = ap code first in absurd (ground arith)
join_key-injective (c ∷ a) (d ∷ b) s t ha hb h =
    let whole = sym (key-cons c a s) ∙ h ∙ key-cons d b t in
    let first = same_head c d (join_key a s) (join_key b t) whole in
    let rest = same_tail c d (join_key a s) (join_key b t) whole in
    let (same, behind) = join_key-injective a b s t (ground arith) (ground arith) rest in
    (ap (λ x. x ∷ a) first ∙ ap (λ r. d ∷ r) same, behind)
