-- ===== src/Protocol/Sanitize.antt =====
-- `sanitize_card_action_tag` of grix_hermes/compat.py. `isalnum` is asked of ASCII characters: the
-- others count as letters.
use Prim.Native.Char.{Char, code}
use Prim.Native.String.{String, [], ◌∷◌}
use grix_hermes_python.Prelude.{
  Bool, Option, none, some, ◌≡◌, refl, ◌&&◌, ◌||◌, ◌==◌, leb, nat_eq, if◌then◌else◌,
}
use grix_hermes_python.Prelude.Text.{strip, is_space}
use grix_hermes_python.Prelude.Scan.{lower, replace}

abbrev in_range : Char → Char → Char → Bool
in_range a b c = leb (code a) (code c) && leb (code c) (code b)

-- ch.isalnum()
abbrev is_alnum : Char → Bool
is_alnum c = in_range "0" "9" c || in_range "a" "z" c || in_range "A" "Z" c || leb 128 (code c)

abbrev is_mark : Char → Bool
is_mark c = nat_eq (code c) (code "_") || nat_eq (code c) (code "-") || nat_eq (code c) (code ".")

unfoldable pub cleaned : String → String
cleaned [] = []
cleaned (c ∷ s) = (if is_alnum c || is_mark c then c else "_") ∷ cleaned s

unfoldable pub lstrip_marks : String → String
lstrip_marks [] = []
lstrip_marks (c ∷ s) = let rest = lstrip_marks s in if is_mark c then rest else c ∷ s

unfoldable pub rstrip_marks : String → String
rstrip_marks [] = []
rstrip_marks (c ∷ s) = let rest = rstrip_marks s in if is_mark c && rest == "" then [] else c ∷ rest

-- `s or "button"`
abbrev or_button : String → String
or_button s = if s == "" then "button" else s

-- The first argument is the function of the host, where the host has it.
unfoldable pub sanitize_card_action_tag : Option (String → String) → String → String
sanitize_card_action_tag (some native) tag = native tag
sanitize_card_action_tag none tag =
    or_button (rstrip_marks (lstrip_marks (cleaned (replace " " "_" (lower (strip tag))))))

sanitize_test : sanitize_card_action_tag none " .My Button! " ≡ "my_button"
unfolding sanitize_card_action_tag rstrip_marks lstrip_marks cleaned replace lower strip is_space
sanitize_test = refl

blank_test : sanitize_card_action_tag none " !- " ≡ "button"
unfolding sanitize_card_action_tag rstrip_marks lstrip_marks cleaned replace lower strip is_space
blank_test = refl
