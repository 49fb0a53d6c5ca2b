-- ===== src/Protocol/Names.antt =====
-- The values of the protocol made numbers, texts, ids and lists of names, by the helpers of
-- grix_hermes/protocol.py.
use grix_hermes_python.Prelude.{
  String, none, some, List, [], ◌∷◌, ◌++◌, ◌==◌, ◌||◌, member, map, if◌then◌else◌,
}
use grix_hermes_python.Prelude.Int.{ℤ, min_ℤ, max_ℤ}
use grix_hermes_python.Prelude.Text.{strip}
use grix_hermes_python.Json.{Value, text_of, decimal_ℤ}
use grix_hermes_python.Json.Numbers.{int_of}

-- `clamp_int` on what `int` gives: the fallback is not clamped.
unfoldable pub clamp_int : Value → ℤ → ℤ → ℤ → ℤ
clamp_int value fallback minimum maximum = elim (int_of value) [
  | none ↦ fallback
  | some numeric ↦ max_ℤ minimum (min_ℤ maximum numeric)
]

-- str(value or "").strip()
unfoldable pub normalize_text : Value → String
normalize_text value = strip (text_of value)

unfoldable pub normalize_id : Value → String
normalize_id (Value.text s) = strip s
normalize_id (Value.number n) = decimal_ℤ n
normalize_id _ = ""

-- The loop of `normalize_names`, over the texts that it makes of the values: `seen` are the names
-- taken so far, the last one first.
unfoldable pub names_from : List String → List String → List String
names_from seen [] = []
names_from seen (value ∷ rest) =
    let taken = names_from (value ∷ seen) rest in
    let passed = names_from seen rest in
    if value == "" || member value seen then passed else value ∷ taken

unfoldable pub normalize_names : List Value → List String
normalize_names values = names_from [] (map normalize_text values)

-- The loop of `_ensure_names` over texts, with the names so far.
unfoldable pub ensure_names : List String → List String → List String
ensure_names values [] = values
ensure_names values (raw ∷ rest) =
    let name = strip raw in
    ensure_names (if name == "" || member name values then values else values ++ name ∷ []) rest
