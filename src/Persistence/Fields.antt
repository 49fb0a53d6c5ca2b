-- ===== src/Persistence/Fields.antt =====
-- How the `to_dict` methods and the `_load` methods of grix_hermes/persistence write and read the
-- fields of an entry.
use grix_hermes_python.Prelude.{ℕ, String, Option, none, some, [], ◌∷◌, if◌then◌else◌}
use grix_hermes_python.Prelude.Dict.{Dict}
use grix_hermes_python.Prelude.Int.{ℤ, pos, pos_part, leb_ℤ}
use grix_hermes_python.Json.{Value, fields_of}

abbrev pub object_of : Dict Value → Value
object_of d = Value.object (fields_of d)

-- A key that is written where there is a value.
abbrev pub number_field : String → Option ℤ → Dict Value
number_field key none = []
number_field key (some n) = (key, Value.number n) ∷ []

abbrev pub text_field : String → Option String → Dict Value
text_field key none = []
text_field key (some s) = (key, Value.text s) ∷ []

-- The number, or the default where it is none.
abbrev pub number_or : ℤ → Option ℤ → ℤ
number_or default none = default
number_or default (some n) = n

abbrev pub positive : Option ℤ → Option ℤ
positive none = none
positive (some n) = if leb_ℤ (pos 1) n then some n else none

-- A natural number of at least `least`, or `least`.
abbrev pub count_from : ℕ → Option ℤ → ℕ
count_from least none = least
count_from least (some n) = if leb_ℤ (pos least) n then pos_part n else least

abbrev pub text_or_none : Value → Option String
text_or_none (Value.text s) = some s
text_or_none _ = none
