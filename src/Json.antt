-- ===== src/Json.antt =====
-- What `json.loads` gives, and what Python's `str`, `repr`, `int`, `bool` and `==` make of it.
-- Numbers are integers. The text of a list or a dict is Python's, but that no character above the
-- ASCII range is escaped in it.
pub mod Numbers
pub mod Equality
use Prim.Native.Char.{Char, code}
use Prim.Native.String
use Prim.Native.String.{String, ◌++◌}
use grix_hermes_python.Prelude.{
  ℕ, zero, suc, ◌+◌, ◌/◌, ◌%◌, ◌≡◌, refl, ap, Bool, true, false, Option, none, some, List, [], ◌∷◌,
  not, ◌||◌, ◌&&◌, ◌==◌, nat_eq, ltb, if◌then◌else◌, eq_iff, arith,
}
use grix_hermes_python.Prelude.Dict.{Dict, get}
use grix_hermes_python.Prelude.Int.{ℤ, pos, negsuc}

mutual
  pub data Value : Type 0 where
    null : Value
    boolean : Bool → Value
    number : ℤ → Value
    text : String → Value
    array : Items → Value
    object : Fields → Value

  pub data Items : Type 0 where
    nil : Items
    item : Value → Items → Items

  pub data Fields : Type 0 where
    end : Fields
    field : String → Value → Fields → Fields

-- An object as a dict, and a dict as an object.
unfoldable pub dict_of : Fields → Dict Value
dict_of Fields.end = []
dict_of (Fields.field k v fs) = (k, v) ∷ dict_of fs

unfoldable pub fields_of : Dict Value → Fields
fields_of [] = Fields.end
fields_of ((k, v) ∷ d) = Fields.field k v (fields_of d)

unfoldable pub list_of : Items → List Value
list_of Items.nil = []
list_of (Items.item v vs) = v ∷ list_of vs

unfoldable pub items_of : List Value → Items
items_of [] = Items.nil
items_of (v ∷ vs) = Items.item v (items_of vs)

pub dict_of-fields_of : (d : Dict Value) → dict_of (fields_of d) ≡ d
unfolding dict_of fields_of
dict_of-fields_of [] = refl
dict_of-fields_of ((k, v) ∷ d) = ap (λ (t : Dict Value). (k, v) ∷ t) (dict_of-fields_of d)

pub list_of-items_of : (vs : List Value) → list_of (items_of vs) ≡ vs
unfolding list_of items_of
list_of-items_of [] = refl
list_of-items_of (v ∷ vs) = ap (λ (t : List Value). v ∷ t) (list_of-items_of vs)

-- payload.get(key), which is `None` where the key is missing
unfoldable pub value_at : String → Dict Value → Value
value_at key payload = elim (get key payload) [ none ↦ Value.null | some v ↦ v ]

-- bool(v)
unfoldable pub truthy : Value → Bool
truthy Value.null = false
truthy (Value.boolean b) = b
truthy (Value.number (pos n)) = not (nat_eq n 0)
truthy (Value.number (negsuc n)) = true
truthy (Value.text s) = not (s == "")
truthy (Value.array Items.nil) = false
truthy (Value.array (Items.item v vs)) = true
truthy (Value.object Fields.end) = false
truthy (Value.object (Fields.field k v fs)) = true

-- `v is True`
unfoldable pub is_true : Value → Bool
is_true (Value.boolean b) = b
is_true _ = false

abbrev digit : ℕ → String
digit n =
    if nat_eq n 0
    then "0"
    else if nat_eq n 1
    then "1"
    else if nat_eq n 2
    then "2"
    else if nat_eq n 3
    then "3"
    else if nat_eq n 4
    then "4"
    else if nat_eq n 5
    then "5"
    else if nat_eq n 6
    then "6"
    else if nat_eq n 7
    then "7"
    else if nat_eq n 8
    then "8"
    else if nat_eq n 9
    then "9"
    else if nat_eq n 10
    then "a"
    else if nat_eq n 11
    then "b"
    else if nat_eq n 12
    then "c"
    else if nat_eq n 13
    then "d"
    else if nat_eq n 14
    then "e"
    else "f"

-- The digits of `n` before `after`. A number has no more digits than its value plus one.
digits : ℕ → ℕ → String → String
digits zero n after = after
digits (suc fuel) n after =
    let longer = digits fuel (n / 10) (digit (n % 10) ++ after) in
    if ltb n 10 then digit n ++ after else longer

-- str(n)
unfoldable pub decimal : ℕ → String
unfolding digits
decimal n = digits (suc n) n ""

unfoldable pub decimal_ℤ : ℤ → String
unfolding decimal
decimal_ℤ (pos n) = decimal n
decimal_ℤ (negsuc n) = "-" ++ decimal (suc n)

has_char : ℕ → String → Bool
has_char k String.[] = false
has_char k (String.◌∷◌ c s) = nat_eq (code c) k || has_char k s

-- One character inside quotes with the code `quote`.
escape_char : ℕ → Char → String
escape_char quote c =
    let n = code c in
    let itself = String.◌∷◌ c String.[] in
    if nat_eq n 92 || nat_eq n quote
    then "\\" ++ itself
    else if nat_eq n 10
    then "\\n"
    else if nat_eq n 13
    then "\\r"
    else if nat_eq n 9
    then "\\t"
    else if ltb n 32 || nat_eq n 127
    then "\\x" ++ (digit (n / 16) ++ digit (n % 16))
    else itself

escape : ℕ → String → String
escape quote String.[] = String.[]
escape quote (String.◌∷◌ c s) = escape_char quote c ++ escape quote s

-- repr(s): in double quotes where only these avoid an escape.
quoted : String → String
unfolding has_char escape_char escape
quoted s =
    if has_char 39 s && not (has_char 34 s)
    then "\"" ++ (escape 34 s ++ "\"")
    else "'" ++ (escape 39 s ++ "'")

mutual
  unfolding quoted decimal_ℤ

  repr : Value → String
  repr Value.null = "None"
  repr (Value.boolean b) = if b then "True" else "False"
  repr (Value.number n) = decimal_ℤ n
  repr (Value.text s) = quoted s
  repr (Value.array vs) = "[" ++ (repr_items true vs ++ "]")
  repr (Value.object fs) = "{" ++ (repr_fields true fs ++ "}")

  repr_items : Bool → Items → String
  repr_items first Items.nil = ""
  repr_items first (Items.item v vs) =
      (if first then "" else ", ") ++ (repr v ++ repr_items false vs)

  repr_fields : Bool → Fields → String
  repr_fields first Fields.end = ""
  repr_fields first (Fields.field k v fs) =
      (if first then "" else ", ") ++ (quoted k ++ (": " ++ (repr v ++ repr_fields false fs)))

-- str(v)
unfoldable pub str : Value → String
unfolding repr
str (Value.text s) = s
str v = repr v

-- str(v or "")
unfoldable pub text_of : Value → String
unfolding truthy str
text_of v = if truthy v then str v else ""

pub text_of-text : (s : String) → text_of (Value.text s) ≡ s
unfolding text_of
text_of-text s = ground (arith, eq_iff s "")

decimal_test : decimal 4096 ≡ "4096"
unfolding decimal
decimal_test = refl

repr_test :
    str (
      Value.object (
        Fields.field "a"
          (Value.array
            (Items.item (Value.text "it's") (Items.item (Value.number (negsuc 11)) Items.nil)))
          (Fields.field "b" Value.null Fields.end)))
    ≡ "{'a': [\"it's\", -12], 'b': None}"
unfolding str repr quoted
repr_test = refl
