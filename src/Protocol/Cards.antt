-- ===== src/Protocol/Cards.antt =====
-- The card actions of grix_hermes/protocol.py: `resolve_card_action` and its helpers. `native` is
-- the host's sanitizer, where it has one, and `loads` is `json.loads`. A payload is read from JSON,
-- so that no part of it is the same object as another.
use Prim.Native.Char.{code}
use grix_hermes_python.Prelude.{
  ℕ, ◌+◌, String, Bool, true, false, Option, none, some, List, [], ◌∷◌, ◌++◌, ◌==◌, ◌&&◌, ◌||◌, not,
  ltb, if◌then◌else◌,
}
use grix_hermes_python.Prelude.Dict.{Dict, get, has}
use grix_hermes_python.Prelude.Scan.{lower, starts_with, contains}
use grix_hermes_python.Prelude.Text.{strip}
use grix_hermes_python.Json.{Value, value_at, dict_of}
use grix_hermes_python.Protocol.Names.{normalize_text}
use grix_hermes_python.Protocol.Packets.{Result}
use grix_hermes_python.Protocol.Sanitize.{sanitize_card_action_tag}

abbrev card_action_keys : List String
card_action_keys =
    "card_action" ∷ "interactive_action" ∷ "action" ∷ "callback_action" ∷ "callback" ∷ []

abbrev card_action_tag_keys : List String
card_action_tag_keys =
    "tag" ∷ "action_tag" ∷ "action_type" ∷ "action" ∷ "type" ∷ "name" ∷ "key" ∷ []

abbrev card_action_value_keys : List String
card_action_value_keys =
    "value" ∷ "params" ∷ "payload" ∷ "data" ∷ "input" ∷ "state" ∷ "form_data" ∷ []

abbrev card_action_event_type_tokens : List String
card_action_event_type_tokens =
    "card_action" ∷ "card.action" ∷ "interactive_card_action" ∷ "interactive.action" ∷ []

abbrev max_interactive_content_bytes : ℕ
max_interactive_content_bytes = 32_768

-- The bytes of a character in UTF-8.
abbrev bytes_of : ℕ → ℕ
bytes_of n = if ltb n 0x80 then 1 else if ltb n 0x800 then 2 else if ltb n 0x10000 then 3 else 4

-- len(s.encode("utf-8"))
unfoldable pub encoded_size : String → ℕ
encoded_size String.[] = 0
encoded_size (String.◌∷◌ c s) = bytes_of (code c) + encoded_size s

-- `parsed if isinstance(parsed, (dict, list)) else None`, where `none` is `None`.
abbrev structure : Value → Option Value
structure (Value.object fs) = some (Value.object fs)
structure (Value.array vs) = some (Value.array vs)
structure _ = none

abbrev structure_of : Result Value → Option Value
structure_of (Result.raises message) = none
structure_of (Result.returns parsed) = structure parsed

unfoldable pub load_structured_content : (String → Result Value) → Value → Option Value
load_structured_content loads (Value.text s) =
    let trimmed = strip s in
    if ltb max_interactive_content_bytes (encoded_size trimmed)
      || not (starts_with "{" trimmed || starts_with "[" trimmed)
    then none
    else structure_of (loads trimmed)
load_structured_content loads value = structure value

unfoldable pub any_has : List String → Dict Value → Bool
any_has [] d = false
any_has (key ∷ keys) d = has key d || any_has keys d

-- The first of the texts under the keys that is not blank, or the empty text.
unfoldable pub first_text : List String → Dict Value → String
first_text [] d = ""
first_text (key ∷ keys) d =
    let later = first_text keys d in
    let text = normalize_text (value_at key d) in if text == "" then later else text

abbrev any_text : List String → Dict Value → Bool
any_text keys d = not (first_text keys d == "")

abbrev dict_or_none : Option (Dict Value) → Dict Value
dict_or_none none = []
dict_or_none (some d) = d

abbrev has_explicit_card_action_key : Option (Dict Value) → Bool
has_explicit_card_action_key none = false
has_explicit_card_action_key (some d) = any_has card_action_keys d

unfoldable pub any_in : List String → String → Bool
any_in [] s = false
any_in (token ∷ tokens) s = contains token s || any_in tokens s

unfoldable pub is_card_action_event_type : Value → Bool
is_card_action_event_type value =
    let lowered = lower (normalize_text value) in
    not (lowered == "")
    && (any_in card_action_event_type_tokens lowered
        || (contains "action" lowered
            && (contains "card" lowered || contains "interactive" lowered)))

unfoldable pub extract_action_tag : Option (String → String) → Dict Value → String
extract_action_tag native d =
    let tag = first_text card_action_tag_keys d in
    if tag == "" then "button" else sanitize_card_action_tag native tag

-- The value of the first key that is there, which may be `None`.
unfoldable pub value_of_first : List String → Dict Value → Value
value_of_first [] d = Value.null
value_of_first (key ∷ keys) d = elim (get key d) [
  | none ↦ value_of_first keys d
  | some value ↦ value
]

unfoldable pub extract_action_value : Dict Value → Value
extract_action_value d = value_of_first card_action_value_keys d

-- A candidate is a part of the payload, or the structured content itself.
pub data Candidate : Type 0 where
  part : Value → Candidate
  content : Value → Candidate

abbrev is_none : Value → Bool
is_none Value.null = true
is_none _ = false

-- v if v is not None else w
abbrev unless_none : Value → Value → Value
unless_none v w = if is_none v then w else v

-- What a fallback is good for, as a value.
abbrev fallback_of : Option Value → Value
fallback_of none = Value.null
fallback_of (some (Value.object fs)) =
    unless_none (extract_action_value (dict_of fs)) (Value.object fs)
fallback_of (some value) = value

abbrev action_of : Option (String → String) → Dict Value → Value → Option (String × Value)
action_of native d value =
    if is_none value && not (any_text card_action_tag_keys d)
    then none
    else some (extract_action_tag native d, value)

unfoldable pub normalize_card_action_candidate :
    Option (String → String) → Candidate → Option Value → Option (String × Value)
normalize_card_action_candidate native (Candidate.part (Value.object fs)) fallback =
    action_of native (dict_of fs)
      (unless_none (extract_action_value (dict_of fs)) (fallback_of fallback))
normalize_card_action_candidate native (Candidate.part Value.null) fallback = none
normalize_card_action_candidate native (Candidate.part (Value.text s)) fallback =
    if s == "" then none else some ("button", Value.text s)
normalize_card_action_candidate native (Candidate.part value) fallback = some ("button", value)
normalize_card_action_candidate native (Candidate.content (Value.object fs)) fallback =
    action_of native (dict_of fs) (extract_action_value (dict_of fs))
normalize_card_action_candidate native (Candidate.content value) fallback = some ("button", value)

-- The parts of one container under the keys that it has.
unfoldable pub parts : List String → Dict Value → List Candidate
parts [] d = []
parts (key ∷ keys) d =
    let rest = parts keys d in
    elim (get key d) [ none ↦ rest | some value ↦ Candidate.part value ∷ rest ]

abbrev content_candidates : Bool → Option Value → List Candidate
content_candidates true (some (Value.object fs)) =
    if any_has card_action_value_keys (dict_of fs) || any_text card_action_tag_keys (dict_of fs)
    then Candidate.content (Value.object fs) ∷ []
    else []
content_candidates _ _ = []

-- What the generator yields, in order.
unfoldable pub iter_card_action_candidates :
    Dict Value → Option (Dict Value) → Option (Dict Value) → Option Value → List Candidate
iter_card_action_candidates payload biz_card channel_data structured_content =
    parts card_action_keys payload
    ++ (parts card_action_keys (dict_or_none channel_data)
        ++ (parts card_action_keys (dict_or_none biz_card)
            ++ content_candidates (is_card_action_event_type (value_at "event_type" payload))
                structured_content))

-- The loop over the candidates.
unfoldable pub first_action :
    Option (String → String) → Option Value → List Candidate → Option (String × Value)
first_action native fallback [] = none
first_action native fallback (candidate ∷ rest) =
    elim (normalize_card_action_candidate native candidate fallback) [
      | none ↦ first_action native fallback rest
      | some action ↦ some action
    ]

-- The tag, the value, which may be `None`, and whether there is a signal.
pub record CardAction : Type 0 where
  pub tag : Option String
  pub value : Value
  pub has_signal : Bool

abbrev card_action : Option (String × Value) → Bool → CardAction
card_action none signal = record { tag = none; value = Value.null; has_signal = signal }
card_action (some action) signal = record {
  tag = some action.0;
  value = action.1;
  has_signal = true;
}

unfoldable pub resolve_card_action :
    Option (String → String)
    → (String → Result Value)
    → Dict Value
    → Option (Dict Value)
    → Option (Dict Value)
    → Value
    → CardAction
resolve_card_action native loads payload biz_card channel_data content_value =
    let structured_content = load_structured_content loads content_value in
    card_action
      (first_action native structured_content
        (iter_card_action_candidates payload biz_card channel_data structured_content))
      (is_card_action_event_type (value_at "event_type" payload)
        || any_has card_action_keys payload
        || has_explicit_card_action_key channel_data
        || has_explicit_card_action_key biz_card)
