-- ===== src/Persistence/TerminalOutbox/RoundTrip/Letters.antt =====
-- The dead letters that `_load` of grix_hermes/persistence/terminal_outbox.py reads back.
use grix_hermes_python.Prelude.{
  ℕ, String, ◌≡◌, refl, ap, sym, ◌∙◌, true, Option, none, some, List, [], ◌∷◌, ◌++◌, ◌||◌, ◌==◌,
  append-nil, append_assoc,
}
use grix_hermes_python.Prelude.Dict.{Dict, get}
use grix_hermes_python.Prelude.Int.{ℤ}
use grix_hermes_python.Json.{Value, value_at, truthy, dict_of-fields_of}
use grix_hermes_python.Json.Numbers.{number_of, int_of}
use grix_hermes_python.Persistence.File.{Outcome}
use grix_hermes_python.Persistence.TerminalOutbox.{TerminalDeadLetter, is_event_result_payload}
use grix_hermes_python.Persistence.Fields.{object_of, number_field, text_field, text_or_none}
use grix_hermes_python.Persistence.TerminalOutbox.Load.{
  letter_dict, letter_values, read_letter, load_letters,
}

-- A dead letter as the outbox makes it.
pub record IsSoundLetter (l : TerminalDeadLetter) : Type 0 where
  pub terminal : is_event_result_payload l.payload ≡ true
  pub command : l.response_cmd == "send_nack" || l.response_cmd == "error" ≡ true
  pub dated : truthy (Value.number l.rejected_at) ≡ true

abbrev pub AllSoundLetters : List TerminalDeadLetter → Type 0
AllSoundLetters [] = Unit
AllSoundLetters (l ∷ ls) = IsSoundLetter l × AllSoundLetters ls

code_tail :
    (a : Option ℤ) (b : Option String)
    → number_of (value_at "code" (number_field "code" a ++ text_field "message" b)) ≡ a
unfolding value_at get number_of
code_tail none none = refl
code_tail none (some t) = refl
code_tail (some n) b = refl

message_tail :
    (a : Option ℤ) (b : Option String)
    → text_or_none (value_at "message" (number_field "code" a ++ text_field "message" b)) ≡ b
unfolding value_at get
message_tail none none = refl
message_tail none (some t) = refl
message_tail (some n) none = refl
message_tail (some n) (some t) = refl

read_letter-letter_dict :
    (now : ℕ) (l : TerminalDeadLetter)
    → IsSoundLetter l
    → read_letter now (letter_dict l) ≡ Outcome.returned (some l)
unfolding read_letter value_at get letter_dict int_of
read_letter-letter_dict now l h = simp (
  dict_of-fields_of l.payload,
  h.terminal,
  h.command,
  h.dated,
  code_tail l.code l.message,
  message_tail l.code l.message,
)

load_one :
    (now : ℕ) (raw : Dict Value) (l : TerminalDeadLetter) (rest : List Value)
    (before : List TerminalDeadLetter)
    → read_letter now raw ≡ Outcome.returned (some l)
    → load_letters now (object_of raw ∷ rest) before ≡ load_letters now rest (before ++ l ∷ [])
unfolding load_letters
load_one now raw l rest before h = rw (dict_of-fields_of raw, h, load_letters)

pub load_letters-letter_values :
    (now : ℕ) (ls before : List TerminalDeadLetter)
    → AllSoundLetters ls
    → load_letters now (letter_values ls) before ≡ Outcome.returned (before ++ ls)
unfolding load_letters letter_values
load_letters-letter_values now [] before sound = ap Outcome.returned (sym (append-nil before))
load_letters-letter_values now (l ∷ ls) before (here, sound) =
    load_one now (letter_dict l) l (letter_values ls) before (read_letter-letter_dict now l here)
    ∙ load_letters-letter_values now ls (before ++ l ∷ []) sound
    ∙ ap Outcome.returned (append_assoc before (l ∷ []) ls)
