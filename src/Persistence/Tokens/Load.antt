-- ===== src/Persistence/Tokens/Load.antt =====
-- What `_persist` of grix_hermes/persistence/terminal_commit_token_store.py writes, as JSON, and
-- `_load`.
use grix_hermes_python.Prelude.{String, Option, none, some, [], ◌∷◌, ◌&&◌, ◌==◌, not, if◌then◌else◌}
use grix_hermes_python.Prelude.Dict.{Dict, put}
use grix_hermes_python.Prelude.Int.{pos}
use grix_hermes_python.Prelude.Text.{strip}
use grix_hermes_python.Json.{Value, value_at, dict_of}
use grix_hermes_python.Json.Equality.{value_eq}
use grix_hermes_python.Persistence.Fields.{object_of}
use grix_hermes_python.Persistence.File.{Disk, Outcome, read_json_object}

-- `dict(self._tokens)`, as JSON.
unfoldable pub tokens_dict : Dict String → Dict Value
tokens_dict [] = []
tokens_dict ((event_id, token) ∷ d) = (event_id, Value.text token) ∷ tokens_dict d

-- What `_persist` hands to `atomic_write_json`.
unfoldable pub file_dict : Dict String → Dict Value
file_dict tokens =
    ("version", Value.number (pos 1)) ∷ ("tokens", object_of (tokens_dict tokens)) ∷ []

-- The loop over `file["tokens"]`: a blank id or token, and what is no text, is passed over.
unfoldable pub load_tokens : Dict Value → Dict String → Dict String
load_tokens [] tokens = tokens
load_tokens ((event_id, Value.text token) ∷ rest) tokens = load_tokens rest (
    if not (strip event_id == "") && not (strip token == "")
    then put event_id token tokens
    else tokens)
load_tokens ((event_id, _) ∷ rest) tokens = load_tokens rest tokens

unfoldable pub read_file : Dict Value → Outcome (Dict String)
read_file file = elim (value_at "tokens" file) [
  | Value.object fs ↦
      if value_eq (value_at "version" file) (Value.number (pos 1))
      then Outcome.returned (load_tokens (dict_of fs) [])
      else Outcome.raised
  | _ ↦ Outcome.raised
]

-- What a store has after `__init__`, or that it raises.
unfoldable pub load : Option String → Disk → Outcome (Dict String)
load file_path disk = elim (read_json_object file_path disk) [
  | Outcome.raised ↦ Outcome.raised
  | Outcome.returned none ↦ Outcome.returned []
  | Outcome.returned (some file) ↦ read_file file
]
