-- ===== src/Persistence/StopResults/Load.antt =====
-- What `_persist` of grix_hermes/persistence/stop_result_outbox.py writes, as JSON, and `_load`. The
-- time is the same for all calls of `_now_ms` of one `_load`.
use grix_hermes_python.Prelude.{
  ℕ, String, Bool, Option, none, some, [], ◌∷◌, ◌&&◌, ◌==◌, if◌then◌else◌,
}
use grix_hermes_python.Prelude.Dict.{Dict, put}
use grix_hermes_python.Prelude.Int.{pos}
use grix_hermes_python.Json.{Value, value_at, dict_of}
use grix_hermes_python.Json.Numbers.{number_of}
use grix_hermes_python.Json.Equality.{value_eq}
use grix_hermes_python.Persistence.Payload.{Payload}
use grix_hermes_python.Persistence.Fields.{
  object_of, text_field, number_or, count_from, text_or_none,
}
use grix_hermes_python.Persistence.File.{Disk, Outcome, read_json_object}
use grix_hermes_python.Persistence.StopResults.{
  StopResultOutboxEntry, entry_key, is_durable_stop_result,
}

-- `StopResultOutboxEntry.to_dict`
unfoldable pub entry_dict : StopResultOutboxEntry → Dict Value
entry_dict e =
    ("key", Value.text e.key)
    ∷ ("payload", object_of e.payload)
    ∷ ("generation", Value.number (pos e.generation))
    ∷ ("createdAt", Value.number e.created_at)
    ∷ ("updatedAt", Value.number e.updated_at)
    ∷ ("attempts", Value.number (pos e.attempts))
    ∷ ("nextAttemptAt", Value.number e.next_attempt_at)
    ∷ text_field "lastError" e.last_error

unfoldable pub pending_dict : Dict StopResultOutboxEntry → Dict Value
pending_dict [] = []
pending_dict ((k, e) ∷ d) = (k, object_of (entry_dict e)) ∷ pending_dict d

-- What `_persist` hands to `atomic_write_json`.
unfoldable pub file_dict : Dict StopResultOutboxEntry → Dict Value
file_dict pending =
    ("version", Value.number (pos 1)) ∷ ("pending", object_of (pending_dict pending)) ∷ []

unfoldable pub entry_from : ℕ → String → Payload → Dict Value → StopResultOutboxEntry
entry_from now key payload raw = record {
  key = key;
  payload = payload;
  generation = count_from 1 (number_of (value_at "generation" raw));
  created_at = number_or (pos now) (number_of (value_at "createdAt" raw));
  updated_at = number_or (pos now) (number_of (value_at "updatedAt" raw));
  attempts = count_from 0 (number_of (value_at "attempts" raw));
  next_attempt_at = number_or (pos 0) (number_of (value_at "nextAttemptAt" raw));
  last_error = text_or_none (value_at "lastError" raw);
}

abbrev accepts : String → Payload → Dict Value → Bool
accepts key payload raw =
    is_durable_stop_result payload
    && value_eq (Value.text key) (value_at "key" raw)
    && key == entry_key payload

unfoldable pub read_entry : ℕ → String → Dict Value → Option StopResultOutboxEntry
read_entry now key raw = elim (value_at "payload" raw) [
  | Value.object fs ↦
      if accepts key (dict_of fs) raw then some (entry_from now key (dict_of fs) raw) else none
  | _ ↦ none
]

-- The loop over `file["pending"]`; what is no object is passed over.
unfoldable pub load_entries :
    ℕ → Dict Value → Dict StopResultOutboxEntry → Dict StopResultOutboxEntry
load_entries now [] pending = pending
load_entries now ((key, Value.object fs) ∷ rest) pending = elim (read_entry now key (dict_of fs)) [
  | none ↦ load_entries now rest pending
  | some e ↦ load_entries now rest (put key e pending)
]
load_entries now ((key, _) ∷ rest) pending = load_entries now rest pending

unfoldable pub read_file : ℕ → Dict Value → Outcome (Dict StopResultOutboxEntry)
read_file now file = elim (value_at "pending" file) [
  | Value.object fs ↦
      if value_eq (value_at "version" file) (Value.number (pos 1))
      then Outcome.returned (load_entries now (dict_of fs) [])
      else Outcome.raised
  | _ ↦ Outcome.raised
]

-- What an outbox has pending after `__init__`, or that it raises.
unfoldable pub load : Option String → ℕ → Disk → Outcome (Dict StopResultOutboxEntry)
load file_path now disk = elim (read_json_object file_path disk) [
  | Outcome.raised ↦ Outcome.raised
  | Outcome.returned none ↦ Outcome.returned []
  | Outcome.returned (some file) ↦ read_file now file
]
