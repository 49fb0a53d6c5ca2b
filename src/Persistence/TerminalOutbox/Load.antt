-- ===== src/Persistence/TerminalOutbox/Load.antt =====
-- What `_persist` of grix_hermes/persistence/terminal_outbox.py writes, as JSON, and `_load`. The
-- time is the same for all calls of `_now_ms` of one `_load`.
use grix_hermes_python.Prelude.{
  ℕ, ◌-◌, String, Bool, Option, none, some, List, [], ◌∷◌, ◌++◌, ◌&&◌, ◌||◌, length, drop,
  if◌then◌else◌, ◌==◌,
}
use grix_hermes_python.Prelude.Dict.{Dict, put}
use grix_hermes_python.Prelude.Int.{ℤ, pos}
use grix_hermes_python.Json.{Value, value_at, truthy, dict_of, list_of, items_of}
use grix_hermes_python.Json.Numbers.{number_of, int_of}
use grix_hermes_python.Json.Equality.{value_eq}
use grix_hermes_python.Persistence.Payload.{Payload}
use grix_hermes_python.Persistence.Fields.{
  object_of, number_field, text_field, number_or, positive, count_from, text_or_none,
}
use grix_hermes_python.Persistence.File.{Disk, Outcome, read_json_object}
use grix_hermes_python.Persistence.TerminalOutbox.{
  TerminalOutboxEntry, TerminalDeadLetter, Snapshot, is_event_result_payload, max_dead_letters,
}

-- `TerminalOutboxEntry.to_dict`
unfoldable pub entry_dict : TerminalOutboxEntry → Dict Value
entry_dict e =
    ("payload", object_of e.payload)
    ∷ ("generation", Value.number (pos e.generation))
    ∷ ("createdAt", Value.number e.created_at)
    ∷ ("updatedAt", Value.number e.updated_at)
    ∷ ("attempts", Value.number (pos e.attempts))
    ∷ ("nextAttemptAt", Value.number e.next_attempt_at)
    ∷ (number_field "deliveryStartedAt" e.delivery_started_at
        ++ text_field "lastError" e.last_error)

-- `TerminalDeadLetter.to_dict`
unfoldable pub letter_dict : TerminalDeadLetter → Dict Value
letter_dict l =
    ("payload", object_of l.payload)
    ∷ ("rejectedAt", Value.number l.rejected_at)
    ∷ ("responseCmd", Value.text l.response_cmd)
    ∷ (number_field "code" l.code ++ text_field "message" l.message)

unfoldable pub pending_dict : Dict TerminalOutboxEntry → Dict Value
pending_dict [] = []
pending_dict ((k, e) ∷ d) = (k, object_of (entry_dict e)) ∷ pending_dict d

unfoldable pub letter_values : List TerminalDeadLetter → List Value
letter_values [] = []
letter_values (l ∷ ls) = object_of (letter_dict l) ∷ letter_values ls

-- The snapshot that `_persist` hands to `atomic_write_json`.
unfoldable pub snapshot_dict : Snapshot → Dict Value
snapshot_dict s =
    ("version", Value.number (pos 1))
    ∷ ("pending", object_of (pending_dict s.pending))
    ∷ ("deadLetters", Value.array (items_of (letter_values s.dead_letters)))
    ∷ []

-- An output guard counts as sent after a restart: at the time of its last change, or now.
unfoldable pub started_after : ℕ → Payload → Dict Value → Option ℤ
started_after now payload raw =
    let marked = positive (number_of (value_at "deliveryStartedAt" raw)) in
    if value_eq (value_at "code" payload) (Value.text "agent_output_unconfirmed")
    then some (number_or (number_or (pos now) (number_of (value_at "updatedAt" raw))) marked)
    else marked

unfoldable pub entry_from : ℕ → Payload → Dict Value → TerminalOutboxEntry
unfolding started_after
entry_from now payload raw = record {
  payload = payload;
  generation = count_from 1 (number_of (value_at "generation" raw));
  created_at = number_or (pos now) (number_of (value_at "createdAt" raw));
  updated_at = number_or (pos now) (number_of (value_at "updatedAt" raw));
  attempts = count_from 0 (number_of (value_at "attempts" raw));
  next_attempt_at = number_or (pos 0) (number_of (value_at "nextAttemptAt" raw));
  delivery_started_at = started_after now payload raw;
  last_error = text_or_none (value_at "lastError" raw);
}

abbrev accepts : String → Payload → Bool
accepts event_id payload =
    value_eq (Value.text event_id) (value_at "event_id" payload) && is_event_result_payload payload

-- An entry whose payload is no object is passed over if the payload is false, and else its look-up
-- raises.
unfoldable pub read_entry : ℕ → String → Dict Value → Outcome (Option TerminalOutboxEntry)
read_entry now event_id raw = elim (value_at "payload" raw) [
  | Value.object fs ↦
      if accepts event_id (dict_of fs)
      then Outcome.returned (some (entry_from now (dict_of fs) raw))
      else Outcome.returned none
  | other ↦ if truthy other then Outcome.raised else Outcome.returned none
]

-- The loop over `file["pending"]`; what is no object is passed over.
unfoldable pub load_entries :
    ℕ → Dict Value → Dict TerminalOutboxEntry → Outcome (Dict TerminalOutboxEntry)
load_entries now [] pending = Outcome.returned pending
load_entries now ((event_id, Value.object fs) ∷ rest) pending =
    elim (read_entry now event_id (dict_of fs)) [
      | Outcome.raised ↦ Outcome.raised
      | Outcome.returned none ↦ load_entries now rest pending
      | Outcome.returned (some e) ↦ load_entries now rest (put event_id e pending)
    ]
load_entries now ((event_id, _) ∷ rest) pending = load_entries now rest pending

-- `int(item.get("rejectedAt") or _now_ms())`
abbrev rejected_from : ℕ → Value → Option ℤ
rejected_from now v = if truthy v then int_of v else some (pos now)

unfoldable pub read_letter : ℕ → Dict Value → Outcome (Option TerminalDeadLetter)
read_letter now raw = elim (value_at "payload" raw) [
  | Value.object fs ↦ elim (value_at "responseCmd" raw) [
    | Value.text cmd ↦
        if is_event_result_payload (dict_of fs) && (cmd == "send_nack" || cmd == "error")
        then elim (rejected_from now (value_at "rejectedAt" raw)) [
          | none ↦ Outcome.raised
          | some rejected_at ↦ Outcome.returned (
              some (record {
                payload = dict_of fs;
                rejected_at = rejected_at;
                response_cmd = cmd;
                code = number_of (value_at "code" raw);
                message = text_or_none (value_at "message" raw);
              }))
        ]
        else Outcome.returned none
    | _ ↦ Outcome.returned none
  ]
  | _ ↦ Outcome.returned none
]

unfoldable pub load_letters :
    ℕ → List Value → List TerminalDeadLetter → Outcome (List TerminalDeadLetter)
load_letters now [] letters = Outcome.returned letters
load_letters now (Value.object fs ∷ rest) letters = elim (read_letter now (dict_of fs)) [
  | Outcome.raised ↦ Outcome.raised
  | Outcome.returned none ↦ load_letters now rest letters
  | Outcome.returned (some l) ↦ load_letters now rest (letters ++ l ∷ [])
]
load_letters now (_ ∷ rest) letters = load_letters now rest letters

abbrev pub last_letters : Outcome (List TerminalDeadLetter) → Outcome (List TerminalDeadLetter)
last_letters Outcome.raised = Outcome.raised
last_letters (Outcome.returned ls) = Outcome.returned (drop (length ls - max_dead_letters) ls)

abbrev pub letters_from : ℕ → Value → Outcome (List TerminalDeadLetter)
letters_from now (Value.array vs) = last_letters (load_letters now (list_of vs) [])
letters_from now _ = Outcome.returned []

abbrev pub both_read :
    Outcome (Dict TerminalOutboxEntry) → Outcome (List TerminalDeadLetter) → Outcome Snapshot
both_read Outcome.raised ls = Outcome.raised
both_read (Outcome.returned pending) Outcome.raised = Outcome.raised
both_read (Outcome.returned pending) (Outcome.returned ls) =
    Outcome.returned (record { pending = pending; dead_letters = ls })

unfoldable pub read_file : ℕ → Dict Value → Outcome Snapshot
read_file now file = elim (value_at "pending" file) [
  | Value.object fs ↦
      if value_eq (value_at "version" file) (Value.number (pos 1))
      then both_read (load_entries now (dict_of fs) [])
          (letters_from now (value_at "deadLetters" file))
      else Outcome.raised
  | _ ↦ Outcome.raised
]

-- What an outbox has after `__init__`, or that it raises.
unfoldable pub load : Option String → ℕ → Disk → Outcome Snapshot
load file_path now disk = elim (read_json_object file_path disk) [
  | Outcome.raised ↦ Outcome.raised
  | Outcome.returned none ↦ Outcome.returned (record { pending = []; dead_letters = [] })
  | Outcome.returned (some file) ↦ read_file now file
]
