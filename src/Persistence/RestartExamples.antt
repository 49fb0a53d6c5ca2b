-- ===== src/Persistence/RestartExamples.antt =====
-- Restarts of the stores of grix_hermes/persistence at concrete histories, and runs of `_load`.
use grix_hermes_python.Prelude.{String, true, false, ◌≡◌, refl, none, some, List, [], ◌∷◌, arith}
use grix_hermes_python.Prelude.Dict.{Dict, get}
use grix_hermes_python.Prelude.Int.{pos}
use grix_hermes_python.Json.{Value, value_at, truthy, dict_of, fields_of}
use grix_hermes_python.Json.Equality.{value_eq}
use grix_hermes_python.Persistence.Payload.{Payload}
use grix_hermes_python.Persistence.Fields.{object_of}
use grix_hermes_python.Persistence.File.{Env, Outcome, Disk, read_json_object}
use grix_hermes_python.Persistence.TerminalOutbox
use grix_hermes_python.Persistence.TerminalOutbox.{
  TerminalOutboxEntry, TerminalRejection, Snapshot, new_entry,
}
use grix_hermes_python.Persistence.TerminalOutbox.History.{Operation, replay}
use grix_hermes_python.Persistence.TerminalOutbox.Load.{load, read_file, load_entries, read_entry}
use grix_hermes_python.Persistence.TerminalOutbox.Restart.{load-replay, disk_of, recovered}
use grix_hermes_python.Persistence.StopResults
use grix_hermes_python.Persistence.StopResults.{StopResultOutboxEntry}
use grix_hermes_python.Persistence.StopResults.Laws as StopLaws
use grix_hermes_python.Persistence.StopResults.Load as StopLoad
use grix_hermes_python.Persistence.StopResults.Restart as StopRestart
use grix_hermes_python.Persistence.StopResults.Restart.{load-replay_stops}
use grix_hermes_python.Persistence.Tokens
use grix_hermes_python.Persistence.Tokens.Laws as TokenLaws
use grix_hermes_python.Persistence.Tokens.Load as TokenLoad
use grix_hermes_python.Persistence.Tokens.Restart as TokenRestart
use grix_hermes_python.Persistence.Tokens.Restart.{load-replay_tokens}

abbrev works : Env
works = record { now = 1_000; writes = true }

abbrev broken : Env
broken = record { now = 2_000; writes = false }

abbrev guard : Payload
guard =
    ("event_id", Value.text " e1 ")
    ∷ ("status", Value.text "failed")
    ∷ ("code", Value.text "agent_output_unconfirmed")
    ∷ []

abbrev guard_entry : TerminalOutboxEntry
guard_entry = new_entry 1_000 "e1" guard none

abbrev refusal : TerminalRejection
refusal = record { response_cmd = "send_nack"; code = some (pos 4001); message = some "no" }

-- A guard that was retried, and the rejection of it that could not be written.
abbrev history : List (Env × Operation)
history =
    (works, Operation.put_in guard)
    ∷ (works, Operation.retry guard_entry 5_000 "timeout")
    ∷ (broken, Operation.reject guard_entry refusal)
    ∷ []

load-replay_example :
    (s : Snapshot) × (load
        (some "outbox.json")
        9_000
        (disk_of (replay history (TerminalOutbox.new (some "outbox.json"))).saved)
      ≡ Outcome.returned s)
    × ((event_id : String)
        → get event_id s.pending
          ≡ recovered
              (get event_id (replay history (TerminalOutbox.new (some "outbox.json"))).pending))
    × (s.dead_letters ≡ (replay history (TerminalOutbox.new (some "outbox.json"))).dead_letters)
load-replay_example =
    load-replay "outbox.json" 9_000 history refl
      (omega arith, tt, (omega arith, tt, (omega arith, refl, tt)))

abbrev stopped : Payload
stopped =
    ("event_id", Value.text "e1")
    ∷ ("stop_id", Value.text "s1 ")
    ∷ ("status", Value.text "stopped")
    ∷ ("terminal_commit_token", Value.text "t1")
    ∷ []

abbrev stops : List (Env × StopLaws.Operation)
stops = (works, StopLaws.Operation.put_in stopped) ∷ []

load-replay_stops_example :
    (pending : Dict StopResultOutboxEntry) × (StopLoad.load
        (some "stop.json")
        9_000
        (StopRestart.disk_of (StopLaws.replay stops (StopResults.new (some "stop.json"))).saved)
      ≡ Outcome.returned pending)
    × ((key : String)
        → get key pending
          ≡ get key (StopLaws.replay stops (StopResults.new (some "stop.json"))).pending)
load-replay_stops_example = load-replay_stops "stop.json" 9_000 stops refl

abbrev tokens : List (Env × TokenLaws.Operation)
tokens =
    (works, TokenLaws.Operation.register "e1" " t1")
    ∷ (broken, TokenLaws.Operation.remove "e1" "t1")
    ∷ []

load-replay_tokens_example :
    (kept : Dict String) × (TokenLoad.load
        (some "tokens.json")
        (TokenRestart.disk_of (TokenLaws.replay tokens (Tokens.new (some "tokens.json"))).saved)
      ≡ Outcome.returned kept)
    × ((event_id : String)
        → get event_id kept
          ≡ get event_id (TokenLaws.replay tokens (Tokens.new (some "tokens.json"))).tokens)
load-replay_tokens_example = load-replay_tokens "tokens.json" tokens refl

-- A payload that is a text stops the load with an error, where a missing one is passed over.
abbrev with_payload : Value → Value
with_payload v = object_of (
    ("version", Value.number (pos 1))
    ∷ ("pending", object_of (("e1", object_of (("payload", v) ∷ [])) ∷ []))
    ∷ [])

text_payload_raises :
    load (some "outbox.json") 9_000 (Disk.holds (with_payload (Value.text "x"))) ≡ Outcome.raised
unfolding load read_json_object read_file load_entries read_entry value_at get value_eq dict_of
    fields_of truthy
text_payload_raises = refl

no_payload_passes :
    load (some "outbox.json") 9_000 (Disk.holds (with_payload Value.null))
    ≡ Outcome.returned (record { pending = []; dead_letters = [] })
unfolding load read_json_object read_file load_entries read_entry value_at get value_eq dict_of
    fields_of truthy
no_payload_passes = refl
