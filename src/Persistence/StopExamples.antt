-- ===== src/Persistence/StopExamples.antt =====
-- Runs of grix_hermes/persistence/stop_result_outbox.py, at which its theorems are applied.
use grix_hermes_python.Prelude.{◌≡◌, ◌↔◌, refl, true, false, some, List, [], ◌∷◌}
use grix_hermes_python.Prelude.Dict.{get, put}
use grix_hermes_python.Prelude.Text.{strip, is_space}
use grix_hermes_python.Persistence.File.{Env, Outcome, persist}
use grix_hermes_python.Json.{Value, value_at, text_of}
use grix_hermes_python.Persistence.Payload.{Payload, clean_text}
use grix_hermes_python.Persistence.StopResults.{
  StopResultOutbox, StopResultOutboxEntry, new, join_key, entry_key, is_durable_stop_result,
  normalize, new_entry, enqueue, commit, acknowledge,
}
use grix_hermes_python.Persistence.StopResults.Keys.{has_zero}
use grix_hermes_python.Persistence.StopResults.Laws.{
  IsDurable, IsRestored, Operation, perform, replay, new-IsDurable, stop_results_survive,
}
use grix_hermes_python.Persistence.StopResults.Fixed.{
  HasContent, takes_out, leaves, replay-HasContent,
}
use grix_hermes_python.Persistence.StopResults.Settlement.{IsSettling, IsSettling-iff}

abbrev works : Env
works = record { now = 1_000; writes = true }

abbrev broken : Env
broken = record { now = 2_000; writes = false }

abbrev stopped : Payload
stopped =
    ("event_id", Value.text "e1")
    ∷ ("stop_id", Value.text "s1 ")
    ∷ ("status", Value.text "stopped")
    ∷ ("terminal_commit_token", Value.text "t1")
    ∷ []

abbrev first : StopResultOutboxEntry
first = new_entry 1_000 (normalize stopped)

abbrev outbox : StopResultOutbox
outbox = replay ((works, Operation.put_in stopped) ∷ []) (new (some "stop.json"))

-- The key is taken by then, a write fails, and another stop is settled.
abbrev history : List (Env × Operation)
history =
    (works, Operation.put_in stopped)
    ∷ (broken, Operation.retry first 9_000 "timeout")
    ∷ (works, Operation.retry first 9_000 "timeout")
    ∷ (works, Operation.drop (record first { key = "other" }))
    ∷ []

stop_results_survive_example :
    IsDurable (replay history (new (some "stop.json")))
    × ((perform broken (Operation.drop first) (replay history (new (some "stop.json")))).1 ≡ true
        → IsRestored
            (replay history (new (some "stop.json")))
            (perform broken (Operation.drop first) (replay history (new (some "stop.json")))).0)
stop_results_survive_example =
    stop_results_survive history broken (Operation.drop first) (new (some "stop.json"))
      (new-IsDurable (some "stop.json"))

first-HasContent : HasContent "e1\0s1" first outbox
unfolding replay perform enqueue is_durable_stop_result clean_text value_at text_of strip is_space
    commit persist get put normalize new_entry entry_key join_key
first-HasContent = record {
  found = first;
  there = refl;
  key = refl;
  payload = refl;
  generation = refl;
  created_at = refl;
}

history-leaves : leaves "e1\0s1" history ≡ true
unfolding leaves takes_out
history-leaves = refl

replay-HasContent_example : HasContent "e1\0s1" first (replay history outbox)
replay-HasContent_example =
    replay-HasContent history "e1\0s1" first outbox history-leaves first-HasContent

IsSettling-iff_example :
    ((acknowledge works first (Value.text "e1") (Value.text "t1") (Value.boolean true) outbox).1
      ≡ Outcome.returned true)
    ↔ IsSettling first (Value.text "e1") (Value.text "t1") (Value.boolean true) outbox
IsSettling-iff_example =
    IsSettling-iff works first (Value.text "e1") (Value.text "t1") (Value.boolean true) outbox refl

no_zero : has_zero "e1" ≡ false
unfolding has_zero
no_zero = refl
