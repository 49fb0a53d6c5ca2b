-- ===== src/Persistence/StopResults/Settlement.antt =====
-- Which acknowledgement grix_hermes/persistence/stop_result_outbox.py takes.
use grix_hermes_python.Prelude.{◌≡◌, ◌↔◌, inl, inr, true, some, arith, Option-cases}
use grix_hermes_python.Prelude.Text.{strip}
use grix_hermes_python.Prelude.Dict.{get}
use grix_hermes_python.Json.{Value, value_at, text_of, is_true}
use grix_hermes_python.Json.Equality.{value_eq}
use grix_hermes_python.Persistence.File.{Env, Outcome, persist}
use grix_hermes_python.Persistence.StopResults.{
  StopResultOutbox, StopResultOutboxEntry, commit, same_result, is_current, ack_fits, acknowledge,
}

-- What an acknowledgement of `entry` has to bring, and what has to be pending.
pub record IsSettling (entry : StopResultOutboxEntry) (event_id token committed : Value)
    (o : StopResultOutbox) : Type 0 where
  pub current : StopResultOutboxEntry
  pub there : get entry.key o.pending ≡ some current
  pub generation : current.generation ≡ entry.generation
  pub result : same_result current.payload entry.payload ≡ true
  pub event :
      value_eq (Value.text (strip (text_of event_id))) (value_at "event_id" entry.payload) ≡ true
  pub token_fits :
      value_eq (Value.text (strip (text_of token))) (value_at "terminal_commit_token" entry.payload)
      ≡ true
  pub literal : is_true committed ≡ true

settles :
    (env : Env) (entry : StopResultOutboxEntry) (e t c : Value) (o : StopResultOutbox)
    → env.writes ≡ true
    → IsSettling entry e t c o
    → (acknowledge env entry e t c o).1 ≡ Outcome.returned true
unfolding acknowledge is_current ack_fits commit persist
settles env entry e t c o w h =
    ground (arith, w, h.there, h.generation, h.result, h.event, h.token_fits, h.literal)

settled :
    (env : Env) (entry : StopResultOutboxEntry) (e t c : Value) (o : StopResultOutbox)
    → (acknowledge env entry e t c o).1 ≡ Outcome.returned true
    → IsSettling entry e t c o
unfolding acknowledge is_current ack_fits commit
settled env entry e t c o h = elim (Option-cases (get entry.key o.pending)) [
  | inl missing ↦ absurd (ground arith)
  | inr (current, there) ↦ record {
    current = current;
    there = there;
    generation = ground arith;
    result = ground arith;
    event = ground arith;
    token_fits = ground arith;
    literal = ground arith;
  }
]

-- An acknowledgement of a stop result whose write succeeds is taken exactly if an entry is pending
-- under its key with its generation, status and token, and the acknowledgement brings the event id
-- and the token of the entry, stripped, and the literal `true`.
pub IsSettling-iff :
    (env : Env) (entry : StopResultOutboxEntry) (event_id token committed : Value)
    (o : StopResultOutbox)
    → env.writes ≡ true
    → ((acknowledge env entry event_id token committed o).1 ≡ Outcome.returned true)
      ↔ IsSettling entry event_id token committed o
IsSettling-iff env entry e t c o w = (settled env entry e t c o, settles env entry e t c o w)
