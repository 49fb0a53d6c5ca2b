-- ===== src/Persistence/TerminalOutbox/Superseded/History.antt =====
-- Histories of the outbox of grix_hermes/persistence/terminal_outbox.py after an entry was replaced
-- by a later one for the same event: the old one is ignored.
use grix_hermes_python.Prelude.{
  ◌+◌, String, ◌≡◌, ap, ◌∙◌, inl, inr, true, none, some, List, [], ◌∷◌, arith, Option-cases,
}
use grix_hermes_python.Prelude.Dict.{get}
use grix_hermes_python.Persistence.Payload.{Payload, clean_text}
use grix_hermes_python.Persistence.File.{Env, Outcome}
use grix_hermes_python.Persistence.TerminalOutbox.{
  TerminalOutbox, TerminalOutboxEntry, enqueue, id_of, is_event_result_payload,
}
use grix_hermes_python.Persistence.TerminalOutbox.Generations.{
  IsIgnored, enqueue_supersedes, missing-IsIgnored, other_generation,
}
use grix_hermes_python.Persistence.TerminalOutbox.History.{Operation, perform, replay}
use grix_hermes_python.Persistence.TerminalOutbox.Superseded.{
  IsSuperseded, IsOther, start-IsSuperseded, retry-IsSuperseded, enqueue-IsSuperseded,
  settle-IsSuperseded, reject-IsSuperseded,
}

-- An operation that does not settle or drop a newer entry of the event.
abbrev pub IsSparing : TerminalOutboxEntry → Operation → Type 0
IsSparing old (Operation.settle entry ack) = IsOther old entry
IsSparing old (Operation.reject entry rejection) = IsOther old entry
IsSparing old _ = Unit

abbrev pub AreSparing : TerminalOutboxEntry → List (Env × Operation) → Type 0
AreSparing old [] = Unit
AreSparing old ((env, op) ∷ ops) = IsSparing old op × AreSparing old ops

perform-IsSuperseded :
    (env : Env) (op : Operation) (old : TerminalOutboxEntry) (o : TerminalOutbox)
    → IsSparing old op
    → IsSuperseded old o
    → IsSuperseded old (perform env op o).0
unfolding perform
perform-IsSuperseded env (Operation.put_in payload) old o other newer =
    enqueue-IsSuperseded env old payload o newer
perform-IsSuperseded env (Operation.start entry) old o other newer =
    start-IsSuperseded env old entry o newer
perform-IsSuperseded env (Operation.settle entry ack) old o other newer =
    settle-IsSuperseded env old entry ack o other newer
perform-IsSuperseded env (Operation.retry entry at error) old o other newer =
    retry-IsSuperseded env old entry at error o newer
perform-IsSuperseded env (Operation.reject entry rejection) old o other newer =
    reject-IsSuperseded env old entry rejection o other newer

replay-IsSuperseded :
    (ops : List (Env × Operation)) (old : TerminalOutboxEntry) (o : TerminalOutbox)
    → AreSparing old ops
    → IsSuperseded old o
    → IsSuperseded old (replay ops o)
unfolding replay
replay-IsSuperseded [] old o others newer = newer
replay-IsSuperseded ((env, op) ∷ ops) old o others newer =
    replay-IsSuperseded ops old (perform env op o).0 others.1
      (perform-IsSuperseded env op old o others.0 newer)

-- A copy of the old entry has its id and its generation.
superseded-IsIgnored :
    (old copy : TerminalOutboxEntry) (o : TerminalOutbox)
    → id_of copy ≡ id_of old
    → copy.generation ≡ old.generation
    → IsSuperseded old o
    → IsIgnored copy o
superseded-IsIgnored old copy o same alike newer = elim (Option-cases (get (id_of old) o.pending)) [
  | inl missing ↦ absurd (ground arith)
  | inr (current, found) ↦
      let there = ap (λ (e : String). get e o.pending) same ∙ found in
      let (stale, gone) = other_generation copy current o there (λ equal. ground arith) in
      missing-IsIgnored copy o stale gone
]

-- Where an entry is pending under its own id and the write succeeds, a later terminal result for
-- the same event takes its place: the generation is the next, the age is kept, and the attempts
-- start again. Every operation on the old entry, or on a copy of it with its id and generation,
-- does nothing and says so, right then and after every further history of operations, with writes
-- that succeed or fail, as long as none of them acknowledges or rejects an entry of that event
-- whose generation is later than the old one's. So an answer to the old packet cannot settle the
-- new result.
pub superseded_for_good :
    (env : Env) (payload : Payload) (old copy : TerminalOutboxEntry) (o : TerminalOutbox)
    (ops : List (Env × Operation))
    → is_event_result_payload payload ≡ true
    → env.writes ≡ true
    → clean_text "event_id" payload ≡ id_of old
    → get (id_of old) o.pending ≡ some old
    → id_of copy ≡ id_of old
    → copy.generation ≡ old.generation
    → AreSparing old ops
    → (e : TerminalOutboxEntry) × ((enqueue env payload o).1 ≡ Outcome.returned e)
      × (get (id_of old) (enqueue env payload o).0.pending ≡ some e)
      × (e.generation ≡ old.generation + 1)
      × (e.created_at ≡ old.created_at)
      × (e.attempts ≡ 0)
      × (e.delivery_started_at ≡ none)
      × IsIgnored copy (replay ops (enqueue env payload o).0)
superseded_for_good env payload old copy o ops fits w same there alike equal sparing =
    let (e, returned, now_there, next, age, fresh, unstarted, ignored) =
      enqueue_supersedes env payload old o fits w same there in
    (
      e,
      returned,
      now_there,
      next,
      age,
      fresh,
      unstarted,
      superseded-IsIgnored old copy (replay ops (enqueue env payload o).0) alike equal (
          replay-IsSuperseded ops old (enqueue env payload o).0 sparing
            (rw now_there (ground arith))),
    )
