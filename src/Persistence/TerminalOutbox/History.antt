-- ===== src/Persistence/TerminalOutbox/History.antt =====
-- Histories of the outbox of grix_hermes/persistence/terminal_outbox.py, with writes that may fail.
use grix_hermes_python.Prelude.{ℕ, String, ◌≡◌, refl, Bool, true, Option, List, [], ◌∷◌, arith}
use grix_hermes_python.Persistence.Payload.{Payload}
use grix_hermes_python.Persistence.File.{Env}
use grix_hermes_python.Persistence.TerminalOutbox.{
  TerminalOutbox, TerminalOutboxEntry, TerminalRejection, Ack, enqueue, mark_delivery_started,
  acknowledge, record_retry, move_to_dead_letter, new,
}
use grix_hermes_python.Persistence.TerminalOutbox.Rollback.{
  did_raise, enqueue-Undone, mark_delivery_started-Undone, acknowledge-Undone, record_retry-Undone,
  move_to_dead_letter-Undone,
}
use grix_hermes_python.Persistence.TerminalOutbox.Durability.{
  IsDurable, IsRestored, enqueue-IsDurable, mark_delivery_started-IsDurable, acknowledge-IsDurable,
  record_retry-IsDurable, move_to_dead_letter-IsDurable,
}

pub data Operation : Type 0 where
  put_in : Payload → Operation
  start : TerminalOutboxEntry → Operation
  settle : TerminalOutboxEntry → Ack → Operation
  retry : TerminalOutboxEntry → ℕ → String → Operation
  reject : TerminalOutboxEntry → TerminalRejection → Operation

-- The outbox after an operation, and whether the operation raised.
unfoldable pub perform : Env → Operation → TerminalOutbox → TerminalOutbox × Bool
perform env (Operation.put_in payload) o =
    let (after, outcome) = enqueue env payload o in (after, did_raise outcome)
perform env (Operation.start entry) o =
    let (after, outcome) = mark_delivery_started env entry o in (after, did_raise outcome)
perform env (Operation.settle entry ack) o =
    let (after, outcome) = acknowledge env entry ack o in (after, did_raise outcome)
perform env (Operation.retry entry at error) o =
    let (after, outcome) = record_retry env entry at error o in (after, did_raise outcome)
perform env (Operation.reject entry rejection) o =
    let (after, outcome) = move_to_dead_letter env entry rejection o in (after, did_raise outcome)

unfoldable pub replay : List (Env × Operation) → TerminalOutbox → TerminalOutbox
replay [] o = o
replay ((env, op) ∷ ops) o = replay ops (perform env op o).0

perform-IsDurable :
    (env : Env) (op : Operation) (o : TerminalOutbox) → IsDurable o → IsDurable (perform env op o).0
unfolding perform
perform-IsDurable env (Operation.put_in payload) o h = enqueue-IsDurable env payload o h
perform-IsDurable env (Operation.start entry) o h = mark_delivery_started-IsDurable env entry o h
perform-IsDurable env (Operation.settle entry ack) o h = acknowledge-IsDurable env entry ack o h
perform-IsDurable env (Operation.retry entry at error) o h =
    record_retry-IsDurable env entry at error o h
perform-IsDurable env (Operation.reject entry rejection) o h =
    move_to_dead_letter-IsDurable env entry rejection o h

pub new-IsDurable : (path : Option String) → IsDurable (new path)
new-IsDurable path = record {
  once = λ k. omega arith;
  pending = λ p k. refl;
  letters = λ p. refl;
  bounded = omega arith;
}

-- From a durable outbox, and so from a new one, every history of operations, each with a write that
-- succeeds or fails, leads to a durable outbox: for every event id the file holds the entry that
-- the outbox answers, and the same dead letters, of which there are at most 1000.
pub replay-IsDurable :
    (ops : List (Env × Operation)) (o : TerminalOutbox) → IsDurable o → IsDurable (replay ops o)
unfolding replay
replay-IsDurable [] o h = h
replay-IsDurable ((env, op) ∷ ops) o h =
    replay-IsDurable ops (perform env op o).0 (perform-IsDurable env op o h)

-- An operation on a durable outbox that raises, since its write failed or its argument is no
-- terminal result, has changed nothing that the outbox answers for any event id, no dead letter,
-- and not the file.
pub perform_raised :
    (env : Env) (op : Operation) (o : TerminalOutbox)
    → IsDurable o
    → (perform env op o).1 ≡ true
    → IsRestored o (perform env op o).0
unfolding perform
perform_raised env (Operation.put_in payload) o d = enqueue-Undone env payload o d
perform_raised env (Operation.start entry) o d = mark_delivery_started-Undone env entry o d
perform_raised env (Operation.settle entry ack) o d = acknowledge-Undone env entry ack o d
perform_raised env (Operation.retry entry at error) o d = record_retry-Undone env entry at error o d
perform_raised env (Operation.reject entry rejection) o d =
    move_to_dead_letter-Undone env entry rejection o d
