-- ===== src/Persistence/TerminalOutbox.antt =====
-- grix_hermes/persistence/terminal_outbox.py: the outbox of terminal results.
-- The laws stand in the children.
pub mod Durability
pub mod Generations
pub mod Settlement
pub mod Start
pub mod Rollback
pub mod History
pub mod Superseded
pub mod Load
pub mod RoundTrip
pub mod Soundness
pub mod Restart
use grix_hermes_python.Prelude.{
  ℕ, zero, suc, ◌+◌, ◌-◌, String, ◌≡◌, Bool, true, false, Option, none, some, List, [], ◌∷◌, ◌++◌,
  ◌==◌, nat_eq, ltb, ◌||◌, ◌&&◌, not, length, drop, if◌then◌else◌,
}
use grix_hermes_python.Prelude.Int.{ℤ, pos, eq_ℤ}
use grix_hermes_python.Prelude.Dict.{Dict, get, put, pop}
use grix_hermes_python.Prelude.Text.{strip}
use grix_hermes_python.Json.{Value, value_at, text_of, is_true}
use grix_hermes_python.Json.Equality.{value_eq}
use grix_hermes_python.Persistence.Payload.{Payload, clean_text}
use grix_hermes_python.Persistence.File.{Env, Outcome, persist}

pub record TerminalOutboxEntry : Type 0 where
  pub payload : Payload
  pub generation : ℕ
  pub created_at : ℤ
  pub updated_at : ℤ
  pub attempts : ℕ
  pub next_attempt_at : ℤ
  pub delivery_started_at : Option ℤ
  pub last_error : Option String

pub record TerminalDeadLetter : Type 0 where
  pub payload : Payload
  pub rejected_at : ℤ
  pub response_cmd : String
  pub code : Option ℤ
  pub message : Option String

pub record TerminalRejection : Type 0 where
  pub response_cmd : String
  pub code : Option ℤ
  pub message : Option String

-- What `_persist` writes.
pub record Snapshot : Type 0 where
  pub pending : Dict TerminalOutboxEntry
  pub dead_letters : List TerminalDeadLetter

-- `saved` is what the file holds.
pub record TerminalOutbox : Type 0 where
  pub file_path : Option String
  pub pending : Dict TerminalOutboxEntry
  pub dead_letters : List TerminalDeadLetter
  pub saved : Option Snapshot

abbrev pub max_dead_letters : ℕ
max_dead_letters = 1000

-- An outbox whose file is not there yet.
abbrev pub new : Option String → TerminalOutbox
new file_path = record { file_path = file_path; pending = []; dead_letters = []; saved = none }

unfoldable pub is_event_result_payload : Payload → Bool
unfolding clean_text
is_event_result_payload payload =
    let status = clean_text "status" payload in
    not (clean_text "event_id" payload == "")
    && (status == "responded" || status == "failed" || status == "canceled")

-- `_persist`: the outbox with its file written, or as it was where that raises.
unfoldable pub save : Env → TerminalOutbox → TerminalOutbox × Bool
unfolding persist
save env o =
    let wanted : Snapshot = record { pending = o.pending; dead_letters = o.dead_letters } in
    let (saved, done) = persist o.file_path env.writes (some wanted) o.saved in
    (record o { saved = saved }, done)

-- The try block around `_persist`: its result, or the state that its handler restores.
unfoldable pub commit {ℓ} :
    {A : Type ℓ} → Env → TerminalOutbox → TerminalOutbox → A → TerminalOutbox × Outcome A
unfolding save
commit env changed restored answer =
    let (written, done) = save env changed in
    if done then (written, Outcome.returned answer) else (restored, Outcome.raised)

-- `self._pending[event_id] = previous` where there was one, else the key is taken out.
abbrev pub restore :
    String → Option TerminalOutboxEntry → Dict TerminalOutboxEntry → Dict TerminalOutboxEntry
restore event_id none pending = pop event_id pending
restore event_id (some previous) pending = put event_id previous pending

abbrev pub generation_of : Option TerminalOutboxEntry → ℕ
generation_of none = 0
generation_of (some previous) = previous.generation

abbrev pub created_or : ℕ → Option TerminalOutboxEntry → ℤ
created_or now none = pos now
created_or now (some previous) = previous.created_at

-- The entry that `enqueue` makes.
unfoldable pub new_entry : ℕ → String → Payload → Option TerminalOutboxEntry → TerminalOutboxEntry
new_entry now event_id payload previous = record {
  payload = put "event_id" (Value.text event_id) payload;
  generation = generation_of previous + 1;
  created_at = created_or now previous;
  updated_at = pos now;
  attempts = 0;
  next_attempt_at = pos 0;
  delivery_started_at = none;
  last_error = none;
}

unfoldable pub enqueue :
    Env → Payload → TerminalOutbox → TerminalOutbox × Outcome TerminalOutboxEntry
enqueue env payload o =
    let event_id = clean_text "event_id" payload in
    let previous = get event_id o.pending in
    let entry = new_entry env.now event_id payload previous in
    let pending = put event_id entry o.pending in
    if is_event_result_payload payload
    then commit env (record o { pending = pending })
        (record o { pending = restore event_id previous pending }) entry
    else (o, Outcome.raised)

-- str(entry.payload.get("event_id") or "")
unfoldable pub id_of : TerminalOutboxEntry → String
unfolding value_at text_of
id_of entry = text_of (value_at "event_id" entry.payload)

abbrev pub same_status : TerminalOutboxEntry → TerminalOutboxEntry → Bool
same_status a b = value_eq (value_at "status" a.payload) (value_at "status" b.payload)

unfoldable pub is_current : TerminalOutboxEntry → TerminalOutbox → Bool
is_current entry o = elim (get (id_of entry) o.pending) [
  | none ↦ false
  | some current ↦ nat_eq current.generation entry.generation && same_status current entry
]

-- The entry that is pending under the id of `entry`, if it has the generation of `entry`.
unfoldable pub current_of : TerminalOutboxEntry → TerminalOutbox → Option TerminalOutboxEntry
current_of entry o = elim (get (id_of entry) o.pending) [
  | none ↦ none
  | some current ↦ if nat_eq current.generation entry.generation then some current else none
]

-- `not current.delivery_started_at` holds of `None` and of 0.
abbrev pub started : TerminalOutboxEntry → Bool
started entry = elim entry.delivery_started_at [ none ↦ false | some t ↦ not (eq_ℤ t (pos 0)) ]

unfoldable pub mark_delivery_started :
    Env
    → TerminalOutboxEntry
    → TerminalOutbox
    → TerminalOutbox × Outcome (Option TerminalOutboxEntry)
mark_delivery_started env entry o = elim (current_of entry o) [
  | none ↦ (o, Outcome.returned none)
  | some current ↦
      let marked = record current {
        delivery_started_at = some (pos env.now);
        updated_at = pos env.now;
      } in
      let pending = put (id_of entry) marked o.pending in
      if started current
      then (o, Outcome.returned (some current))
      else commit env (record o { pending = pending })
          (record o { pending = put (id_of entry) current pending }) (some marked)
]

-- str(payload.get("terminal_commit_token") or "").strip()
abbrev pub token_of : Payload → String
token_of payload = clean_text "terminal_commit_token" payload

-- The acknowledgement as it came: the values of the packet, `None` where one is missing.
pub record Ack : Type 0 where
  pub event_id : Value
  pub status : Value
  pub terminal_commit_token : Value
  pub terminal_committed : Value

-- The tests of `acknowledge` that look at the acknowledgement and the entry alone.
unfoldable pub ack_fits : TerminalOutboxEntry → Ack → Bool
ack_fits entry ack =
    value_eq ack.event_id (value_at "event_id" entry.payload)
    && value_eq ack.status (value_at "status" entry.payload)
    && (token_of entry.payload == ""
        || (strip (text_of ack.terminal_commit_token) == token_of entry.payload
            && is_true ack.terminal_committed))

unfoldable pub acknowledge :
    Env → TerminalOutboxEntry → Ack → TerminalOutbox → TerminalOutbox × Outcome Bool
acknowledge env entry ack o = elim (current_of entry o) [
  | none ↦ (o, Outcome.returned false)
  | some current ↦
      let pending = pop (id_of entry) o.pending in
      if ack_fits entry ack
        && same_status current entry
        && token_of current.payload == token_of entry.payload
      then commit env (record o { pending = pending })
          (record o { pending = put (id_of entry) current pending }) true
      else (o, Outcome.returned false)
]

unfoldable pub record_retry :
    Env → TerminalOutboxEntry → ℕ → String → TerminalOutbox → TerminalOutbox × Outcome Bool
record_retry env entry next_attempt_at error o = elim (current_of entry o) [
  | none ↦ (o, Outcome.returned false)
  | some current ↦
      let retried = record current {
        attempts = current.attempts + 1;
        updated_at = pos env.now;
        next_attempt_at = pos next_attempt_at;
        last_error = some error;
      } in
      let pending = put (id_of entry) retried o.pending in
      commit env (record o { pending = pending })
        (record o { pending = put (id_of entry) current pending }) true
]

-- `[*letters, dead][-MAX_DEAD_LETTERS:]`
unfoldable pub bury : TerminalDeadLetter → List TerminalDeadLetter → List TerminalDeadLetter
bury dead letters = let all = letters ++ dead ∷ [] in drop (length all - max_dead_letters) all

unfoldable pub move_to_dead_letter :
    Env → TerminalOutboxEntry → TerminalRejection → TerminalOutbox → TerminalOutbox × Outcome Bool
move_to_dead_letter env entry rejection o = elim (current_of entry o) [
  | none ↦ (o, Outcome.returned false)
  | some current ↦
      let dead : TerminalDeadLetter = record {
        payload = current.payload;
        rejected_at = pos env.now;
        response_cmd = rejection.response_cmd;
        code = rejection.code;
        message = rejection.message;
      } in
      let pending = pop (id_of entry) o.pending in
      commit env (record o { pending = pending; dead_letters = bury dead o.dead_letters })
        (record o { pending = put (id_of entry) current pending }) true
]
