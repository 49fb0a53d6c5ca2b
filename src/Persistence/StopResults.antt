-- ===== src/Persistence/StopResults.antt =====
-- grix_hermes/persistence/stop_result_outbox.py: the outbox of answers to a stop.
pub mod Keys
pub mod Laws
pub mod Fixed
pub mod Settlement
pub mod Load
pub mod Restart
use Prim.Native.String
use grix_hermes_python.Prelude.{
  ℕ, ◌+◌, String, ◌≡◌, Bool, true, false, Option, none, some, List, [], ◌∷◌, ◌==◌, nat_eq, ◌||◌,
  ◌&&◌, not, if◌then◌else◌,
}
use grix_hermes_python.Prelude.Int.{ℤ, pos}
use grix_hermes_python.Prelude.Dict.{Dict, get, put, pop}
use grix_hermes_python.Prelude.Text.{strip}
use grix_hermes_python.Json.{Value, value_at, text_of, is_true}
use grix_hermes_python.Json.Equality.{value_eq}
use grix_hermes_python.Persistence.Payload.{Payload, clean_text}
use grix_hermes_python.Persistence.File.{Env, Outcome, persist}

pub record StopResultOutboxEntry : Type 0 where
  pub key : String
  pub payload : Payload
  pub generation : ℕ
  pub created_at : ℤ
  pub updated_at : ℤ
  pub attempts : ℕ
  pub next_attempt_at : ℤ
  pub last_error : Option String

-- `saved` is what the file holds; where nothing is pending there is no file.
pub record StopResultOutbox : Type 0 where
  pub file_path : Option String
  pub pending : Dict StopResultOutboxEntry
  pub saved : Option (Dict StopResultOutboxEntry)

abbrev pub new : Option String → StopResultOutbox
new file_path = record { file_path = file_path; pending = []; saved = none }

-- f"{event_id}\0{stop_id}"
unfoldable pub join_key : String → String → String
join_key event_id stop_id = String.◌++◌ event_id (String.◌++◌ "\0" stop_id)

unfoldable pub entry_key : Payload → String
unfolding clean_text join_key
entry_key payload = join_key (clean_text "event_id" payload) (clean_text "stop_id" payload)

unfoldable pub is_durable_stop_result : Payload → Bool
unfolding clean_text
is_durable_stop_result payload =
    let status = clean_text "status" payload in
    not (clean_text "event_id" payload == "")
    && not (clean_text "stop_id" payload == "")
    && not (clean_text "terminal_commit_token" payload == "")
    && (status == "stopped" || status == "already_finished")

abbrev wanted : Dict StopResultOutboxEntry → Option (Dict StopResultOutboxEntry)
wanted [] = none
wanted (x ∷ xs) = some (x ∷ xs)

-- The try block around `_persist`.
unfoldable pub commit {ℓ} :
    {A : Type ℓ} → Env → StopResultOutbox → StopResultOutbox → A → StopResultOutbox × Outcome A
commit env changed restored answer =
    let (saved, done) =
      persist changed.file_path env.writes (wanted changed.pending) changed.saved in
    if done
    then (record changed { saved = saved }, Outcome.returned answer)
    else (restored, Outcome.raised)

-- The payload with its three ids stripped.
unfoldable pub normalize : Payload → Payload
unfolding clean_text
normalize payload =
    put "terminal_commit_token" (Value.text (clean_text "terminal_commit_token" payload)) (
      put "stop_id" (Value.text (clean_text "stop_id" payload))
        (put "event_id" (Value.text (clean_text "event_id" payload)) payload))

abbrev same_at : String → Payload → Payload → Bool
same_at key a b = value_eq (value_at key a) (value_at key b)

abbrev pub same_result : Payload → Payload → Bool
same_result a b = same_at "status" a b && same_at "terminal_commit_token" a b

unfoldable pub new_entry : ℕ → Payload → StopResultOutboxEntry
unfolding entry_key
new_entry now payload = record {
  key = entry_key payload;
  payload = payload;
  generation = 1;
  created_at = pos now;
  updated_at = pos now;
  attempts = 0;
  next_attempt_at = pos 0;
  last_error = none;
}

unfoldable pub enqueue :
    Env → Payload → StopResultOutbox → StopResultOutbox × Outcome StopResultOutboxEntry
enqueue env payload o =
    let normalized = normalize payload in
    let key = entry_key normalized in
    let entry = new_entry env.now normalized in
    let pending = put key entry o.pending in
    if is_durable_stop_result payload
    then elim (get key o.pending) [
      | none ↦
          commit env (record o { pending = pending }) (record o { pending = pop key pending }) entry
      | some previous ↦ (
        o,
        if same_result previous.payload normalized
            then Outcome.returned previous
            else Outcome.raised,
      )
    ]
    else (o, Outcome.raised)

unfoldable pub is_current : StopResultOutboxEntry → StopResultOutbox → Bool
is_current entry o = elim (get entry.key o.pending) [
  | none ↦ false
  | some current ↦
      nat_eq current.generation entry.generation && same_result current.payload entry.payload
]

-- The entry that is pending under the key of `entry`, if it has the generation of `entry`.
unfoldable pub current_of : StopResultOutboxEntry → StopResultOutbox → Option StopResultOutboxEntry
current_of entry o = elim (get entry.key o.pending) [
  | none ↦ none
  | some current ↦ if nat_eq current.generation entry.generation then some current else none
]

-- The tests of `acknowledge` on the answer alone; what is missing in the packet is `null`.
unfoldable pub ack_fits : StopResultOutboxEntry → Value → Value → Value → Bool
ack_fits entry event_id terminal_commit_token terminal_committed =
    value_eq (Value.text (strip (text_of event_id))) (value_at "event_id" entry.payload)
    && value_eq (Value.text (strip (text_of terminal_commit_token)))
        (value_at "terminal_commit_token" entry.payload)
    && is_true terminal_committed

unfoldable pub acknowledge :
    Env
    → StopResultOutboxEntry
    → Value
    → Value
    → Value
    → StopResultOutbox
    → StopResultOutbox × Outcome Bool
acknowledge env entry event_id terminal_commit_token terminal_committed o =
    elim (get entry.key o.pending) [
      | none ↦ (o, Outcome.returned false)
      | some current ↦
          let pending = pop entry.key o.pending in
          if ack_fits entry event_id terminal_commit_token terminal_committed && is_current entry o
          then commit env (record o { pending = pending })
              (record o { pending = put entry.key current pending }) true
          else (o, Outcome.returned false)
    ]

unfoldable pub record_retry :
    Env → StopResultOutboxEntry → ℕ → String → StopResultOutbox → StopResultOutbox × Outcome Bool
record_retry env entry next_attempt_at error o = elim (current_of entry o) [
  | none ↦ (o, Outcome.returned false)
  | some current ↦
      let retried = record current {
        attempts = current.attempts + 1;
        updated_at = pos env.now;
        next_attempt_at = pos next_attempt_at;
        last_error = some error;
      } in
      let pending = put entry.key retried o.pending in
      commit env (record o { pending = pending })
        (record o { pending = put entry.key current pending }) true
]

unfoldable pub discard :
    Env → StopResultOutboxEntry → StopResultOutbox → StopResultOutbox × Outcome Bool
discard env entry o = elim (current_of entry o) [
  | none ↦ (o, Outcome.returned false)
  | some current ↦
      let pending = pop entry.key o.pending in
      commit env (record o { pending = pending })
        (record o { pending = put entry.key current pending }) true
]
