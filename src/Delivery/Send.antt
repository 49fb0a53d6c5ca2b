-- ===== src/Delivery/Send.antt =====
-- How a terminal result comes into the outbox: the capture of tokens and `send_event_result` of
-- grix_hermes/terminal_delivery.py.
use grix_hermes_python.Prelude.{
  String, Bool, true, false, Option, none, some, ◌==◌, ◌||◌, ◌&&◌, not, if◌then◌else◌,
}
use grix_hermes_python.Prelude.Dict.{get, put}
use grix_hermes_python.Prelude.Text.{strip}
use grix_hermes_python.Persistence.File.{Env, Outcome}
use grix_hermes_python.Json.{Value, value_at, text_of}
use grix_hermes_python.Json.Equality.{value_eq}
use grix_hermes_python.Persistence.Payload.{Payload, clean_text}
use grix_hermes_python.Persistence.TerminalOutbox
use grix_hermes_python.Persistence.TerminalOutbox.{TerminalOutboxEntry, id_of}
use grix_hermes_python.Persistence.Tokens
use grix_hermes_python.Persistence.Committed
use grix_hermes_python.Delivery.Controller.{
  Controller, Client, Writes, can_replace_unsent_output_guard,
}
use grix_hermes_python.Delivery.Schedule.{schedule_terminal_delivery}

abbrev pub was_returned {ℓ} : {A : Type ℓ} → Outcome A → Bool
was_returned (Outcome.returned a) = true
was_returned Outcome.raised = false

-- A refusal also closes the connection, which is up to the client.
unfoldable pub capture_inbound_terminal_commit_token :
    Env → Client → Value → Value → Controller → Controller × Bool
capture_inbound_terminal_commit_token env client event_id raw_token c =
    let token = strip (text_of raw_token) in
    let eid = strip (text_of event_id) in
    let (tokens, outcome) = Tokens.register env eid token c.terminal_commit_tokens in
    if token == ""
    then (c, true)
    else if eid == ""
    then (c, false)
    else if not client.negotiated
    then (c, false)
    else (record c { terminal_commit_tokens = tokens }, was_returned outcome)

-- A stored token, or the empty text.
abbrev pub stored : Option String → String
stored none = ""
stored (some t) = t

-- The payload with its event id stripped and the event's token, or `none` where the code raises.
unfoldable pub with_terminal_commit_token : Env → Payload → Controller → Controller × Option Payload
with_terminal_commit_token env payload c =
    let event_id = clean_text "event_id" payload in
    let supplied = clean_text "terminal_commit_token" payload in
    let persisted = stored (get event_id c.terminal_commit_tokens.tokens) in
    let (tokens, outcome) = Tokens.register env event_id supplied c.terminal_commit_tokens in
    let token = if persisted == "" then supplied else persisted in
    let named = put "event_id" (Value.text event_id) payload in
    let out = if token == "" then named else put "terminal_commit_token" (Value.text token) named in
    if event_id == ""
    then (c, none)
    else if not (supplied == "") && not (persisted == "") && not (supplied == persisted)
    then (c, none)
    else if not (supplied == "") && persisted == ""
    then (
      record c { terminal_commit_tokens = tokens },
      if was_returned outcome then some out else none,
    )
    else (c, some out)

-- May the new result take the place of the pending entry?
unfoldable pub replaces_guard : Payload → TerminalOutboxEntry → Bool
replaces_guard payload durable =
    can_replace_unsent_output_guard durable
    && (value_eq (value_at "status" payload) (Value.text "canceled")
        || value_eq (value_at "status" payload) (Value.text "failed"))

-- The entry is put into the outbox and its delivery scheduled; where the write fails, neither.
unfoldable pub put_in : Env → Client → Payload → Controller → Controller
unfolding id_of
put_in env client payload c =
    let (outbox, outcome) = TerminalOutbox.enqueue env payload c.terminal_outbox in
    elim outcome [
      | Outcome.raised ↦ record c { terminal_outbox = outbox }
      | Outcome.returned entry ↦
          schedule_terminal_delivery client (id_of entry) true 0
            (record c { terminal_outbox = outbox })
    ]

-- `send_event_result` after the validation of the token.
unfoldable pub send_tokenized : Env → Client → Payload → Controller → Controller
unfolding put_in replaces_guard
send_tokenized env client payload c =
    let event_id = text_of (value_at "event_id" payload) in
    elim (get event_id c.terminal_outbox.pending) [
      | none ↦
          if Committed.has event_id c.terminal_committed then c else put_in env client payload c
      | some durable ↦
          if replaces_guard payload durable
          then put_in env client payload c
          else schedule_terminal_delivery client event_id true 0 c
    ]

-- Where the check of the token raised, the result is logged and dropped.
abbrev pub after_check : Env → Client → Controller × Option Payload → Controller
after_check env client (c, none) = c
after_check env client (c, some p) = send_tokenized env client p c

unfoldable pub send_event_result : Writes → Client → Payload → Controller → Controller
unfolding with_terminal_commit_token send_tokenized
send_event_result writes client payload c =
    after_check writes.second client (with_terminal_commit_token writes.first payload c)
