-- ===== src/Delivery/Attempt.antt =====
-- One attempt to deliver a terminal result: the parts of `_send_event_result_reliable` of
-- grix_hermes/terminal_delivery.py between its `await`s.
use grix_hermes_python.Prelude.{
  ℕ, ◌+◌, String, Bool, true, false, Option, none, some, ◌==◌, ◌||◌, ◌&&◌, not, is_some,
  if◌then◌else◌,
}
use grix_hermes_python.Prelude.Int.{ℤ, pos, leb_ℤ, eq_ℤ}
use grix_hermes_python.Prelude.Text.{strip}
use grix_hermes_python.Persistence.File.{Env, Outcome}
use grix_hermes_python.Json.{value_at, text_of, is_true}
use grix_hermes_python.Json.Equality.{value_eq}
use grix_hermes_python.Persistence.TerminalOutbox
use grix_hermes_python.Persistence.TerminalOutbox.{
  TerminalOutboxEntry, TerminalRejection, Ack, id_of, token_of, is_current,
}
use grix_hermes_python.Persistence.Tokens
use grix_hermes_python.Persistence.Committed
use grix_hermes_python.Delivery.Controller.{Controller, Client, Writes, terminal_retry_delay_ms}
use grix_hermes_python.Delivery.Schedule.{schedule_stop_results_for_event}

-- The answer to a packet: send_ack, or send_nack or error with its code. A code that is no number
-- is `none`.
pub data Packet : Type 0 where
  ack : Ack → Packet
  nack : TerminalRejection → Packet

-- What an answer leads to: the delivery ends with a delay, the attempt failed, or the loop is left.
pub data Verdict : Type 0 where
  ended : ℕ → Verdict
  attempt_failed : Verdict
  left : Verdict

-- The tests on the acknowledgement, before anything is changed.
unfoldable pub ack_matches : TerminalOutboxEntry → Ack → Bool
ack_matches entry a =
    let token = token_of entry.payload in
    value_eq a.event_id (value_at "event_id" entry.payload)
    && value_eq a.status (value_at "status" entry.payload)
    && (token == ""
        || (strip (text_of a.terminal_commit_token) == token && is_true a.terminal_committed))

-- `remember_committed_terminal_event` and what follows it.
unfoldable pub settle : Env → Client → String → Bool → Controller → Controller × Verdict
settle env client event_id wakes_stops c =
    let (committed, outcome) = Committed.add env event_id c.terminal_committed in
    let sealed = record c { terminal_committed = committed } in
    elim outcome [
      | Outcome.raised ↦ (sealed, Verdict.attempt_failed)
      | Outcome.returned done ↦ (
        if wakes_stops then schedule_stop_results_for_event client event_id sealed else sealed,
        Verdict.ended 0,
      )
    ]

-- The token is taken back first, then the entry leaves the outbox, then its id is sealed.
unfoldable pub take_ack :
    Writes → Client → TerminalOutboxEntry → Ack → Controller → Controller × Verdict
unfolding settle
take_ack writes client entry a c =
    let (outbox, taken) = TerminalOutbox.acknowledge writes.second entry a c.terminal_outbox in
    let acked = record c { terminal_outbox = outbox } in
    elim taken [
      | Outcome.raised ↦ (acked, Verdict.attempt_failed)
      | Outcome.returned hit ↦
          if hit
          then settle writes.third client (id_of entry) true acked
          else (acked, Verdict.ended 0)
    ]

unfoldable pub on_ack :
    Writes → Client → TerminalOutboxEntry → Ack → Controller → Controller × Verdict
unfolding ack_matches take_ack
on_ack writes client entry a c =
    let token = token_of entry.payload in
    let (tokens, removed) =
      Tokens.remove writes.first (id_of entry) token c.terminal_commit_tokens in
    let cleaned = record c { terminal_commit_tokens = tokens } in
    if not (ack_matches entry a)
    then (c, Verdict.attempt_failed)
    else if token == ""
    then take_ack writes client entry a c
    else elim removed [
      | Outcome.raised ↦ (cleaned, Verdict.attempt_failed)
      | Outcome.returned hit ↦ take_ack writes client entry a cleaned
    ]

-- A code of the range of 4000 that is not 4008.
unfoldable pub is_permanent_nack : Option ℤ → Bool
is_permanent_nack none = false
is_permanent_nack (some code) =
    leb_ℤ (pos 4000) code && not (leb_ℤ (pos 5000) code) && not (eq_ℤ code (pos 4008))

-- Where a token is at stake and the code is not permanent, the client reconnects and the loop is
-- left; a failed write of the dead letter leaves it too.
unfoldable pub on_rejection :
    Writes → Client → TerminalOutboxEntry → TerminalRejection → Controller → Controller × Verdict
unfolding is_permanent_nack settle
on_rejection writes client entry rejection c =
    let token = token_of entry.payload in
    let (outbox, moved) =
      TerminalOutbox.move_to_dead_letter writes.first entry rejection c.terminal_outbox in
    let buried = record c { terminal_outbox = outbox } in
    if not (token == "") && not (is_permanent_nack rejection.code)
    then (c, Verdict.left)
    else elim moved [
      | Outcome.raised ↦ (buried, Verdict.left)
      | Outcome.returned hit ↦
          if hit
          then (let (sealed, verdict) = settle writes.second client (id_of entry) false buried in
              (
                sealed,
                elim verdict [
                  | Verdict.ended delay ↦ Verdict.ended delay
                  | Verdict.attempt_failed ↦ Verdict.left
                  | Verdict.left ↦ Verdict.left
                ],
              ))
          else (buried, Verdict.ended 0)
    ]

-- What follows the `await` of the answer. `connected` is `is_connection_current(generation)`.
unfoldable pub on_packet :
    Writes → Client → Bool → TerminalOutboxEntry → Packet → Controller → Controller × Verdict
on_packet writes client connected entry packet c =
    if not connected
    then (c, Verdict.ended terminal_retry_delay_ms)
    else if not (is_current entry c.terminal_outbox)
    then (c, Verdict.ended 0)
    else elim packet [
      | Packet.ack a ↦ on_ack writes client entry a c
      | Packet.nack r ↦ on_rejection writes client entry r c
    ]

-- What follows the loop: the entry stays, with the time of its next attempt.
unfoldable pub keep_for_retry : Env → TerminalOutboxEntry → String → Controller → Controller
keep_for_retry env entry last_error c = record c {
  terminal_outbox =
      (TerminalOutbox.record_retry env entry (env.now + terminal_retry_delay_ms) last_error
        c.terminal_outbox).0;
}

-- What precedes the loop, after the token was checked against what is negotiated: `none` where the
-- loop begins, else the delay with which the delivery ends. The reconnect on a connection without
-- the capability is awaited here without steps of other tasks.
unfoldable pub prepare : Env → Client → TerminalOutboxEntry → Controller → Controller × Option ℕ
prepare env client entry c =
    let (outbox, started) = TerminalOutbox.mark_delivery_started env entry c.terminal_outbox in
    let marked = record c { terminal_outbox = outbox } in
    if not (token_of entry.payload == "") && not client.negotiated
    then (c, some terminal_retry_delay_ms)
    else elim started [
      | Outcome.raised ↦ (marked, some terminal_retry_delay_ms)
      | Outcome.returned found ↦ (marked, if is_some found then none else some 0)
    ]

-- The tests before each request: `none` where it is sent.
unfoldable pub before_attempt : Bool → TerminalOutboxEntry → Controller → Option ℕ
before_attempt connected entry c =
    if not connected
    then some terminal_retry_delay_ms
    else if not (is_current entry c.terminal_outbox)
    then some 0
    else none
