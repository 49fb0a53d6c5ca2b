-- ===== src/Delivery/StopAttempt.antt =====
-- How a stop result is delivered: `_deliver_stop_result_entry`, `_send_stop_result_reliable` and the
-- retry timer of grix_hermes/terminal_delivery.py, between their `await`s.
use grix_hermes_python.Prelude.{
  ℕ, ◌+◌, String, Bool, true, false, Option, none, some, ◌∷◌, ◌||◌, ◌&&◌, not, member,
  if◌then◌else◌,
}
use grix_hermes_python.Prelude.Int.{ℤ, pos, eq_ℤ}
use grix_hermes_python.Prelude.Dict.{get, put, pop}
use grix_hermes_python.Persistence.File.{Env, Outcome}
use grix_hermes_python.Persistence.StopResults
use grix_hermes_python.Persistence.StopResults.{StopResultOutboxEntry}
use grix_hermes_python.Delivery.Controller.{Controller, Client, terminal_retry_delay_ms}
use grix_hermes_python.Delivery.Schedule.{discard_from, schedule_stop_result_delivery}
use grix_hermes_python.Delivery.Attempt.{Packet, Verdict}

-- The codes after which the result is dropped.
abbrev pub is_dropping : Option ℤ → Bool
is_dropping none = false
is_dropping (some code) = eq_ℤ code (pos 4001) || eq_ℤ code (pos 4003)

-- An acknowledgement that is not taken, and a write that raises, count as a failed attempt; where
-- the drop cannot be written, the delivery ends all the same.
unfoldable pub on_stop_packet :
    Env → Bool → StopResultOutboxEntry → Packet → Controller → Controller × Verdict
on_stop_packet env connected entry packet c =
    if not connected
    then (c, Verdict.ended terminal_retry_delay_ms)
    else if not (StopResults.is_current entry c.stop_result_outbox)
    then (c, Verdict.ended 0)
    else elim packet [
      | Packet.ack a ↦
          let (outbox, taken) =
            StopResults.acknowledge env entry a.event_id a.terminal_commit_token
              a.terminal_committed c.stop_result_outbox in
          (
            record c { stop_result_outbox = outbox },
            elim taken [
              | Outcome.raised ↦ Verdict.attempt_failed
              | Outcome.returned hit ↦ if hit then Verdict.ended 0 else Verdict.attempt_failed
            ],
          )
      | Packet.nack r ↦
          if is_dropping r.code
          then (
            record c {
              stop_result_outbox = (StopResults.discard env entry c.stop_result_outbox).0;
            },
            Verdict.ended 0,
          )
          else (c, Verdict.attempt_failed)
    ]

-- What follows a failed attempt: the entry stays, with the time of its next attempt.
unfoldable pub keep_stop_for_retry : Env → StopResultOutboxEntry → String → Controller → Controller
keep_stop_for_retry env entry last_error c = record c {
  stop_result_outbox =
      (StopResults.record_retry env entry (env.now + terminal_retry_delay_ms) last_error
        c.stop_result_outbox).0;
}

-- `_deliver_stop_result_entry` up to its `try`: does the delivery take off?
unfoldable pub take_off_stop : StopResultOutboxEntry → Controller → Controller × Bool
unfolding member
take_off_stop entry c =
    if member entry.key c.stop_in_flight || not (StopResults.is_current entry c.stop_result_outbox)
    then (c, false)
    else (record c { stop_in_flight = entry.key ∷ c.stop_in_flight }, true)

-- Its `finally`, at the delay that the delivery ended with.
unfoldable pub land_stop : Bool → StopResultOutboxEntry → ℕ → Controller → Controller
land_stop connected entry retry_delay_ms c =
    let landed = record c { stop_in_flight = discard_from entry.key c.stop_in_flight } in
    if StopResults.is_current entry landed.stop_result_outbox && connected
    then record landed {
      stop_retry_handles = put entry.key retry_delay_ms landed.stop_retry_handles;
    }
    else landed

-- `_on_stop_retry_timer`: the entry that is pending under the key by then is scheduled.
unfoldable pub on_stop_retry_timer : Client → StopResultOutboxEntry → Controller → Controller
unfolding schedule_stop_result_delivery
on_stop_retry_timer client entry c =
    let cleared = record c { stop_retry_handles = pop entry.key c.stop_retry_handles } in
    elim (get entry.key cleared.stop_result_outbox.pending) [
      | none ↦ cleared
      | some current ↦ schedule_stop_result_delivery client current true cleared
    ]
