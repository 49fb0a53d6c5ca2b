-- ===== src/Delivery/SendStop.antt =====
-- How a stop result comes into its outbox: `send_event_stop_result` of
-- grix_hermes/terminal_delivery.py.
use grix_hermes_python.Prelude.{true, ◌==◌, ◌||◌, ◌&&◌, not, if◌then◌else◌}
use grix_hermes_python.Prelude.Dict.{get, put}
use grix_hermes_python.Persistence.File.{Env, Outcome}
use grix_hermes_python.Json.{Value, value_at, text_of}
use grix_hermes_python.Persistence.Payload.{Payload, clean_text}
use grix_hermes_python.Persistence.StopResults
use grix_hermes_python.Delivery.Controller.{Controller, Client, Spawned, spawn}
use grix_hermes_python.Delivery.Schedule.{schedule_stop_result_delivery}
use grix_hermes_python.Delivery.Send.{stored}

-- A result that is to outlive a crash goes into the outbox; where the outbox raises, that is logged.
unfoldable pub put_in_stop : Env → Client → Payload → Controller → Controller
put_in_stop env client payload c =
    let (outbox, outcome) = StopResults.enqueue env payload c.stop_result_outbox in
    elim outcome [
      | Outcome.raised ↦ record c { stop_result_outbox = outbox }
      | Outcome.returned entry ↦
          schedule_stop_result_delivery client entry true (record c { stop_result_outbox = outbox })
    ]

-- Without an id, a token or one of the two states, the packet is sent once, without an outbox.
unfoldable pub send_event_stop_result : Env → Client → Payload → Controller → Controller
unfolding put_in_stop spawn
send_event_stop_result env client payload c =
    let event_id = clean_text "event_id" payload in
    let supplied = clean_text "terminal_commit_token" payload in
    let persisted =
      if event_id == "" then "" else stored (get event_id c.terminal_commit_tokens.tokens) in
    let token = if persisted == "" then supplied else persisted in
    let status = text_of (value_at "status" payload) in
    if not (supplied == "") && not (persisted == "") && not (supplied == persisted)
    then c
    else if not (event_id == "")
        && not (token == "")
        && (status == "stopped" || status == "already_finished")
    then put_in_stop env client
        (put "terminal_commit_token" (Value.text token)
          (put "event_id" (Value.text event_id) payload))
        c
    else spawn (Spawned.send_packet payload) c
