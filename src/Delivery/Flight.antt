-- ===== src/Delivery/Flight.antt =====
-- The frame of a delivery of grix_hermes/terminal_delivery.py: the guard against two flights for one
-- event, what the `finally` does, and what a disconnect clears.
use grix_hermes_python.Prelude.{
  ℕ, Bool, true, false, [], ◌∷◌, ◌||◌, ◌&&◌, not, member, if◌then◌else◌,
}
use grix_hermes_python.Prelude.Dict.{has}
use grix_hermes_python.Persistence.TerminalOutbox.{TerminalOutboxEntry, id_of, is_current}
use grix_hermes_python.Delivery.Controller.{Controller, Client}
use grix_hermes_python.Delivery.Schedule.{discard_from, schedule_terminal_delivery}

-- `_deliver_terminal_entry` up to its `try`: does the delivery take off?
unfoldable pub take_off : TerminalOutboxEntry → Controller → Controller × Bool
unfolding member
take_off entry c =
    let event_id = id_of entry in
    if member event_id c.terminal_in_flight || not (is_current entry c.terminal_outbox)
    then (c, false)
    else (record c { terminal_in_flight = event_id ∷ c.terminal_in_flight }, true)

-- The `finally` of `_deliver_terminal_entry`, at the delay that the delivery ended with.
unfoldable pub land : Client → Bool → TerminalOutboxEntry → ℕ → Controller → Controller
unfolding member schedule_terminal_delivery has
land client connected entry minimum_delay_ms c =
    let event_id = id_of entry in
    let replay = member event_id c.terminal_replay_after_flight in
    let landed = record c {
      terminal_in_flight = discard_from event_id c.terminal_in_flight;
      terminal_replay_after_flight = discard_from event_id c.terminal_replay_after_flight;
    } in
    if has event_id landed.terminal_outbox.pending && connected
    then schedule_terminal_delivery client event_id replay (if replay then 0 else minimum_delay_ms)
        landed
    else landed

-- The running deliveries are cancelled too, which is up to the loop.
unfoldable pub on_disconnect : Controller → Controller
on_disconnect c = record c {
  terminal_in_flight = [];
  terminal_retry_handles = [];
  stop_in_flight = [];
  stop_retry_handles = [];
}

-- The caller's delivery goes on.
unfoldable pub on_soft_disconnect : Controller → Controller
on_soft_disconnect c = record c {
  terminal_in_flight = [];
  terminal_retry_handles = [];
  stop_in_flight = [];
  stop_retry_handles = [];
}
