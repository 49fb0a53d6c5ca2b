-- ===== src/Delivery/Schedule.antt =====
-- When a delivery runs: `schedule_terminal_delivery`, `schedule_stop_result_delivery` and their
-- callers in grix_hermes/terminal_delivery.py.
use grix_hermes_python.Prelude.{
  ℕ, ◌-◌, String, Bool, true, false, Option, none, some, List, [], ◌∷◌, ◌==◌, ◌||◌, not, max, ltb,
  member, is_some, keep, map, if◌then◌else◌,
}
use grix_hermes_python.Prelude.Int.{pos_part}
use grix_hermes_python.Prelude.Dict.{get, put, pop}
use grix_hermes_python.Json.{Value, value_at, text_of}
use grix_hermes_python.Json.Equality.{value_eq}
use grix_hermes_python.Persistence.TerminalOutbox.{TerminalOutboxEntry, id_of}
use grix_hermes_python.Persistence.StopResults
use grix_hermes_python.Persistence.StopResults.{StopResultOutboxEntry}
use grix_hermes_python.Delivery.Controller.{Controller, Client, Spawned, spawn}

-- `self._terminal_replay_after_flight.add(event_id)`
abbrev add_to_set : String → List String → List String
add_to_set x xs = if member x xs then xs else x ∷ xs

abbrev pub discard_from : String → List String → List String
discard_from x xs = keep (λ y. not (y == x)) xs

unfoldable pub schedule_terminal_delivery : Client → String → Bool → ℕ → Controller → Controller
unfolding spawn member
schedule_terminal_delivery client event_id ignore_not_before minimum_delay_ms c =
    if not client.ready
    then c
    else if member event_id c.terminal_in_flight
    then (if ignore_not_before
        then record c {
          terminal_replay_after_flight = add_to_set event_id c.terminal_replay_after_flight;
        }
        else c)
    else elim (get event_id c.terminal_outbox.pending) [
      | none ↦ c
      | some entry ↦
          let handles = pop event_id c.terminal_retry_handles in
          let persisted_delay =
            if ignore_not_before then 0 else pos_part entry.next_attempt_at - client.now in
          let delay_ms = max persisted_delay minimum_delay_ms in
          if ltb 0 delay_ms
          then record c { terminal_retry_handles = put event_id delay_ms handles }
          else spawn (Spawned.deliver_terminal entry)
              (record c { terminal_retry_handles = handles })
    ]

-- `_on_terminal_retry_timer`
unfoldable pub on_terminal_retry_timer : Client → String → Controller → Controller
unfolding schedule_terminal_delivery
on_terminal_retry_timer client event_id c =
    schedule_terminal_delivery client event_id true 0
      (record c { terminal_retry_handles = pop event_id c.terminal_retry_handles })

-- The loop of `replay_terminal_outbox` over the entries that were pending when it began.
unfoldable pub replay_entries : Client → List TerminalOutboxEntry → Controller → Controller
unfolding schedule_terminal_delivery id_of
replay_entries client [] c = c
replay_entries client (entry ∷ rest) c =
    replay_entries client rest (schedule_terminal_delivery client (id_of entry) true 0 c)

unfoldable pub replay_terminal_outbox : Client → Controller → Controller
unfolding replay_entries
replay_terminal_outbox client c = replay_entries client (map (λ e. e.1) c.terminal_outbox.pending) c

abbrev pub stop_event_id : StopResultOutboxEntry → String
stop_event_id entry = text_of (value_at "event_id" entry.payload)

-- A token that is the empty text counts as none.
abbrev pub has_token : Option String → Bool
has_token none = false
has_token (some t) = not (t == "")

-- Is the event's terminal result still to be settled?
unfoldable pub is_fenced : String → Controller → Bool
is_fenced event_id c =
    is_some (get event_id c.terminal_outbox.pending)
    || has_token (get event_id c.terminal_commit_tokens.tokens)

unfoldable pub schedule_stop_result_delivery :
    Client → StopResultOutboxEntry → Bool → Controller → Controller
unfolding spawn is_fenced
schedule_stop_result_delivery client entry ignore_not_before c =
    let handles = pop entry.key c.stop_retry_handles in
    let delay_ms = if ignore_not_before then 0 else pos_part entry.next_attempt_at - client.now in
    if not client.ready || not (StopResults.is_current entry c.stop_result_outbox)
    then c
    else if is_fenced (stop_event_id entry) c
    then c
    else if ltb 0 delay_ms
    then record c { stop_retry_handles = put entry.key delay_ms handles }
    else spawn (Spawned.deliver_stop entry) (record c { stop_retry_handles = handles })

-- The loop of `schedule_stop_results_for_event` over the entries that were pending when it began.
unfoldable pub schedule_stops :
    Client → String → List StopResultOutboxEntry → Controller → Controller
schedule_stops client event_id [] c = c
schedule_stops client event_id (entry ∷ rest) c = schedule_stops client event_id rest (
    if value_eq (value_at "event_id" entry.payload) (Value.text event_id)
    then schedule_stop_result_delivery client entry true c
    else c)

unfoldable pub schedule_stop_results_for_event : Client → String → Controller → Controller
unfolding schedule_stops
schedule_stop_results_for_event client event_id c =
    schedule_stops client event_id (map (λ e. e.1) c.stop_result_outbox.pending) c
