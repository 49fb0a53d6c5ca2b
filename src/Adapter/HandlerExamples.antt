-- ===== src/Adapter/HandlerExamples.antt =====
-- Checks of the handlers of the queue's packets in grix_hermes/adapter.py on a concrete queue.
use grix_hermes_python.Prelude.{String, ◌≡◌, refl, Bool, true, false, [], ◌∷◌}
use grix_hermes_python.Prelude.Dict.{Dict, get}
use grix_hermes_python.Prelude.Text.{strip, is_space}
use grix_hermes_python.Json.{Value, value_at, text_of, str, truthy}
use grix_hermes_python.Json.Numbers.{int_of}
use grix_hermes_python.Protocol.Names.{clamp_int, normalize_text, normalize_id}
use grix_hermes_python.Protocol.Controls.{normalize_event_hold, normalize_queue_edit}
use grix_hermes_python.Protocol.Events.{normalize_message_text}
use grix_hermes_python.EventQueue.State.{
  QueueItem, EventQueue, EventQueueConfig, find_item, update_item, calls, new,
}
use grix_hermes_python.EventQueue.Query.{find, is_running}
use grix_hermes_python.EventQueue.Timers
use grix_hermes_python.EventQueue.Notify
use grix_hermes_python.EventQueue.Hold
use grix_hermes_python.Adapter.QueueHandlers.{
  Send, attempt, find_owned_queued_item, set_hold, answer_hold, apply_edit, answer_edit,
  handle_event_hold_packet, handle_queue_edit_packet,
}
use grix_hermes_python.Adapter.SessionHandlers.{
  handle_queue_reorder_packet, handle_queue_clear_packet,
}
use grix_hermes_python.Adapter.Owners.{KeepsForeign}
use grix_hermes_python.Adapter.OwnersApart.{handlers-KeepsForeign}

abbrev event : String → String → QueueItem String
event event_id owner_key = record {
  event_id = event_id;
  session_id = "s";
  group_key = "g";
  owner_key = owner_key;
  preview = event_id;
  payload = event_id;
  content = event_id;
  held = false;
  held_reason = "";
}

abbrev config : EventQueueConfig
config = record {
  max_queued = 5;
  queue_timeout_ms = 0;
  run_timeout_ms = 0;
  cancelable_queued = true;
  cancelable_running = true;
}

-- Two owners have an event each.
abbrev shared : EventQueue String
shared = record (new config true) { queued = event "a" "me" ∷ event "b" "you" ∷ [] }

abbrev rewritten : String → String → String
rewritten text message = text

abbrev all_sent : Send → Bool
all_sent send = true

abbrev none_sent : Send → Bool
none_sent send = false

abbrev packet : String → Dict Value
packet event_id =
    ("event_id", Value.text event_id)
    ∷ ("session_id", Value.text "s")
    ∷ ("content", Value.text "new text")
    ∷ []

-- The event of another owner is not found, and where that can not be sent, it is a bad request.
foreign_hold_test : handle_event_hold_packet true none_sent "me" (packet "b") shared ≡ (
  shared,
  Send.hold_result "s" "b" false false "not_found"
      ∷ Send.hold_result "s" "b" false false "bad_request"
      ∷ [],
)
unfolding handle_event_hold_packet normalize_event_hold answer_hold find_owned_queued_item find
    is_running find_item attempt normalize_id normalize_text clamp_int int_of value_at get text_of
    str truthy strip is_space
foreign_hold_test = refl

own_hold_test :
    (handle_event_hold_packet true all_sent "me" (packet "a") shared).0.queued
    ≡ Hold.held_for "manual" (event "a" "me") ∷ event "b" "you" ∷ []
unfolding handle_event_hold_packet normalize_event_hold answer_hold find_owned_queued_item find
    is_running find_item attempt normalize_id normalize_text clamp_int int_of value_at get text_of
    str truthy strip is_space set_hold Hold.hold update_item Notify.notify_item calls
    Timers.arm_hold Timers.cancel_hold Timers.cancel_timeout
own_hold_test = refl

own_edit_test :
    (handle_queue_edit_packet rewritten true all_sent "me" (packet "a") shared).1
    ≡ Send.edit_result "s" "a" true "" ∷ Send.push_snapshot "s" "me" ∷ []
unfolding handle_queue_edit_packet normalize_queue_edit answer_edit apply_edit
    find_owned_queued_item find is_running find_item attempt normalize_id normalize_text
    normalize_message_text value_at get text_of str truthy strip is_space Hold.edit
own_edit_test = refl

handlers-KeepsForeign_example :
    KeepsForeign "me" shared (handle_event_hold_packet true all_sent "me" (packet "a") shared).0
    × KeepsForeign "me" shared
        (handle_queue_edit_packet rewritten true all_sent "me" (packet "a") shared).0
    × KeepsForeign "me" shared
        (handle_queue_reorder_packet true all_sent "me" (packet "a") shared).0
    × KeepsForeign "me" shared (handle_queue_clear_packet true all_sent "me" (packet "a") shared).0
handlers-KeepsForeign_example =
    handlers-KeepsForeign "me" rewritten true all_sent (packet "a") shared refl
