-- ===== src/Delivery/Examples.antt =====
-- Runs of grix_hermes/terminal_delivery.py, at which its theorems are applied.
use grix_hermes_python.Prelude.{
  ℕ, ◌≤◌, String, ◌≡◌, ◌≢◌, refl, inr, true, false, none, some, [], ◌∷◌, ◌==◌, ◌&&◌, arith, member,
  count, eq_iff,
}
use grix_hermes_python.Prelude.Int.{pos}
use grix_hermes_python.Prelude.Dict.{get}
use grix_hermes_python.Prelude.Text.{strip, is_space}
use grix_hermes_python.Persistence.File.{Env}
use grix_hermes_python.Json.{Value, value_at, text_of, is_true}
use grix_hermes_python.Json.Equality.{value_eq}
use grix_hermes_python.Persistence.Payload.{Payload, clean_text}
use grix_hermes_python.Persistence.TerminalOutbox
use grix_hermes_python.Persistence.TerminalOutbox.{
  TerminalOutboxEntry, TerminalRejection, Ack, id_of, is_current,
}
use grix_hermes_python.Persistence.TerminalOutbox.Durability.{IsDurable}
use grix_hermes_python.Persistence.Tokens
use grix_hermes_python.Persistence.Committed
use grix_hermes_python.Persistence.Committed.Laws.{IsTidy}
use grix_hermes_python.Persistence.StopResults
use grix_hermes_python.Persistence.StopResults.{StopResultOutboxEntry}
use grix_hermes_python.Delivery.Controller.{Controller, Client, Writes}
use grix_hermes_python.Delivery.Schedule.{schedule_stop_result_delivery}
use grix_hermes_python.Delivery.Send.{send_event_result}
use grix_hermes_python.Delivery.Attempt.{Packet, on_packet}
use grix_hermes_python.Delivery.Flight.{take_off}
use grix_hermes_python.Delivery.Settling.{is_final, on_packet_keeps, nack_fences}
use grix_hermes_python.Delivery.FirstWins.{is_decided, may_replace, send_event_result-decided}
use grix_hermes_python.Delivery.Acknowledged.{IsPending, IsAnswered, IsOver, on_packet-IsOver}
use grix_hermes_python.Delivery.StopAttempt.{on_stop_packet}
use grix_hermes_python.Delivery.StopSettling.{is_final_stop, on_stop_packet_keeps}

abbrev works : Env
works = record { now = 1_000; writes = true }

abbrev all_work : Writes
all_work = record { first = works; second = works; third = works }

abbrev client : Client
client = record { ready = true; negotiated = true; now = 1_000 }

abbrev result_of : String → Payload
result_of status =
    ("event_id", Value.text "e1")
    ∷ ("status", Value.text status)
    ∷ ("terminal_commit_token", Value.text "t1")
    ∷ []

abbrev entry : TerminalOutboxEntry
entry = record {
  payload = result_of "responded";
  generation = 1;
  created_at = pos 500;
  updated_at = pos 500;
  attempts = 0;
  next_attempt_at = pos 0;
  delivery_started_at = some (pos 600);
  last_error = none;
}

abbrev stop : StopResultOutboxEntry
stop = record {
  key = "e1\0s1";
  payload =
      ("event_id", Value.text "e1")
      ∷ ("stop_id", Value.text "s1")
      ∷ ("status", Value.text "stopped")
      ∷ ("terminal_commit_token", Value.text "t1")
      ∷ [];
  generation = 1;
  created_at = pos 700;
  updated_at = pos 700;
  attempts = 0;
  next_attempt_at = pos 0;
  last_error = none;
}

abbrev controller : Controller
controller = record {
  terminal_outbox = record (TerminalOutbox.new none) { pending = ("e1", entry) ∷ [] };
  terminal_commit_tokens = record (Tokens.new none) { tokens = ("e1", "t1") ∷ [] };
  stop_result_outbox = record (StopResults.new none) { pending = ("e1\0s1", stop) ∷ [] };
  terminal_committed = Committed.new none 10;
  terminal_in_flight = [];
  terminal_replay_after_flight = [];
  terminal_retry_handles = [];
  stop_in_flight = [];
  stop_retry_handles = [];
  spawned = [];
}

abbrev answer : String → Ack
answer token = record {
  event_id = Value.text "e1";
  status = Value.text "responded";
  terminal_commit_token = Value.text token;
  terminal_committed = Value.boolean true;
}

abbrev refusal : ℕ → TerminalRejection
refusal code = record { response_cmd = "send_nack"; code = some (pos code); message = none }

other_token :
    true && is_current entry controller.terminal_outbox && is_final entry (Packet.ack (answer "t2"))
    ≡ false
unfolding is_current is_final id_of get value_at text_of value_eq clean_text strip is_space is_true
other_token = refl

on_packet_keeps_example :
    (on_packet all_work client true entry (Packet.ack (answer "t2")) controller).0 ≡ controller
on_packet_keeps_example =
    on_packet_keeps all_work client true entry (Packet.ack (answer "t2")) controller other_token

stop_token :
    get (text_of (value_at "event_id" stop.payload)) controller.terminal_commit_tokens.tokens
    ≡ some "t1"
unfolding get value_at text_of
stop_token = refl

t1_filled : ◌≢◌ {A = String} "t1" ""
t1_filled same = let test = (eq_iff "t1" "").1 same in ground arith

nack_fences_example :
    schedule_stop_result_delivery client stop true
      (on_packet all_work client true entry (Packet.nack (refusal 4_001)) controller).0
    ≡ (on_packet all_work client true entry (Packet.nack (refusal 4_001)) controller).0
nack_fences_example =
    nack_fences all_work client client true true entry stop (refusal 4_001) controller "t1"
      stop_token t1_filled

failed_decided : is_decided (result_of "failed") controller ≡ true
unfolding is_decided may_replace get value_at text_of value_eq clean_text strip is_space
failed_decided = refl

send_event_result-decided_example :
    (send_event_result all_work client (result_of "failed") controller).terminal_outbox
    ≡ controller.terminal_outbox
send_event_result-decided_example =
    send_event_result-decided all_work client (result_of "failed") controller failed_decided

outbox-IsDurable : IsDurable controller.terminal_outbox
outbox-IsDurable = record {
  once = λ k. ground arith;
  pending = λ p k. absurd (ground arith);
  letters = λ p. absurd (ground arith);
  bounded = omega arith;
}

sealed-IsTidy : IsTidy controller.terminal_committed
unfolding member
sealed-IsTidy = record {
  room = omega arith;
  bounded = omega arith;
  once = λ x. omega arith;
  clean = λ x h. absurd (ground arith);
}

one_token : count (λ e. e.0 == id_of entry) controller.terminal_commit_tokens.tokens ≤ 1
one_token = ground arith

e1_named : (strip (id_of entry) == "") ≡ false
unfolding strip is_space id_of get value_at text_of
e1_named = refl

entry-IsPending : IsPending entry controller.terminal_outbox
unfolding id_of get value_at text_of value_eq
entry-IsPending = record {
  current = entry;
  there = refl;
  generation = refl;
  status = refl;
  token = refl;
}

entry-IsAnswered : IsAnswered entry (answer " t1")
unfolding strip is_space id_of get value_at text_of value_eq clean_text is_true
entry-IsAnswered = record { event = refl; status = refl; token = inr (refl, refl) }

on_packet-IsOver_example :
    IsOver entry (on_packet all_work client true entry (Packet.ack (answer " t1")) controller)
on_packet-IsOver_example =
    on_packet-IsOver all_work client entry (answer " t1") controller refl refl refl outbox-IsDurable
      sealed-IsTidy one_token e1_named entry-IsPending entry-IsAnswered

no_drop :
    true
      && StopResults.is_current stop controller.stop_result_outbox
      && is_final_stop stop (Packet.nack (refusal 5_000))
    ≡ false
unfolding StopResults.is_current is_final_stop get value_at value_eq
no_drop = refl

on_stop_packet_keeps_example :
    (on_stop_packet works true stop (Packet.nack (refusal 5_000)) controller).0 ≡ controller
on_stop_packet_keeps_example =
    on_stop_packet_keeps works true stop (Packet.nack (refusal 5_000)) controller no_drop

takes_off : (take_off entry controller).1 ≡ true
unfolding take_off is_current id_of get value_at text_of value_eq member
takes_off = refl
