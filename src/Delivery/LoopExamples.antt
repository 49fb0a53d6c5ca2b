-- ===== src/Delivery/LoopExamples.antt =====
-- Deliveries of grix_hermes/terminal_delivery.py at concrete answers.
use grix_hermes_python.Prelude.{
  ℕ, ◌-◌, ◌≤◌, ◌<◌, ◌≡◌, refl, true, false, none, some, [], ◌∷◌, ◌==◌, arith, nat_eq, count,
  if◌then◌else◌, inr,
}
use grix_hermes_python.Prelude.Dict.{Dict, get, put}
use grix_hermes_python.Prelude.Int.{pos}
use grix_hermes_python.Prelude.Text.{strip, is_space}
use grix_hermes_python.Json.{Value, value_at, text_of, truthy, str, is_true}
use grix_hermes_python.Json.Numbers.{int_of}
use grix_hermes_python.Json.Equality.{value_eq}
use grix_hermes_python.Persistence.Payload.{Payload, clean_text}
use grix_hermes_python.Persistence.File.{Env}
use grix_hermes_python.Persistence.TerminalOutbox
use grix_hermes_python.Persistence.TerminalOutbox.{
  TerminalOutboxEntry, Ack, is_current, id_of, current_of, mark_delivery_started, commit, save,
}
use grix_hermes_python.Persistence.TerminalOutbox.Durability.{IsDurable}
use grix_hermes_python.Persistence.Tokens
use grix_hermes_python.Persistence.Committed
use grix_hermes_python.Persistence.Committed.Laws.{IsTidy}
use grix_hermes_python.Persistence.StopResults
use grix_hermes_python.Prelude.{member}
use grix_hermes_python.Delivery.Controller.{Controller, Client, Writes, terminal_retry_delay_ms}
use grix_hermes_python.Delivery.Attempt.{Packet, Verdict, prepare}
use grix_hermes_python.Delivery.Acknowledged.{IsPending, IsAnswered, IsOver}
use grix_hermes_python.Delivery.Loop.{
  Round, attempts, max_attempts, timeout_ms, send_event_result_reliable,
}
use grix_hermes_python.Delivery.Loop.Bounds.{attempts-bounded, pauses}
use grix_hermes_python.Delivery.Loop.Outcomes.{IsCalm}
use grix_hermes_python.Delivery.Loop.Delivered.{
  IsStarted, acknowledged_at, unanswered_kept, IsRetried,
}

abbrev works : Env
works = record { now = 1_000; writes = true }

abbrev all_work : Writes
all_work = record { first = works; second = works; third = works }

abbrev client : Client
client = record { ready = true; negotiated = true; now = 1_000 }

abbrev result : Payload
result =
    ("event_id", Value.text "e1")
    ∷ ("status", Value.text "responded")
    ∷ ("terminal_commit_token", Value.text "t1")
    ∷ []

abbrev entry : TerminalOutboxEntry
entry = record {
  payload = result;
  generation = 1;
  created_at = pos 500;
  updated_at = pos 500;
  attempts = 0;
  next_attempt_at = pos 0;
  delivery_started_at = none;
  last_error = none;
}

abbrev controller : Controller
controller = record {
  terminal_outbox = record (TerminalOutbox.new none) { pending = ("e1", entry) ∷ [] };
  terminal_commit_tokens = record (Tokens.new none) { tokens = ("e1", "t1") ∷ [] };
  stop_result_outbox = StopResults.new none;
  terminal_committed = Committed.new none 10;
  terminal_in_flight = [];
  terminal_replay_after_flight = [];
  terminal_retry_handles = [];
  stop_in_flight = [];
  stop_retry_handles = [];
  spawned = [];
}

-- The server allows two attempts.
abbrev policy : Dict Value
policy = ("max_retries", Value.text "2") ∷ []

abbrev silent : Round
silent = record {
  pause = λ c. c;
  connected = true;
  meanwhile = λ c. c;
  answer = none;
  still_connected = true;
  writes = all_work;
  reconnecting = λ c. c;
}

abbrev answer : Ack
answer = record {
  event_id = Value.text "e1";
  status = Value.text "responded";
  terminal_commit_token = Value.text "t1";
  terminal_committed = Value.boolean true;
}

-- The second attempt is answered.
abbrev answered : ℕ → Round
answered i = record silent { answer = if nat_eq i 2 then some (Packet.ack answer) else none }

attempts-bounded_example :
    ((attempts client entry answered 3 1 0 [] controller).requests ≤ 3)
    × ((k : ℕ) × ((attempts client entry answered 3 1 0 [] controller).slept ≡ pauses 1 k)
        × (k ≤ (attempts client entry answered 3 1 0 [] controller).requests)
        × (k ≤ 3 - 1))
attempts-bounded_example = attempts-bounded client entry answered 3 controller

-- The first delivery of the entry marks it as started.
abbrev marked : Controller
marked = record controller {
  terminal_outbox = record (TerminalOutbox.new none) {
    pending =
        ("e1", record entry { delivery_started_at = some (pos 1_000); updated_at = pos 1_000 })
        ∷ [];
  };
}

starts : IsStarted works client policy entry controller marked 2
unfolding prepare mark_delivery_started current_of id_of get value_at text_of truthy str clean_text
    strip is_space max_attempts timeout_ms int_of commit save put
starts = record { prepared = refl; attempts = refl; timeout = (pos 5_000, refl) }

answered-IsCalm : (i : ℕ) → IsCalm (answered i)
answered-IsCalm i = record { connected = refl; meanwhile = λ c. refl; pause = λ c. refl }

silent-IsCalm : (i : ℕ) → IsCalm silent
silent-IsCalm i = record { connected = refl; meanwhile = λ c. refl; pause = λ c. refl }

first_silent : (i : ℕ) → i < 2 → (answered i).answer ≡ none
first_silent i h = ground arith

entry-IsPending : IsPending entry controller.terminal_outbox
unfolding get id_of value_at text_of truthy str value_eq
entry-IsPending = record {
  current = entry;
  there = refl;
  generation = refl;
  status = refl;
  token = refl;
}

unanswered_kept_example :
    let t =
      send_event_result_reliable works client policy entry
        (λ (i : ℕ). silent)
        works
        "timeout"
        controller in
    (t.1 ≡ some terminal_retry_delay_ms)
    × ((e : TerminalOutboxEntry) × (get (id_of entry) t.0.terminal_outbox.pending ≡ some e)
        × IsRetried works "timeout" entry e)
    × ((attempts client entry (λ (i : ℕ). silent) 2 1 0 [] marked).requests ≡ 2)
unfolding get id_of value_at text_of truthy str value_eq
unanswered_kept_example =
    unanswered_kept works client policy entry (λ (i : ℕ). silent) works "timeout" controller marked
      2 starts silent-IsCalm (λ i. refl) refl
      (record { current = entry; there = refl; generation = refl; status = refl; token = refl })

outbox-IsDurable : IsDurable controller.terminal_outbox
outbox-IsDurable = record {
  once = λ k. ground arith;
  pending = λ p k. absurd (ground arith);
  letters = λ p. absurd (ground arith);
  bounded = omega arith;
}

sealed-IsTidy : IsTidy controller.terminal_committed
unfolding member
sealed-IsTidy = record {
  room = omega arith;
  bounded = omega arith;
  once = λ x. omega arith;
  clean = λ x h. absurd (ground arith);
}

one_token : count (λ e. e.0 == id_of entry) controller.terminal_commit_tokens.tokens ≤ 1
one_token = ground arith

e1_named : (strip (id_of entry) == "") ≡ false
unfolding strip is_space id_of get value_at text_of truthy str
e1_named = refl

entry-IsAnswered : IsAnswered entry answer
unfolding strip is_space id_of get value_at text_of value_eq clean_text is_true truthy str
entry-IsAnswered = record { event = refl; status = refl; token = inr (refl, refl) }

acknowledged_at_example :
    (d : Controller) × (send_event_result_reliable works client policy entry answered works
        "timeout" controller
      ≡ (d, some 0))
    × IsOver entry (d, Verdict.ended 0)
acknowledged_at_example =
    acknowledged_at works client policy entry answered works "timeout" controller marked 2 starts 2
      answer answered-IsCalm (omega arith) (omega arith) first_silent refl refl refl refl refl
      outbox-IsDurable sealed-IsTidy one_token e1_named entry-IsPending entry-IsAnswered
