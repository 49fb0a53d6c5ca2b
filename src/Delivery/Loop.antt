-- ===== src/Delivery/Loop.antt =====
-- The attempts of a delivery: `_send_event_result_reliable` of grix_hermes/terminal_delivery.py, and
-- `_deliver_terminal_entry` around it.
pub mod Bounds
pub mod Outcomes
pub mod Started
pub mod Delivered
use grix_hermes_python.Prelude.{
  ℕ, zero, suc, ◌+◌, ◌-◌, ◌*◌, String, Bool, true, false, Option, none, some, List, [], ◌∷◌, ◌++◌,
  ◌==◌, ◌&&◌, not, nat_eq, if◌then◌else◌,
}
use grix_hermes_python.Prelude.Dict.{Dict}
use grix_hermes_python.Prelude.Int.{ℤ, pos, pos_part, max_ℤ}
use grix_hermes_python.Json.{Value, value_at, truthy}
use grix_hermes_python.Json.Numbers.{int_of}
use grix_hermes_python.Persistence.File.{Env}
use grix_hermes_python.Persistence.TerminalOutbox.{TerminalOutboxEntry, token_of}
use grix_hermes_python.Delivery.Controller.{Controller, Client, Writes, terminal_retry_delay_ms}
use grix_hermes_python.Delivery.Attempt.{
  Packet, Verdict, is_permanent_nack, on_packet, keep_for_retry, prepare, before_attempt,
}
use grix_hermes_python.Delivery.Flight.{take_off, land}

-- What one attempt meets. Other tasks run in the pause before it, while it waits for the answer, and
-- while the client reconnects; `answer` is `none` where the request raises. `connected` and
-- `still_connected` are `is_connection_current` before the request and after the answer.
pub record Round : Type 0 where
  pub pause : Controller → Controller
  pub connected : Bool
  pub meanwhile : Controller → Controller
  pub answer : Option Packet
  pub still_connected : Bool
  pub writes : Writes
  pub reconnecting : Controller → Controller

-- int(v or default), or `none` where it raises.
abbrev pub setting : Value → ℕ → Option ℤ
setting v default = int_of (if truthy v then v else Value.number (pos default))

-- `max(1, int(ack_policy.get("max_retries") or 3))`
abbrev pub at_least_one : Option ℤ → Option ℕ
at_least_one none = none
at_least_one (some n) = some (pos_part (max_ℤ (pos 1) n))

unfoldable pub max_attempts : Dict Value → Option ℕ
max_attempts ack_policy = at_least_one (setting (value_at "max_retries" ack_policy) 3)

unfoldable pub timeout_ms : Dict Value → Option ℤ
timeout_ms ack_policy = setting (value_at "push_ack_timeout_ms" ack_policy) 5_000

-- Only where a token is at stake and the code is not permanent does the client reconnect.
unfoldable pub reconnect : Round → TerminalOutboxEntry → Packet → Controller → Controller
reconnect r entry (Packet.ack a) c = c
reconnect r entry (Packet.nack n) c =
    if not (token_of entry.payload == "") && not (is_permanent_nack n.code)
    then r.reconnecting c
    else c

abbrev pub after_packet :
    Round → TerminalOutboxEntry → Packet → Controller × Verdict → Controller × Verdict
after_packet r entry packet (c, Verdict.ended delay) = (c, Verdict.ended delay)
after_packet r entry packet (c, Verdict.attempt_failed) = (c, Verdict.attempt_failed)
after_packet r entry packet (c, Verdict.left) = (reconnect r entry packet c, Verdict.left)

-- What the answer leads to, in the state that it finds.
abbrev pub on_answer :
    Client → Round → TerminalOutboxEntry → Controller → Option Packet → Controller × Verdict
on_answer client r entry c none = (c, Verdict.attempt_failed)
on_answer client r entry c (some packet) =
    after_packet r entry packet (on_packet r.writes client r.still_connected entry packet c)

-- A request.
unfoldable pub ask : Client → Round → TerminalOutboxEntry → Controller → Controller × Verdict
ask client r entry c = on_answer client r entry (r.meanwhile c) r.answer

-- `ending` is the delay that the loop returned, or `none` where it was left or ran to its end;
-- `slept` has the pauses in milliseconds.
pub record Attempts : Type 0 where
  pub controller : Controller
  pub ending : Option ℕ
  pub requests : ℕ
  pub slept : List ℕ

abbrev stopped : Controller → Option ℕ → ℕ → List ℕ → Attempts
stopped c ending requests slept = record {
  controller = c;
  ending = ending;
  requests = requests;
  slept = slept;
}

abbrev retry_delay_ms : ℕ
retry_delay_ms = 750

-- The attempts from `attempt` on, of which there are `left`, after `requests` requests.
unfoldable pub attempts :
    Client → TerminalOutboxEntry → (ℕ → Round) → ℕ → ℕ → ℕ → List ℕ → Controller → Attempts
attempts client entry world zero attempt requests slept c = stopped c none requests slept
attempts client entry world (suc left) attempt requests slept c =
    let r = world attempt in
    let (asked, verdict) = ask client r entry c in
    let rest =
      attempts client entry world left (attempt + 1) (requests + 1)
        (slept ++ (retry_delay_ms * attempt) ∷ []) ((world (attempt + 1)).pause asked) in
    elim (before_attempt r.connected entry c) [
      | some delay ↦ stopped c (some delay) requests slept
      | none ↦ elim verdict [
        | Verdict.ended delay ↦ stopped asked (some delay) (requests + 1) slept
        | Verdict.left ↦ stopped asked none (requests + 1) slept
        | Verdict.attempt_failed ↦
            if nat_eq left 0 then stopped asked none (requests + 1) slept else rest
      ]
    ]

-- What follows the loop, at the time and with the file system of `env` and the text of what failed
-- last.
abbrev pub after_loop : Env → TerminalOutboxEntry → String → Attempts → Controller × Option ℕ
after_loop env entry last_error a = elim a.ending [
  | some delay ↦ (a.controller, some delay)
  | none ↦ (keep_for_retry env entry last_error a.controller, some terminal_retry_delay_ms)
]

-- A negotiated policy that `int` does not read raises, after the start of the delivery was marked:
-- then the delay is `none`.
unfoldable pub run_attempts :
    Client
    → Dict Value
    → TerminalOutboxEntry
    → (ℕ → Round)
    → Env
    → String
    → Controller
    → Controller × Option ℕ
run_attempts client ack_policy entry world env last_error c = elim (max_attempts ack_policy) [
  | none ↦ (c, none)
  | some most ↦ elim (timeout_ms ack_policy) [
    | none ↦ (c, none)
    | some timeout ↦ after_loop env entry last_error (attempts client entry world most 1 0 [] c)
  ]
]

-- The controller, and the delay that is returned, or `none` where this raises.
unfoldable pub send_event_result_reliable :
    Env
    → Client
    → Dict Value
    → TerminalOutboxEntry
    → (ℕ → Round)
    → Env
    → String
    → Controller
    → Controller × Option ℕ
send_event_result_reliable start client ack_policy entry world env last_error c =
    let (marked, early) = prepare start client entry c in
    elim early [
      | some delay ↦ (marked, some delay)
      | none ↦ run_attempts client ack_policy entry world env last_error marked
    ]

abbrev delay_or_zero : Option ℕ → ℕ
delay_or_zero none = 0
delay_or_zero (some delay) = delay

-- `landing` is the client when the delivery lands, and `connected` are the tests of the connection
-- at take-off and at the landing.
unfoldable pub deliver_terminal_entry :
    Env
    → Client
    → Client
    → Bool
    → Bool
    → Dict Value
    → TerminalOutboxEntry
    → (ℕ → Round)
    → Env
    → String
    → Controller
    → Controller
deliver_terminal_entry start client landing connected still_connected ack_policy entry world env
      last_error c =
    let (flying, off) = take_off entry c in
    let (sent, delay) =
      send_event_result_reliable start client ack_policy entry world env last_error flying in
    if not off
    then c
    else if not connected
    then land landing still_connected entry 0 flying
    else land landing still_connected entry (delay_or_zero delay) sent
