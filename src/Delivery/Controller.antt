-- ===== src/Delivery/Controller.antt =====
-- The state of `TerminalDeliveryController` in grix_hermes/terminal_delivery.py, and what it asks of
-- the client.
use grix_hermes_python.Prelude.{ℕ, String, Bool, List, [], ◌∷◌, ◌++◌, ◌&&◌, not}
use grix_hermes_python.Prelude.Dict.{Dict}
use grix_hermes_python.Persistence.File.{Env}
use grix_hermes_python.Json.{Value, value_at}
use grix_hermes_python.Json.Equality.{value_eq}
use grix_hermes_python.Persistence.Payload.{Payload}
use grix_hermes_python.Persistence.TerminalOutbox.{TerminalOutbox, TerminalOutboxEntry, started}
use grix_hermes_python.Persistence.Tokens.{TokenStore}
use grix_hermes_python.Persistence.Committed.{CommittedStore}
use grix_hermes_python.Persistence.StopResults.{StopResultOutbox, StopResultOutboxEntry}

-- The tasks that the loop will run: a delivery, or one packet that nobody waits for.
pub data Spawned : Type 0 where
  deliver_terminal : TerminalOutboxEntry → Spawned
  deliver_stop : StopResultOutboxEntry → Spawned
  send_packet : Payload → Spawned

-- The dicts of timer handles map to the delay in milliseconds; `spawned` has the oldest first. The
-- dict `_provisional_responded` is left out: no code puts anything into it.
pub record Controller : Type 0 where
  pub terminal_outbox : TerminalOutbox
  pub terminal_commit_tokens : TokenStore
  pub stop_result_outbox : StopResultOutbox
  pub terminal_committed : CommittedStore
  pub terminal_in_flight : List String
  pub terminal_replay_after_flight : List String
  pub terminal_retry_handles : Dict ℕ
  pub stop_in_flight : List String
  pub stop_retry_handles : Dict ℕ
  pub spawned : List Spawned

-- What the client answers at one moment: `is_ready_for_outbound`, whether terminal_commit_v1 is
-- negotiated, and the time.
pub record Client : Type 0 where
  pub ready : Bool
  pub negotiated : Bool
  pub now : ℕ

-- The stores write one after the other, and each write may fail.
pub record Writes : Type 0 where
  pub first : Env
  pub second : Env
  pub third : Env

abbrev pub terminal_retry_delay_ms : ℕ
terminal_retry_delay_ms = 15_000

unfoldable pub can_replace_unsent_output_guard : TerminalOutboxEntry → Bool
can_replace_unsent_output_guard entry =
    value_eq (value_at "code" entry.payload) (Value.text "agent_output_unconfirmed")
    && not (started entry)

unfoldable pub spawn : Spawned → Controller → Controller
spawn s c = record c { spawned = c.spawned ++ s ∷ [] }
