-- ===== src/Delivery/StopSettling.antt =====
-- Which answers settle a stop result in grix_hermes/terminal_delivery.py, and when one flies.
use grix_hermes_python.Prelude.{
  ◌||◌, none, some, Option, ◌≡◌, Bool, true, false, ◌&&◌, member, arith, eq_refl, inl, inr,
  Option-cases,
}
use grix_hermes_python.Prelude.Int.{ℤ, pos, eq_ℤ}
use grix_hermes_python.Prelude.Text.{strip}
use grix_hermes_python.Prelude.Dict.{get}
use grix_hermes_python.Persistence.File.{Env}
use grix_hermes_python.Json.{Value, value_at, text_of, is_true}
use grix_hermes_python.Json.Equality.{value_eq}
use grix_hermes_python.Persistence.StopResults
use grix_hermes_python.Persistence.StopResults.{StopResultOutboxEntry}
use grix_hermes_python.Persistence.TerminalOutbox.{TerminalOutboxEntry, id_of}
use grix_hermes_python.Delivery.Controller.{Controller}
use grix_hermes_python.Delivery.Attempt.{Packet}
use grix_hermes_python.Delivery.Flight.{take_off}
use grix_hermes_python.Delivery.StopAttempt.{on_stop_packet}

abbrev is_refused : Option ℤ → Bool
is_refused none = false
is_refused (some code) = eq_ℤ code (pos 4001) || eq_ℤ code (pos 4003)

-- Is the answer a reason to give the entry up?
unfoldable pub is_final_stop : StopResultOutboxEntry → Packet → Bool
is_final_stop entry (Packet.ack a) =
    value_eq (Value.text (strip (text_of a.event_id))) (value_at "event_id" entry.payload)
    && value_eq (Value.text (strip (text_of a.terminal_commit_token)))
        (value_at "terminal_commit_token" entry.payload)
    && is_true a.terminal_committed
is_final_stop entry (Packet.nack r) = is_refused r.code

-- An answer to a stop result changes nothing if the connection is no longer the same, if the entry
-- is no longer current, or if it is neither an acknowledgement with the entry's event id and token
-- and the literal `true` nor a rejection with code 4001 or 4003.
pub on_stop_packet_keeps :
    (env : Env) (connected : Bool) (entry : StopResultOutboxEntry) (packet : Packet)
    (c : Controller)
    → connected && StopResults.is_current entry c.stop_result_outbox && is_final_stop entry packet
      ≡ false
    → (on_stop_packet env connected entry packet c).0 ≡ c
unfolding on_stop_packet is_final_stop StopResults.acknowledge StopResults.ack_fits
on_stop_packet_keeps env connected entry (Packet.ack a) c h =
    elim (Option-cases (get entry.key c.stop_result_outbox.pending)) [
      | inl missing ↦ ground arith
      | inr (current, there) ↦ ground arith
    ]
on_stop_packet_keeps env connected entry (Packet.nack r) c h = ground arith

-- While a delivery that took off is in flight, no second delivery for the same event takes off.
pub take_off_once :
    (entry other : TerminalOutboxEntry) (c : Controller)
    → (take_off entry c).1 ≡ true
    → id_of other ≡ id_of entry
    → take_off other (take_off entry c).0 ≡ ((take_off entry c).0, false)
unfolding take_off member
take_off_once entry other c h same = ground (arith, eq_refl (id_of entry))
