-- ===== src/Delivery/Settling.antt =====
-- Which answers settle a terminal result in grix_hermes/terminal_delivery.py.
use grix_hermes_python.Prelude.{
  not, none, some, Option, String, ◌≡◌, ◌≢◌, ap, ◌∙◌, Bool, false, ◌==◌, ◌||◌, ◌&&◌, arith, eq_iff,
}
use grix_hermes_python.Prelude.Int.{ℤ, pos, leb_ℤ, eq_ℤ}
use grix_hermes_python.Prelude.Text.{strip}
use grix_hermes_python.Prelude.Dict.{get}
use grix_hermes_python.Persistence.File.{Env}
use grix_hermes_python.Json.{value_at, text_of, is_true}
use grix_hermes_python.Json.Equality.{value_eq}
use grix_hermes_python.Persistence.TerminalOutbox
use grix_hermes_python.Persistence.TerminalOutbox.{
  TerminalOutboxEntry, TerminalRejection, Ack, id_of, token_of, is_current,
}
use grix_hermes_python.Persistence.Tokens
use grix_hermes_python.Persistence.StopResults.{StopResultOutboxEntry}
use grix_hermes_python.Delivery.Controller.{Controller, Client, Writes}
use grix_hermes_python.Delivery.Schedule.{is_fenced, stop_event_id, schedule_stop_result_delivery}
use grix_hermes_python.Delivery.Attempt.{
  Packet, ack_matches, is_permanent_nack, on_ack, on_rejection, on_packet, settle,
}

-- The codes from 4000 to 4999 but 4008.
abbrev is_hopeless : Option ℤ → Bool
is_hopeless none = false
is_hopeless (some code) =
    leb_ℤ (pos 4000) code && leb_ℤ code (pos 4999) && not (eq_ℤ code (pos 4008))

-- Is the answer a reason to give the entry up? An acknowledgement of the same event and status that
-- brings the token, where there is one; or a rejection that no retry can mend.
unfoldable pub is_final : TerminalOutboxEntry → Packet → Bool
is_final entry (Packet.ack a) =
    value_eq a.event_id (value_at "event_id" entry.payload)
    && value_eq a.status (value_at "status" entry.payload)
    && (token_of entry.payload == ""
        || (strip (text_of a.terminal_commit_token) == token_of entry.payload
            && is_true a.terminal_committed))
is_final entry (Packet.nack r) = token_of entry.payload == "" || is_hopeless r.code

-- No answer gives up a terminal result without a reason: an answer changes nothing if the
-- connection is no longer the same, if the entry is no longer current, or if it is neither an
-- acknowledgement of the entry's event and status, with its token and the literal `true` if it has
-- one, nor a rejection of an entry without a token or with a permanent code.
pub on_packet_keeps :
    (writes : Writes) (client : Client) (connected : Bool) (entry : TerminalOutboxEntry)
    (packet : Packet) (c : Controller)
    → connected && is_current entry c.terminal_outbox && is_final entry packet ≡ false
    → (on_packet writes client connected entry packet c).0 ≡ c
unfolding on_packet is_final
on_packet_keeps writes client connected entry (Packet.ack a) c h =
    (unfold on_ack ack_matches in ground arith)
on_packet_keeps writes client connected entry (Packet.nack r) c h =
    (unfold on_rejection is_permanent_nack in ground arith)

tokens_of_settle :
    (env : Env) (client : Client) (e : String) (c : Controller)
    → (settle env client e false c).0.terminal_commit_tokens ≡ c.terminal_commit_tokens
unfolding settle
tokens_of_settle env client e c = ground arith

tokens_of_nack :
    (writes : Writes) (client : Client) (connected : Bool) (entry : TerminalOutboxEntry)
    (r : TerminalRejection) (c : Controller)
    → (on_packet writes client connected entry (Packet.nack r) c).0.terminal_commit_tokens
      ≡ c.terminal_commit_tokens
unfolding on_packet on_rejection
tokens_of_nack writes client connected entry r c =
    let buried = record c {
      terminal_outbox =
          (TerminalOutbox.move_to_dead_letter writes.first entry r c.terminal_outbox).0;
    } in
    ground (arith, tokens_of_settle writes.second client (id_of entry) buried)

fenced :
    (later : Client) (stop : StopResultOutboxEntry) (now_due : Bool) (c : Controller)
    (token : String)
    → get (stop_event_id stop) c.terminal_commit_tokens.tokens ≡ some token
    → token ≢ ""
    → schedule_stop_result_delivery later stop now_due c ≡ c
unfolding schedule_stop_result_delivery is_fenced
fenced later stop now_due c token there filled = ground (arith, eq_iff token "", there)

-- A rejection does not take back the token of a terminal result: where the event of a stop result
-- has a token that is not empty, then after any rejection that stop result is not scheduled,
-- whenever it is due.
pub nack_fences :
    (writes : Writes) (client later : Client) (connected now_due : Bool)
    (entry : TerminalOutboxEntry) (stop : StopResultOutboxEntry) (r : TerminalRejection)
    (c : Controller) (token : String)
    → get (stop_event_id stop) c.terminal_commit_tokens.tokens ≡ some token
    → token ≢ ""
    → schedule_stop_result_delivery later stop now_due
        (on_packet writes client connected entry (Packet.nack r) c).0
      ≡ (on_packet writes client connected entry (Packet.nack r) c).0
nack_fences writes client later connected now_due entry stop r c token there filled =
    let after = (on_packet writes client connected entry (Packet.nack r) c).0 in
    fenced later stop now_due after token
      (ap (λ (t : Tokens.TokenStore). get (stop_event_id stop) t.tokens)
          (tokens_of_nack writes client connected entry r c)
        ∙ there)
      filled
