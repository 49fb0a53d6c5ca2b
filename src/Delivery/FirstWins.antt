-- ===== src/Delivery/FirstWins.antt =====
-- Which terminal result of an event `send_event_result` of grix_hermes/terminal_delivery.py keeps.
use grix_hermes_python.Prelude.{
  ℕ, String, ◌≡◌, ◌⊎◌, refl, ◌∙◌, inl, inr, Bool, true, Option, none, some, ◌==◌, ◌&&◌, ◌||◌, not,
  if◌then◌else◌, arith, if_elim,
}
use grix_hermes_python.Prelude.Dict.{get, put, get-put}
use grix_hermes_python.Persistence.File.{Env}
use grix_hermes_python.Json.{Value, value_at, text_of, text_of-text}
use grix_hermes_python.Json.Equality.{value_eq}
use grix_hermes_python.Persistence.Payload.{Payload, clean_text}
use grix_hermes_python.Persistence.TerminalOutbox.{TerminalOutboxEntry, started}
use grix_hermes_python.Persistence.Committed
use grix_hermes_python.Persistence.Tokens
use grix_hermes_python.Delivery.Controller.{
  Controller, Client, Writes, spawn, can_replace_unsent_output_guard,
}
use grix_hermes_python.Delivery.Schedule.{schedule_terminal_delivery}
use grix_hermes_python.Delivery.Send.{
  with_terminal_commit_token, replaces_guard, send_tokenized, after_check, stored, was_returned,
  send_event_result,
}

-- Only an output guard whose delivery has not started gives way, and only to these two.
unfoldable pub may_replace : Payload → TerminalOutboxEntry → Bool
may_replace payload durable =
    value_eq (value_at "code" durable.payload) (Value.text "agent_output_unconfirmed")
    && not (started durable)
    && (value_eq (value_at "status" payload) (Value.text "canceled")
        || value_eq (value_at "status" payload) (Value.text "failed"))

-- Is there no room for the result: a pending one that is no guard to be replaced, or one that was
-- settled?
unfoldable pub is_decided : Payload → Controller → Bool
is_decided payload c = elim (get (clean_text "event_id" payload) c.terminal_outbox.pending) [
  | none ↦ Committed.has (clean_text "event_id" payload) c.terminal_committed
  | some durable ↦ not (may_replace payload durable)
]

outbox_of_schedule :
    (client : Client) (e : String) (b : Bool) (n : ℕ) (c : Controller)
    → (schedule_terminal_delivery client e b n c).terminal_outbox ≡ c.terminal_outbox
unfolding schedule_terminal_delivery spawn
outbox_of_schedule client e b n c = ground arith

-- What the check of the token hands on.
record IsTokenized (payload p : Payload) : Type 0 where
  event : text_of (value_at "event_id" p) ≡ clean_text "event_id" payload
  status : value_at "status" p ≡ value_at "status" payload

tokenized :
    (payload : Payload) (token : String)
    → IsTokenized payload (
        if token == ""
        then put "event_id" (Value.text (clean_text "event_id" payload)) payload
        else put "terminal_commit_token"
            (Value.text token)
            (put "event_id" (Value.text (clean_text "event_id" payload)) payload))
unfolding value_at
tokenized payload token =
    let eid = Value.text (clean_text "event_id" payload) in
    let named = put "event_id" eid payload in
    let t = Value.text token in
    record {
      event = ground (
        arith,
        text_of-text (clean_text "event_id" payload),
        get-put "event_id" "event_id" eid payload,
        get-put "terminal_commit_token" "event_id" t named,
      );
      status = ground (
        arith,
        get-put "event_id" "status" eid payload,
        get-put "terminal_commit_token" "status" t named,
      );
    }

-- What the check of the token leaves alone, and what it hands on if it does not raise.
record IsChecked (payload : Payload) (c : Controller) (t : Controller × Option Payload)
    : Type 0 where
  outbox : t.0.terminal_outbox ≡ c.terminal_outbox
  committed : t.0.terminal_committed ≡ c.terminal_committed
  handed : (t.1 ≡ none) ⊎ ((p : Payload) × (t.1 ≡ some p) × IsTokenized payload p)

checked :
    (env : Env) (payload : Payload) (c : Controller)
    → IsChecked payload c (with_terminal_commit_token env payload c)
unfolding with_terminal_commit_token
checked env payload c =
    let P = IsChecked payload c in
    let supplied = clean_text "terminal_commit_token" payload in
    let persisted = stored (get (clean_text "event_id" payload) c.terminal_commit_tokens.tokens) in
    if_elim P (clean_text "event_id" payload == "") _ _
      (λ _. record { outbox = refl; committed = refl; handed = inl refl })
      (λ _.
        if_elim P (not (supplied == "") && not (persisted == "") && not (supplied == persisted)) _ _
          (λ _. record { outbox = refl; committed = refl; handed = inl refl })
          (λ _.
            if_elim P (not (supplied == "") && persisted == "") _ _
              (λ _. record {
                outbox = refl;
                committed = refl;
                handed =
                    if_elim
                      (λ (o : Option Payload).
                        (o ≡ none) ⊎ ((p : Payload) × (o ≡ some p) × IsTokenized payload p))
                      (was_returned
                        (Tokens.register env (clean_text "event_id" payload) supplied
                          c.terminal_commit_tokens).1)
                      _ _ (λ _. inr (_, refl, tokenized payload _)) (λ _. inl refl);
              })
              (λ _. record {
                outbox = refl;
                committed = refl;
                handed = inr (_, refl, tokenized payload _);
              })))

send_tokenized_decided :
    (env : Env) (client : Client) (payload p : Payload) (c : Controller)
    → IsTokenized payload p
    → is_decided payload c ≡ true
    → (send_tokenized env client p c).terminal_outbox ≡ c.terminal_outbox
unfolding send_tokenized is_decided replaces_guard may_replace can_replace_unsent_output_guard
send_tokenized_decided env client payload p c t h =
    let event = t.event in
    let status = t.status in
    ground (arith, outbox_of_schedule client (text_of (value_at "event_id" p)) true 0 c)

finished :
    (env : Env) (client : Client) (payload : Payload) (c : Controller)
    (t : Controller × Option Payload)
    → IsChecked payload c t
    → is_decided payload c ≡ true
    → (after_check env client t).terminal_outbox ≡ c.terminal_outbox
unfolding is_decided
finished env client payload c (checked, handed) k h = elim k.handed [
  | inl nothing ↦ rw nothing k.outbox
  | inr (p, some_p, t) ↦ rw some_p (
      send_tokenized_decided env client payload p checked t (rw (k.outbox, k.committed) h)
      ∙ k.outbox)
]

-- A terminal result of an event for which another is pending that may not be replaced, or which is
-- settled and has none pending, leaves the outbox as it is, whichever writes fail. A pending result
-- may be replaced only by `canceled` or `failed`, and only if it is an output guard whose delivery
-- has not started.
pub send_event_result-decided :
    (writes : Writes) (client : Client) (payload : Payload) (c : Controller)
    → is_decided payload c ≡ true
    → (send_event_result writes client payload c).terminal_outbox ≡ c.terminal_outbox
unfolding send_event_result
send_event_result-decided writes client payload c h =
    finished writes.second client payload c (with_terminal_commit_token writes.first payload c)
      (checked writes.first payload c) h
