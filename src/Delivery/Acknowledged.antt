-- ===== src/Delivery/Acknowledged.antt =====
-- What a terminal result leaves behind in grix_hermes/terminal_delivery.py once it is acknowledged.
use grix_hermes_python.Prelude.{
  ◌≤◌, String, ◌≡◌, ◌≢◌, ◌⊎◌, refl, ap, sym, ◌∙◌, inl, inr, Bool, true, false, none, some, ◌==◌,
  ◌||◌, not, arith, Option-cases, Bool-cases, eq_iff, eq_refl,
}
use grix_hermes_python.Prelude.Text.{strip}
use grix_hermes_python.Prelude.Dict.{get, entries, get-pop_self}
use grix_hermes_python.Persistence.File.{Env, Outcome, persist}
use grix_hermes_python.Json.{value_at, text_of, is_true}
use grix_hermes_python.Json.Equality.{value_eq}
use grix_hermes_python.Persistence.TerminalOutbox
use grix_hermes_python.Persistence.TerminalOutbox.{
  TerminalOutboxEntry, Ack, id_of, token_of, is_current, same_status,
}
use grix_hermes_python.Persistence.TerminalOutbox.Durability.{IsDurable}
use grix_hermes_python.Persistence.TerminalOutbox.Settlement.{acknowledge_removes, acknowledge_iff}
use grix_hermes_python.Persistence.Tokens
use grix_hermes_python.Persistence.Committed
use grix_hermes_python.Persistence.Committed.Laws.{IsTidy, has-add}
use grix_hermes_python.Delivery.Controller.{Controller, Client, Writes}
use grix_hermes_python.Delivery.Schedule.{schedule_stop_results_for_event}
use grix_hermes_python.Delivery.Attempt.{
  Packet, Verdict, ack_matches, on_ack, on_packet, settle, take_ack,
}
use grix_hermes_python.Delivery.SameStores.{event-HasSameStores}

-- Under the id of the entry one is pending that has its generation, its status and its token: the
-- entry itself, or what `mark_delivery_started` and `record_retry` made of it.
pub record IsPending (entry : TerminalOutboxEntry) (o : TerminalOutbox.TerminalOutbox)
    : Type 0 where
  pub current : TerminalOutboxEntry
  pub there : get (id_of entry) o.pending ≡ some current
  pub generation : current.generation ≡ entry.generation
  pub status : same_status current entry ≡ true
  pub token : token_of current.payload ≡ token_of entry.payload

-- The answer fits the entry.
pub record IsAnswered (entry : TerminalOutboxEntry) (a : Ack) : Type 0 where
  pub event : value_eq a.event_id (value_at "event_id" entry.payload) ≡ true
  pub status : value_eq a.status (value_at "status" entry.payload) ≡ true
  pub token :
      (token_of entry.payload ≡ "")
      ⊎ ((strip (text_of a.terminal_commit_token) ≡ token_of entry.payload)
          × (is_true a.terminal_committed ≡ true))

add_done :
    (env : Env) (e : String) (s : Committed.CommittedStore)
    → env.writes ≡ true
    → (Committed.add env e s).1 ≡ Outcome.returned tt
unfolding Committed.add persist
add_done env e s w = elim (Option-cases s.file_path) [
  | inl nowhere ↦ rw nowhere (ground arith)
  | inr (path, there) ↦ rw (there, w) (ground arith)
]

settle_done :
    (env : Env) (client : Client) (e : String) (c : Controller)
    → env.writes ≡ true
    → settle env client e true c ≡ (
      schedule_stop_results_for_event client e
          (record c { terminal_committed = (Committed.add env e c.terminal_committed).0 }),
      Verdict.ended 0,
    )
unfolding settle
settle_done env client e c w = rw (add_done env e c.terminal_committed w, settle) refl

take_ack_done :
    (writes : Writes) (client : Client) (entry : TerminalOutboxEntry) (a : Ack) (c : Controller)
    → (TerminalOutbox.acknowledge writes.second entry a c.terminal_outbox).1 ≡ Outcome.returned true
    → take_ack writes client entry a c
      ≡ settle writes.third client (id_of entry) true (record c {
        terminal_outbox = (TerminalOutbox.acknowledge writes.second entry a c.terminal_outbox).0;
      })
unfolding take_ack
take_ack_done writes client entry a c h = rw (h, take_ack) refl

remove_done :
    (env : Env) (e t : String) (s : Tokens.TokenStore)
    → env.writes ≡ true
    → entries e s.tokens ≤ 1
    → t ≢ ""
    → ((b : Bool) × ((Tokens.remove env e t s).1 ≡ Outcome.returned b))
      × (get e (Tokens.remove env e t s).0.tokens ≢ some t)
unfolding Tokens.remove Tokens.commit persist
remove_done env e t s w once filled = elim (Option-cases (get e s.tokens)) [
  | inl missing ↦ rw (missing, Tokens.remove) ((false, refl), λ same. ground (arith, missing, same))
  | inr (u, there) ↦ elim (Bool-cases (u == "" || not (u == t))) [
    | inl kept ↦
        rw (there, Tokens.remove, kept)
          ((false, refl), λ same. ground (arith, eq_iff u "", eq_iff u t, there, same))
    | inr taken ↦ elim (Option-cases s.file_path) [
      | inl nowhere ↦
          rw (there, Tokens.remove, taken, nowhere)
            ((true, refl), λ same. ground (arith, get-pop_self e s.tokens once, same))
      | inr (path, at) ↦
          rw (there, Tokens.remove, taken, at, w)
            ((true, refl), λ same. ground (arith, get-pop_self e s.tokens once, same))
    ]
  ]
]

-- The entry is out of the outbox, its id is sealed, and its token is taken back.
pub record IsOver (entry : TerminalOutboxEntry) (t : Controller × Verdict) : Type 0 where
  pub verdict : t.1 ≡ Verdict.ended 0
  pub gone : get (id_of entry) t.0.terminal_outbox.pending ≡ none
  pub sealed : Committed.has (id_of entry) t.0.terminal_committed ≡ true
  pub token_free :
      token_of entry.payload ≢ ""
      → get (id_of entry) t.0.terminal_commit_tokens.tokens ≢ some (token_of entry.payload)

take_ack-IsOver :
    (writes : Writes) (client : Client) (entry : TerminalOutboxEntry) (a : Ack) (c : Controller)
    → writes.second.writes ≡ true
    → writes.third.writes ≡ true
    → IsDurable c.terminal_outbox
    → IsTidy c.terminal_committed
    → (strip (id_of entry) == "") ≡ false
    → IsPending entry c.terminal_outbox
    → IsAnswered entry a
    → (token_of entry.payload ≢ ""
        → get (id_of entry) c.terminal_commit_tokens.tokens ≢ some (token_of entry.payload))
    → IsOver entry (take_ack writes client entry a c)
take_ack-IsOver writes client entry a c w2 w3 durable tidy named pending answered free =
    let id = id_of entry in
    let took : (TerminalOutbox.acknowledge writes.second entry a c.terminal_outbox).1
        ≡ Outcome.returned true =
      (acknowledge_iff writes.second entry a c.terminal_outbox w2).1 (
        pending.current, pending.there, pending.generation, pending.status, pending.token,
        answered.event, answered.status, answered.token,
      ) in
    let acked : Controller = record c {
      terminal_outbox = (TerminalOutbox.acknowledge writes.second entry a c.terminal_outbox).0;
    } in
    let sealed : Controller = record acked {
      terminal_committed = (Committed.add writes.third id c.terminal_committed).0;
    } in
    let whole =
      take_ack_done writes client entry a c took ∙ settle_done writes.third client id acked w3 in
    let same = event-HasSameStores client id sealed in
    let gone = acknowledge_removes writes.second entry a c.terminal_outbox id durable took in
    rw whole (record {
      verdict = refl;
      gone =
          ap (λ (o : TerminalOutbox.TerminalOutbox). get id o.pending) same.outbox
          ∙ gone
          ∙ (rw (eq_refl id) refl);
      sealed =
          ap (Committed.has id) same.committed
          ∙ has-add writes.third id c.terminal_committed tidy named;
      token_free = λ filled held.
          free filled (ap (λ (t : Tokens.TokenStore). get id t.tokens) (sym same.tokens) ∙ held);
    })

pub is_here :
    (entry : TerminalOutboxEntry) (o : TerminalOutbox.TerminalOutbox)
    → IsPending entry o
    → is_current entry o ≡ true
unfolding is_current
is_here entry o h =
    let there = h.there in let generation = h.generation in let status = h.status in ground arith

matches : (entry : TerminalOutboxEntry) (a : Ack) → IsAnswered entry a → ack_matches entry a ≡ true
unfolding ack_matches
matches entry a h = elim h.token [
  | inl none_asked ↦ ground (arith, h.event, h.status, eq_iff (token_of entry.payload) "")
  | inr (brought, literal) ↦ ground (
    arith,
    h.event,
    h.status,
    eq_iff (strip (text_of a.terminal_commit_token)) (token_of entry.payload),
  )
]

-- Where the connection stands, writes succeed, the outbox is durable, the sealed ids are tidy, the
-- event has one token at most and an id that is not blank, and the entry that is pending has the
-- generation, the status and the token of the one that was sent, an acknowledgement of its event
-- and status, which brings its token and the literal `true` if it has one, ends the delivery
-- without delay: the entry is out of the outbox, its id is sealed, and its token is taken back.
pub on_packet-IsOver :
    (writes : Writes) (client : Client) (entry : TerminalOutboxEntry) (a : Ack) (c : Controller)
    → writes.first.writes ≡ true
    → writes.second.writes ≡ true
    → writes.third.writes ≡ true
    → IsDurable c.terminal_outbox
    → IsTidy c.terminal_committed
    → entries (id_of entry) c.terminal_commit_tokens.tokens ≤ 1
    → (strip (id_of entry) == "") ≡ false
    → IsPending entry c.terminal_outbox
    → IsAnswered entry a
    → IsOver entry (on_packet writes client true entry (Packet.ack a) c)
unfolding on_packet on_ack
on_packet-IsOver writes client entry a c w1 w2 w3 durable tidy once named pending answered =
    let token = token_of entry.payload in
    rw (is_here entry c.terminal_outbox pending, on_packet, matches entry a answered)
      (elim (Bool-cases (token == "")) [
        | inl blank ↦ rw blank (
            take_ack-IsOver writes client entry a c w2 w3 durable tidy named pending answered
              (λ filled. absurd (filled ((eq_iff token "").0 blank))))
        | inr asked ↦
            let filled : token ≢ "" = (λ e. ground (arith, (eq_iff token "").1 e)) in
            let (returned, free) =
              remove_done writes.first (id_of entry) token c.terminal_commit_tokens w1 once
                filled in
            rw (asked, returned.1)
              (take_ack-IsOver writes client entry a
                (record c {
                  terminal_commit_tokens =
                      (Tokens.remove writes.first (id_of entry) token c.terminal_commit_tokens).0;
                })
                w2 w3 durable tidy named pending answered (λ _. free))
      ])
