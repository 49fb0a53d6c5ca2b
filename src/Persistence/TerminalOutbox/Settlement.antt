-- ===== src/Persistence/TerminalOutbox/Settlement.antt =====
-- What `acknowledge` of grix_hermes/persistence/terminal_outbox.py takes, and what it removes.
use grix_hermes_python.Prelude.{
  String, ◌≡◌, ◌↔◌, ◌⊎◌, inl, inr, true, none, some, ◌==◌, arith, Bool-cases, Option-cases,
  if◌then◌else◌, eq_iff,
}
use grix_hermes_python.Prelude.Dict.{get, get-pop}
use grix_hermes_python.Json.{value_at, text_of, is_true}
use grix_hermes_python.Json.Equality.{value_eq}
use grix_hermes_python.Prelude.Text.{strip}
use grix_hermes_python.Persistence.File.{Env, Outcome, persist}
use grix_hermes_python.Persistence.TerminalOutbox.{
  TerminalOutbox, TerminalOutboxEntry, Ack, commit, acknowledge, current_of, id_of, ack_fits,
  same_status, token_of,
}
use grix_hermes_python.Persistence.TerminalOutbox.Durability.{IsDurable}

-- The token of an acknowledgement is looked at where the entry has one.
token_fits :
    (entry : TerminalOutboxEntry) (ack : Ack)
    → ack_fits entry ack ≡ true
    → (value_eq ack.event_id (value_at "event_id" entry.payload) ≡ true)
      × (value_eq ack.status (value_at "status" entry.payload) ≡ true)
      × ((token_of entry.payload ≡ "")
          ⊎ ((strip (text_of ack.terminal_commit_token) ≡ token_of entry.payload)
              × (is_true ack.terminal_committed ≡ true)))
unfolding ack_fits
token_fits entry ack h = elim (Bool-cases (token_of entry.payload == "")) [
  | inl bare ↦ (ground arith, ground arith, inl ((eq_iff (token_of entry.payload) "").0 bare))
  | inr tokened ↦ (
    ground arith,
    ground arith,
    inr (
      (eq_iff (strip (text_of ack.terminal_commit_token)) (token_of entry.payload)).0
          (ground arith),
      ground arith,
    ),
  )
]

fits_of_token :
    (entry : TerminalOutboxEntry) (ack : Ack)
    → value_eq ack.event_id (value_at "event_id" entry.payload) ≡ true
    → value_eq ack.status (value_at "status" entry.payload) ≡ true
    → ((token_of entry.payload ≡ "")
        ⊎ ((strip (text_of ack.terminal_commit_token) ≡ token_of entry.payload)
            × (is_true ack.terminal_committed ≡ true)))
    → ack_fits entry ack ≡ true
unfolding ack_fits
fits_of_token entry ack e s (inl bare) = simp (e, s, (eq_iff (token_of entry.payload) "").1 bare)
fits_of_token entry ack e s (inr (same, committed)) =
    simp
      (
        e,
        s,
        committed,
        (eq_iff (strip (text_of ack.terminal_commit_token)) (token_of entry.payload)).1 same,
      )
      (ground arith)

acknowledge_took :
    (env : Env) (entry : TerminalOutboxEntry) (ack : Ack) (o : TerminalOutbox)
    → (acknowledge env entry ack o).1 ≡ Outcome.returned true
    → (current : TerminalOutboxEntry) × (get (id_of entry) o.pending ≡ some current)
      × (current.generation ≡ entry.generation)
      × (same_status current entry ≡ true)
      × ((token_of current.payload == token_of entry.payload) ≡ true)
      × (ack_fits entry ack ≡ true)
unfolding acknowledge current_of
acknowledge_took env entry ack o h = elim (Option-cases (get (id_of entry) o.pending)) [
  | inl missing ↦ absurd (ground arith)
  | inr (current, there) ↦ (current, there, ground arith, ground arith, ground arith, ground arith)
]

acknowledge_takes :
    (env : Env) (entry current : TerminalOutboxEntry) (ack : Ack) (o : TerminalOutbox)
    → env.writes ≡ true
    → get (id_of entry) o.pending ≡ some current
    → current.generation ≡ entry.generation
    → same_status current entry ≡ true
    → (token_of current.payload == token_of entry.payload) ≡ true
    → ack_fits entry ack ≡ true
    → (acknowledge env entry ack o).1 ≡ Outcome.returned true
unfolding acknowledge current_of commit persist
acknowledge_takes env entry current ack o w there gen status token fits = ground arith

-- An acknowledgement whose write succeeds is taken exactly if the entry is pending in its
-- generation, with its status and token, the acknowledgement names the same event and status, and,
-- where there is a token, brings that token and the literal `true`.
pub acknowledge_iff :
    (env : Env) (entry : TerminalOutboxEntry) (ack : Ack) (o : TerminalOutbox)
    → env.writes ≡ true
    → ((acknowledge env entry ack o).1 ≡ Outcome.returned true) ↔ (
        (current : TerminalOutboxEntry) × (get (id_of entry) o.pending ≡ some current)
        × (current.generation ≡ entry.generation)
        × (same_status current entry ≡ true)
        × (token_of current.payload ≡ token_of entry.payload)
        × (value_eq ack.event_id (value_at "event_id" entry.payload) ≡ true)
        × (value_eq ack.status (value_at "status" entry.payload) ≡ true)
        × ((token_of entry.payload ≡ "")
            ⊎ ((strip (text_of ack.terminal_commit_token) ≡ token_of entry.payload)
                × (is_true ack.terminal_committed ≡ true))))
acknowledge_iff env entry ack o w = (
  λ h.
      let (current, there, gen, status, token, fits) = acknowledge_took env entry ack o h in
      let (event, same, proof) = token_fits entry ack fits in
      (
        current,
        there,
        gen,
        status,
        (eq_iff (token_of current.payload) (token_of entry.payload)).0 token,
        event,
        same,
        proof,
      ),
  λ (current, there, gen, status, token, event, same, proof).
      acknowledge_takes env entry current ack o w there gen status
        ((eq_iff (token_of current.payload) (token_of entry.payload)).1 token)
        (fits_of_token entry ack event same proof),
)

-- An acknowledgement that a durable outbox takes removes its event's entry and no other.
pub acknowledge_removes :
    (env : Env) (entry : TerminalOutboxEntry) (ack : Ack) (o : TerminalOutbox) (k : String)
    → IsDurable o
    → (acknowledge env entry ack o).1 ≡ Outcome.returned true
    → get k (acknowledge env entry ack o).0.pending
      ≡ (if id_of entry == k then none else get k o.pending)
unfolding acknowledge commit
acknowledge_removes env entry ack o k d h =
    ground (arith, get-pop (id_of entry) k o.pending (d.once (id_of entry)))
