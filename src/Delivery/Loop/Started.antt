-- ===== src/Delivery/Loop/Started.antt =====
-- How `_send_event_result_reliable` of grix_hermes/terminal_delivery.py starts: it marks the entry
-- that is pending, for the first time or again.
use grix_hermes_python.Prelude.{
  ℕ, ◌≡◌, refl, ap, sym, ◌∙◌, Option, none, some, arith, eq_refl, not, ◌==◌, ◌&&◌, if_elim, is_some,
  if◌then◌else◌,
}
use grix_hermes_python.Prelude.Dict.{get, put, get-put}
use grix_hermes_python.Prelude.Int.{pos}
use grix_hermes_python.Persistence.File.{Env, Outcome, persist}
use grix_hermes_python.Persistence.TerminalOutbox.{
  TerminalOutbox, TerminalOutboxEntry, mark_delivery_started, current_of, commit, save, started,
  id_of, token_of,
}
use grix_hermes_python.Delivery.Controller.{Controller, Client, terminal_retry_delay_ms}
use grix_hermes_python.Delivery.Attempt.{prepare}
use grix_hermes_python.Delivery.Acknowledged.{IsPending}

-- What a start may change of an entry is the time of its start and of its last change.
pub record IsSameResult (before after : TerminalOutboxEntry) : Type 0 where
  pub payload : after.payload ≡ before.payload
  pub generation : after.generation ≡ before.generation
  pub created_at : after.created_at ≡ before.created_at
  pub attempts : after.attempts ≡ before.attempts

-- The entry of an outbox is pending in another one, up to a start.
abbrev pub IsKept : TerminalOutboxEntry → TerminalOutboxEntry → TerminalOutbox → Type 0
IsKept entry before o =
    (after : TerminalOutboxEntry) × (get (id_of entry) o.pending ≡ some after)
    × IsSameResult before after

unchanged : (e : TerminalOutboxEntry) → IsSameResult e e
unchanged e = record { payload = refl; generation = refl; created_at = refl; attempts = refl }

commit-IsKept :
    {A : Type 0} (env : Env) (changed restored : TerminalOutbox) (answer : A)
    (entry before : TerminalOutboxEntry)
    → IsKept entry before changed
    → IsKept entry before restored
    → IsKept entry before (commit env changed restored answer).0
unfolding commit save persist
commit-IsKept {A = A} env changed restored answer entry before new_one old_one =
    if_elim (λ (t : TerminalOutbox × Outcome A). IsKept entry before t.0) (save env changed).1 _ _
      (λ _. new_one) (λ _. old_one)

current_of-here :
    (entry : TerminalOutboxEntry) (o : TerminalOutbox) (h : IsPending entry o)
    → current_of entry o ≡ some h.current
unfolding current_of
current_of-here entry o h = let there = h.there in let same = h.generation in ground arith

pub mark-IsKept :
    (env : Env) (entry : TerminalOutboxEntry) (o : TerminalOutbox) (h : IsPending entry o)
    → IsKept entry h.current (mark_delivery_started env entry o).0
unfolding mark_delivery_started
mark-IsKept env entry o h =
    let id = id_of entry in
    let marked = record h.current {
      delivery_started_at = some (pos env.now);
      updated_at = pos env.now;
    } in
    rw (current_of-here entry o h, mark_delivery_started)
      (if_elim
        (λ (t : TerminalOutbox × Outcome (Option TerminalOutboxEntry)). IsKept entry h.current t.0)
        (started h.current) _ _ (λ _. (h.current, h.there, unchanged h.current))
        (λ _.
          commit-IsKept env _ _ _ entry h.current
            (
              marked,
              rw (get-put id id marked o.pending, eq_refl id) refl,
              record { payload = refl; generation = refl; created_at = refl; attempts = refl },
            )
            (
              h.current,
              rw (get-put id id h.current (put id marked o.pending), eq_refl id) refl,
              unchanged h.current,
            )))

pub kept-IsPending :
    (entry : TerminalOutboxEntry) (o after : TerminalOutbox) (h : IsPending entry o)
    → IsKept entry h.current after
    → IsPending entry after
kept-IsPending entry o after h kept =
    let (e, there, same) = kept in
    record {
      current = e;
      there = there;
      generation = same.generation ∙ h.generation;
      status = rw same.payload h.status;
      token = ap token_of same.payload ∙ h.token;
    }

after_mark :
    (m : Controller) (outcome : Outcome (Option TerminalOutboxEntry))
    → (elim outcome as (λ _. Controller × Option ℕ) [
      | Outcome.raised ↦ (m, some terminal_retry_delay_ms)
      | Outcome.returned found ↦ (m, if is_some found then none else some 0)
    ]).0
      ≡ m
after_mark m Outcome.raised = refl
after_mark m (Outcome.returned found) = refl

-- Where the attempts begin, only the outbox was touched.
pub prepare-marks :
    (env : Env) (client : Client) (entry : TerminalOutboxEntry) (c marked : Controller)
    → prepare env client entry c ≡ (marked, none)
    → marked ≡ record c { terminal_outbox = (mark_delivery_started env entry c.terminal_outbox).0 }
unfolding prepare
prepare-marks env client entry c marked prepared =
    let (outbox, outcome) = mark_delivery_started env entry c.terminal_outbox in
    let touched = record c { terminal_outbox = outbox } in
    sym (ap (λ (t : Controller × Option ℕ). t.0) prepared)
    ∙ if_elim (λ (t : Controller × Option ℕ). t.1 ≡ none → t.0 ≡ touched)
        (not (token_of entry.payload == "") && not client.negotiated)
        (c, some terminal_retry_delay_ms) _ (λ _ begun. absurd (ground arith))
        (λ _ _. after_mark touched outcome) (ap (λ (t : Controller × Option ℕ). t.1) prepared)
