-- ===== src/Persistence/TerminalOutbox/Rollback.antt =====
-- The handlers of grix_hermes/persistence/terminal_outbox.py that undo a change which was not written.
use grix_hermes_python.Prelude.{
  ℕ, String, ◌≡◌, refl, inl, inr, Bool, true, false, Option, ◌==◌, if_elim, Option-cases, ◌&&◌,
}
use grix_hermes_python.Persistence.Payload.{Payload}
use grix_hermes_python.Persistence.File.{Env, Outcome}
use grix_hermes_python.Persistence.TerminalOutbox.{
  TerminalOutbox, TerminalOutboxEntry, TerminalRejection, Ack, commit, save, enqueue,
  mark_delivery_started, acknowledge, record_retry, move_to_dead_letter, current_of,
  is_event_result_payload, started, ack_fits, same_status, token_of,
}
use grix_hermes_python.Persistence.TerminalOutbox.Durability.{
  IsDurable, IsRestored, put_back-IsRestored, put_again-IsRestored, restore-IsRestored,
  current_of-get,
}

abbrev pub did_raise {ℓ} : {A : Type ℓ} → Outcome A → Bool
did_raise (Outcome.returned a) = false
did_raise Outcome.raised = true

-- What an operation promises where it raises.
abbrev pub Undone : {A : Type 0} → TerminalOutbox → TerminalOutbox × Outcome A → Type 0
Undone o t = did_raise t.1 ≡ true → IsRestored o t.0

same-Undone : {A : Type 0} (o : TerminalOutbox) (answer : A) → Undone o (o, Outcome.returned answer)
same-Undone o answer h = cc

commit-Undone :
    {A : Type 0} (env : Env) (o changed restored : TerminalOutbox) (answer : A)
    → IsRestored o restored
    → Undone o (commit env changed restored answer)
unfolding commit
commit-Undone {A} env o changed restored answer r =
    if_elim (λ (t : TerminalOutbox × Outcome A). Undone o t) (save env changed).1 _ _ (λ _ h. cc)
      (λ _ h. r)

unchanged : (o : TerminalOutbox) → IsDurable o → IsRestored o o
unchanged o h = record {
  path = refl;
  once = h.once;
  pending = λ k. refl;
  letters = refl;
  disk = refl;
}

pub enqueue-Undone :
    (env : Env) (payload : Payload) (o : TerminalOutbox)
    → IsDurable o
    → Undone o (enqueue env payload o)
unfolding enqueue
enqueue-Undone env payload o d =
    if_elim (λ (t : TerminalOutbox × Outcome TerminalOutboxEntry). Undone o t)
      (is_event_result_payload payload) _ _
      (λ _. commit-Undone env o _ _ _ (restore-IsRestored o _ _ d.once)) (λ _ h. unchanged o d)

pub mark_delivery_started-Undone :
    (env : Env) (entry : TerminalOutboxEntry) (o : TerminalOutbox)
    → IsDurable o
    → Undone o (mark_delivery_started env entry o)
unfolding mark_delivery_started
mark_delivery_started-Undone env entry o d = elim (Option-cases (current_of entry o)) [
  | inl missing ↦ rw (missing, mark_delivery_started) (λ h. cc)
  | inr (current, found) ↦
      rw (found, mark_delivery_started)
        (if_elim (λ (t : TerminalOutbox × Outcome (Option TerminalOutboxEntry)). Undone o t)
          (started current) _ _ (λ _ h. unchanged o d)
          (λ _.
            commit-Undone env o _ _ _
              (put_back-IsRestored o _ _ current d.once (current_of-get entry current o found))))
]

pub acknowledge-Undone :
    (env : Env) (entry : TerminalOutboxEntry) (ack : Ack) (o : TerminalOutbox)
    → IsDurable o
    → Undone o (acknowledge env entry ack o)
unfolding acknowledge
acknowledge-Undone env entry ack o d = elim (Option-cases (current_of entry o)) [
  | inl missing ↦ rw (missing, acknowledge) (λ h. cc)
  | inr (current, found) ↦
      rw (found, acknowledge)
        (if_elim (λ (t : TerminalOutbox × Outcome Bool). Undone o t)
          (ack_fits entry ack
            && same_status current entry
            && token_of current.payload == token_of entry.payload)
          _ _
          (λ _.
            commit-Undone env o _ _ _
              (put_again-IsRestored o _ current d.once (current_of-get entry current o found)))
          (λ _ h. unchanged o d))
]

pub record_retry-Undone :
    (env : Env) (entry : TerminalOutboxEntry) (at : ℕ) (error : String) (o : TerminalOutbox)
    → IsDurable o
    → Undone o (record_retry env entry at error o)
unfolding record_retry
record_retry-Undone env entry at error o d = elim (Option-cases (current_of entry o)) [
  | inl missing ↦ rw (missing, record_retry) (λ h. cc)
  | inr (current, found) ↦
      rw (found, record_retry)
        (commit-Undone env o _ _ _
          (put_back-IsRestored o _ _ current d.once (current_of-get entry current o found)))
]

pub move_to_dead_letter-Undone :
    (env : Env) (entry : TerminalOutboxEntry) (rejection : TerminalRejection) (o : TerminalOutbox)
    → IsDurable o
    → Undone o (move_to_dead_letter env entry rejection o)
unfolding move_to_dead_letter
move_to_dead_letter-Undone env entry rejection o d = elim (Option-cases (current_of entry o)) [
  | inl missing ↦ rw (missing, move_to_dead_letter) (λ h. cc)
  | inr (current, found) ↦
      rw (found, move_to_dead_letter)
        (commit-Undone env o _ _ _
          (put_again-IsRestored o _ current d.once (current_of-get entry current o found)))
]
