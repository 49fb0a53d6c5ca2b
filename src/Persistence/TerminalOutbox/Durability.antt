-- ===== src/Persistence/TerminalOutbox/Durability.antt =====
-- What grix_hermes/persistence/terminal_outbox.py keeps on disk.
use grix_hermes_python.Prelude.{
  ℕ, ◌-◌, ◌≤◌, String, ◌≡◌, refl, ap, sym, ◌∙◌, inl, inr, Bool, true, Option, none, some, List, [],
  ◌∷◌, ◌++◌, ◌==◌, arith, is_some, length, length-drop, if_elim, Option-cases, ◌&&◌,
}
use grix_hermes_python.Prelude.Dict.{
  Dict, get, put, pop, entries, put-put_back, pop-put_new, get-put-pop, put-once, pop-once,
}
use grix_hermes_python.Persistence.Payload.{Payload}
use grix_hermes_python.Persistence.File.{Env, Outcome, persist_wrote}
use grix_hermes_python.Persistence.TerminalOutbox.{
  TerminalOutbox, TerminalOutboxEntry, TerminalDeadLetter, TerminalRejection, Snapshot, Ack, save,
  commit, restore, enqueue, mark_delivery_started, acknowledge, record_retry, move_to_dead_letter,
  bury, current_of, id_of, is_event_result_payload, max_dead_letters, started, ack_fits,
  same_status, token_of,
}

-- A file that is not there stands for an empty outbox.
abbrev pub saved_pending : Option Snapshot → Dict TerminalOutboxEntry
saved_pending none = []
saved_pending (some s) = s.pending

abbrev pub saved_letters : Option Snapshot → List TerminalDeadLetter
saved_letters none = []
saved_letters (some s) = s.dead_letters

-- What a restart would read is what the outbox answers now; an outbox with no path keeps no file.
pub record IsDurable (o : TerminalOutbox) : Type 0 where
  pub once : (k : String) → entries k o.pending ≤ 1
  pub pending :
      is_some o.file_path ≡ true → (k : String) → get k (saved_pending o.saved) ≡ get k o.pending
  pub letters : is_some o.file_path ≡ true → saved_letters o.saved ≡ o.dead_letters
  pub bounded : length o.dead_letters ≤ max_dead_letters

-- Nothing that can be asked of the outbox, and nothing on disk, has changed.
pub record IsRestored (before after : TerminalOutbox) : Type 0 where
  pub path : after.file_path ≡ before.file_path
  pub once : (k : String) → entries k after.pending ≤ 1
  pub pending : (k : String) → get k after.pending ≡ get k before.pending
  pub letters : after.dead_letters ≡ before.dead_letters
  pub disk : after.saved ≡ before.saved

IsRestored-IsDurable : (a b : TerminalOutbox) → IsRestored a b → IsDurable a → IsDurable b
IsRestored-IsDurable a b r h = record {
  once = r.once;
  pending = λ p k. rw (r.disk) (h.pending (ap is_some (sym r.path) ∙ p) k ∙ sym (r.pending k));
  letters = λ p. rw (r.disk) (h.letters (ap is_some (sym r.path) ∙ p) ∙ sym r.letters);
  bounded = rw r.letters h.bounded;
}

-- The rule for the try block: what it wrote is what it keeps, and its handler restores.
commit-IsDurable :
    {A : Type 0} (env : Env) (o changed restored : TerminalOutbox) (answer : A)
    → ((k : String) → entries k changed.pending ≤ 1)
    → length changed.dead_letters ≤ max_dead_letters
    → IsRestored o restored
    → IsDurable o
    → IsDurable (commit env changed restored answer).0
unfolding commit
commit-IsDurable {A} env o changed restored answer once bounded r h =
    if_elim (λ (t : TerminalOutbox × Outcome A). IsDurable t.0) (save env changed).1 _ _
      (λ done.
        let written = λ (p : is_some changed.file_path ≡ true).
          persist_wrote changed.file_path env.writes _ changed.saved p done in
        record {
          once = once;
          pending = λ p k. ap (λ s. get k (saved_pending s)) (written p);
          letters = λ p. ap saved_letters (written p);
          bounded = bounded;
        })
      (λ _. IsRestored-IsDurable o restored r h)

pub put_back-IsRestored :
    (o : TerminalOutbox) (k : String) (v w : TerminalOutboxEntry)
    → ((j : String) → entries j o.pending ≤ 1)
    → get k o.pending ≡ some w
    → IsRestored o (record o { pending = put k w (put k v o.pending) })
put_back-IsRestored o k v w once h = record {
  path = refl;
  once = rw (put-put_back k v w o.pending h) once;
  pending = λ j. ap (get j) (put-put_back k v w o.pending h);
  letters = refl;
  disk = refl;
}

-- Here the entry comes back at the end of the order.
pub put_again-IsRestored :
    (o : TerminalOutbox) (k : String) (v : TerminalOutboxEntry)
    → ((j : String) → entries j o.pending ≤ 1)
    → get k o.pending ≡ some v
    → IsRestored o (record o { pending = put k v (pop k o.pending) })
put_again-IsRestored o k v once h = record {
  path = refl;
  once = put-once k v (pop k o.pending) (pop-once k o.pending once);
  pending = λ j. get-put-pop k j v o.pending (once k) h;
  letters = refl;
  disk = refl;
}

pub restore-IsRestored :
    (o : TerminalOutbox) (k : String) (v : TerminalOutboxEntry)
    → ((j : String) → entries j o.pending ≤ 1)
    → IsRestored o (record o { pending = restore k (get k o.pending) (put k v o.pending) })
restore-IsRestored o k v once = elim (Option-cases (get k o.pending)) [
  | inl missing ↦
      let same = pop-put_new k v o.pending missing in
      rw (missing, restore)
        (record {
          path = refl;
          once = rw same once;
          pending = λ j. ap (get j) same;
          letters = refl;
          disk = refl;
        })
  | inr (w, there) ↦ rw (there, restore) (put_back-IsRestored o k v w once there)
]

pub current_of-get :
    (entry current : TerminalOutboxEntry) (o : TerminalOutbox)
    → current_of entry o ≡ some current
    → get (id_of entry) o.pending ≡ some current
unfolding current_of
current_of-get entry current o h = ground arith

pub bury-bounded :
    (dead : TerminalDeadLetter) (letters : List TerminalDeadLetter)
    → length (bury dead letters) ≤ max_dead_letters
unfolding bury
bury-bounded dead letters =
    omega
      (arith, length-drop (length (letters ++ dead ∷ []) - max_dead_letters) (letters ++ dead ∷ []))

pub enqueue-IsDurable :
    (env : Env) (payload : Payload) (o : TerminalOutbox)
    → IsDurable o
    → IsDurable (enqueue env payload o).0
unfolding enqueue
enqueue-IsDurable env payload o h =
    if_elim (λ (t : TerminalOutbox × Outcome TerminalOutboxEntry). IsDurable t.0)
      (is_event_result_payload payload) _ _
      (λ _.
        commit-IsDurable env o _ _ _ (put-once _ _ o.pending h.once) h.bounded
          (restore-IsRestored o _ _ h.once) h)
      (λ _. h)

pub mark_delivery_started-IsDurable :
    (env : Env) (entry : TerminalOutboxEntry) (o : TerminalOutbox)
    → IsDurable o
    → IsDurable (mark_delivery_started env entry o).0
unfolding mark_delivery_started
mark_delivery_started-IsDurable env entry o h = elim (Option-cases (current_of entry o)) [
  | inl missing ↦ rw (missing, mark_delivery_started) h
  | inr (current, found) ↦
      rw (found, mark_delivery_started)
        (if_elim (λ (t : TerminalOutbox × Outcome (Option TerminalOutboxEntry)). IsDurable t.0)
          (started current) _ _ (λ _. h)
          (λ _.
            commit-IsDurable env o _ _ _ (put-once _ _ o.pending h.once) h.bounded
              (put_back-IsRestored o _ _ current h.once (current_of-get entry current o found)) h))
]

pub acknowledge-IsDurable :
    (env : Env) (entry : TerminalOutboxEntry) (ack : Ack) (o : TerminalOutbox)
    → IsDurable o
    → IsDurable (acknowledge env entry ack o).0
unfolding acknowledge
acknowledge-IsDurable env entry ack o h = elim (Option-cases (current_of entry o)) [
  | inl missing ↦ rw (missing, acknowledge) h
  | inr (current, found) ↦
      rw (found, acknowledge)
        (if_elim (λ (t : TerminalOutbox × Outcome Bool). IsDurable t.0)
          (ack_fits entry ack
            && same_status current entry
            && token_of current.payload == token_of entry.payload)
          _ _
          (λ _.
            commit-IsDurable env o _ _ _ (pop-once _ o.pending h.once) h.bounded
              (put_again-IsRestored o _ current h.once (current_of-get entry current o found)) h)
          (λ _. h))
]

pub record_retry-IsDurable :
    (env : Env) (entry : TerminalOutboxEntry) (at : ℕ) (error : String) (o : TerminalOutbox)
    → IsDurable o
    → IsDurable (record_retry env entry at error o).0
unfolding record_retry
record_retry-IsDurable env entry at error o h = elim (Option-cases (current_of entry o)) [
  | inl missing ↦ rw (missing, record_retry) h
  | inr (current, found) ↦
      rw (found, record_retry)
        (commit-IsDurable env o _ _ _ (put-once _ _ o.pending h.once) h.bounded
          (put_back-IsRestored o _ _ current h.once (current_of-get entry current o found)) h)
]

pub move_to_dead_letter-IsDurable :
    (env : Env) (entry : TerminalOutboxEntry) (rejection : TerminalRejection) (o : TerminalOutbox)
    → IsDurable o
    → IsDurable (move_to_dead_letter env entry rejection o).0
unfolding move_to_dead_letter
move_to_dead_letter-IsDurable env entry rejection o h = elim (Option-cases (current_of entry o)) [
  | inl missing ↦ rw (missing, move_to_dead_letter) h
  | inr (current, found) ↦
      rw (found, move_to_dead_letter)
        (commit-IsDurable env o _ _ _ (pop-once _ o.pending h.once) (bury-bounded _ o.dead_letters)
          (put_again-IsRestored o _ current h.once (current_of-get entry current o found)) h)
]
