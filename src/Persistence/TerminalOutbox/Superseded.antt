-- ===== src/Persistence/TerminalOutbox/Superseded.antt =====
-- The outbox of grix_hermes/persistence/terminal_outbox.py and an entry
-- that a later one of the same event has replaced: what each operation does to the later one.
pub mod History
use grix_hermes_python.Prelude.{
  ℕ, ◌+◌, ◌≤◌, ◌<◌, String, ◌≡◌, ◌≢◌, ◌⊎◌, refl, ap, ◌∙◌, inl, inr, Bool, true, false, Option, none,
  some, List, [], ◌∷◌, arith, eq_iff, eq_refl, ltb, ◌==◌, ◌&&◌, Option-cases, if_elim,
}
use grix_hermes_python.Prelude.Dict.{get, put, pop, get-put, get-pop_ne}
use grix_hermes_python.Persistence.Payload.{Payload, clean_text}
use grix_hermes_python.Persistence.File.{Env, Outcome, persist}
use grix_hermes_python.Persistence.TerminalOutbox.{
  TerminalOutbox, TerminalOutboxEntry, TerminalRejection, Ack, commit, save, enqueue,
  mark_delivery_started, started, acknowledge, record_retry, move_to_dead_letter, current_of, id_of,
  new_entry, restore, is_event_result_payload, is_current, ack_fits, same_status, token_of,
}
use grix_hermes_python.Persistence.TerminalOutbox.Generations.{
  IsIgnored, enqueue_supersedes, missing-IsIgnored, other_generation,
}
use grix_hermes_python.Persistence.TerminalOutbox.History.{Operation, perform, replay}

abbrev pub is_newer : ℕ → Option TerminalOutboxEntry → Bool
is_newer generation none = false
is_newer generation (some entry) = ltb generation entry.generation

-- An entry of a later generation is pending for the event.
abbrev pub IsSuperseded : TerminalOutboxEntry → TerminalOutbox → Type 0
IsSuperseded old o = is_newer old.generation (get (id_of old) o.pending) ≡ true

commit-IsSuperseded :
    {A : Type 0} (old : TerminalOutboxEntry) (env : Env) (changed restored : TerminalOutbox)
    (answer : A)
    → IsSuperseded old changed
    → IsSuperseded old restored
    → IsSuperseded old (commit env changed restored answer).0
unfolding commit save persist
commit-IsSuperseded {A = A} old env changed restored answer new_one old_one =
    if_elim (λ (t : TerminalOutbox × Outcome A). IsSuperseded old t.0) (save env changed).1 _ _
      (λ _. new_one) (λ _. old_one)

put-IsSuperseded :
    (old entry : TerminalOutboxEntry) (key : String) (o : TerminalOutbox)
    → IsSuperseded old o
    → ((key == id_of old) ≡ true → old.generation < entry.generation)
    → IsSuperseded old (record o { pending = put key entry o.pending })
put-IsSuperseded old entry key o newer later =
    ground (arith, get-put key (id_of old) entry o.pending)

current_of-newer :
    (old entry current : TerminalOutboxEntry) (o : TerminalOutbox)
    → IsSuperseded old o
    → current_of entry o ≡ some current
    → (id_of entry == id_of old) ≡ true
    → old.generation < current.generation
unfolding current_of
current_of-newer old entry current o newer found same =
    ground (arith, eq_iff (id_of entry) (id_of old))

-- Puts under the key of a pending entry, of its generation, one or two in a row.
over-IsSuperseded :
    (old entry current next : TerminalOutboxEntry) (o : TerminalOutbox)
    → IsSuperseded old o
    → current_of entry o ≡ some current
    → next.generation ≡ current.generation
    → IsSuperseded old (record o { pending = put (id_of entry) next o.pending })
over-IsSuperseded old entry current next o newer found same =
    put-IsSuperseded old next (id_of entry) o newer
      (λ there. omega (arith, same, current_of-newer old entry current o newer found there))

back-IsSuperseded :
    (old entry current next : TerminalOutboxEntry) (o : TerminalOutbox)
    → IsSuperseded old o
    → current_of entry o ≡ some current
    → next.generation ≡ current.generation
    → IsSuperseded old
        (record o { pending = put (id_of entry) current (put (id_of entry) next o.pending) })
back-IsSuperseded old entry current next o newer found same =
    put-IsSuperseded old current (id_of entry)
      (record o { pending = put (id_of entry) next o.pending })
      (over-IsSuperseded old entry current next o newer found same)
      (current_of-newer old entry current o newer found)

pub start-IsSuperseded :
    (env : Env) (old entry : TerminalOutboxEntry) (o : TerminalOutbox)
    → IsSuperseded old o
    → IsSuperseded old (mark_delivery_started env entry o).0
unfolding mark_delivery_started
start-IsSuperseded env old entry o newer = elim (Option-cases (current_of entry o)) [
  | inl missing ↦ rw (missing, mark_delivery_started) newer
  | inr (current, found) ↦
      rw (found, mark_delivery_started)
        (if_elim
          (λ (t : TerminalOutbox × Outcome (Option TerminalOutboxEntry)). IsSuperseded old t.0)
          (started current) _ _ (λ _. newer)
          (λ _.
            commit-IsSuperseded old env _ _ _
              (over-IsSuperseded old entry current _ o newer found refl)
              (back-IsSuperseded old entry current _ o newer found refl)))
]

pub retry-IsSuperseded :
    (env : Env) (old entry : TerminalOutboxEntry) (at : ℕ) (error : String) (o : TerminalOutbox)
    → IsSuperseded old o
    → IsSuperseded old (record_retry env entry at error o).0
unfolding record_retry
retry-IsSuperseded env old entry at error o newer = elim (Option-cases (current_of entry o)) [
  | inl missing ↦ rw (missing, record_retry) newer
  | inr (current, found) ↦
      rw (found, record_retry)
        (commit-IsSuperseded old env _ _ _
          (over-IsSuperseded old entry current _ o newer found refl)
          (back-IsSuperseded old entry current _ o newer found refl))
]

out-IsSuperseded :
    (old : TerminalOutboxEntry) (key : String) (o : TerminalOutbox)
    → IsSuperseded old o
    → (key == id_of old) ≡ false
    → IsSuperseded old (record o { pending = pop key o.pending })
out-IsSuperseded old key o newer other = rw (get-pop_ne key (id_of old) o.pending other) newer

-- What `enqueue` puts in, and what its handler puts back.
placed-IsSuperseded :
    (old : TerminalOutboxEntry) (now : ℕ) (key : String) (payload : Payload) (o : TerminalOutbox)
    → IsSuperseded old o
    → let e = new_entry now key payload (get key o.pending) in
      IsSuperseded old (record o { pending = put key e o.pending })
      × IsSuperseded old
          (record o { pending = restore key (get key o.pending) (put key e o.pending) })
unfolding new_entry
placed-IsSuperseded old now key payload o newer = elim (Option-cases (get key o.pending)) [
  | inl missing ↦
      let e = new_entry now key payload none in
      let away : (key == id_of old) ≡ false = ground (arith, eq_iff key (id_of old)) in
      let placed = put-IsSuperseded old e key o newer (λ same. absurd (ground arith)) in
      rw missing
        (placed, out-IsSuperseded old key (record o { pending = put key e o.pending }) placed away)
  | inr (previous, found) ↦
      let e = new_entry now key payload (some previous) in
      let above : (key == id_of old) ≡ true → old.generation < previous.generation =
        λ same. ground (arith, eq_iff key (id_of old)) in
      let placed = put-IsSuperseded old e key o newer (λ same. omega (arith, above same)) in
      rw found (
        placed,
        put-IsSuperseded old previous key (record o { pending = put key e o.pending }) placed above,
      )
]

pub enqueue-IsSuperseded :
    (env : Env) (old : TerminalOutboxEntry) (payload : Payload) (o : TerminalOutbox)
    → IsSuperseded old o
    → IsSuperseded old (enqueue env payload o).0
unfolding enqueue
enqueue-IsSuperseded env old payload o newer =
    let (placed, back) =
      placed-IsSuperseded old env.now (clean_text "event_id" payload) payload o newer in
    if_elim (λ (t : TerminalOutbox × Outcome TerminalOutboxEntry). IsSuperseded old t.0)
      (is_event_result_payload payload) _ _ (λ _. commit-IsSuperseded old env _ _ _ placed back)
      (λ _. newer)

-- An entry of another event, or none that is newer than `old`.
abbrev pub IsOther : TerminalOutboxEntry → TerminalOutboxEntry → Type 0
IsOther old entry = (id_of entry ≢ id_of old) ⊎ (entry.generation ≤ old.generation)

other_key :
    (old entry current : TerminalOutboxEntry) (o : TerminalOutbox)
    → IsSuperseded old o
    → IsOther old entry
    → current_of entry o ≡ some current
    → (id_of entry == id_of old) ≡ false
unfolding current_of
other_key old entry current o newer other found =
    ground
      (arith, current_of-newer old entry current o newer found, eq_iff (id_of entry) (id_of old))

pub settle-IsSuperseded :
    (env : Env) (old entry : TerminalOutboxEntry) (ack : Ack) (o : TerminalOutbox)
    → IsOther old entry
    → IsSuperseded old o
    → IsSuperseded old (acknowledge env entry ack o).0
unfolding acknowledge
settle-IsSuperseded env old entry ack o other newer = elim (Option-cases (current_of entry o)) [
  | inl missing ↦ rw (missing, acknowledge) newer
  | inr (current, found) ↦
      let away = other_key old entry current o newer other found in
      let gone = out-IsSuperseded old (id_of entry) o newer away in
      rw (found, acknowledge)
        (if_elim (λ (t : TerminalOutbox × Outcome Bool). IsSuperseded old t.0)
          (ack_fits entry ack
            && same_status current entry
            && token_of current.payload == token_of entry.payload)
          _ _
          (λ _. commit-IsSuperseded old env _ _ _ gone (
            put-IsSuperseded old current (id_of entry)
              (record o { pending = pop (id_of entry) o.pending }) gone
              (current_of-newer old entry current o newer found)))
          (λ _. newer))
]

pub reject-IsSuperseded :
    (env : Env) (old entry : TerminalOutboxEntry) (rejection : TerminalRejection)
    (o : TerminalOutbox)
    → IsOther old entry
    → IsSuperseded old o
    → IsSuperseded old (move_to_dead_letter env entry rejection o).0
unfolding move_to_dead_letter
reject-IsSuperseded env old entry rejection o other newer =
    elim (Option-cases (current_of entry o)) [
      | inl missing ↦ rw (missing, move_to_dead_letter) newer
      | inr (current, found) ↦
          let away = other_key old entry current o newer other found in
          let gone = out-IsSuperseded old (id_of entry) o newer away in
          rw (found, move_to_dead_letter)
            (commit-IsSuperseded old env _ _ _ gone (
              put-IsSuperseded old current (id_of entry)
                (record o { pending = pop (id_of entry) o.pending }) gone
                (current_of-newer old entry current o newer found)))
    ]
