-- ===== src/Persistence/TerminalOutbox/Soundness/Operations.antt =====
-- The operations of grix_hermes/persistence/terminal_outbox.py, with entries as the outbox makes them.
use grix_hermes_python.Prelude.{
  ℕ, ◌<◌, String, ◌≡◌, inl, inr, Bool, true, Option, some, ◌==◌, ◌||◌, ◌&&◌, arith, if_elim,
  Option-cases,
}
use grix_hermes_python.Prelude.Dict.{get, put, pop, put-once, pop-once}
use grix_hermes_python.Prelude.Entries.{Every-get, Every-put, Every-pop}
use grix_hermes_python.Json.{truthy}
use grix_hermes_python.Persistence.Payload.{Payload}
use grix_hermes_python.Persistence.File.{Env, Outcome}
use grix_hermes_python.Persistence.TerminalOutbox.{
  TerminalOutbox, TerminalOutboxEntry, TerminalDeadLetter, TerminalRejection, Ack, restore, enqueue,
  mark_delivery_started, acknowledge, record_retry, move_to_dead_letter, bury, current_of, id_of,
  is_event_result_payload, started, ack_fits, same_status, token_of,
}
use grix_hermes_python.Persistence.TerminalOutbox.Durability.{current_of-get, bury-bounded}
use grix_hermes_python.Persistence.TerminalOutbox.RoundTrip.{IsSound, IsSoundLetter}
use grix_hermes_python.Persistence.TerminalOutbox.Soundness.{
  IsSoundOutbox, AllSoundLetters-bury, commit-IsSoundOutbox, IsSound-marked, IsSound-retried,
  IsSound-new_entry,
}

with_put :
    (k : String) (e : TerminalOutboxEntry) (o : TerminalOutbox)
    → IsSound k e
    → IsSoundOutbox o
    → IsSoundOutbox (record o { pending = put k e o.pending })
with_put k e o fit h = record {
  memory = record {
    pending = Every-put IsSound k e o.pending fit h.memory.pending;
    once = put-once k e o.pending h.memory.once;
    letters = h.memory.letters;
    bounded = h.memory.bounded;
  };
  disk = h.disk;
}

with_pop :
    (k : String) (o : TerminalOutbox)
    → IsSoundOutbox o
    → IsSoundOutbox (record o { pending = pop k o.pending })
with_pop k o h = record {
  memory = record {
    pending = Every-pop IsSound k o.pending h.memory.pending;
    once = pop-once k o.pending h.memory.once;
    letters = h.memory.letters;
    bounded = h.memory.bounded;
  };
  disk = h.disk;
}

with_buried :
    (l : TerminalDeadLetter) (o : TerminalOutbox)
    → IsSoundLetter l
    → IsSoundOutbox o
    → IsSoundOutbox (record o { dead_letters = bury l o.dead_letters })
with_buried l o fit h = record {
  memory = record {
    pending = h.memory.pending;
    once = h.memory.once;
    letters = AllSoundLetters-bury l o.dead_letters fit h.memory.letters;
    bounded = bury-bounded l o.dead_letters;
  };
  disk = h.disk;
}

with_restored :
    (k : String) (e : TerminalOutboxEntry) (o : TerminalOutbox)
    → IsSound k e
    → IsSoundOutbox o
    → IsSoundOutbox (record o { pending = restore k (get k o.pending) (put k e o.pending) })
with_restored k e o fit h = elim (Option-cases (get k o.pending)) [
  | inl missing ↦ rw (missing, restore) (with_pop k _ (with_put k e o fit h))
  | inr (w, there) ↦
      rw (there, restore)
        (with_put k w _ (Every-get IsSound k w o.pending h.memory.pending there)
          (with_put k e o fit h))
]

IsSound-current :
    (entry current : TerminalOutboxEntry) (o : TerminalOutbox)
    → current_of entry o ≡ some current
    → IsSoundOutbox o
    → IsSound (id_of entry) current
IsSound-current entry current o found h =
    Every-get IsSound (id_of entry) current o.pending h.memory.pending
      (current_of-get entry current o found)

pub enqueue-IsSoundOutbox :
    (env : Env) (payload : Payload) (o : TerminalOutbox)
    → IsSoundOutbox o
    → IsSoundOutbox (enqueue env payload o).0
unfolding enqueue
enqueue-IsSoundOutbox env payload o h =
    if_elim (λ (t : TerminalOutbox × Outcome TerminalOutboxEntry). IsSoundOutbox t.0)
      (is_event_result_payload payload) _ _
      (λ fits.
        let fit = IsSound-new_entry env.now payload _ fits in
        commit-IsSoundOutbox env _ _ _ (with_put _ _ o fit h) (with_restored _ _ o fit h))
      (λ _. h)

pub mark_delivery_started-IsSoundOutbox :
    (env : Env) (entry : TerminalOutboxEntry) (o : TerminalOutbox)
    → 0 < env.now
    → IsSoundOutbox o
    → IsSoundOutbox (mark_delivery_started env entry o).0
unfolding mark_delivery_started
mark_delivery_started-IsSoundOutbox env entry o late h = elim (Option-cases (current_of entry o)) [
  | inl missing ↦ rw (missing, mark_delivery_started) h
  | inr (current, found) ↦
      let fit = IsSound-current entry current o found h in
      rw (found, mark_delivery_started)
        (if_elim (λ (t : TerminalOutbox × Outcome (Option TerminalOutboxEntry)). IsSoundOutbox t.0)
          (started current) _ _ (λ _. h)
          (λ _.
            let marked = IsSound-marked (id_of entry) env.now current late fit in
            commit-IsSoundOutbox env _ _ _ (with_put _ _ o marked h)
              (with_put _ current _ fit (with_put _ _ o marked h))))
]

pub acknowledge-IsSoundOutbox :
    (env : Env) (entry : TerminalOutboxEntry) (ack : Ack) (o : TerminalOutbox)
    → IsSoundOutbox o
    → IsSoundOutbox (acknowledge env entry ack o).0
unfolding acknowledge
acknowledge-IsSoundOutbox env entry ack o h = elim (Option-cases (current_of entry o)) [
  | inl missing ↦ rw (missing, acknowledge) h
  | inr (current, found) ↦
      let fit = IsSound-current entry current o found h in
      rw (found, acknowledge)
        (if_elim (λ (t : TerminalOutbox × Outcome Bool). IsSoundOutbox t.0)
          (ack_fits entry ack
            && same_status current entry
            && token_of current.payload == token_of entry.payload)
          _ _
          (λ _.
            commit-IsSoundOutbox env _ _ _ (with_pop _ o h)
              (with_put _ current _ fit (with_pop _ o h)))
          (λ _. h))
]

pub record_retry-IsSoundOutbox :
    (env : Env) (entry : TerminalOutboxEntry) (at : ℕ) (error : String) (o : TerminalOutbox)
    → IsSoundOutbox o
    → IsSoundOutbox (record_retry env entry at error o).0
unfolding record_retry
record_retry-IsSoundOutbox env entry at error o h = elim (Option-cases (current_of entry o)) [
  | inl missing ↦ rw (missing, record_retry) h
  | inr (current, found) ↦
      let fit = IsSound-current entry current o found h in
      let retried = IsSound-retried (id_of entry) env.now at error current fit in
      rw (found, record_retry)
        (commit-IsSoundOutbox env _ _ _ (with_put _ _ o retried h)
          (with_put _ current _ fit (with_put _ _ o retried h)))
]

-- The commands of a rejection.
abbrev pub IsRejection : TerminalRejection → Type 0
IsRejection r = r.response_cmd == "send_nack" || r.response_cmd == "error" ≡ true

pub move_to_dead_letter-IsSoundOutbox :
    (env : Env) (entry : TerminalOutboxEntry) (r : TerminalRejection) (o : TerminalOutbox)
    → 0 < env.now
    → IsRejection r
    → IsSoundOutbox o
    → IsSoundOutbox (move_to_dead_letter env entry r o).0
unfolding move_to_dead_letter truthy
move_to_dead_letter-IsSoundOutbox env entry r o late known h =
    elim (Option-cases (current_of entry o)) [
      | inl missing ↦ rw (missing, move_to_dead_letter) h
      | inr (current, found) ↦
          let fit = IsSound-current entry current o found h in
          rw (found, move_to_dead_letter)
            (commit-IsSoundOutbox env _ _ _
              (with_buried _ _
                (record { terminal = fit.terminal; command = known; dated = ground arith })
                (with_pop _ o h))
              (with_put _ current _ fit (with_pop _ o h)))
    ]
