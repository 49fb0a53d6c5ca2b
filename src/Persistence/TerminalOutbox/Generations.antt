-- ===== src/Persistence/TerminalOutbox/Generations.antt =====
-- Which entry of grix_hermes/persistence/terminal_outbox.py an operation may touch: the one that
-- is pending under its event id, in its generation.
use grix_hermes_python.Prelude.{
  ℕ, ◌+◌, String, ◌≡◌, ◌≢◌, refl, ap, ◌∙◌, true, false, none, some, arith, eq_refl,
}
use grix_hermes_python.Prelude.Dict.{get, put, get-put}
use grix_hermes_python.Persistence.Payload.{Payload, clean_text}
use grix_hermes_python.Persistence.File.{Env, Outcome, persist}
use grix_hermes_python.Persistence.TerminalOutbox.{
  TerminalOutbox, TerminalOutboxEntry, TerminalRejection, Ack, commit, enqueue,
  mark_delivery_started, acknowledge, record_retry, move_to_dead_letter, current_of, id_of,
  new_entry, is_event_result_payload, is_current,
}

-- Every operation on `entry` answers that it did nothing, and does nothing.
pub record IsIgnored (entry : TerminalOutboxEntry) (o : TerminalOutbox) : Type 0 where
  pub not_current : is_current entry o ≡ false
  pub not_started : (env : Env) → mark_delivery_started env entry o ≡ (o, Outcome.returned none)
  pub not_settled :
      (env : Env) (ack : Ack) → acknowledge env entry ack o ≡ (o, Outcome.returned false)
  pub not_retried :
      (env : Env) (at : ℕ) (error : String)
      → record_retry env entry at error o ≡ (o, Outcome.returned false)
  pub not_rejected :
      (env : Env) (rejection : TerminalRejection)
      → move_to_dead_letter env entry rejection o ≡ (o, Outcome.returned false)

pub missing-IsIgnored :
    (entry : TerminalOutboxEntry) (o : TerminalOutbox)
    → is_current entry o ≡ false
    → current_of entry o ≡ none
    → IsIgnored entry o
unfolding mark_delivery_started acknowledge record_retry move_to_dead_letter
missing-IsIgnored entry o stale missing = record {
  not_current = stale;
  not_started = λ env. rw (missing, mark_delivery_started);
  not_settled = λ env ack. rw (missing, acknowledge);
  not_retried = λ env at error. rw (missing, record_retry);
  not_rejected = λ env rejection. rw (missing, move_to_dead_letter);
}

pub other_generation :
    (entry current : TerminalOutboxEntry) (o : TerminalOutbox)
    → get (id_of entry) o.pending ≡ some current
    → current.generation ≢ entry.generation
    → (is_current entry o ≡ false) × (current_of entry o ≡ none)
unfolding is_current current_of
other_generation entry current o there differ = ground arith

commit_done :
    {A : Type 0} (env : Env) (o changed restored : TerminalOutbox) (answer : A)
    → env.writes ≡ true
    → ((commit env changed restored answer).0.pending ≡ changed.pending)
      × ((commit env changed restored answer).1 ≡ Outcome.returned answer)
unfolding commit persist
commit_done env o changed restored answer w = ground arith

-- What `enqueue` comes to where an older entry is pending.
enqueue_over :
    (env : Env) (payload : Payload) (old : TerminalOutboxEntry) (o : TerminalOutbox)
    → is_event_result_payload payload ≡ true
    → clean_text "event_id" payload ≡ id_of old
    → get (id_of old) o.pending ≡ some old
    → let e = new_entry env.now (id_of old) payload (some old) in
      (restored : TerminalOutbox) × (enqueue env payload o
        ≡ commit env (record o { pending = put (id_of old) e o.pending }) restored e)
unfolding enqueue
enqueue_over env payload old o fits same there =
    let pending = put (id_of old) (new_entry env.now (id_of old) payload (some old)) o.pending in
    (record o { pending = put (id_of old) old pending }, simp (fits, same, there))

-- A later terminal result for the event of a pending entry takes its place, and the outbox that is
-- left ignores every operation on the old entry.
pub enqueue_supersedes :
    (env : Env) (payload : Payload) (old : TerminalOutboxEntry) (o : TerminalOutbox)
    → is_event_result_payload payload ≡ true
    → env.writes ≡ true
    → clean_text "event_id" payload ≡ id_of old
    → get (id_of old) o.pending ≡ some old
    → (e : TerminalOutboxEntry) × ((enqueue env payload o).1 ≡ Outcome.returned e)
      × (get (id_of old) (enqueue env payload o).0.pending ≡ some e)
      × (e.generation ≡ old.generation + 1)
      × (e.created_at ≡ old.created_at)
      × (e.attempts ≡ 0)
      × (e.delivery_started_at ≡ none)
      × IsIgnored old (enqueue env payload o).0
unfolding new_entry
enqueue_supersedes env payload old o fits w same there =
    let e = new_entry env.now (id_of old) payload (some old) in
    let changed : TerminalOutbox = record o { pending = put (id_of old) e o.pending } in
    let (restored, over) = enqueue_over env payload old o fits same there in
    let (kept, answered) = commit_done env o changed restored e w in
    let now_there : get (id_of old) (enqueue env payload o).0.pending ≡ some e =
      rw (over, kept, get-put (id_of old) (id_of old) e o.pending, eq_refl (id_of old)) in
    let (stale, gone) =
      other_generation old e (enqueue env payload o).0 now_there (λ same_gen. omega arith) in
    (
      e,
      ap (λ (t : TerminalOutbox × Outcome TerminalOutboxEntry). t.1) over ∙ answered,
      now_there,
      refl,
      refl,
      refl,
      refl,
      missing-IsIgnored old (enqueue env payload o).0 stale gone,
    )
