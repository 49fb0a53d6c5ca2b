-- ===== src/Persistence/TerminalOutbox/Start.antt =====
-- `mark_delivery_started` of grix_hermes/persistence/terminal_outbox.py.
use grix_hermes_python.Prelude.{
  ◌<◌, ◌≡◌, ap, sym, ◌∙◌, inl, inr, true, false, Option, none, some, arith, Option-cases,
  Bool-cases, eq_refl,
}
use grix_hermes_python.Prelude.Int.{pos}
use grix_hermes_python.Prelude.Dict.{get, get-put}
use grix_hermes_python.Persistence.File.{Env, Outcome}
use grix_hermes_python.Persistence.TerminalOutbox.{
  TerminalOutbox, TerminalOutboxEntry, commit, mark_delivery_started, current_of, id_of, started,
}

nothing_to_start :
    (env : Env) (entry : TerminalOutboxEntry) (o : TerminalOutbox)
    → current_of entry o ≡ none
    → (mark_delivery_started env entry o).1 ≡ Outcome.returned none
unfolding mark_delivery_started
nothing_to_start env entry o missing = rw (missing, mark_delivery_started)

started_under :
    (later : Env) (entry current : TerminalOutboxEntry) (o : TerminalOutbox)
    → current_of entry o ≡ some current
    → started current ≡ true
    → mark_delivery_started later entry o ≡ (o, Outcome.returned (some current))
unfolding mark_delivery_started
started_under later entry current o found s = rw (found, mark_delivery_started) (rw s)

abbrev stamped : Env → TerminalOutboxEntry → TerminalOutboxEntry
stamped env current = record current {
  delivery_started_at = some (pos env.now);
  updated_at = pos env.now;
}

starts_now :
    (env : Env) (entry current e : TerminalOutboxEntry) (o : TerminalOutbox)
    → current_of entry o ≡ some current
    → started current ≡ false
    → (mark_delivery_started env entry o).1 ≡ Outcome.returned (some e)
    → (e ≡ stamped env current)
      × (get (id_of entry) (mark_delivery_started env entry o).0.pending ≡ some e)
unfolding mark_delivery_started commit current_of
starts_now env entry current e o found first m = ground (
  arith,
  get-put (id_of entry) (id_of entry) (stamped env current) o.pending,
  eq_refl (id_of entry),
)

current_of-get_back :
    (entry e : TerminalOutboxEntry) (o : TerminalOutbox)
    → get (id_of entry) o.pending ≡ some e
    → e.generation ≡ entry.generation
    → current_of entry o ≡ some e
unfolding current_of
current_of-get_back entry e o there gen = ground arith

current_generation :
    (entry current : TerminalOutboxEntry) (o : TerminalOutbox)
    → current_of entry o ≡ some current
    → current.generation ≡ entry.generation
unfolding current_of
current_generation entry current o found = ground arith

-- Where a start of a delivery at a time after 0 returned an entry, that entry is stamped for good:
-- a later call for it answers the same entry, whatever the time and the file system, and changes
-- nothing.
pub mark_delivery_started_once :
    (env later : Env) (entry e : TerminalOutboxEntry) (o : TerminalOutbox)
    → 0 < env.now
    → (mark_delivery_started env entry o).1 ≡ Outcome.returned (some e)
    → mark_delivery_started later entry (mark_delivery_started env entry o).0
      ≡ ((mark_delivery_started env entry o).0, Outcome.returned (some e))
mark_delivery_started_once env later entry e o h m = elim (Option-cases (current_of entry o)) [
  | inl missing ↦ cc (nothing_to_start env entry o missing)
  | inr (current, found) ↦ elim (Bool-cases (started current)) [
    | inl before ↦
        let same = started_under env entry current o found before in
        let is_it : Outcome.returned (some current) ≡ Outcome.returned (some e) =
          sym (ap (λ (t : TerminalOutbox × Outcome (Option TerminalOutboxEntry)). t.1) same) ∙ m in
        rw same (started_under later entry current o found before ∙ ap (λ r. (o, r)) is_it)
    | inr first ↦
        let (is_stamped, there) = starts_now env entry current e o found first m in
        let after = (mark_delivery_started env entry o).0 in
        started_under later entry e after
          (current_of-get_back entry e after there (
            ap (λ (t : TerminalOutboxEntry). t.generation) is_stamped
            ∙ current_generation entry current o found))
          (ap started is_stamped ∙ ground arith)
  ]
]
