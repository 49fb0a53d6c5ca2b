-- ===== src/Persistence/TerminalOutbox/RoundTrip/Entries.antt =====
-- The entries that `_load` of grix_hermes/persistence/terminal_outbox.py reads back.
use grix_hermes_python.Prelude.{
  ℕ, ◌+◌, ◌≤◌, ◌<◌, String, ◌≡◌, refl, ap, sym, ◌∙◌, true, Option, none, some, [], ◌∷◌, ◌++◌, ◌==◌,
  arith, if◌then◌else◌, eq_refl, append-nil, append_assoc, count-append,
}
use grix_hermes_python.Prelude.Dict.{Dict, put, get, entries, get_of_no-entries}
use grix_hermes_python.Prelude.Entries.{Every, put_new}
use grix_hermes_python.Prelude.Int.{ℤ, pos, leb_ℤ}
use grix_hermes_python.Json.{Value, value_at, dict_of-fields_of}
use grix_hermes_python.Json.Numbers.{number_of}
use grix_hermes_python.Json.Equality.{value_eq}
use grix_hermes_python.Persistence.File.{Outcome}
use grix_hermes_python.Persistence.TerminalOutbox.{TerminalOutboxEntry, is_event_result_payload}
use grix_hermes_python.Persistence.Fields.{
  number_or, object_of, number_field, text_field, positive, text_or_none,
}
use grix_hermes_python.Persistence.TerminalOutbox.Load.{
  entry_dict, pending_dict, entry_from, read_entry, load_entries,
}

abbrev pub IsPositive : Option ℤ → Type 0
IsPositive none = Unit
IsPositive (some n) = leb_ℤ (pos 1) n ≡ true

-- An entry under its key as the outbox makes them.
pub record IsSound (event_id : String) (e : TerminalOutboxEntry) : Type 0 where
  pub keyed : value_eq (Value.text event_id) (value_at "event_id" e.payload) ≡ true
  pub terminal : is_event_result_payload e.payload ≡ true
  pub generation : 0 < e.generation
  pub started : IsPositive e.delivery_started_at

-- An output guard counts as sent after a restart; all else is as it was.
unfoldable pub recover : TerminalOutboxEntry → TerminalOutboxEntry
recover e = record e {
  delivery_started_at =
      if value_eq (value_at "code" e.payload) (Value.text "agent_output_unconfirmed")
      then some (number_or e.updated_at e.delivery_started_at)
      else e.delivery_started_at;
}

started_tail :
    (a : Option ℤ) (b : Option String)
    → IsPositive a
    → positive (
        number_of (
          value_at "deliveryStartedAt"
            (number_field "deliveryStartedAt" a ++ text_field "lastError" b)))
      ≡ a
unfolding value_at get number_of
started_tail none none h = refl
started_tail none (some t) h = refl
started_tail (some n) b h = rw h

error_tail :
    (a : Option ℤ) (b : Option String)
    → text_or_none
        (value_at "lastError" (number_field "deliveryStartedAt" a ++ text_field "lastError" b))
      ≡ b
unfolding value_at get
error_tail none none = refl
error_tail none (some t) = refl
error_tail (some n) none = refl
error_tail (some n) (some t) = refl

entry_from-entry_dict :
    (now : ℕ) (event_id : String) (e : TerminalOutboxEntry)
    → IsSound event_id e
    → entry_from now e.payload (entry_dict e) ≡ recover e
unfolding entry_from entry_dict recover value_at get number_of
entry_from-entry_dict now event_id e h =
    simp
      (
        started_tail e.delivery_started_at e.last_error h.started,
        error_tail e.delivery_started_at e.last_error,
      )
      (ground (arith, h.generation))

read_entry-entry_dict :
    (now : ℕ) (event_id : String) (e : TerminalOutboxEntry)
    → IsSound event_id e
    → read_entry now event_id (entry_dict e) ≡ Outcome.returned (some (recover e))
unfolding read_entry value_at get entry_dict
read_entry-entry_dict now event_id e h =
    simp (dict_of-fields_of e.payload, h.keyed, h.terminal)
      (ap (λ (x : TerminalOutboxEntry). Outcome.returned (some x))
        (entry_from-entry_dict now event_id e h))

unfoldable pub recover_all : Dict TerminalOutboxEntry → Dict TerminalOutboxEntry
recover_all [] = []
recover_all ((k, e) ∷ d) = (k, recover e) ∷ recover_all d

load_one :
    (now : ℕ) (k : String) (raw : Dict Value) (e : TerminalOutboxEntry) (rest : Dict Value)
    (before : Dict TerminalOutboxEntry)
    → read_entry now k raw ≡ Outcome.returned (some e)
    → load_entries now ((k, object_of raw) ∷ rest) before ≡ load_entries now rest (put k e before)
unfolding load_entries
load_one now k raw e rest before h = rw (dict_of-fields_of raw, h, load_entries)

pub load_entries-pending_dict :
    (now : ℕ) (d before : Dict TerminalOutboxEntry)
    → Every IsSound d
    → ((k : String) → entries k before + entries k d ≤ 1)
    → load_entries now (pending_dict d) before ≡ Outcome.returned (before ++ recover_all d)
unfolding load_entries pending_dict recover_all
load_entries-pending_dict now [] before sound once = ap Outcome.returned (sym (append-nil before))
load_entries-pending_dict now ((k, e) ∷ d) before (here, sound) once =
    let apart : entries k before ≡ 0 = ground (arith, once k, eq_refl k) in
    let missing = get_of_no-entries k before apart in
    load_one now k (entry_dict e) (recover e) (pending_dict d) before
      (read_entry-entry_dict now k e here)
    ∙ (rw (put_new k (recover e) before missing) (
        load_entries-pending_dict now d (before ++ (k, recover e) ∷ []) sound (λ j. omega (
          arith,
          once j,
          count-append (λ (x : String × TerminalOutboxEntry). x.0 == j) before
              ((k, recover e) ∷ []),
        ))
        ∙ ap Outcome.returned (append_assoc before ((k, recover e) ∷ []) (recover_all d))))
