-- ===== src/Persistence/StopResults/Restart/RoundTrip.antt =====
-- `_load` of grix_hermes/persistence/stop_result_outbox.py on what `_persist` wrote.
use grix_hermes_python.Prelude.{
  ℕ, ◌+◌, ◌≤◌, ◌<◌, String, ◌≡◌, refl, ap, sym, ◌∙◌, true, false, Option, none, some, [], ◌∷◌, ◌++◌,
  ◌==◌, arith, eq_refl, append-nil, append_assoc, count-append,
}
use grix_hermes_python.Prelude.Dict.{Dict, put, get, entries, get_of_no-entries}
use grix_hermes_python.Prelude.Entries.{Every, put_new}
use grix_hermes_python.Json.{Value, value_at, dict_of-fields_of}
use grix_hermes_python.Json.Numbers.{number_of}
use grix_hermes_python.Json.Equality.{value_eq, value_eq_refl}
use grix_hermes_python.Persistence.Fields.{object_of, text_field, text_or_none}
use grix_hermes_python.Persistence.File.{Disk, Outcome, read_json_object-holds}
use grix_hermes_python.Persistence.StopResults.{
  StopResultOutboxEntry, entry_key, is_durable_stop_result,
}
use grix_hermes_python.Persistence.StopResults.Load.{
  entry_dict, pending_dict, file_dict, entry_from, read_entry, load_entries, read_file, load,
}

-- An entry under its key as the outbox makes them.
pub record IsSound (key : String) (e : StopResultOutboxEntry) : Type 0 where
  pub own : e.key ≡ key
  pub keyed : entry_key e.payload ≡ key
  pub durable : is_durable_stop_result e.payload ≡ true
  pub generation : 0 < e.generation

error_tail :
    (b : Option String) → text_or_none (value_at "lastError" (text_field "lastError" b)) ≡ b
unfolding value_at get
error_tail none = refl
error_tail (some t) = refl

entry_from-entry_dict :
    (now : ℕ) (key : String) (e : StopResultOutboxEntry)
    → IsSound key e
    → entry_from now key e.payload (entry_dict e) ≡ e
unfolding entry_from entry_dict value_at get number_of
entry_from-entry_dict now key e h =
    simp (error_tail e.last_error) (ground (arith, h.generation, h.own))

read_entry-entry_dict :
    (now : ℕ) (key : String) (e : StopResultOutboxEntry)
    → IsSound key e
    → read_entry now key (entry_dict e) ≡ some e
unfolding read_entry value_at get entry_dict
read_entry-entry_dict now key e h =
    let same : value_eq (Value.text key) (Value.text e.key) ≡ true =
      rw h.own (value_eq_refl (Value.text key)) in
    simp (dict_of-fields_of e.payload, h.durable, h.keyed, same, eq_refl key)
      (ap (λ (x : StopResultOutboxEntry). some x) (entry_from-entry_dict now key e h))

load_one :
    (now : ℕ) (k : String) (raw : Dict Value) (e : StopResultOutboxEntry) (rest : Dict Value)
    (before : Dict StopResultOutboxEntry)
    → read_entry now k raw ≡ some e
    → load_entries now ((k, object_of raw) ∷ rest) before ≡ load_entries now rest (put k e before)
unfolding load_entries
load_one now k raw e rest before h = rw (dict_of-fields_of raw, h, load_entries)

load_entries-pending_dict :
    (now : ℕ) (d before : Dict StopResultOutboxEntry)
    → Every IsSound d
    → ((k : String) → entries k before + entries k d ≤ 1)
    → load_entries now (pending_dict d) before ≡ before ++ d
unfolding load_entries pending_dict
load_entries-pending_dict now [] before sound once = sym (append-nil before)
load_entries-pending_dict now ((k, e) ∷ d) before (here, sound) once =
    let apart : entries k before ≡ 0 = ground (arith, once k, eq_refl k) in
    let missing = get_of_no-entries k before apart in
    load_one now k (entry_dict e) e (pending_dict d) before (read_entry-entry_dict now k e here)
    ∙ (rw (put_new k e before missing) (
        load_entries-pending_dict now d (before ++ (k, e) ∷ []) sound (λ j. omega (
          arith,
          once j,
          count-append (λ (x : String × StopResultOutboxEntry). x.0 == j) before ((k, e) ∷ []),
        ))
        ∙ append_assoc before ((k, e) ∷ []) d))

add_zero :
    (k : String) (d : Dict StopResultOutboxEntry)
    → entries k d ≤ 1
    → entries {V = StopResultOutboxEntry} k [] + entries k d ≤ 1
add_zero k d h = omega arith

read_file-file_dict :
    (now : ℕ) (d : Dict StopResultOutboxEntry)
    → Every IsSound d
    → ((k : String) → entries k d ≤ 1)
    → read_file now (file_dict d) ≡ Outcome.returned d
unfolding read_file file_dict value_at get value_eq
read_file-file_dict now d sound once =
    ap (λ f. Outcome.returned (load_entries now f [])) (dict_of-fields_of (pending_dict d))
    ∙ ap Outcome.returned (load_entries-pending_dict now d [] sound (λ k. add_zero k d (once k)))

pub load-file_dict :
    (path : String) (now : ℕ) (d : Dict StopResultOutboxEntry)
    → (path == "") ≡ false
    → Every IsSound d
    → ((k : String) → entries k d ≤ 1)
    → load (some path) now (Disk.holds (object_of (file_dict d))) ≡ Outcome.returned d
unfolding load
load-file_dict path now d named sound once =
    rw (read_json_object-holds path (file_dict d) named, load)
      (read_file-file_dict now d sound once)
