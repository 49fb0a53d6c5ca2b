-- ===== src/Persistence/TerminalOutbox/RoundTrip.antt =====
-- `_load` of grix_hermes/persistence/terminal_outbox.py on what `_persist` wrote.
mod Entries
mod Letters
unfoldable pub use Entries.{recover, recover_all}
pub use Entries.{IsSound, IsPositive}
pub use Letters.{IsSoundLetter, AllSoundLetters}
use grix_hermes_python.Prelude.{
  ℕ, ◌+◌, ◌-◌, ◌≤◌, String, ◌≡◌, refl, ap, ◌∙◌, true, false, some, List, [], ◌==◌, arith, length,
  drop,
}
use grix_hermes_python.Prelude.Dict.{Dict, get, entries}
use grix_hermes_python.Prelude.Entries.{Every}
use grix_hermes_python.Json.{Value, value_at, dict_of-fields_of, list_of-items_of, items_of}
use grix_hermes_python.Json.Equality.{value_eq}
use grix_hermes_python.Persistence.File.{Disk, Outcome, read_json_object-holds}
use grix_hermes_python.Persistence.TerminalOutbox.{
  TerminalOutboxEntry, TerminalDeadLetter, Snapshot, max_dead_letters,
}
use grix_hermes_python.Persistence.Fields.{object_of}
use grix_hermes_python.Persistence.TerminalOutbox.Load.{
  pending_dict, letter_values, snapshot_dict, load_entries, load_letters, read_file, load,
  last_letters, letters_from, both_read,
}
use Entries.{load_entries-pending_dict}
use Letters.{load_letters-letter_values}

last_few :
    (ls : List TerminalDeadLetter)
    → length ls ≤ max_dead_letters
    → last_letters (Outcome.returned ls) ≡ Outcome.returned ls
last_few ls h = let none_over : length ls - max_dead_letters ≡ 0 = omega arith in rw none_over

-- A snapshot that the outbox may write.
pub record IsSoundSnapshot (s : Snapshot) : Type 0 where
  pub pending : Every IsSound s.pending
  pub once : (k : String) → entries k s.pending ≤ 1
  pub letters : AllSoundLetters s.dead_letters
  pub bounded : length s.dead_letters ≤ max_dead_letters

add_zero :
    (k : String) (d : Dict TerminalOutboxEntry)
    → entries k d ≤ 1
    → entries {V = TerminalOutboxEntry} k [] + entries k d ≤ 1
add_zero k d h = omega arith

read_letters :
    (now : ℕ) (s : Snapshot)
    → IsSoundSnapshot s
    → letters_from now (Value.array (items_of (letter_values s.dead_letters)))
      ≡ Outcome.returned s.dead_letters
read_letters now s h =
    rw
      (
        list_of-items_of (letter_values s.dead_letters),
        load_letters-letter_values now s.dead_letters [] h.letters,
      )
      (last_few s.dead_letters h.bounded)

read_file-snapshot_dict :
    (now : ℕ) (s : Snapshot)
    → IsSoundSnapshot s
    → read_file now (snapshot_dict s)
      ≡ Outcome.returned (record s { pending = recover_all s.pending })
unfolding read_file snapshot_dict value_at get value_eq
read_file-snapshot_dict now s h =
    let ls = letters_from now (Value.array (items_of (letter_values s.dead_letters))) in
    let apart = λ (k : String). add_zero k s.pending (h.once k) in
    ap (λ d. both_read (load_entries now d []) ls) (dict_of-fields_of (pending_dict s.pending))
    ∙ ap (λ e. both_read e ls) (load_entries-pending_dict now s.pending [] h.pending apart)
    ∙ ap (both_read (Outcome.returned (recover_all s.pending))) (read_letters now s h)

pub load-snapshot_dict :
    (path : String) (now : ℕ) (s : Snapshot)
    → (path == "") ≡ false
    → IsSoundSnapshot s
    → load (some path) now (Disk.holds (object_of (snapshot_dict s)))
      ≡ Outcome.returned (record s { pending = recover_all s.pending })
unfolding load
load-snapshot_dict path now s named h =
    rw (read_json_object-holds path (snapshot_dict s) named, load) (read_file-snapshot_dict now s h)
