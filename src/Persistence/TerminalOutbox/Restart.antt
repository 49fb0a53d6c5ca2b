-- ===== src/Persistence/TerminalOutbox/Restart.antt =====
-- A restart of the outbox of grix_hermes/persistence/terminal_outbox.py after any history.
use grix_hermes_python.Prelude.{
  ℕ, ◌<◌, String, ◌≡◌, refl, ap, ◌∙◌, false, Option, none, some, List, [], ◌∷◌, ◌==◌, arith,
  is_some, true,
}
use grix_hermes_python.Prelude.Dict.{Dict, get}
use grix_hermes_python.Persistence.File.{Env, Outcome, Disk, read_json_object}
use grix_hermes_python.Persistence.TerminalOutbox.{
  TerminalOutbox, TerminalOutboxEntry, Snapshot, new, commit, enqueue, mark_delivery_started,
  acknowledge, record_retry, move_to_dead_letter,
}
use grix_hermes_python.Persistence.TerminalOutbox.Durability.{saved_pending, saved_letters}
use grix_hermes_python.Persistence.TerminalOutbox.History.{
  Operation, perform, replay, replay-IsDurable, new-IsDurable,
}
use grix_hermes_python.Persistence.Fields.{object_of}
use grix_hermes_python.Persistence.TerminalOutbox.Load.{load, snapshot_dict}
use grix_hermes_python.Persistence.TerminalOutbox.RoundTrip.{
  recover, recover_all, load-snapshot_dict,
}
use grix_hermes_python.Persistence.TerminalOutbox.Soundness.{IsSoundOutbox, IsSoundFile}
use grix_hermes_python.Persistence.TerminalOutbox.Soundness.Operations.{
  IsRejection, enqueue-IsSoundOutbox, mark_delivery_started-IsSoundOutbox,
  acknowledge-IsSoundOutbox, record_retry-IsSoundOutbox, move_to_dead_letter-IsSoundOutbox,
}

-- Rejections carry one of the two commands.
abbrev IsKnown : Operation → Type 0
IsKnown (Operation.reject entry r) = IsRejection r
IsKnown _ = Unit

-- A clock past 0 at every step, and rejections as the server sends them.
abbrev pub IsRealistic : List (Env × Operation) → Type 0
IsRealistic [] = Unit
IsRealistic ((env, op) ∷ ops) = (0 < env.now) × IsKnown op × IsRealistic ops

perform-IsSoundOutbox :
    (env : Env) (op : Operation) (o : TerminalOutbox)
    → 0 < env.now
    → IsKnown op
    → IsSoundOutbox o
    → IsSoundOutbox (perform env op o).0
unfolding perform
perform-IsSoundOutbox env (Operation.put_in payload) o late known h =
    enqueue-IsSoundOutbox env payload o h
perform-IsSoundOutbox env (Operation.start entry) o late known h =
    mark_delivery_started-IsSoundOutbox env entry o late h
perform-IsSoundOutbox env (Operation.settle entry ack) o late known h =
    acknowledge-IsSoundOutbox env entry ack o h
perform-IsSoundOutbox env (Operation.retry entry at error) o late known h =
    record_retry-IsSoundOutbox env entry at error o h
perform-IsSoundOutbox env (Operation.reject entry r) o late known h =
    move_to_dead_letter-IsSoundOutbox env entry r o late known h

replay-IsSoundOutbox :
    (ops : List (Env × Operation)) (o : TerminalOutbox)
    → IsRealistic ops
    → IsSoundOutbox o
    → IsSoundOutbox (replay ops o)
unfolding replay
replay-IsSoundOutbox [] o real h = h
replay-IsSoundOutbox ((env, op) ∷ ops) o (late, known, real) h =
    replay-IsSoundOutbox ops (perform env op o).0 real (perform-IsSoundOutbox env op o late known h)

new-IsSoundOutbox : (path : Option String) → IsSoundOutbox (new path)
new-IsSoundOutbox path = record {
  memory = record { pending = tt; once = λ k. omega arith; letters = tt; bounded = omega arith };
  disk = tt;
}

path-perform :
    (env : Env) (op : Operation) (o : TerminalOutbox) → (perform env op o).0.file_path ≡ o.file_path
unfolding perform enqueue mark_delivery_started acknowledge record_retry move_to_dead_letter commit
path-perform env (Operation.put_in payload) o = ground arith
path-perform env (Operation.start entry) o = ground arith
path-perform env (Operation.settle entry ack) o = ground arith
path-perform env (Operation.retry entry at error) o = ground arith
path-perform env (Operation.reject entry r) o = ground arith

path-replay :
    (ops : List (Env × Operation)) (o : TerminalOutbox) → (replay ops o).file_path ≡ o.file_path
unfolding replay
path-replay [] o = refl
path-replay ((env, op) ∷ ops) o = path-replay ops (perform env op o).0 ∙ path-perform env op o

-- What stands at the path: nothing, or the snapshot as JSON.
abbrev pub disk_of : Option Snapshot → Disk
disk_of none = Disk.absent
disk_of (some s) = Disk.holds (object_of (snapshot_dict s))

abbrev pub recovered : Option TerminalOutboxEntry → Option TerminalOutboxEntry
recovered none = none
recovered (some e) = some (recover e)

get-recover_all :
    (k : String) (d : Dict TerminalOutboxEntry) → get k (recover_all d) ≡ recovered (get k d)
unfolding get recover_all
get-recover_all k [] = refl
get-recover_all k ((j, e) ∷ d) = ground (arith, get-recover_all k d)

-- What a restart has of a file.
load_saved :
    (path : String) (now : ℕ) (saved : Option Snapshot)
    → (path == "") ≡ false
    → IsSoundFile saved
    → load (some path) now (disk_of saved)
      ≡ Outcome.returned (record {
        pending = recover_all (saved_pending saved);
        dead_letters = saved_letters saved;
      })
unfolding load read_json_object recover_all
load_saved path now none named h = rw (named, load)
load_saved path now (some s) named h = load-snapshot_dict path now s named h

-- After every history of operations on a new outbox with a path that is not empty, with writes that
-- succeed or fail, clocks past 0, and rejections by `send_nack` or `error`, `_load` over the file
-- that is left raises nothing and has the same dead letters and for every event id what the outbox
-- had pending, except that an output guard without a start counts as started at the time of its
-- last change.
pub load-replay :
    (path : String) (now : ℕ) (ops : List (Env × Operation))
    → (path == "") ≡ false
    → IsRealistic ops
    → let o = replay ops (new (some path)) in
      (s : Snapshot) × (load (some path) now (disk_of o.saved) ≡ Outcome.returned s)
      × ((event_id : String) → get event_id s.pending ≡ recovered (get event_id o.pending))
      × (s.dead_letters ≡ o.dead_letters)
load-replay path now ops named real =
    let start = new (some path) in
    let o = replay ops start in
    let durable = replay-IsDurable ops start (new-IsDurable (some path)) in
    let there : is_some o.file_path ≡ true = ap is_some (path-replay ops start) in
    let sound = replay-IsSoundOutbox ops start real (new-IsSoundOutbox (some path)) in
    (
      record {
        pending = recover_all (saved_pending o.saved);
        dead_letters = saved_letters o.saved;
      },
      load_saved path now o.saved named sound.disk,
      λ k. get-recover_all k (saved_pending o.saved) ∙ ap recovered (durable.pending there k),
      durable.letters there,
    )
