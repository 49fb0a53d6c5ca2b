-- ===== src/Persistence/StopResults/Restart.antt =====
-- A restart of the outbox of grix_hermes/persistence/stop_result_outbox.py after any history.
mod RoundTrip
mod Soundness
use grix_hermes_python.Prelude.{
  ℕ, ◌≤◌, String, ◌≡◌, refl, ap, ◌∙◌, true, false, Option, none, some, List, [], ◌∷◌, ◌==◌, arith,
  is_some, inl, inr,
}
use grix_hermes_python.Prelude.Dict.{Dict, get, entries}
use grix_hermes_python.Prelude.Entries.{Every}
use grix_hermes_python.Persistence.Fields.{object_of}
use grix_hermes_python.Persistence.File.{Env, Outcome, Disk, read_json_object, persist}
use grix_hermes_python.Persistence.StopResults.{
  StopResultOutbox, StopResultOutboxEntry, new, commit, wanted, enqueue, acknowledge, record_retry,
  discard,
}
use grix_hermes_python.Persistence.StopResults.Laws.{
  Operation, perform, replay, saved_pending, new-IsDurable, histories_kept,
}
use grix_hermes_python.Persistence.StopResults.Load.{load, file_dict}
use RoundTrip.{IsSound, load-file_dict}
use Soundness.{IsSoundFile, IsSoundOutbox, replay-IsSoundOutbox}

path-perform :
    (env : Env) (op : Operation) (o : StopResultOutbox)
    → (perform env op o).0.file_path ≡ o.file_path
unfolding perform enqueue acknowledge record_retry discard commit
path-perform env (Operation.put_in payload) o = ground arith
path-perform env (Operation.settle entry e t c) o = ground arith
path-perform env (Operation.retry entry at error) o = ground arith
path-perform env (Operation.drop entry) o = ground arith

path-replay :
    (ops : List (Env × Operation)) (o : StopResultOutbox) → (replay ops o).file_path ≡ o.file_path
unfolding replay
path-replay [] o = refl
path-replay ((env, op) ∷ ops) o = path-replay ops (perform env op o).0 ∙ path-perform env op o

-- What stands at the path: nothing, or the pending entries as JSON.
abbrev pub disk_of : Option (Dict StopResultOutboxEntry) → Disk
disk_of none = Disk.absent
disk_of (some d) = Disk.holds (object_of (file_dict d))

load_saved :
    (path : String) (now : ℕ) (saved : Option (Dict StopResultOutboxEntry))
    → (path == "") ≡ false
    → IsSoundFile saved
    → load (some path) now (disk_of saved) ≡ Outcome.returned (saved_pending saved)
unfolding load read_json_object
load_saved path now none named h = rw (named, load)
load_saved path now (some d) named (h, once) = load-file_dict path now d named h once

-- After every history of operations on a new outbox with a path that is not empty, with writes that
-- succeed or fail, `_load` over the file that is left raises nothing and has for every key the
-- entry that was pending.
pub load-replay_stops :
    (path : String) (now : ℕ) (ops : List (Env × Operation))
    → (path == "") ≡ false
    → let o = replay ops (new (some path)) in
      (pending : Dict StopResultOutboxEntry) × (load (some path) now (disk_of o.saved)
        ≡ Outcome.returned pending)
      × ((key : String) → get key pending ≡ get key o.pending)
load-replay_stops path now ops named =
    let start = new (some path) in
    let o = replay ops start in
    let durable = histories_kept ops start (new-IsDurable (some path)) in
    let sound =
      replay-IsSoundOutbox ops start (record { memory = tt; once = λ k. omega arith; disk = tt }) in
    let there : is_some o.file_path ≡ true = ap is_some (path-replay ops start) in
    (saved_pending o.saved, load_saved path now o.saved named sound.disk, durable.disk there)
