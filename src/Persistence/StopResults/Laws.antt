-- ===== src/Persistence/StopResults/Laws.antt =====
-- What grix_hermes/persistence/stop_result_outbox.py keeps over a crash and over a failed write.
use grix_hermes_python.Prelude.{
  ℕ, ◌≤◌, String, ◌≡◌, refl, ap, sym, ◌∙◌, inl, inr, Bool, true, false, Option, none, some, List,
  [], ◌∷◌, ◌&&◌, arith, is_some, if_elim, Option-cases,
}
use grix_hermes_python.Prelude.Dict.{
  Dict, get, put, pop, entries, put-once, pop-once, pop-put_new, get-put-pop, put-put_back,
}
use grix_hermes_python.Json.{Value}
use grix_hermes_python.Persistence.Payload.{Payload}
use grix_hermes_python.Persistence.File.{Env, Outcome, persist, persist_wrote}
use grix_hermes_python.Persistence.StopResults.{
  StopResultOutbox, StopResultOutboxEntry, new, entry_key, is_durable_stop_result, wanted, commit,
  normalize, enqueue, is_current, current_of, ack_fits, acknowledge, record_retry, discard,
}

abbrev pub saved_pending : Option (Dict StopResultOutboxEntry) → Dict StopResultOutboxEntry
saved_pending none = []
saved_pending (some d) = d

-- What a restart would read is what the outbox has pending; an outbox with no path keeps no file.
pub record IsDurable (o : StopResultOutbox) : Type 0 where
  pub once : (k : String) → entries k o.pending ≤ 1
  pub disk :
      is_some o.file_path ≡ true → (k : String) → get k (saved_pending o.saved) ≡ get k o.pending

-- Nothing that is pending, and nothing on disk, has changed.
pub record IsRestored (before after : StopResultOutbox) : Type 0 where
  pub path : after.file_path ≡ before.file_path
  pub once : (k : String) → entries k after.pending ≤ 1
  pub pending : (k : String) → get k after.pending ≡ get k before.pending
  pub disk : after.saved ≡ before.saved

abbrev did_raise : {A : Type 0} → Outcome A → Bool
did_raise (Outcome.returned a) = false
did_raise Outcome.raised = true

-- What every operation promises.
abbrev Kept : {A : Type 0} → StopResultOutbox → StopResultOutbox × Outcome A → Type 0
Kept o t = IsDurable t.0 × (did_raise t.1 ≡ true → IsRestored o t.0)

IsRestored-IsDurable : (a b : StopResultOutbox) → IsRestored a b → IsDurable a → IsDurable b
IsRestored-IsDurable a b r h = record {
  once = r.once;
  disk = λ p k. rw (r.disk) (h.disk (ap is_some (sym r.path) ∙ p) k ∙ sym (r.pending k));
}

unchanged : (o : StopResultOutbox) → IsDurable o → IsRestored o o
unchanged o h = record { path = refl; once = h.once; pending = λ k. refl; disk = refl }

same-Kept :
    {A : Type 0} (o : StopResultOutbox) (answer : Outcome A) → IsDurable o → Kept o (o, answer)
same-Kept o answer h = (h, λ _. unchanged o h)

saved_wanted : (d : Dict StopResultOutboxEntry) → saved_pending (wanted d) ≡ d
saved_wanted [] = refl
saved_wanted (x ∷ d) = refl

-- The rule for the try block: what it wrote is what it keeps, and its handler restores.
commit-Kept :
    {A : Type 0} (env : Env) (o changed restored : StopResultOutbox) (answer : A)
    → ((k : String) → entries k changed.pending ≤ 1)
    → IsRestored o restored
    → IsDurable o
    → Kept o (commit env changed restored answer)
unfolding commit
commit-Kept {A} env o changed restored answer once r h =
    if_elim (λ (t : StopResultOutbox × Outcome A). Kept o t)
      (persist changed.file_path env.writes (wanted changed.pending) changed.saved).1 _ _
      (λ done. (
        record {
          once = once;
          disk = λ p k.
              ap (λ d. get k (saved_pending d))
                (persist_wrote changed.file_path env.writes _ changed.saved p done)
              ∙ ap (get k) (saved_wanted changed.pending);
        },
        λ raised. cc,
      ))
      (λ _. (IsRestored-IsDurable o restored r h, λ _. r))

put_back-IsRestored :
    (o : StopResultOutbox) (k : String) (v w : StopResultOutboxEntry)
    → IsDurable o
    → get k o.pending ≡ some w
    → IsRestored o (record o { pending = put k w (put k v o.pending) })
put_back-IsRestored o k v w h there = record {
  path = refl;
  once = rw (put-put_back k v w o.pending there) h.once;
  pending = λ j. ap (get j) (put-put_back k v w o.pending there);
  disk = refl;
}

put_again-IsRestored :
    (o : StopResultOutbox) (k : String) (v : StopResultOutboxEntry)
    → IsDurable o
    → get k o.pending ≡ some v
    → IsRestored o (record o { pending = put k v (pop k o.pending) })
put_again-IsRestored o k v h there = record {
  path = refl;
  once = put-once k v (pop k o.pending) (pop-once k o.pending h.once);
  pending = λ j. get-put-pop k j v o.pending (h.once k) there;
  disk = refl;
}

pop_new-IsRestored :
    (o : StopResultOutbox) (k : String) (v : StopResultOutboxEntry)
    → IsDurable o
    → get k o.pending ≡ none
    → IsRestored o (record o { pending = pop k (put k v o.pending) })
pop_new-IsRestored o k v h missing = rw (pop-put_new k v o.pending missing) (unchanged o h)

enqueue-Kept :
    (env : Env) (payload : Payload) (o : StopResultOutbox)
    → IsDurable o
    → Kept o (enqueue env payload o)
unfolding enqueue
enqueue-Kept env payload o h =
    if_elim (λ (t : StopResultOutbox × Outcome StopResultOutboxEntry). Kept o t)
      (is_durable_stop_result payload) _ _
      (λ _. elim (Option-cases (get (entry_key (normalize payload)) o.pending)) [
        | inl missing ↦ rw missing (
            commit-Kept env o _ _ _ (put-once _ _ o.pending h.once)
              (pop_new-IsRestored o _ _ h missing) h)
        | inr (previous, there) ↦ rw there (h, λ _. unchanged o h)
      ])
      (λ _. (h, λ r. unchanged o h))

acknowledge-Kept :
    (env : Env) (entry : StopResultOutboxEntry) (e t c : Value) (o : StopResultOutbox)
    → IsDurable o
    → Kept o (acknowledge env entry e t c o)
unfolding acknowledge
acknowledge-Kept env entry e t c o h = elim (Option-cases (get entry.key o.pending)) [
  | inl missing ↦ rw (missing, acknowledge) (h, λ _. unchanged o h)
  | inr (current, there) ↦
      rw (there, acknowledge)
        (if_elim (λ (t : StopResultOutbox × Outcome Bool). Kept o t)
          (ack_fits entry e t c && is_current entry o) _ _
          (λ _.
            commit-Kept env o _ _ _ (pop-once _ o.pending h.once)
              (put_again-IsRestored o _ current h there) h)
          (λ _. (h, λ r. unchanged o h)))
]

pub current_of-get :
    (entry current : StopResultOutboxEntry) (o : StopResultOutbox)
    → current_of entry o ≡ some current
    → get entry.key o.pending ≡ some current
unfolding current_of
current_of-get entry current o h = ground arith

record_retry-Kept :
    (env : Env) (entry : StopResultOutboxEntry) (at : ℕ) (error : String) (o : StopResultOutbox)
    → IsDurable o
    → Kept o (record_retry env entry at error o)
unfolding record_retry
record_retry-Kept env entry at error o h = elim (Option-cases (current_of entry o)) [
  | inl missing ↦ rw (missing, record_retry) (h, λ _. unchanged o h)
  | inr (current, found) ↦
      rw (found, record_retry)
        (commit-Kept env o _ _ _ (put-once _ _ o.pending h.once)
          (put_back-IsRestored o _ _ current h (current_of-get entry current o found)) h)
]

discard-Kept :
    (env : Env) (entry : StopResultOutboxEntry) (o : StopResultOutbox)
    → IsDurable o
    → Kept o (discard env entry o)
unfolding discard
discard-Kept env entry o h = elim (Option-cases (current_of entry o)) [
  | inl missing ↦ rw (missing, discard) (h, λ _. unchanged o h)
  | inr (current, found) ↦
      rw (found, discard)
        (commit-Kept env o _ _ _ (pop-once _ o.pending h.once)
          (put_again-IsRestored o _ current h (current_of-get entry current o found)) h)
]

-- The calls that change the outbox.
pub data Operation : Type 0 where
  put_in : Payload → Operation
  settle : StopResultOutboxEntry → Value → Value → Value → Operation
  retry : StopResultOutboxEntry → ℕ → String → Operation
  drop : StopResultOutboxEntry → Operation

-- The outbox after an operation, and whether the operation raised.
unfoldable pub perform : Env → Operation → StopResultOutbox → StopResultOutbox × Bool
perform env (Operation.put_in payload) o =
    let (after, outcome) = enqueue env payload o in (after, did_raise outcome)
perform env (Operation.settle entry e t c) o =
    let (after, outcome) = acknowledge env entry e t c o in (after, did_raise outcome)
perform env (Operation.retry entry at error) o =
    let (after, outcome) = record_retry env entry at error o in (after, did_raise outcome)
perform env (Operation.drop entry) o =
    let (after, outcome) = discard env entry o in (after, did_raise outcome)

unfoldable pub replay : List (Env × Operation) → StopResultOutbox → StopResultOutbox
replay [] o = o
replay ((env, op) ∷ ops) o = replay ops (perform env op o).0

perform-Kept :
    (env : Env) (op : Operation) (o : StopResultOutbox)
    → IsDurable o
    → IsDurable (perform env op o).0
      × ((perform env op o).1 ≡ true → IsRestored o (perform env op o).0)
unfolding perform
perform-Kept env (Operation.put_in payload) o h = enqueue-Kept env payload o h
perform-Kept env (Operation.settle entry e t c) o h = acknowledge-Kept env entry e t c o h
perform-Kept env (Operation.retry entry at error) o h = record_retry-Kept env entry at error o h
perform-Kept env (Operation.drop entry) o h = discard-Kept env entry o h

pub new-IsDurable : (path : Option String) → IsDurable (new path)
new-IsDurable path = record { once = λ k. omega arith; disk = λ p k. refl }

pub histories_kept :
    (ops : List (Env × Operation)) (o : StopResultOutbox) → IsDurable o → IsDurable (replay ops o)
unfolding replay
histories_kept [] o h = h
histories_kept ((env, op) ∷ ops) o h =
    histories_kept ops (perform env op o).0 (perform-Kept env op o h).0

-- From a durable outbox, and so from a new one, every history of operations, each with a write that
-- succeeds or fails, leads to a durable outbox, whose file holds for every key the entry that is
-- pending; and an operation after it that raises changes nothing that is pending and not the file.
pub stop_results_survive :
    (ops : List (Env × Operation)) (env : Env) (op : Operation) (o : StopResultOutbox)
    → IsDurable o
    → IsDurable (replay ops o)
      × ((perform env op (replay ops o)).1 ≡ true
          → IsRestored (replay ops o) (perform env op (replay ops o)).0)
stop_results_survive ops env op o h =
    let durable = histories_kept ops o h in
    (durable, (perform-Kept env op (replay ops o) durable).1)
