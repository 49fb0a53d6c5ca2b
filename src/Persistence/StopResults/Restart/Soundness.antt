-- ===== src/Persistence/StopResults/Restart/Soundness.antt =====
-- The entries that the operations of grix_hermes/persistence/stop_result_outbox.py make, in memory
-- and on disk.
use grix_hermes_python.Prelude.{
  ℕ, ◌+◌, ◌≤◌, String, ◌≡◌, refl, sym, ◌∙◌, inl, inr, Bool, true, false, Option, none, some, List,
  [], ◌∷◌, ◌==◌, ◌||◌, ◌&&◌, not, arith, if_elim, Option-cases,
}
use grix_hermes_python.Prelude.Dict.{Dict, get, put, pop, entries, put-once, pop-once}
use grix_hermes_python.Prelude.Entries.{Every, Every-get, Every-put, Every-pop}
use grix_hermes_python.Prelude.Int.{pos}
use grix_hermes_python.Prelude.Text.{strip, strip_idem}
use grix_hermes_python.Json.{Value, value_at, text_of}
use grix_hermes_python.Persistence.Payload.{
  Payload, clean_text, clean_text-put_self, clean_text-put_other,
}
use grix_hermes_python.Persistence.File.{Env, Outcome, persist}
use grix_hermes_python.Persistence.StopResults.{
  StopResultOutbox, StopResultOutboxEntry, entry_key, is_durable_stop_result, wanted, commit,
  normalize, new_entry, enqueue, is_current, current_of, ack_fits, acknowledge, record_retry,
  discard,
}
use grix_hermes_python.Persistence.StopResults.Laws.{Operation, perform, replay, current_of-get}
use grix_hermes_python.Persistence.StopResults.Restart.RoundTrip.{IsSound}

abbrev pub IsSoundFile : Option (Dict StopResultOutboxEntry) → Type 0
IsSoundFile none = Unit
IsSoundFile (some d) = Every IsSound d × ((k : String) → entries k d ≤ 1)

pub record IsSoundOutbox (o : StopResultOutbox) : Type 0 where
  pub memory : Every IsSound o.pending
  pub once : (k : String) → entries k o.pending ≤ 1
  pub disk : IsSoundFile o.saved

persist-IsSoundFile :
    (path : Option String) (writes : Bool) (d : Dict StopResultOutboxEntry)
    (saved : Option (Dict StopResultOutboxEntry))
    → Every IsSound d
    → ((k : String) → entries k d ≤ 1)
    → IsSoundFile saved
    → IsSoundFile (persist path writes (wanted d) saved).0
unfolding persist
persist-IsSoundFile none writes d saved h once k = k
persist-IsSoundFile (some path) false d saved h once k = k
persist-IsSoundFile (some path) true [] saved h once k = tt
persist-IsSoundFile (some path) true (x ∷ d) saved h once k = (h, once)

commit-IsSoundOutbox :
    {A : Type 0} (env : Env) (changed restored : StopResultOutbox) (answer : A)
    → IsSoundOutbox changed
    → IsSoundOutbox restored
    → IsSoundOutbox (commit env changed restored answer).0
unfolding commit
commit-IsSoundOutbox {A} env changed restored answer h k =
    if_elim (λ (t : StopResultOutbox × Outcome A). IsSoundOutbox t.0)
      (persist changed.file_path env.writes (wanted changed.pending) changed.saved).1 _ _
      (λ done. record {
        memory = h.memory;
        once = h.once;
        disk =
            persist-IsSoundFile changed.file_path env.writes changed.pending changed.saved h.memory
              h.once h.disk;
      })
      (λ _. k)

with_put :
    (k : String) (e : StopResultOutboxEntry) (o : StopResultOutbox)
    → IsSound k e
    → IsSoundOutbox o
    → IsSoundOutbox (record o { pending = put k e o.pending })
with_put k e o fit h = record {
  memory = Every-put IsSound k e o.pending fit h.memory;
  once = put-once k e o.pending h.once;
  disk = h.disk;
}

with_pop :
    (k : String) (o : StopResultOutbox)
    → IsSoundOutbox o
    → IsSoundOutbox (record o { pending = pop k o.pending })
with_pop k o h = record {
  memory = Every-pop IsSound k o.pending h.memory;
  once = pop-once k o.pending h.once;
  disk = h.disk;
}

clean_text_idem : (k : String) (p : Payload) → strip (clean_text k p) ≡ clean_text k p
unfolding clean_text
clean_text_idem k p = strip_idem (text_of (value_at k p))

-- What the normal form of a payload has at the four keys.
record IsNormal (payload p : Payload) : Type 0 where
  event : clean_text "event_id" p ≡ clean_text "event_id" payload
  stop : clean_text "stop_id" p ≡ clean_text "stop_id" payload
  token : clean_text "terminal_commit_token" p ≡ clean_text "terminal_commit_token" payload
  status : clean_text "status" p ≡ clean_text "status" payload

normalize-IsNormal : (payload : Payload) → IsNormal payload (normalize payload)
unfolding normalize
normalize-IsNormal payload =
    let e = clean_text "event_id" payload in
    let s = clean_text "stop_id" payload in
    let t = clean_text "terminal_commit_token" payload in
    let one = put "event_id" (Value.text e) payload in
    let two = put "stop_id" (Value.text s) one in
    let T = Value.text t in
    record {
      event =
          clean_text-put_other "terminal_commit_token" "event_id" T two refl
          ∙ clean_text-put_other "stop_id" "event_id" (Value.text s) one refl
          ∙ clean_text-put_self "event_id" e payload
          ∙ clean_text_idem "event_id" payload;
      stop =
          clean_text-put_other "terminal_commit_token" "stop_id" T two refl
          ∙ clean_text-put_self "stop_id" s one
          ∙ clean_text_idem "stop_id" payload;
      token =
          clean_text-put_self "terminal_commit_token" t two
          ∙ clean_text_idem "terminal_commit_token" payload;
      status =
          clean_text-put_other "terminal_commit_token" "status" T two refl
          ∙ clean_text-put_other "stop_id" "status" (Value.text s) one refl
          ∙ clean_text-put_other "event_id" "status" (Value.text e) payload refl;
    }

abbrev fits : String → String → String → String → Bool
fits event_id stop_id token status =
    not (event_id == "")
    && not (stop_id == "")
    && not (token == "")
    && (status == "stopped" || status == "already_finished")

is_durable_lem :
    (p : Payload)
    → is_durable_stop_result p
      ≡ fits
          (clean_text "event_id" p)
          (clean_text "stop_id" p)
          (clean_text "terminal_commit_token" p)
          (clean_text "status" p)
unfolding is_durable_stop_result
is_durable_lem p = refl

normalize-durable :
    (payload : Payload)
    → is_durable_stop_result payload ≡ true
    → is_durable_stop_result (normalize payload) ≡ true
normalize-durable payload h =
    let n = normalize-IsNormal payload in
    is_durable_lem (normalize payload)
    ∙ (rw (n.event, n.stop, n.token, n.status) (sym (is_durable_lem payload) ∙ h))

IsSound-new_entry :
    (now : ℕ) (payload : Payload)
    → is_durable_stop_result payload ≡ true
    → IsSound (entry_key (normalize payload)) (new_entry now (normalize payload))
unfolding new_entry
IsSound-new_entry now payload h = record {
  own = refl;
  keyed = refl;
  durable = normalize-durable payload h;
  generation = omega arith;
}

enqueue-IsSoundOutbox :
    (env : Env) (payload : Payload) (o : StopResultOutbox)
    → IsSoundOutbox o
    → IsSoundOutbox (enqueue env payload o).0
unfolding enqueue
enqueue-IsSoundOutbox env payload o h =
    if_elim (λ (t : StopResultOutbox × Outcome StopResultOutboxEntry). IsSoundOutbox t.0)
      (is_durable_stop_result payload) _ _
      (λ durable. elim (Option-cases (get (entry_key (normalize payload)) o.pending)) [
        | inl missing ↦
            let fit = IsSound-new_entry env.now payload durable in
            rw missing (
              commit-IsSoundOutbox env _ _ _ (with_put _ _ o fit h)
                (with_pop _ _ (with_put _ _ o fit h)))
        | inr (previous, there) ↦ rw there h
      ])
      (λ _. h)

acknowledge-IsSoundOutbox :
    (env : Env) (entry : StopResultOutboxEntry) (e t c : Value) (o : StopResultOutbox)
    → IsSoundOutbox o
    → IsSoundOutbox (acknowledge env entry e t c o).0
unfolding acknowledge
acknowledge-IsSoundOutbox env entry e t c o h = elim (Option-cases (get entry.key o.pending)) [
  | inl missing ↦ rw (missing, acknowledge) h
  | inr (current, there) ↦
      rw (there, acknowledge)
        (if_elim (λ (t : StopResultOutbox × Outcome Bool). IsSoundOutbox t.0)
          (ack_fits entry e t c && is_current entry o) _ _
          (λ _. commit-IsSoundOutbox env _ _ _ (with_pop _ o h) (
            with_put _ current _ (Every-get IsSound entry.key current o.pending h.memory there)
              (with_pop _ o h)))
          (λ _. h))
]

IsSound-current :
    (entry current : StopResultOutboxEntry) (o : StopResultOutbox)
    → current_of entry o ≡ some current
    → IsSoundOutbox o
    → IsSound entry.key current
IsSound-current entry current o found h =
    Every-get IsSound entry.key current o.pending h.memory (current_of-get entry current o found)

record_retry-IsSoundOutbox :
    (env : Env) (entry : StopResultOutboxEntry) (at : ℕ) (error : String) (o : StopResultOutbox)
    → IsSoundOutbox o
    → IsSoundOutbox (record_retry env entry at error o).0
unfolding record_retry
record_retry-IsSoundOutbox env entry at error o h = elim (Option-cases (current_of entry o)) [
  | inl missing ↦ rw (missing, record_retry) h
  | inr (current, found) ↦
      let fit = IsSound-current entry current o found h in
      let retried : IsSound entry.key (record current {
        attempts = current.attempts + 1;
        updated_at = pos env.now;
        next_attempt_at = pos at;
        last_error = some error;
      }) =
        record {
          own = fit.own;
          keyed = fit.keyed;
          durable = fit.durable;
          generation = fit.generation;
        } in
      rw (found, record_retry)
        (commit-IsSoundOutbox env _ _ _ (with_put _ _ o retried h)
          (with_put _ current _ fit (with_put _ _ o retried h)))
]

discard-IsSoundOutbox :
    (env : Env) (entry : StopResultOutboxEntry) (o : StopResultOutbox)
    → IsSoundOutbox o
    → IsSoundOutbox (discard env entry o).0
unfolding discard
discard-IsSoundOutbox env entry o h = elim (Option-cases (current_of entry o)) [
  | inl missing ↦ rw (missing, discard) h
  | inr (current, found) ↦
      rw (found, discard)
        (commit-IsSoundOutbox env _ _ _ (with_pop _ o h)
          (with_put _ current _ (IsSound-current entry current o found h) (with_pop _ o h)))
]

perform-IsSoundOutbox :
    (env : Env) (op : Operation) (o : StopResultOutbox)
    → IsSoundOutbox o
    → IsSoundOutbox (perform env op o).0
unfolding perform
perform-IsSoundOutbox env (Operation.put_in payload) o h = enqueue-IsSoundOutbox env payload o h
perform-IsSoundOutbox env (Operation.settle entry e t c) o h =
    acknowledge-IsSoundOutbox env entry e t c o h
perform-IsSoundOutbox env (Operation.retry entry at error) o h =
    record_retry-IsSoundOutbox env entry at error o h
perform-IsSoundOutbox env (Operation.drop entry) o h = discard-IsSoundOutbox env entry o h

pub replay-IsSoundOutbox :
    (ops : List (Env × Operation)) (o : StopResultOutbox)
    → IsSoundOutbox o
    → IsSoundOutbox (replay ops o)
unfolding replay
replay-IsSoundOutbox [] o h = h
replay-IsSoundOutbox ((env, op) ∷ ops) o h =
    replay-IsSoundOutbox ops (perform env op o).0 (perform-IsSoundOutbox env op o h)
