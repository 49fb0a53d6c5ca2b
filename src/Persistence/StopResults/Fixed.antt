-- ===== src/Persistence/StopResults/Fixed.antt =====
-- The content of a pending entry of grix_hermes/persistence/stop_result_outbox.py.
use grix_hermes_python.Prelude.{
  ℕ, String, ◌≡◌, refl, ap, sym, ◌∙◌, inl, inr, Bool, true, false, none, some, List, [], ◌∷◌, ◌==◌,
  ◌&&◌, not, arith, if_elim, Option-cases, Bool-cases, eq_iff, eq_refl,
}
use grix_hermes_python.Prelude.Dict.{
  Dict, get, put, pop, get-put, pop-put_new, put-put_back, get-pop_ne,
}
use grix_hermes_python.Json.{Value}
use grix_hermes_python.Persistence.Payload.{Payload}
use grix_hermes_python.Persistence.File.{Env, Outcome, persist}
use grix_hermes_python.Persistence.StopResults.{
  StopResultOutbox, StopResultOutboxEntry, entry_key, is_durable_stop_result, wanted, commit,
  normalize, enqueue, is_current, current_of, ack_fits, acknowledge, record_retry, discard,
}
use grix_hermes_python.Persistence.StopResults.Laws.{Operation, perform, replay}

-- Is it the settling or the dropping of an entry with the key?
unfoldable pub takes_out : String → Operation → Bool
takes_out k (Operation.put_in payload) = false
takes_out k (Operation.settle entry e t c) = entry.key == k
takes_out k (Operation.retry entry at error) = false
takes_out k (Operation.drop entry) = entry.key == k

unfoldable pub leaves : String → List (Env × Operation) → Bool
leaves k [] = true
leaves k ((env, op) ∷ ops) = not (takes_out k op) && leaves k ops

-- Under the key an answer is pending with the content of `entry`.
pub record HasContent (k : String) (entry : StopResultOutboxEntry) (o : StopResultOutbox)
    : Type 0 where
  pub found : StopResultOutboxEntry
  pub there : get k o.pending ≡ some found
  pub key : found.key ≡ entry.key
  pub payload : found.payload ≡ entry.payload
  pub generation : found.generation ≡ entry.generation
  pub created_at : found.created_at ≡ entry.created_at

commit-HasContent :
    {A : Type 0} (env : Env) (k : String) (entry : StopResultOutboxEntry)
    (changed restored : StopResultOutbox) (answer : A)
    → HasContent k entry changed
    → HasContent k entry restored
    → HasContent k entry (commit env changed restored answer).0
unfolding commit
commit-HasContent {A} env k entry changed restored answer c r =
    if_elim (λ (t : StopResultOutbox × Outcome A). HasContent k entry t.0)
      (persist changed.file_path env.writes (wanted changed.pending) changed.saved).1 _ _
      (λ _. record {
        found = c.found;
        there = c.there;
        key = c.key;
        payload = c.payload;
        generation = c.generation;
        created_at = c.created_at;
      })
      (λ _. r)

-- A change of other keys alone.
moved :
    (k : String) (entry : StopResultOutboxEntry) (o o' : StopResultOutbox)
    → get k o'.pending ≡ get k o.pending
    → HasContent k entry o
    → HasContent k entry o'
moved k entry o o' same h = record {
  found = h.found;
  there = same ∙ h.there;
  key = h.key;
  payload = h.payload;
  generation = h.generation;
  created_at = h.created_at;
}

enqueue-HasContent :
    (env : Env) (payload : Payload) (k : String) (entry : StopResultOutboxEntry)
    (o : StopResultOutbox)
    → HasContent k entry o
    → HasContent k entry (enqueue env payload o).0
unfolding enqueue
enqueue-HasContent env payload k entry o h =
    let key = entry_key (normalize payload) in
    if_elim (λ (t : StopResultOutbox × Outcome StopResultOutboxEntry). HasContent k entry t.0)
      (is_durable_stop_result payload) _ _
      (λ _. elim (Option-cases (get key o.pending)) [
        | inl missing ↦
            rw (missing, enqueue)
              (commit-HasContent env k entry _ _ _
                (moved k entry o _ (put_elsewhere key _ missing) h)
                (moved k entry o _ (ap (get k) (pop-put_new key _ o.pending missing)) h))
        | inr (previous, there) ↦ rw (there, enqueue) h
      ])
      (λ _. h)
  where
    put_elsewhere :
        (key : String) (v : StopResultOutboxEntry)
        → get key o.pending ≡ none
        → get k (put key v o.pending) ≡ get k o.pending
    put_elsewhere key v missing =
        let there = h.there in
        get-put key k v o.pending ∙ ground (arith, eq_iff key k, missing, there)

acknowledge-HasContent :
    (env : Env) (a : StopResultOutboxEntry) (e t c : Value) (k : String)
    (entry : StopResultOutboxEntry) (o : StopResultOutbox)
    → (a.key == k) ≡ false
    → HasContent k entry o
    → HasContent k entry (acknowledge env a e t c o).0
unfolding acknowledge
acknowledge-HasContent env a e t c k entry o other h = elim (Option-cases (get a.key o.pending)) [
  | inl missing ↦ rw (missing, acknowledge) h
  | inr (current, there) ↦
      rw (there, acknowledge)
        (if_elim (λ (t : StopResultOutbox × Outcome Bool). HasContent k entry t.0)
          (ack_fits a e t c && is_current a o) _ _
          (λ _.
            commit-HasContent env k entry _ _ _
              (moved k entry o _ (get-pop_ne a.key k o.pending other) h)
              (moved k entry o _ (put_pop_other a.key k current o.pending other) h))
          (λ _. h))
]
  where
    put_pop_other :
        (j k : String) (v : StopResultOutboxEntry) (d : Dict StopResultOutboxEntry)
        → (j == k) ≡ false
        → get k (put j v (pop j d)) ≡ get k d
    put_pop_other j k v d other = get-put j k v (pop j d) ∙ (rw other (get-pop_ne j k d other))

discard-HasContent :
    (env : Env) (a : StopResultOutboxEntry) (k : String) (entry : StopResultOutboxEntry)
    (o : StopResultOutbox)
    → (a.key == k) ≡ false
    → HasContent k entry o
    → HasContent k entry (discard env a o).0
unfolding discard
discard-HasContent env a k entry o other h = elim (Option-cases (current_of a o)) [
  | inl missing ↦ rw (missing, discard) h
  | inr (current, found) ↦
      rw (found, discard)
        (commit-HasContent env k entry _ _ _
          (moved k entry o _ (get-pop_ne a.key k o.pending other) h)
          (moved k entry o _
            (get-put a.key k current (pop a.key o.pending)
              ∙ (rw other (get-pop_ne a.key k o.pending other)))
            h))
]

-- An entry that is put under its key with the content that was there.
rewritten :
    (k : String) (entry current v : StopResultOutboxEntry) (o : StopResultOutbox)
    → get k o.pending ≡ some current
    → v.key ≡ current.key
    → v.payload ≡ current.payload
    → v.generation ≡ current.generation
    → v.created_at ≡ current.created_at
    → HasContent k entry o
    → HasContent k entry (record o { pending = put k v o.pending })
rewritten k entry current v o there key payload generation created_at h =
    let same : some h.found ≡ some current = sym h.there ∙ there in
    let found : h.found ≡ current = cc in
    record {
      found = v;
      there = get-put k k v o.pending ∙ (rw (eq_refl k) refl);
      key = key ∙ ap (λ (e : StopResultOutboxEntry). e.key) (sym found) ∙ h.key;
      payload = payload ∙ ap (λ (e : StopResultOutboxEntry). e.payload) (sym found) ∙ h.payload;
      generation =
          generation ∙ ap (λ (e : StopResultOutboxEntry). e.generation) (sym found) ∙ h.generation;
      created_at =
          created_at ∙ ap (λ (e : StopResultOutboxEntry). e.created_at) (sym found) ∙ h.created_at;
    }

current_of-there :
    (a current : StopResultOutboxEntry) (o : StopResultOutbox)
    → current_of a o ≡ some current
    → get a.key o.pending ≡ some current
unfolding current_of
current_of-there a current o h = ground arith

record_retry-HasContent :
    (env : Env) (a : StopResultOutboxEntry) (at : ℕ) (error : String) (k : String)
    (entry : StopResultOutboxEntry) (o : StopResultOutbox)
    → HasContent k entry o
    → HasContent k entry (record_retry env a at error o).0
unfolding record_retry
record_retry-HasContent env a at error k entry o h = elim (Option-cases (current_of a o)) [
  | inl missing ↦ rw (missing, record_retry) h
  | inr (current, found) ↦
      let there = current_of-there a current o found in
      elim (Bool-cases (a.key == k)) [
        | inl same ↦
            let own = (eq_iff a.key k).0 same in
            let there_k : get k o.pending ≡ some current =
              ap (λ j. get j o.pending) (sym own) ∙ there in
            rw (found, record_retry, own)
              (commit-HasContent env k entry _ _ _
                (rewritten k entry current _ o there_k refl refl refl refl h)
                (moved k entry o _ (ap (get k) (put-put_back k _ current o.pending there_k)) h))
        | inr other ↦
            rw (found, record_retry)
              (commit-HasContent env k entry _ _ _
                (moved k entry o _ (get-put a.key k _ o.pending ∙ (rw other refl)) h)
                (moved k entry o _ (ap (get k) (put-put_back a.key _ current o.pending there)) h))
      ]
]

perform-HasContent :
    (env : Env) (op : Operation) (k : String) (entry : StopResultOutboxEntry) (o : StopResultOutbox)
    → takes_out k op ≡ false
    → HasContent k entry o
    → HasContent k entry (perform env op o).0
unfolding perform takes_out
perform-HasContent env (Operation.put_in payload) k entry o other h =
    enqueue-HasContent env payload k entry o h
perform-HasContent env (Operation.settle a e t c) k entry o other h =
    acknowledge-HasContent env a e t c k entry o other h
perform-HasContent env (Operation.retry a at error) k entry o other h =
    record_retry-HasContent env a at error k entry o h
perform-HasContent env (Operation.drop a) k entry o other h =
    discard-HasContent env a k entry o other h

-- Where an entry is pending under a key, then after every history that neither settles nor drops an
-- entry with that key, whatever else is put in or retried and whichever writes fail, an entry with
-- the same key field, payload, generation and time of creation is pending under it.
pub replay-HasContent :
    (ops : List (Env × Operation)) (k : String) (entry : StopResultOutboxEntry)
    (o : StopResultOutbox)
    → leaves k ops ≡ true
    → HasContent k entry o
    → HasContent k entry (replay ops o)
unfolding replay leaves
replay-HasContent [] k entry o stays h = h
replay-HasContent ((env, op) ∷ ops) k entry o stays h =
    replay-HasContent ops k entry (perform env op o).0 (ground arith)
      (perform-HasContent env op k entry o (ground arith) h)
