-- ===== src/Persistence/Tokens/Restart.antt =====
-- A restart of grix_hermes/persistence/terminal_commit_token_store.py after any history.
use grix_hermes_python.Prelude.{
  ◌+◌, ◌≤◌, String, ◌≡◌, refl, ap, sym, ◌∙◌, inl, inr, Bool, true, false, Option, none, some, List,
  [], ◌∷◌, ◌++◌, ◌==◌, ◌||◌, not, arith, is_some, if_elim, Option-cases, eq_refl, append-nil,
  append_assoc, count-append, if◌then◌else◌, ◌&&◌,
}
use grix_hermes_python.Prelude.Text.{strip, strip_idem}
use grix_hermes_python.Prelude.Dict.{
  Dict, get, put, pop, entries, put-once, pop-once, get_of_no-entries,
}
use grix_hermes_python.Prelude.Entries.{Every, Every-get, Every-put, Every-pop, put_new}
use grix_hermes_python.Json.{value_at, dict_of-fields_of}
use grix_hermes_python.Json.Equality.{value_eq}
use grix_hermes_python.Persistence.Fields.{object_of}
use grix_hermes_python.Persistence.File.{
  Env, Outcome, Disk, read_json_object, read_json_object-holds, persist,
}
use grix_hermes_python.Persistence.Tokens
use grix_hermes_python.Persistence.Tokens.{TokenStore, new, wanted, commit, present, is_token}
use grix_hermes_python.Persistence.Tokens.Laws.{
  Operation, perform, replay, saved_tokens, new-IsDurable, registry-IsDurable,
}
use grix_hermes_python.Persistence.Tokens.Load.{
  tokens_dict, file_dict, load_tokens, read_file, load,
}

-- Neither the id nor the token is blank.
abbrev IsFilled : String → String → Type 0
IsFilled event_id token = (strip event_id == "" ≡ false) × (strip token == "" ≡ false)

load_tokens-tokens_dict :
    (d before : Dict String)
    → Every IsFilled d
    → ((k : String) → entries k before + entries k d ≤ 1)
    → load_tokens (tokens_dict d) before ≡ before ++ d
unfolding load_tokens tokens_dict
load_tokens-tokens_dict [] before filled once = sym (append-nil before)
load_tokens-tokens_dict ((k, t) ∷ d) before ((named, real), filled) once =
    let apart : entries k before ≡ 0 = ground (arith, once k, eq_refl k) in
    let missing = get_of_no-entries k before apart in
    let kept : (if not (strip k == "") && not (strip t == "") then put k t before else before)
        ≡ before ++ (k, t) ∷ [] =
      simp (named, real, put_new k t before missing) in
    ap (load_tokens (tokens_dict d)) kept
    ∙ (load_tokens-tokens_dict d (before ++ (k, t) ∷ []) filled (λ j.
          omega
            (arith, once j, count-append (λ (x : String × String). x.0 == j) before ((k, t) ∷ [])))
        ∙ append_assoc before ((k, t) ∷ []) d)

add_zero :
    (k : String) (d : Dict String) → entries k d ≤ 1 → entries {V = String} k [] + entries k d ≤ 1
add_zero k d h = omega arith

read_file-file_dict :
    (d : Dict String)
    → Every IsFilled d
    → ((k : String) → entries k d ≤ 1)
    → read_file (file_dict d) ≡ Outcome.returned d
unfolding read_file file_dict value_at get value_eq
read_file-file_dict d filled once =
    ap (λ f. Outcome.returned (load_tokens f [])) (dict_of-fields_of (tokens_dict d))
    ∙ ap Outcome.returned (load_tokens-tokens_dict d [] filled (λ k. add_zero k d (once k)))

abbrev IsFilledFile : Option (Dict String) → Type 0
IsFilledFile none = Unit
IsFilledFile (some d) = Every IsFilled d × ((k : String) → entries k d ≤ 1)

record IsFilledStore (s : TokenStore) : Type 0 where
  memory : Every IsFilled s.tokens
  once : (k : String) → entries k s.tokens ≤ 1
  disk : IsFilledFile s.saved

persist-IsFilledFile :
    (path : Option String) (writes : Bool) (d : Dict String) (saved : Option (Dict String))
    → Every IsFilled d
    → ((k : String) → entries k d ≤ 1)
    → IsFilledFile saved
    → IsFilledFile (persist path writes (wanted d) saved).0
unfolding persist
persist-IsFilledFile none writes d saved h once k = k
persist-IsFilledFile (some path) false d saved h once k = k
persist-IsFilledFile (some path) true [] saved h once k = tt
persist-IsFilledFile (some path) true (x ∷ d) saved h once k = (h, once)

commit-IsFilledStore :
    {A : Type 0} (env : Env) (changed restored : TokenStore) (answer : A)
    → IsFilledStore changed
    → IsFilledStore restored
    → IsFilledStore (commit env changed restored answer).0
unfolding commit
commit-IsFilledStore {A} env changed restored answer h k =
    if_elim (λ (t : TokenStore × Outcome A). IsFilledStore t.0)
      (persist changed.file_path env.writes (wanted changed.tokens) changed.saved).1 _ _
      (λ done. record {
        memory = h.memory;
        once = h.once;
        disk =
            persist-IsFilledFile changed.file_path env.writes changed.tokens changed.saved h.memory
              h.once h.disk;
      })
      (λ _. k)

with_put :
    (k t : String) (s : TokenStore)
    → IsFilled k t
    → IsFilledStore s
    → IsFilledStore (record s { tokens = put k t s.tokens })
with_put k t s fit h = record {
  memory = Every-put IsFilled k t s.tokens fit h.memory;
  once = put-once k t s.tokens h.once;
  disk = h.disk;
}

with_pop :
    (k : String) (s : TokenStore)
    → IsFilledStore s
    → IsFilledStore (record s { tokens = pop k s.tokens })
with_pop k s h = record {
  memory = Every-pop IsFilled k s.tokens h.memory;
  once = pop-once k s.tokens h.once;
  disk = h.disk;
}

register-IsFilledStore :
    (env : Env) (e token : String) (s : TokenStore)
    → IsFilledStore s
    → IsFilledStore (Tokens.register env e token s).0
unfolding Tokens.register
register-IsFilledStore env e token s h =
    let P = λ (t : TokenStore × Outcome (Unit {0})). IsFilledStore t.0 in
    if_elim P (strip e == "" || strip token == "") _ _ (λ _. h)
      (λ named.
        let fit : IsFilled (strip e) (strip token) = (
          ap (λ x. x == "") (strip_idem e) ∙ ground arith,
          ap (λ x. x == "") (strip_idem token) ∙ ground arith,
        ) in
        if_elim P (is_token (strip token) (get (strip e) s.tokens)) _ _ (λ _. h)
          (λ _.
            if_elim P (present (get (strip e) s.tokens)) _ _ (λ _. h)
              (λ _.
                commit-IsFilledStore env _ _ _ (with_put _ _ s fit h)
                  (with_pop _ _ (with_put _ _ s fit h)))))

remove-IsFilledStore :
    (env : Env) (e token : String) (s : TokenStore)
    → IsFilledStore s
    → IsFilledStore (Tokens.remove env e token s).0
unfolding Tokens.remove
remove-IsFilledStore env e token s h = elim (Option-cases (get e s.tokens)) [
  | inl missing ↦ rw (missing, Tokens.remove) h
  | inr (current, there) ↦
      rw (there, Tokens.remove)
        (if_elim (λ (t : TokenStore × Outcome Bool). IsFilledStore t.0)
          (current == "" || not (current == token)) _ _ (λ _. h)
          (λ _. commit-IsFilledStore env _ _ _ (with_pop _ s h) (
            with_put _ current _ (Every-get IsFilled e current s.tokens h.memory there)
              (with_pop _ s h))))
]

replay-IsFilledStore :
    (ops : List (Env × Operation)) (s : TokenStore) → IsFilledStore s → IsFilledStore (replay ops s)
unfolding replay perform
replay-IsFilledStore [] s h = h
replay-IsFilledStore ((env, Operation.register e token) ∷ ops) s h =
    replay-IsFilledStore ops _ (register-IsFilledStore env e token s h)
replay-IsFilledStore ((env, Operation.remove e token) ∷ ops) s h =
    replay-IsFilledStore ops _ (remove-IsFilledStore env e token s h)

path-perform :
    (env : Env) (op : Operation) (s : TokenStore) → (perform env op s).file_path ≡ s.file_path
unfolding perform Tokens.register Tokens.remove commit
path-perform env (Operation.register e token) s = ground arith
path-perform env (Operation.remove e token) s = ground arith

path-replay :
    (ops : List (Env × Operation)) (s : TokenStore) → (replay ops s).file_path ≡ s.file_path
unfolding replay
path-replay [] s = refl
path-replay ((env, op) ∷ ops) s = path-replay ops (perform env op s) ∙ path-perform env op s

-- What stands at the path: nothing, or the tokens as JSON.
abbrev pub disk_of : Option (Dict String) → Disk
disk_of none = Disk.absent
disk_of (some d) = Disk.holds (object_of (file_dict d))

load_saved :
    (path : String) (saved : Option (Dict String))
    → (path == "") ≡ false
    → IsFilledFile saved
    → load (some path) (disk_of saved) ≡ Outcome.returned (saved_tokens saved)
unfolding load read_json_object
load_saved path none named h = rw (named, load)
load_saved path (some d) named (h, once) =
    rw (read_json_object-holds path (file_dict d) named, load) (read_file-file_dict d h once)

-- After every history of registrations and removals on a new store with a path that is not empty,
-- with writes that succeed or fail, `_load` over the file that is left raises nothing and has for
-- every event id the token that the store had.
pub load-replay_tokens :
    (path : String) (ops : List (Env × Operation))
    → (path == "") ≡ false
    → let s = replay ops (new (some path)) in
      (tokens : Dict String) × (load (some path) (disk_of s.saved) ≡ Outcome.returned tokens)
      × ((event_id : String) → get event_id tokens ≡ get event_id s.tokens)
load-replay_tokens path ops named =
    let start = new (some path) in
    let s = replay ops start in
    let durable = registry-IsDurable ops start (new-IsDurable (some path)) in
    let filled =
      replay-IsFilledStore ops start (record { memory = tt; once = λ k. omega arith; disk = tt }) in
    let there : is_some s.file_path ≡ true = ap is_some (path-replay ops start) in
    (saved_tokens s.saved, load_saved path s.saved named filled.disk, durable.disk there)
