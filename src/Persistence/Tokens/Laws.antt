-- ===== src/Persistence/Tokens/Laws.antt =====
-- What grix_hermes/persistence/terminal_commit_token_store.py promises of an event's token.
use grix_hermes_python.Prelude.{
  ◌≤◌, String, ◌≡◌, refl, ap, sym, ◌∙◌, inl, inr, Bool, true, false, Option, none, some, List, [],
  ◌∷◌, ◌==◌, ◌||◌, not, arith, is_some, if_elim, Option-cases,
}
use grix_hermes_python.Prelude.Text.{strip}
use grix_hermes_python.Prelude.Dict.{
  Dict, get, put, pop, entries, get-put, get-pop, put-once, pop-once, pop-put_new, get-put-pop,
}
use grix_hermes_python.Persistence.File.{Env, Outcome, persist, persist_wrote}
use grix_hermes_python.Persistence.Tokens
use grix_hermes_python.Persistence.Tokens.{TokenStore, new, wanted, commit, present, is_token}

abbrev pub saved_tokens : Option (Dict String) → Dict String
saved_tokens none = []
saved_tokens (some d) = d

-- The file holds, for every event, the token that the store answers; no token is blank.
pub record IsDurable (s : TokenStore) : Type 0 where
  pub once : (k : String) → entries k s.tokens ≤ 1
  pub filled : (k t : String) → get k s.tokens ≡ some t → (t == "") ≡ false
  pub disk :
      is_some s.file_path ≡ true → (k : String) → get k (saved_tokens s.saved) ≡ get k s.tokens

-- The calls that change the store.
pub data Operation : Type 0 where
  register : String → String → Operation
  remove : String → String → Operation

unfoldable pub perform : Env → Operation → TokenStore → TokenStore
perform env (Operation.register e token) s = (Tokens.register env e token s).0
perform env (Operation.remove e token) s = (Tokens.remove env e token s).0

unfoldable pub replay : List (Env × Operation) → TokenStore → TokenStore
replay [] s = s
replay ((env, op) ∷ ops) s = replay ops (perform env op s)

-- The rule for the try block: what it wrote is what it keeps, and its handler restores.
commit-IsDurable :
    {A : Type 0} (env : Env) (changed restored : TokenStore) (answer : A)
    → ((k : String) → entries k changed.tokens ≤ 1)
    → ((k t : String) → get k changed.tokens ≡ some t → (t == "") ≡ false)
    → IsDurable restored
    → IsDurable (commit env changed restored answer).0
unfolding commit
commit-IsDurable {A} env changed restored answer once filled r =
    if_elim (λ (t : TokenStore × Outcome A). IsDurable t.0)
      (persist changed.file_path env.writes (wanted changed.tokens) changed.saved).1 _ _
      (λ done. record {
        once = once;
        filled = filled;
        disk = λ p k.
            ap (λ d. get k (saved_tokens d))
              (persist_wrote changed.file_path env.writes _ changed.saved p done)
            ∙ ap (get k) (saved_wanted changed.tokens);
      })
      (λ _. r)
  where
    saved_wanted : (d : Dict String) → saved_tokens (wanted d) ≡ d
    saved_wanted [] = refl
    saved_wanted (x ∷ d) = refl

put-filled :
    (k v : String) (d : Dict String)
    → (v == "") ≡ false
    → ((j t : String) → get j d ≡ some t → (t == "") ≡ false)
    → (j t : String) → get j (put k v d) ≡ some t
    → (t == "") ≡ false
put-filled k v d filled rest j t h =
    let place = sym (get-put k j v d) ∙ h in ground (arith, rest j t)

pop-filled :
    (k : String) (d : Dict String)
    → ((j : String) → entries j d ≤ 1)
    → ((j t : String) → get j d ≡ some t → (t == "") ≡ false)
    → (j t : String) → get j (pop k d) ≡ some t
    → (t == "") ≡ false
pop-filled k d once rest j t h =
    let place = sym (get-pop k j d (once k)) ∙ h in ground (arith, rest j t)

-- Taking the new key out again leaves the store as it was.
pop_new :
    (s : TokenStore) (k v : String)
    → get k s.tokens ≡ none
    → IsDurable s
    → IsDurable (record s { tokens = pop k (put k v s.tokens) })
pop_new s k v missing h = rw (pop-put_new k v s.tokens missing) h

put_again :
    (s : TokenStore) (k v : String)
    → get k s.tokens ≡ some v
    → IsDurable s
    → IsDurable (record s { tokens = put k v (pop k s.tokens) })
put_again s k v there h =
    let same = λ (j : String). get-put-pop k j v s.tokens (h.once k) there in
    record {
      once = put-once k v (pop k s.tokens) (pop-once k s.tokens h.once);
      filled = λ j t found. h.filled j t (sym (same j) ∙ found);
      disk = λ p j. h.disk p j ∙ sym (same j);
    }

pub register-IsDurable :
    (env : Env) (e token : String) (s : TokenStore)
    → IsDurable s
    → IsDurable (Tokens.register env e token s).0
unfolding Tokens.register
register-IsDurable env e token s h =
    let P = λ (t : TokenStore × Outcome (Unit {0})). IsDurable t.0 in
    if_elim P (strip e == "" || strip token == "") _ _ (λ _. h)
      (λ named.
        if_elim P (is_token (strip token) (get (strip e) s.tokens)) _ _ (λ _. h)
          (λ _. elim (Option-cases (get (strip e) s.tokens)) [
            | inl missing ↦
                if_elim P (present (get (strip e) s.tokens)) _ _ (λ _. h)
                  (λ _.
                    commit-IsDurable env _ _ _ (put-once _ _ s.tokens h.once)
                      (put-filled _ _ s.tokens (ground arith) h.filled) (pop_new s _ _ missing h))
            | inr (t, there) ↦ rw (there, h.filled _ t there) h
          ]))

remove-IsDurable :
    (env : Env) (e token : String) (s : TokenStore)
    → IsDurable s
    → IsDurable (Tokens.remove env e token s).0
unfolding Tokens.remove
remove-IsDurable env e token s h = elim (Option-cases (get e s.tokens)) [
  | inl missing ↦ rw (missing, Tokens.remove) h
  | inr (current, there) ↦
      rw (there, Tokens.remove)
        (if_elim (λ (t : TokenStore × Outcome Bool). IsDurable t.0)
          (current == "" || not (current == token)) _ _ (λ _. h)
          (λ _.
            commit-IsDurable env _ _ _ (pop-once _ s.tokens h.once)
              (pop-filled e s.tokens h.once h.filled) (put_again s _ current there h)))
]

pub perform-IsDurable :
    (env : Env) (op : Operation) (s : TokenStore) → IsDurable s → IsDurable (perform env op s)
unfolding perform
perform-IsDurable env (Operation.register e token) s h = register-IsDurable env e token s h
perform-IsDurable env (Operation.remove e token) s h = remove-IsDurable env e token s h

pub new-IsDurable : (path : Option String) → IsDurable (new path)
unfolding get
new-IsDurable path = record {
  once = λ k. omega arith;
  filled = λ k t h. absurd (ground arith);
  disk = λ p k. refl;
}

-- From a durable registry, and so from a new one, every history of registrations and removals, each
-- with a write that succeeds or fails, leads to a durable registry: for every event id the file
-- holds the token that the registry answers, and no token is the empty text.
pub registry-IsDurable :
    (ops : List (Env × Operation)) (s : TokenStore) → IsDurable s → IsDurable (replay ops s)
unfolding replay
registry-IsDurable [] s h = h
registry-IsDurable ((env, op) ∷ ops) s h =
    registry-IsDurable ops (perform env op s) (perform-IsDurable env op s h)
