-- ===== src/Persistence/Tokens/Registration.antt =====
-- The registration of tokens in grix_hermes/persistence/terminal_commit_token_store.py.
use grix_hermes_python.Prelude.{
  String, ◌≡◌, ◌≢◌, ◌⊎◌, ◌↔◌, ap, ◌∙◌, inl, inr, Bool, true, false, Option, none, some, List, [],
  ◌∷◌, ◌==◌, ◌||◌, ◌&&◌, not, arith, if_elim, Option-cases, eq_iff, eq_refl,
}
use grix_hermes_python.Prelude.Text.{strip}
use grix_hermes_python.Prelude.Dict.{Dict, get, put, get-put, get-pop, pop-put_new, get-put-pop}
use grix_hermes_python.Persistence.File.{Env, Outcome, persist}
use grix_hermes_python.Persistence.Tokens
use grix_hermes_python.Persistence.Tokens.{TokenStore, new, wanted, commit, present, is_token}
use grix_hermes_python.Persistence.Tokens.Laws.{
  IsDurable, Operation, perform, replay, register-IsDurable, perform-IsDurable,
}

-- Is it the removal of this token of this event?
unfoldable pub takes : String → String → Operation → Bool
takes k t (Operation.register e token) = false
takes k t (Operation.remove e token) = e == k && token == t

unfoldable pub never_takes : String → String → List (Env × Operation) → Bool
never_takes k t [] = true
never_takes k t ((env, op) ∷ ops) = not (takes k t op) && never_takes k t ops

commit-get :
    {A : Type 0} (env : Env) (changed restored : TokenStore) (answer : A) (k t : String)
    → get k changed.tokens ≡ some t
    → get k restored.tokens ≡ some t
    → get k (commit env changed restored answer).0.tokens ≡ some t
unfolding commit
commit-get {A} env changed restored answer k t c r =
    if_elim (λ (u : TokenStore × Outcome A). get k u.0.tokens ≡ some t)
      (persist changed.file_path env.writes (wanted changed.tokens) changed.saved).1 _ _ (λ _. c)
      (λ _. r)

put_elsewhere :
    (j k v t : String) (d : Dict String)
    → get j d ≡ none
    → get k d ≡ some t
    → get k (put j v d) ≡ some t
put_elsewhere j k v t d missing there = get-put j k v d ∙ ground (arith, eq_iff j k, missing, there)

register-get :
    (env : Env) (e token : String) (s : TokenStore) (k t : String)
    → IsDurable s
    → get k s.tokens ≡ some t
    → get k (Tokens.register env e token s).0.tokens ≡ some t
unfolding Tokens.register
register-get env e token s k t h there =
    let P = λ (u : TokenStore × Outcome (Unit {0})). get k u.0.tokens ≡ some t in
    if_elim P (strip e == "" || strip token == "") _ _ (λ _. there)
      (λ named.
        if_elim P (is_token (strip token) (get (strip e) s.tokens)) _ _ (λ _. there)
          (λ _. elim (Option-cases (get (strip e) s.tokens)) [
            | inl missing ↦
                if_elim P (present (get (strip e) s.tokens)) _ _ (λ _. there)
                  (λ _.
                    commit-get env _ _ _ k t (put_elsewhere _ k _ t s.tokens missing there)
                      (ap (get k) (pop-put_new _ _ s.tokens missing) ∙ there))
            | inr (u, found) ↦ rw (found, h.filled _ u found) there
          ]))

remove-get :
    (env : Env) (e token : String) (s : TokenStore) (k t : String)
    → IsDurable s
    → (e == k && token == t) ≡ false
    → get k s.tokens ≡ some t
    → get k (Tokens.remove env e token s).0.tokens ≡ some t
unfolding Tokens.remove
remove-get env e token s k t h other there = elim (Option-cases (get e s.tokens)) [
  | inl missing ↦ rw (missing, Tokens.remove) there
  | inr (current, found) ↦
      rw (found, Tokens.remove)
        (if_elim (λ (u : TokenStore × Outcome Bool). get k u.0.tokens ≡ some t)
          (current == "" || not (current == token)) _ _ (λ _. there)
          (λ taken.
            commit-get env _ _ _ k t
              (get-pop e k s.tokens (h.once e)
                ∙ ground (arith, eq_iff e k, eq_iff current token, eq_iff token t))
              (get-put-pop e k current s.tokens (h.once e) found ∙ there)))
]

perform-get :
    (env : Env) (op : Operation) (s : TokenStore) (k t : String)
    → IsDurable s
    → takes k t op ≡ false
    → get k s.tokens ≡ some t
    → get k (perform env op s).tokens ≡ some t
unfolding perform takes
perform-get env (Operation.register e token) s k t h other there =
    register-get env e token s k t h there
perform-get env (Operation.remove e token) s k t h other there =
    remove-get env e token s k t h other there

replay-get :
    (ops : List (Env × Operation)) (s : TokenStore) (k t : String)
    → IsDurable s
    → never_takes k t ops ≡ true
    → get k s.tokens ≡ some t
    → get k (replay ops s).tokens ≡ some t
unfolding replay never_takes
replay-get [] s k t h never there = there
replay-get ((env, op) ∷ ops) s k t h never there =
    replay-get ops (perform env op s) k t (perform-IsDurable env op s h) (ground arith)
      (perform-get env op s k t h (ground arith) there)

is_token_iff : (t : String) (o : Option String) → (is_token t o ≡ true) ↔ (o ≡ some t)
is_token_iff t none = ground arith
is_token_iff t (some u) = ground (arith, eq_iff u t)

register_took :
    (env : Env) (e token : String) (s : TokenStore)
    → (Tokens.register env e token s).1 ≡ Outcome.returned tt
    → get (strip e) (Tokens.register env e token s).0.tokens ≡ some (strip token)
unfolding Tokens.register commit
register_took env e token s h = ground (
  arith,
  get-put (strip e) (strip e) (strip token) s.tokens,
  eq_refl (strip e),
  is_token_iff (strip token) (get (strip e) s.tokens),
)

-- After a registration in a durable registry that returned, and after every further history of
-- registrations and removals, with writes that may fail, the event has the token registered, both
-- stripped, unless the history has a removal that names this event and this token.
pub register_fixed :
    (env : Env) (e token : String) (s : TokenStore) (ops : List (Env × Operation))
    → IsDurable s
    → (Tokens.register env e token s).1 ≡ Outcome.returned tt
    → never_takes (strip e) (strip token) ops ≡ true
    → get (strip e) (replay ops (Tokens.register env e token s).0).tokens ≡ some (strip token)
register_fixed env e token s ops h returned never =
    replay-get ops (Tokens.register env e token s).0 (strip e) (strip token)
      (register-IsDurable env e token s h) never (register_took env e token s returned)

-- Where writes succeed, a registration in a durable registry returns exactly when neither text is
-- blank and the event has either no token yet or this very token.
pub register_iff :
    (env : Env) (e token : String) (s : TokenStore)
    → IsDurable s
    → env.writes ≡ true
    → ((Tokens.register env e token s).1 ≡ Outcome.returned tt) ↔ (
        (strip e ≢ "")
        × (strip token ≢ "")
        × ((get (strip e) s.tokens ≡ none) ⊎ (get (strip e) s.tokens ≡ some (strip token))))
unfolding Tokens.register commit persist
register_iff env e token s h w = elim (Option-cases (get (strip e) s.tokens)) [
  | inl missing ↦ (
    λ r. (
      λ x. ground (arith, eq_iff (strip e) ""),
      λ x. ground (arith, eq_iff (strip token) ""),
      inl missing,
    ),
    λ (a, b, c). elim (Option-cases s.file_path) [
      | inl nowhere ↦
          rw nowhere ground (arith, eq_iff (strip e) "", eq_iff (strip token) "", missing, w)
      | inr (path, there) ↦
          rw there ground (arith, eq_iff (strip e) "", eq_iff (strip token) "", missing, w)
    ],
  )
  | inr (u, found) ↦ (
    λ r. (
      λ x. ground (arith, eq_iff (strip e) ""),
      λ x. ground (arith, eq_iff (strip token) ""),
      inr (ground (arith, h.filled (strip e) u found, eq_iff u (strip token))),
    ),
    λ (a, b, c).
        ground (arith, eq_iff (strip e) "", eq_iff (strip token) "", found, eq_iff u (strip token)),
  )
]
