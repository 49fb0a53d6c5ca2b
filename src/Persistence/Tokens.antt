-- ===== src/Persistence/Tokens.antt =====
-- grix_hermes/persistence/terminal_commit_token_store.py: the commit token of each event.
pub mod Laws
pub mod Registration
pub mod Load
pub mod Restart
use grix_hermes_python.Prelude.{
  ℕ, ◌≤◌, String, ◌≡◌, ◌≢◌, ◌⊎◌, refl, ap, sym, ◌∙◌, inl, inr, Bool, true, false, Option, none,
  some, List, [], ◌∷◌, ◌==◌, ◌||◌, ◌&&◌, not, arith, is_some, if_elim, Option-cases, Bool-cases,
  if◌then◌else◌, eq_iff, eq_refl,
}
use grix_hermes_python.Prelude.Text.{strip}
use grix_hermes_python.Prelude.Dict.{
  Dict, get, put, pop, entries, get-put, get-pop, put-once, pop-once, pop-put_new, get-put-pop,
}
use grix_hermes_python.Persistence.File.{Env, Outcome, persist, persist_wrote}

pub record TokenStore : Type 0 where
  pub file_path : Option String
  pub tokens : Dict String
  pub saved : Option (Dict String)

abbrev pub new : Option String → TokenStore
new file_path = record { file_path = file_path; tokens = []; saved = none }

abbrev wanted : Dict String → Option (Dict String)
wanted [] = none
wanted (x ∷ xs) = some (x ∷ xs)

-- The try block around `_persist`: the file is written, or removed where no token is left; where
-- that raises, the handler restores.
unfoldable pub commit {ℓ} :
    {A : Type ℓ} → Env → TokenStore → TokenStore → A → TokenStore × Outcome A
commit env changed restored answer =
    let (saved, done) =
      persist changed.file_path env.writes (wanted changed.tokens) changed.saved in
    if done
    then (record changed { saved = saved }, Outcome.returned answer)
    else (restored, Outcome.raised)

-- An empty text is as good as no token.
abbrev present : Option String → Bool
present none = false
present (some t) = not (t == "")

abbrev is_token : String → Option String → Bool
is_token token none = false
is_token token (some t) = t == token

unfoldable pub register : Env → String → String → TokenStore → TokenStore × Outcome (Unit {0})
register env event_id token s =
    let eid = strip event_id in
    let normalized = strip token in
    let previous = get eid s.tokens in
    let tokens = put eid normalized s.tokens in
    if eid == "" || normalized == ""
    then (s, Outcome.raised)
    else if is_token normalized previous
    then (s, Outcome.returned tt)
    else if present previous
    then (s, Outcome.raised)
    else commit env (record s { tokens = tokens }) (record s { tokens = pop eid tokens }) tt

unfoldable pub remove : Env → String → String → TokenStore → TokenStore × Outcome Bool
remove env event_id expected_token s = elim (get event_id s.tokens) [
  | none ↦ (s, Outcome.returned false)
  | some current ↦
      let tokens = pop event_id s.tokens in
      if current == "" || not (current == expected_token)
      then (s, Outcome.returned false)
      else commit env (record s { tokens = tokens })
          (record s { tokens = put event_id current tokens }) true
]
