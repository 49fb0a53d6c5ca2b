-- ===== src/Persistence/ToolbarModels/Restart.antt =====
-- What a restart of grix_hermes/persistence/toolbar_model_store.py brings back.
use grix_hermes_python.Prelude.{
  ◌+◌, ◌≤◌, String, ◌≡◌, refl, ap, sym, ◌∙◌, inl, inr, Bool, true, false, Option, some, [], ◌∷◌,
  ◌++◌, ◌==◌, arith, is_some, Bool-cases, eq_refl, count-append, append-nil, append_assoc,
}
use grix_hermes_python.Prelude.Dict.{Dict, put, has, entries}
use grix_hermes_python.Persistence.Payload.{Payload, clean_text}
use grix_hermes_python.Persistence.File.{Env, persist, persist_wrote}
use grix_hermes_python.Persistence.ToolbarModels.{
  Choice, SavedChoices, ToolbarModelStore, normalize_entry, save, set_session, renormalize,
  load_sessions, load_last, reload,
}
use grix_hermes_python.Persistence.ToolbarModels.Laws.{
  IsClean, AreClean, IsTidy, set_session-IsTidy,
}

renormalize_clean : (c : Choice) → IsClean c → renormalize c ≡ some c
unfolding renormalize
renormalize_clean c h = rw (h.model_id, h.filled, h.provider, h.display_label) refl

put_new :
    (k : String) (v : Choice) (d : Dict Choice) → entries k d ≡ 0 → put k v d ≡ d ++ (k, v) ∷ []
unfolding put
put_new k v [] h = refl
put_new k v ((j, w) ∷ d) h = elim (Bool-cases (j == k)) [
  | inl same ↦ absurd (ground arith)
  | inr other ↦ rw other (ap (λ r. (j, w) ∷ r) (put_new k v d (ground arith)))
]

load_sessions_tidy :
    (d acc : Dict Choice)
    → AreClean true d
    → ((k : String) → entries k acc + entries k d ≤ 1)
    → load_sessions d acc ≡ acc ++ d
unfolding load_sessions
load_sessions_tidy [] acc clean once = sym (append-nil acc)
load_sessions_tidy ((k, c) ∷ d) acc clean once =
    let named : (k == "") ≡ false = clean.0.0 refl in
    let here = once k in
    let fresh : entries k acc ≡ 0 = ground (arith, eq_refl k) in
    rw (renormalize_clean c clean.0.1, named, put_new k c acc fresh)
      (load_sessions_tidy d (acc ++ (k, c) ∷ []) clean.1 (λ j.
          let there = once j in ground (arith, count-append (λ e. e.0 == j) acc ((k, c) ∷ [])))
        ∙ append_assoc acc ((k, c) ∷ []) d)

load_last_tidy :
    (d acc : Dict Choice)
    → AreClean false d
    → ((k : String) → entries k acc + entries k d ≤ 1)
    → load_last d acc ≡ acc ++ d
unfolding load_last
load_last_tidy [] acc clean once = sym (append-nil acc)
load_last_tidy ((k, c) ∷ d) acc clean once =
    let here = once k in
    let fresh : entries k acc ≡ 0 = ground (arith, eq_refl k) in
    rw (renormalize_clean c clean.0.1, put_new k c acc fresh)
      (load_last_tidy d (acc ++ (k, c) ∷ []) clean.1 (λ j.
          let there = once j in ground (arith, count-append (λ e. e.0 == j) acc ((k, c) ∷ [])))
        ∙ append_assoc acc ((k, c) ∷ []) d)

-- A tidy store whose file is up to date.
reload_saved :
    (s : ToolbarModelStore)
    → IsTidy s
    → s.saved ≡ some (record { sessions = s.sessions; last = s.last })
    → has "model_id" s.last ≡ false
    → reload s ≡ some s
unfolding reload
reload_saved s h written plain =
    rw
      (
        written,
        reload,
        plain,
        load_sessions_tidy s.sessions [] h.clean (λ k. let here = h.once k in omega arith),
        load_last_tidy s.last [] h.clean_last (λ k. let here = h.once_last k in omega arith),
      )
      (rw written refl)

persist_done :
    (path : Option String) (writes : Bool) (wanted saved : Option SavedChoices)
    → writes ≡ true
    → (persist path writes wanted saved).1 ≡ true
unfolding persist
persist_done path writes wanted saved h = ground arith

wrote :
    (env : Env) (key : String) (entry : Payload) (owner_key : String) (u : Bool)
    (s : ToolbarModelStore)
    → is_some s.file_path ≡ true
    → env.writes ≡ true
    → (key == "") ≡ false
    → (clean_text "model_id" entry == "") ≡ false
    → (set_session env key entry owner_key u s).saved
      ≡ some (record {
        sessions = (set_session env key entry owner_key u s).sessions;
        last = (set_session env key entry owner_key u s).last;
      })
unfolding set_session save normalize_entry
wrote env key entry owner_key u s path works named filled =
    rw (filled, set_session, named)
      (persist_wrote s.file_path env.writes _ s.saved path
        (persist_done s.file_path env.writes _ s.saved works))

-- Where a tidy store has a path, the write succeeds, the session is named, the entry has a model
-- id, and no owner of a last choice is called `model_id`, a restart after `set_session` brings back
-- the same store: sessions, their order, and last choices.
pub reload-set_session :
    (env : Env) (key : String) (entry : Payload) (owner_key : String) (update_global : Bool)
    (s : ToolbarModelStore)
    → IsTidy s
    → is_some s.file_path ≡ true
    → env.writes ≡ true
    → (key == "") ≡ false
    → (clean_text "model_id" entry == "") ≡ false
    → has "model_id" (set_session env key entry owner_key update_global s).last ≡ false
    → reload (set_session env key entry owner_key update_global s)
      ≡ some (set_session env key entry owner_key update_global s)
reload-set_session env key entry owner_key u s h path works named filled plain =
    reload_saved (set_session env key entry owner_key u s)
      (set_session-IsTidy env key entry owner_key u s h)
      (wrote env key entry owner_key u s path works named filled) plain
