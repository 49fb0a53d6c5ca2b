-- ===== src/Persistence/ToolbarModels.antt =====
-- grix_hermes/persistence/toolbar_model_store.py: the model chosen in the toolbar, for each session
-- and, as the last choice, for each owner.
pub mod Laws
pub mod Recency
pub mod Restart
use grix_hermes_python.Prelude.{
  ℕ, ◌-◌, String, ◌≡◌, Bool, true, false, Option, none, some, List, [], ◌∷◌, ◌++◌, ◌==◌, ◌||◌, ◌&&◌,
  not, length, drop, max, if◌then◌else◌,
}
use grix_hermes_python.Prelude.Dict.{Dict, get, put, pop, has}
use grix_hermes_python.Prelude.Text.{strip}
use grix_hermes_python.Persistence.Payload.{Payload, clean_text}
use grix_hermes_python.Persistence.File.{Env, persist}

-- An entry as `_normalize_entry` makes it.
pub record Choice : Type 0 where
  pub model_id : String
  pub provider : String
  pub display_label : String

-- What `_save` writes.
pub record SavedChoices : Type 0 where
  pub sessions : Dict Choice
  pub last : Dict Choice

-- `last` is the field `_global`; `sessions` is in the order of use, the oldest first.
pub record ToolbarModelStore : Type 0 where
  pub file_path : Option String
  pub max_sessions : ℕ
  pub sessions : Dict Choice
  pub last : Dict Choice
  pub saved : Option SavedChoices

-- ToolbarModelStore(file_path, max_sessions=...) with no file yet
abbrev pub new : Option String → ℕ → ToolbarModelStore
new file_path max_sessions = record {
  file_path = file_path;
  max_sessions = max 1 max_sessions;
  sessions = [];
  last = [];
  saved = none;
}

unfoldable pub normalize_entry : Payload → Option Choice
unfolding clean_text
normalize_entry value =
    if clean_text "model_id" value == ""
    then none
    else some (record {
      model_id = clean_text "model_id" value;
      provider = clean_text "provider" value;
      display_label = clean_text "display_label" value;
    })

-- A failed write is logged, and the call goes on.
unfoldable pub save : Env → ToolbarModelStore → ToolbarModelStore
save env s =
    let wanted : SavedChoices = record { sessions = s.sessions; last = s.last } in
    let (saved, done) = persist s.file_path env.writes (some wanted) s.saved in
    record s { saved = saved }

unfoldable pub get_session : String → ToolbarModelStore → Option Choice
get_session key s = get key s.sessions

unfoldable pub get_global : String → ToolbarModelStore → Option Choice
get_global owner_key s = get owner_key s.last

-- The assignment, `move_to_end`, and the loop that takes out the oldest.
unfoldable pub remember : ℕ → String → Choice → Dict Choice → Dict Choice
remember max_sessions key choice sessions =
    let assigned = put key choice sessions in
    let all = pop key assigned ++ (key, choice) ∷ [] in drop (length all - max_sessions) all

unfoldable pub set_session :
    Env → String → Payload → String → Bool → ToolbarModelStore → ToolbarModelStore
unfolding save remember
set_session env key entry owner_key update_global s = elim (normalize_entry entry) [
  | none ↦ s
  | some choice ↦
      let last = if update_global then put owner_key choice s.last else s.last in
      if key == ""
      then s
      else save env
          (record s { sessions = remember s.max_sessions key choice s.sessions; last = last })
]

-- `_normalize_entry` of an entry that the store wrote.
unfoldable pub renormalize : Choice → Option Choice
renormalize c =
    if strip c.model_id == ""
    then none
    else some (record {
      model_id = strip c.model_id;
      provider = strip c.provider;
      display_label = strip c.display_label;
    })

-- The loop of `_load` over the sessions of the file.
unfoldable pub load_sessions : Dict Choice → Dict Choice → Dict Choice
load_sessions [] sessions = sessions
load_sessions ((key, c) ∷ rest) sessions = load_sessions rest (elim (renormalize c) [
  | none ↦ sessions
  | some entry ↦ if key == "" then sessions else put key entry sessions
])

-- The loop over the last choices.
unfoldable pub load_last : Dict Choice → Dict Choice → Dict Choice
load_last [] last = last
load_last ((owner_key, c) ∷ rest) last =
    load_last rest (elim (renormalize c) [ none ↦ last | some entry ↦ put owner_key entry last ])

-- A new store over the file that `s` left, as after a restart. A file whose last choices have the
-- key "model_id" is read as one choice, in the older format; the result is `none` then.
unfoldable pub reload : ToolbarModelStore → Option ToolbarModelStore
unfolding load_sessions load_last
reload s = elim s.saved [
  | none ↦ some (record s { sessions = []; last = [] })
  | some file ↦
      if has "model_id" file.last
      then none
      else some
          (record s { sessions = load_sessions file.sessions []; last = load_last file.last [] })
]
