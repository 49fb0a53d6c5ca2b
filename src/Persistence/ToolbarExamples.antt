-- ===== src/Persistence/ToolbarExamples.antt =====
-- Runs of grix_hermes/persistence/toolbar_model_store.py, at which its theorems are applied.
use grix_hermes_python.Prelude.{String, ◌≡◌, refl, true, false, some, List, [], ◌∷◌, ◌==◌, arith}
use grix_hermes_python.Prelude.Dict.{get, put, pop, has}
use grix_hermes_python.Prelude.Text.{strip, is_space}
use grix_hermes_python.Persistence.File.{Env, persist}
use grix_hermes_python.Json.{Value, value_at, text_of}
use grix_hermes_python.Persistence.Payload.{Payload, clean_text}
use grix_hermes_python.Persistence.ToolbarModels.{
  ToolbarModelStore, Choice, new, normalize_entry, set_session, get_session, reload, save, remember,
}
use grix_hermes_python.Persistence.ToolbarModels.Laws.{new-IsTidy}
use grix_hermes_python.Persistence.ToolbarModels.Recency.{Setting, set_all, spares, get-set_all}
use grix_hermes_python.Persistence.ToolbarModels.Restart.{reload-set_session}

abbrev works : Env
works = record { now = 1_000; writes = true }

abbrev wish : Payload
wish = ("model_id", Value.text " m1") ∷ ("provider", Value.text "p") ∷ []

abbrev chosen : Choice
chosen = record { model_id = "m1"; provider = "p"; display_label = "" }

abbrev empty_store : ToolbarModelStore
empty_store = new (some "models.json") 3

wish_fits : normalize_entry wish ≡ some chosen
unfolding normalize_entry clean_text value_at text_of strip is_space get
wish_fits = refl

wish_filled : (clean_text "model_id" wish == "") ≡ false
unfolding clean_text value_at text_of strip is_space get
wish_filled = refl

abbrev elsewhere : String → Setting
elsewhere key = record {
  env = works;
  key = key;
  entry = wish;
  owner_key = "o";
  update_global = true;
}

abbrev others : List Setting
others = elsewhere "s2" ∷ elsewhere "s3" ∷ []

others_spare : spares "s1" others ≡ true
unfolding spares
others_spare = refl

get-set_all_example :
    get_session "s1" (set_all others (set_session works "s1" wish "" true empty_store))
    ≡ some chosen
get-set_all_example =
    get-set_all works "s1" wish "" true chosen others empty_store
      (new-IsTidy (some "models.json") 3) refl wish_fits others_spare (omega arith)

plain : has "model_id" (set_session works "s1" wish "" true empty_store).last ≡ false
unfolding set_session normalize_entry clean_text value_at text_of strip is_space get has save
    remember persist put pop
plain = refl

reload-set_session_example :
    reload (set_session works "s1" wish "" true empty_store)
    ≡ some (set_session works "s1" wish "" true empty_store)
reload-set_session_example =
    reload-set_session works "s1" wish "" true empty_store (new-IsTidy (some "models.json") 3) refl
      refl refl wish_filled plain
