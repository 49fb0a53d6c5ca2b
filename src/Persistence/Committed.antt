-- ===== src/Persistence/Committed.antt =====
-- grix_hermes/persistence/terminal_committed_store.py: the ids of settled terminal events.
pub mod Laws
pub mod Restart
use grix_hermes_python.Prelude.{
  ℕ, suc, ◌+◌, ◌-◌, ◌≤◌, ◌<◌, String, ◌≡◌, ◌≢◌, refl, ap, sym, ◌∙◌, inl, inr, Bool, true, false,
  Option, none, some, List, [], ◌∷◌, ◌++◌, ◌==◌, ◌||◌, ◌&&◌, not, arith, member, keep, length,
  length-append, drop, length-drop, max, if_elim, if◌then◌else◌, eq_iff, eq_refl, Bool-cases,
  is_some,
}
use grix_hermes_python.Prelude.Text.{strip}
use grix_hermes_python.Persistence.File.{Env, Outcome, persist}

-- `ids` are the keys of the OrderedDict, the oldest first; `saved` is the list in the file.
pub record CommittedStore : Type 0 where
  pub file_path : Option String
  pub max_size : ℕ
  pub ids : List String
  pub saved : Option (List String)

-- TerminalCommittedStore(file_path, max_size=...) with no file yet
abbrev pub new : Option String → ℕ → CommittedStore
new file_path max_size = record {
  file_path = file_path;
  max_size = max 1 max_size;
  ids = [];
  saved = none;
}

unfoldable pub has : String → CommittedStore → Bool
has event_id s = member (strip event_id) s.ids

-- The loop that takes out the oldest ids while there are too many.
unfoldable pub trim : ℕ → List String → List String
trim max_size ids = drop (length ids - max_size) ids

-- The file is removed where there is nothing to keep.
abbrev wanted : List String → Option (List String)
wanted [] = none
wanted (x ∷ xs) = some (x ∷ xs)

-- `move_to_end` does not write; where the write of a new id raises, the id stays in memory.
unfoldable pub add : Env → String → CommittedStore → CommittedStore × Outcome (Unit {0})
unfolding trim
add env event_id s =
    let eid = strip event_id in
    let ids = trim s.max_size (s.ids ++ eid ∷ []) in
    let (saved, done) = persist s.file_path env.writes (wanted ids) s.saved in
    if eid == ""
    then (s, Outcome.returned tt)
    else if member eid s.ids
    then (record s { ids = keep (λ x. not (x == eid)) s.ids ++ eid ∷ [] }, Outcome.returned tt)
    else (
      record s { ids = ids; saved = saved },
      if done then Outcome.returned tt else Outcome.raised,
    )

-- The loop of `_load` over the ids of the file: blank ones are left out, and an id that is there
-- keeps its place.
unfoldable pub load_ids : List String → List String → List String
load_ids [] ids = ids
load_ids (raw ∷ rest) ids =
    let eid = strip raw in
    load_ids rest (if eid == "" || member eid ids then ids else ids ++ eid ∷ [])

-- A new store over the file that `s` left, as after a restart.
unfoldable pub reload : CommittedStore → CommittedStore
unfolding load_ids trim
reload s = record s {
  ids = elim s.saved [ none ↦ [] | some raws ↦ trim s.max_size (load_ids raws []) ];
}
