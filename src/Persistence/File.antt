-- ===== src/Persistence/File.antt =====
-- How the stores of grix_hermes/persistence use the file under their path. `atomic_write_json`
-- replaces the whole file or raises and leaves it; `atomic_unlink` removes it or raises. A store whose
-- path is the empty text writes nothing: its path is `none` here.
use grix_hermes_python.Prelude.{
  ℕ, String, ◌≡◌, ap, Bool, true, false, Option, none, some, arith, is_some, if◌then◌else◌, ◌==◌,
}
use grix_hermes_python.Prelude.Dict.{Dict}
use grix_hermes_python.Json.{Value, dict_of, fields_of, dict_of-fields_of}

-- What a call meets: the time of `_now_ms`, and whether the file system does what it is asked.
pub record Env : Type 0 where
  pub now : ℕ
  pub writes : Bool

-- What a call returns or raises.
pub data Outcome {ℓ} (A : Type ℓ) : Type ℓ where
  returned : A → Outcome A
  raised : Outcome A

-- What stands at the path of a store when it starts.
pub data Disk : Type 0 where
  absent : Disk
  no_file : Disk
  no_json : Disk
  holds : Value → Disk

-- A path that is the empty text counts as none.
unfoldable pub read_json_object : Option String → Disk → Outcome (Option (Dict Value))
read_json_object none disk = Outcome.returned none
read_json_object (some path) disk = if path == "" then Outcome.returned none else elim disk [
  | Disk.absent ↦ Outcome.returned none
  | Disk.no_file ↦ Outcome.raised
  | Disk.no_json ↦ Outcome.raised
  | Disk.holds v ↦ elim v [
    | Value.null ↦ Outcome.raised
    | Value.boolean b ↦ Outcome.raised
    | Value.number n ↦ Outcome.raised
    | Value.text s ↦ Outcome.raised
    | Value.array vs ↦ Outcome.raised
    | Value.object fs ↦ Outcome.returned (some (dict_of fs))
  ]
]

module _ {S : Type 0} where
  -- The file after `_persist`, and whether it returned. `wanted` is the snapshot to be written, or
  -- `none` where the file is to be removed.
  unfoldable pub persist : Option String → Bool → Option S → Option S → Option S × Bool
  persist none writes wanted saved = (saved, true)
  persist (some path) writes wanted saved = if writes then (wanted, true) else (saved, false)

  -- A write that returned has written, if there is a path.
  pub persist_wrote :
      (path : Option String) (writes : Bool) (wanted saved : Option S)
      → is_some path ≡ true
      → (persist path writes wanted saved).1 ≡ true
      → (persist path writes wanted saved).0 ≡ wanted
  unfolding persist
  persist_wrote path writes wanted saved h k = ground arith

pub read_json_object-holds :
    (path : String) (d : Dict Value)
    → (path == "") ≡ false
    → read_json_object (some path) (Disk.holds (Value.object (fields_of d)))
      ≡ Outcome.returned (some d)
unfolding read_json_object
read_json_object-holds path d named =
    rw named (ap (λ (x : Dict Value). Outcome.returned (some x)) (dict_of-fields_of d))
