-- ===== src/Protocol/Checked.antt =====
-- Which events grix_hermes/protocol.py refuses.
use Prim.Native.String
use grix_hermes_python.Prelude.{
  String, ◌≡◌, refl, Bool-cases, inl, inr, Option, none, some, List, [], ◌∷◌, ◌==◌, if◌then◌else◌,
}
use grix_hermes_python.Prelude.Dict.{Dict}
use grix_hermes_python.Json.{Value}
use grix_hermes_python.Protocol.Packets.{Result, require}
use grix_hermes_python.Protocol.Events.{
  id_at, normalize_stop_event, normalize_revoke_event, normalize_edit_event,
}
use grix_hermes_python.Protocol.Controls.{
  normalize_event_cancel, normalize_queue_clear, normalize_event_hold, normalize_queue_edit,
  normalize_queue_reorder, normalize_queue_snapshot_query,
}

-- The text of the error that is raised, if one is.
abbrev pub error_of : {A : Type 0} → Result A → Option String
error_of (Result.raises message) = some message
error_of (Result.returns value) = none

-- The complaint about the first of the keys that has no id.
unfoldable pub first_missing : String → List String → Dict Value → Option String
first_missing kind [] payload = none
first_missing kind (key ∷ keys) payload =
    let later = first_missing kind keys payload in
    if id_at key payload == ""
    then some (String.◌++◌ kind (String.◌++◌ " requires " key))
    else later

-- One more id that is asked for first.
asks :
    {A : Type 0} (kind key : String) (keys : List String) (payload : Dict Value) (rest : Result A)
    → error_of rest ≡ first_missing kind keys payload
    → error_of (require (id_at key payload) (String.◌++◌ kind (String.◌++◌ " requires " key)) rest)
      ≡ first_missing kind (key ∷ keys) payload
unfolding first_missing
asks kind key keys payload rest later = elim (Bool-cases (id_at key payload == "")) [
  | inl blank ↦ rw blank refl
  | inr named ↦ rw named later
]

asks_one :
    {A : Type 0} (kind key : String) (payload : Dict Value) (value : A)
    → error_of (
        require
          (id_at key payload)
          (String.◌++◌ kind (String.◌++◌ " requires " key))
          (Result.returns value))
      ≡ first_missing kind (key ∷ []) payload
unfolding first_missing
asks_one kind key payload value = asks kind key [] payload (Result.returns value) refl

asks_two :
    {A : Type 0} (kind key other : String) (payload : Dict Value) (value : A)
    → error_of (
        require (id_at key payload) (String.◌++◌ kind (String.◌++◌ " requires " key)) (
          require
            (id_at other payload)
            (String.◌++◌ kind (String.◌++◌ " requires " other))
            (Result.returns value)))
      ≡ first_missing kind (key ∷ other ∷ []) payload
asks_two kind key other payload value =
    asks kind key (other ∷ []) payload _ (asks_one kind other payload value)

-- Each of the nine kinds of events is refused exactly for the first id that it must have and does
-- not, in the order in which its kind asks for them, and the error names the kind and the key.
pub events_checked :
    (p : Dict Value)
    → (error_of (normalize_stop_event p)
          ≡ first_missing "stop event" ("event_id" ∷ "session_id" ∷ []) p
        × error_of (normalize_revoke_event p)
          ≡ first_missing "revoke event" ("event_id" ∷ "session_id" ∷ "msg_id" ∷ []) p
        × error_of (normalize_edit_event p)
          ≡ first_missing "edit event" ("session_id" ∷ "msg_id" ∷ []) p
        × error_of (normalize_event_cancel p)
          ≡ first_missing "event_cancel" ("event_id" ∷ "session_id" ∷ []) p
        × error_of (normalize_queue_clear p) ≡ first_missing "queue_clear" ("session_id" ∷ []) p
        × error_of (normalize_event_hold p)
          ≡ first_missing "event_hold" ("event_id" ∷ "session_id" ∷ []) p
        × error_of (normalize_queue_edit p)
          ≡ first_missing "queue_edit" ("event_id" ∷ "session_id" ∷ []) p
        × error_of (normalize_queue_reorder p) ≡ first_missing "queue_reorder" ("session_id" ∷ []) p
        × error_of (normalize_queue_snapshot_query p)
          ≡ first_missing "queue_snapshot_query" ("session_id" ∷ []) p)
unfolding normalize_stop_event normalize_revoke_event normalize_edit_event normalize_event_cancel
    normalize_queue_clear normalize_event_hold normalize_queue_edit normalize_queue_reorder
    normalize_queue_snapshot_query
events_checked p = (
  asks_two "stop event" "event_id" "session_id" p _,
  asks "revoke event" "event_id" _ p _ (asks_two "revoke event" "session_id" "msg_id" p _),
  asks_two "edit event" "session_id" "msg_id" p _,
  asks_two "event_cancel" "event_id" "session_id" p _,
  asks_one "queue_clear" "session_id" p _,
  asks_two "event_hold" "event_id" "session_id" p _,
  asks_two "queue_edit" "event_id" "session_id" p _,
  asks_one "queue_reorder" "session_id" p _,
  asks_one "queue_snapshot_query" "session_id" p _,
)
