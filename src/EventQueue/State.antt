-- ===== src/EventQueue/State.antt =====
-- The data of grix_hermes/event_queue.py: items, settings, what the callbacks are told, the state.
use grix_hermes_python.Prelude.{
  ℕ, String, Bool, false, Option, none, some, List, [], ◌∷◌, ◌++◌, ◌&&◌, ◌==◌, if◌then◌else◌,
}
use grix_hermes_python.Prelude.Dict.{Dict}

-- `payload` is brought back as it was given; the queue does not look into it.
pub record QueueItem (P : Type 0) : Type 0 where
  pub event_id : String
  pub session_id : String
  pub group_key : String
  pub owner_key : String
  pub preview : String
  pub payload : P
  pub content : String
  pub held : Bool
  pub held_reason : String

-- A limit of 0 or below turns its feature off; 0 stands for all of those.
pub record EventQueueConfig : Type 0 where
  pub max_queued : ℕ
  pub queue_timeout_ms : ℕ
  pub run_timeout_ms : ℕ
  pub cancelable_queued : Bool
  pub cancelable_running : Bool

-- STATE_QUEUED, STATE_RUNNING, STATE_CANCELED, STATE_FAILED
pub data EventState : Type 0 where
  queued running canceled failed : EventState

-- The `meta` of a state change: nothing, a position with the total, a reason, or the reason that
-- names the minutes of the run timeout.
pub data Meta : Type 0 where
  bare : Meta
  position : ℕ → ℕ → Meta
  reason : String → Meta
  no_progress_within : ℕ → Meta

-- A call of `on_deliver` or `on_state_change`, with the item as it was at the call.
pub data Effect (P : Type 0) : Type 0 where
  deliver : QueueItem P → Effect P
  state_change : QueueItem P → EventState → Meta → Effect P

-- `running` is a dict under the items' own ids, so its values are the list. A timer handle is the
-- delay in milliseconds that it was armed with; a handle in a dict is a timer that may still fire.
-- `in_loop` says whether `asyncio.get_running_loop` finds a loop; `effects` are the calls of the
-- callbacks so far, the oldest first.
pub record EventQueue (P : Type 0) : Type 0 where
  pub config : EventQueueConfig
  pub running : List (QueueItem P)
  pub queued : List (QueueItem P)
  pub timeout_handles : Dict ℕ
  pub run_timeout_handles : Dict ℕ
  pub hold_handles : Dict ℕ
  pub pause_reasons : List String
  pub drain_scheduled : Bool
  pub in_loop : Bool
  pub effects : List (Effect P)

module _ {P : Type 0} where
  -- EventQueue(config, on_deliver=..., on_state_change=...)
  abbrev pub new : EventQueueConfig → Bool → EventQueue P
  new config in_loop = record {
    config = config;
    running = [];
    queued = [];
    timeout_handles = [];
    run_timeout_handles = [];
    hold_handles = [];
    pause_reasons = [];
    drain_scheduled = false;
    in_loop = in_loop;
    effects = [];
  }

  abbrev pub has_id : String → QueueItem P → Bool
  has_id event_id item = item.event_id == event_id

  abbrev pub in_group : String → QueueItem P → Bool
  in_group group_key item = item.group_key == group_key

  -- The test by which the queue is filtered for one session of one owner.
  abbrev pub in_session : String → String → QueueItem P → Bool
  in_session session_id owner_key item =
      item.session_id == session_id && item.owner_key == owner_key

  -- The first item with the id, where the code walks `_queued` or looks up `_running`.
  unfoldable pub find_item : String → List (QueueItem P) → Option (QueueItem P)
  find_item event_id [] = none
  find_item event_id (item ∷ rest) =
      if item.event_id == event_id then some item else find_item event_id rest

  -- `del self._queued[index]` at the first item with the id, `self._running.pop(event_id, None)`
  unfoldable pub remove_item : String → List (QueueItem P) → List (QueueItem P)
  remove_item event_id [] = []
  remove_item event_id (item ∷ rest) =
      let kept = remove_item event_id rest in
      if item.event_id == event_id then rest else item ∷ kept

  -- An assignment to fields of the first item with the id.
  unfoldable pub update_item :
      String → (QueueItem P → QueueItem P) → List (QueueItem P) → List (QueueItem P)
  update_item event_id f [] = []
  update_item event_id f (item ∷ rest) =
      let changed = update_item event_id f rest in
      if item.event_id == event_id then f item ∷ rest else item ∷ changed

  -- `self._running[item.event_id] = item`
  unfoldable pub put_item : QueueItem P → List (QueueItem P) → List (QueueItem P)
  put_item item [] = item ∷ []
  put_item item (other ∷ rest) =
      let placed = put_item item rest in
      if other.event_id == item.event_id then item ∷ rest else other ∷ placed

  -- A call of a callback.
  unfoldable pub call : Effect P → EventQueue P → EventQueue P
  call e q = record q { effects = q.effects ++ e ∷ [] }

  -- Several calls in a row.
  unfoldable pub calls : List (Effect P) → EventQueue P → EventQueue P
  calls es q = record q { effects = q.effects ++ es }
