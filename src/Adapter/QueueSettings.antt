-- ===== src/Adapter/QueueSettings.antt =====
-- How `GrixAdapter.__init__` of grix_hermes/adapter.py makes the configuration of its event queue.
use grix_hermes_python.Prelude.{ℕ, String, true, Option, none, some, [], ◌∷◌}
use grix_hermes_python.Prelude.Dict.{Dict, get}
use grix_hermes_python.Prelude.Int.{pos_part}
use grix_hermes_python.Json.{Value}
use grix_hermes_python.Json.Numbers.{int_of}
use grix_hermes_python.Protocol.Settings.{GrixConnectionConfig, resolve_event_queue_settings}
use grix_hermes_python.EventQueue.State.{EventQueueConfig}

infixl 10 ◌>>=◌
abbrev ◌>>=◌ : {A B : Type 0} → Option A → (A → Option B) → Option B
none >>= f = none
some a >>= f = f a

-- self.connection.concurrency or resolve_event_queue_settings({})
unfoldable pub queue_settings : GrixConnectionConfig → Dict Value
queue_settings connection = elim connection.concurrency [
  | none ↦ resolve_event_queue_settings []
  | some [] ↦ resolve_event_queue_settings []
  | some (entry ∷ rest) ↦ entry ∷ rest
]

-- int(settings[key]) where it does not raise; a limit below 0 counts as 0.
unfoldable pub limit : String → Dict Value → Option ℕ
limit key settings = do value ← get key settings; number ← int_of value; some (pos_part number)

unfoldable pub event_queue_config : GrixConnectionConfig → Option EventQueueConfig
event_queue_config connection =
    let settings = queue_settings connection in
    do
      max_queued ← limit "max_queued" settings
      queue_timeout_ms ← limit "queue_timeout_ms" settings
      run_timeout_ms ← limit "run_timeout_ms" settings
      some (record {
        max_queued = max_queued;
        queue_timeout_ms = queue_timeout_ms;
        run_timeout_ms = run_timeout_ms;
        cancelable_queued = true;
        cancelable_running = true;
      })
