-- ===== src/Adapter/QueueBounds.antt =====
-- The queue that grix_hermes/adapter.py makes of the settings that grix_hermes/protocol.py reads.
use grix_hermes_python.Prelude.{
  ℕ, ◌≤◌, String, ◌≡◌, refl, arith, some, Option-cases, inl, inr, List, count, true,
}
use grix_hermes_python.Prelude.Dict.{Dict, get}
use grix_hermes_python.Prelude.Int.{pos, pos_part}
use grix_hermes_python.Json.{Value, value_at}
use grix_hermes_python.Json.Numbers.{int_of}
use grix_hermes_python.Protocol.Clamp.{clamp_int-le}
use grix_hermes_python.Protocol.Names.{clamp_int}
use grix_hermes_python.Protocol.Settings.{
  GrixConnectionConfig, build_connection_config, resolve_event_queue_settings, dict_or_empty,
  listed,
}
use grix_hermes_python.Adapter.QueueSettings.{queue_settings, limit, event_queue_config}
use grix_hermes_python.EventQueue.State.{EventQueueConfig, new, in_group}
use grix_hermes_python.EventQueue.Step.{Call, run, AreFresh}
use grix_hermes_python.EventQueue.Invariant.{new-IsWellFormed}
use grix_hermes_python.EventQueue.Safety.{run-IsWellFormed}
use grix_hermes_python.EventQueue.Config.{run-config}

built-concurrency :
    (installed : String) (extra : Dict Value) (api_key : Value) (connection : GrixConnectionConfig)
    → build_connection_config installed extra api_key ≡ some connection
    → connection.concurrency ≡ some (resolve_event_queue_settings extra)
unfolding build_connection_config
built-concurrency installed extra api_key connection built =
    elim (Option-cases (listed (value_at "capabilities" extra))) [
      | inl missing ↦ ground arith
      | inr (capabilities, found) ↦ elim (Option-cases (listed (value_at "local_actions" extra))) [
        | inl missing ↦ ground arith
        | inr (local_actions, listed_too) ↦ ground arith
      ]
    ]

queue_settings-built :
    (extra : Dict Value) (connection : GrixConnectionConfig)
    → connection.concurrency ≡ some (resolve_event_queue_settings extra)
    → queue_settings connection ≡ resolve_event_queue_settings extra
unfolding queue_settings resolve_event_queue_settings
queue_settings-built extra connection given = rw (given, queue_settings) refl

abbrev setting_of : String → ℕ → ℕ → Dict Value → ℕ
setting_of key fallback maximum extra = pos_part (
    clamp_int (value_at key (dict_or_empty (value_at "event_queue" extra))) (pos fallback) (pos 0)
      (pos maximum))

setting-le :
    (key : String) (fallback maximum : ℕ) (extra : Dict Value)
    → fallback ≤ maximum
    → setting_of key fallback maximum extra ≤ maximum
setting-le key fallback maximum extra within = ground (
  arith,
  clamp_int-le (value_at key (dict_or_empty (value_at "event_queue" extra))) (pos fallback) (pos 0)
      (pos maximum),
)

abbrev pub config_of_settings : Dict Value → EventQueueConfig
config_of_settings extra = record {
  max_queued = setting_of "max_queued" 5 100 extra;
  queue_timeout_ms = setting_of "queue_timeout_ms" 0 86_400_000 extra;
  run_timeout_ms = setting_of "run_timeout_ms" 1_800_000 86_400_000 extra;
  cancelable_queued = true;
  cancelable_running = true;
}

event_queue_config-built :
    (extra : Dict Value) (connection : GrixConnectionConfig)
    → connection.concurrency ≡ some (resolve_event_queue_settings extra)
    → event_queue_config connection ≡ some (config_of_settings extra)
unfolding event_queue_config limit resolve_event_queue_settings get int_of
event_queue_config-built extra connection given =
    rw (queue_settings-built extra connection given, event_queue_config) refl

-- Whatever the settings of a connection that is built say, a queue is made of them, and in every
-- history of that queue from its start, in which events are submitted unheld, a group never runs
-- more than one event and never has more than 100 waiting.
pub configured_queue_bounded :
    {P : Type 0} (installed : String) (extra : Dict Value) (api_key : Value)
    (connection : GrixConnectionConfig)
    → build_connection_config installed extra api_key ≡ some connection
    → (calls : List (Call P)) (group_key : String) → AreFresh calls
    → (event_queue_config connection ≡ some (config_of_settings extra)
        × count (in_group group_key) (run calls (new (config_of_settings extra) true)).queued ≤ 100
        × count (in_group group_key) (run calls (new (config_of_settings extra) true)).running ≤ 1)
configured_queue_bounded installed extra api_key connection built calls group_key fresh =
    let begun = new (config_of_settings extra) true in
    let sound =
      run-IsWellFormed calls begun fresh (new-IsWellFormed (config_of_settings extra) true) in
    (
      event_queue_config-built extra connection
          (built-concurrency installed extra api_key connection built),
      ground (
        arith,
        sound.bounded group_key,
        run-config calls begun,
        setting-le "max_queued" 5 100 extra,
      ),
      sound.serial group_key,
    )
