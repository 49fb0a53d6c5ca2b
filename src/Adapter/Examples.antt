-- ===== src/Adapter/Examples.antt =====
-- Checks of grix_hermes/adapter.py's queue settings on concrete settings.
use grix_hermes_python.Prelude.{ℕ, ◌≤◌, ◌≡◌, refl, true, false, none, some, List, [], ◌∷◌, count}
use grix_hermes_python.Prelude.Dict.{Dict, get}
use grix_hermes_python.Prelude.Int.{pos}
use grix_hermes_python.Prelude.Text.{strip, is_space}
use grix_hermes_python.Json.{Value, dict_of, fields_of, value_at, text_of, str, truthy}
use grix_hermes_python.Json.Numbers.{int_of}
use grix_hermes_python.Protocol.Names.{clamp_int, normalize_text, normalize_names, names_from}
use grix_hermes_python.Protocol.Settings.{
  GrixConnectionConfig, build_connection_config, resolve_event_queue_settings, elements, listed,
  with_capabilities, with_local_actions, stable_auth_capabilities, stable_local_actions,
}
use grix_hermes_python.Adapter.QueueSettings.{event_queue_config, queue_settings, limit}
use grix_hermes_python.Adapter.QueueBounds.{config_of_settings, configured_queue_bounded}
use grix_hermes_python.EventQueue.State.{QueueItem, in_group, new}
use grix_hermes_python.EventQueue.Step.{Call, run}

-- A queue that is asked to hold a thousand events.
abbrev extra : Dict Value
extra =
    ("endpoint", Value.text " wss://host ")
    ∷ ("event_queue", Value.object (fields_of (("max_queued", Value.number (pos 1_000)) ∷ [])))
    ∷ []

abbrev connection : GrixConnectionConfig
connection = record {
  endpoint = "wss://host";
  agent_id = "";
  api_key = "k";
  account_id = "main";
  client = "hermes-agent";
  client_type = "hermes";
  client_version = "0.9";
  host_type = "hermes";
  host_version = none;
  contract_version = pos 1;
  capabilities = stable_auth_capabilities;
  local_actions = stable_local_actions;
  skills = [];
  connect_timeout_ms = pos 10_000;
  request_timeout_ms = pos 20_000;
  shared_owner_id = none;
  concurrency = some (resolve_event_queue_settings extra);
}

connection_built : build_connection_config "0.9" extra (Value.text "k") ≡ some connection
unfolding build_connection_config listed elements with_capabilities with_local_actions
    normalize_names names_from normalize_text text_of str truthy strip is_space value_at get
    fields_of dict_of clamp_int int_of
connection_built = refl

configured_test :
    event_queue_config connection
    ≡ some (record {
      max_queued = 100;
      queue_timeout_ms = 0;
      run_timeout_ms = 1_800_000;
      cancelable_queued = true;
      cancelable_running = true;
    })
unfolding event_queue_config queue_settings limit resolve_event_queue_settings value_at get
    fields_of dict_of clamp_int int_of
configured_test = refl

abbrev event : QueueItem ℕ
event = record {
  event_id = "e";
  session_id = "s";
  group_key = "g";
  owner_key = "";
  preview = "e";
  payload = 7;
  content = "e";
  held = false;
  held_reason = "";
}

abbrev calls : List (Call ℕ)
calls = Call.submit event ∷ Call.tick ∷ []

configured_queue_bounded_example :
    event_queue_config connection ≡ some (config_of_settings extra)
    × count (in_group "g") (run calls (new (config_of_settings extra) true)).queued ≤ 100
    × count (in_group "g") (run calls (new (config_of_settings extra) true)).running ≤ 1
configured_queue_bounded_example =
    configured_queue_bounded "0.9" extra (Value.text "k") connection connection_built calls "g"
      (refl, (tt, tt))
