-- ===== src/Protocol/Examples.antt =====
-- Checks of grix_hermes/protocol.py on concrete payloads.
use grix_hermes_python.Prelude.{
  String, ◌≡◌, refl, arith, true, none, some, List, [], ◌∷◌, keep, map, member,
}
use grix_hermes_python.Prelude.Dict.{Dict, get}
use grix_hermes_python.Prelude.Firsts.{firsts}
use grix_hermes_python.Prelude.Int.{pos, negsuc}
use grix_hermes_python.Prelude.Scan.{lower, starts_with}
use grix_hermes_python.Prelude.Text.{strip, is_space}
use grix_hermes_python.Json.{
  Value, fields_of, dict_of, items_of, list_of, value_at, text_of, str, truthy, decimal_ℤ, decimal,
}
use grix_hermes_python.Json.Numbers.{int_of}
use grix_hermes_python.Protocol.Names.{
  clamp_int, normalize_text, normalize_id, names_from, normalize_names, ensure_names,
}
use grix_hermes_python.Protocol.Settings.{GrixConnectionConfig, with_capabilities}
use grix_hermes_python.Protocol.Auth.{Host, build_auth_payload, text_list, as_values}
use grix_hermes_python.Protocol.Packets.{
  Result, Packet, as_value, build_packet, encode_packet, decode_packet, read_packet,
  resolve_chat_type, parse_heartbeat_sec,
}
use grix_hermes_python.Protocol.RoundTrip.{decode-encode, IsUsable, decode_packet-IsUsable}
use grix_hermes_python.Protocol.Distinct.{is_named, normalize_names-firsts}
use grix_hermes_python.Protocol.Capabilities.{IsComplete, auth_capabilities-IsComplete}
use grix_hermes_python.Protocol.Checked.{error_of, first_missing, events_checked}
use grix_hermes_python.Protocol.Events.{
  normalize_stop_event, normalize_revoke_event, normalize_edit_event,
}
use grix_hermes_python.Protocol.Controls.{
  ids_of, normalize_event_cancel, normalize_queue_clear, normalize_event_hold, normalize_queue_edit,
  normalize_queue_reorder, normalize_queue_snapshot_query,
}

abbrev ping : Packet
ping = record { cmd = "ping"; seq = pos 7; payload = ("ts", Value.number (pos 5)) ∷ [] }

-- A text that `dumps` writes for one value and `loads` reads back.
abbrev dumps : Value → String
dumps value = "{...}"

abbrev loads : String → Result Value
loads text = Result.returns (as_value ping)

decode-encode_example :
    decode_packet loads
      (encode_packet dumps (build_packet "ping" (("ts", Value.number (pos 5)) ∷ []) (pos 7)))
    ≡ Result.returns (build_packet "ping" (("ts", Value.number (pos 5)) ∷ []) (pos 7))
unfolding strip is_space build_packet
decode-encode_example =
    decode-encode dumps loads "ping" (("ts", Value.number (pos 5)) ∷ []) (pos 7) refl refl
      (omega arith) (omega arith) refl

ping_decoded : decode_packet loads "{...}" ≡ Result.returns ping
unfolding decode_packet read_packet value_at get fields_of dict_of normalize_text text_of str truthy
    strip is_space clamp_int int_of
ping_decoded = refl

decode_packet-IsUsable_example : IsUsable ping
decode_packet-IsUsable_example = decode_packet-IsUsable loads "{...}" ping ping_decoded

abbrev names : List Value
names = Value.text " a " ∷ Value.null ∷ Value.text "b" ∷ Value.text "a" ∷ Value.number (pos 12) ∷ []

names_test : normalize_names names ≡ "a" ∷ "b" ∷ "12" ∷ []
unfolding normalize_names names_from normalize_text text_of str truthy strip is_space member
    decimal_ℤ decimal
names_test = refl

normalize_names-firsts_example :
    normalize_names names ≡ firsts (keep is_named (map normalize_text names))
normalize_names-firsts_example = normalize_names-firsts names

abbrev host : Host
host = record { hostname = "h"; system = "Linux"; machine = "arm64"; release = "6.1"; fields = [] }

abbrev connection : GrixConnectionConfig
connection = record {
  endpoint = "wss://host";
  agent_id = "a";
  api_key = "k";
  account_id = "main";
  client = "hermes-agent";
  client_type = "hermes";
  client_version = "0.9";
  host_type = "hermes";
  host_version = none;
  contract_version = pos 1;
  capabilities = "thread_v1" ∷ "local_action_v1" ∷ [];
  local_actions = "file_list" ∷ [];
  skills = [];
  connect_timeout_ms = pos 10_000;
  request_timeout_ms = pos 20_000;
  shared_owner_id = none;
  concurrency = none;
}

capabilities_test :
    with_capabilities (normalize_names (as_values connection.capabilities))
    ≡ "thread_v1" ∷ "local_action_v1" ∷ "event_result_ack" ∷ "terminal_commit_v1"
      ∷ "audit_replay_v2" ∷ "session_send_quote_v1" ∷ []
unfolding with_capabilities ensure_names normalize_names names_from normalize_text text_of str
    truthy strip is_space member
capabilities_test = refl

auth_capabilities-IsComplete_example :
    get "capabilities" (build_auth_payload host connection)
      ≡ some (text_list (with_capabilities (normalize_names (as_values connection.capabilities))))
    × IsComplete (with_capabilities (normalize_names (as_values connection.capabilities)))
auth_capabilities-IsComplete_example = auth_capabilities-IsComplete host connection

-- The id of the event is a number, and the session has none.
abbrev incomplete : Dict Value
incomplete = ("event_id", Value.number (pos 9)) ∷ ("session_id", Value.boolean true) ∷ []

incomplete_test : error_of (normalize_stop_event incomplete) ≡ some "stop event requires session_id"
unfolding normalize_stop_event normalize_id value_at get decimal_ℤ decimal
incomplete_test = refl

events_checked_example :
    error_of (normalize_stop_event incomplete)
      ≡ first_missing "stop event" ("event_id" ∷ "session_id" ∷ []) incomplete
    × error_of (normalize_revoke_event incomplete)
      ≡ first_missing "revoke event" ("event_id" ∷ "session_id" ∷ "msg_id" ∷ []) incomplete
    × error_of (normalize_edit_event incomplete)
      ≡ first_missing "edit event" ("session_id" ∷ "msg_id" ∷ []) incomplete
    × error_of (normalize_event_cancel incomplete)
      ≡ first_missing "event_cancel" ("event_id" ∷ "session_id" ∷ []) incomplete
    × error_of (normalize_queue_clear incomplete)
      ≡ first_missing "queue_clear" ("session_id" ∷ []) incomplete
    × error_of (normalize_event_hold incomplete)
      ≡ first_missing "event_hold" ("event_id" ∷ "session_id" ∷ []) incomplete
    × error_of (normalize_queue_edit incomplete)
      ≡ first_missing "queue_edit" ("event_id" ∷ "session_id" ∷ []) incomplete
    × error_of (normalize_queue_reorder incomplete)
      ≡ first_missing "queue_reorder" ("session_id" ∷ []) incomplete
    × error_of (normalize_queue_snapshot_query incomplete)
      ≡ first_missing "queue_snapshot_query" ("session_id" ∷ []) incomplete
events_checked_example = events_checked incomplete

heartbeat_test : parse_heartbeat_sec (("heartbeat_sec", Value.text "900") ∷ []) ≡ pos 300
unfolding parse_heartbeat_sec clamp_int int_of value_at get strip is_space
heartbeat_test = refl

group_test : resolve_chat_type (("event_type", Value.text "GROUP_message") ∷ []) ≡ "group"
unfolding resolve_chat_type value_at get normalize_text text_of str truthy strip is_space clamp_int
    int_of lower starts_with
group_test = refl

reorder_test :
    normalize_queue_reorder (
      ("session_id", Value.text "s")
      ∷ (
        "ordered_event_ids",
        Value.array
            (items_of (Value.text " b " ∷ Value.boolean true ∷ Value.number (negsuc 3) ∷ [])),
      )
      ∷ [])
    ≡ Result.returns (record {
      session_id = "s";
      ordered_event_ids = "b" ∷ "-4" ∷ [];
      raw =
          ("session_id", Value.text "s")
          ∷ (
            "ordered_event_ids",
            Value.array
                (items_of (Value.text " b " ∷ Value.boolean true ∷ Value.number (negsuc 3) ∷ [])),
          )
          ∷ [];
    })
unfolding normalize_queue_reorder ids_of normalize_id value_at get items_of list_of strip is_space
    decimal_ℤ decimal
reorder_test = refl
