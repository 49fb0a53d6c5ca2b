-- ===== src/Protocol/Settings.antt =====
-- The settings of a connection and its auth payload: `build_connection_config`,
-- `resolve_event_queue_settings` and `build_auth_payload` of grix_hermes/protocol.py, with the
-- constants of grix_hermes/contract.py. What the machine answers is an argument.
use grix_hermes_python.Prelude.{
  ℕ, String, Bool, true, false, Option, none, some, List, [], ◌∷◌, ◌==◌, map, if◌then◌else◌,
}
use grix_hermes_python.Prelude.Dict.{Dict}
use grix_hermes_python.Prelude.Int.{ℤ, pos}
use grix_hermes_python.Prelude.Text.{strip}
use grix_hermes_python.Prelude.Scan.{split_on}
use grix_hermes_python.Json.{Value, Fields, value_at, truthy, dict_of, list_of}
use grix_hermes_python.Protocol.Names.{clamp_int, normalize_text, normalize_names, ensure_names}

-- REQUIRED_AUTH_CAPABILITIES
abbrev pub required_auth_capabilities : List String
required_auth_capabilities = "local_action_v1" ∷ []

-- _FORCED_AUTH_CAPABILITIES
abbrev pub forced_auth_capabilities : List String
forced_auth_capabilities =
    "event_result_ack" ∷ "terminal_commit_v1" ∷ "audit_replay_v2" ∷ "session_send_quote_v1" ∷ []

-- STABLE_AUTH_CAPABILITIES
abbrev pub stable_auth_capabilities : List String
stable_auth_capabilities =
    "stream_chunk" ∷ "session_route" ∷ "thread_v1" ∷ "inbound_media_v1" ∷ "local_action_v1"
    ∷ "local_action_result_ack" ∷ "agent_invoke_v1" ∷ "event_result_ack" ∷ "terminal_commit_v1"
    ∷ "audit_replay_v2" ∷ "session_send_quote_v1" ∷ []

-- STABLE_LOCAL_ACTIONS
abbrev pub stable_local_actions : List String
stable_local_actions =
    "exec_approve" ∷ "exec_reject" ∷ "file_list" ∷ "create_folder" ∷ "set_model" ∷ "set_provider"
    ∷ "configure_gateway_provider" ∷ "apply_relay_state" ∷ "get_session_usage" ∷ "get_rate_limits"
    ∷ "connector_upgrade_push" ∷ "skill_upload" ∷ "skill_enable" ∷ "skill_disable" ∷ "skill_refresh"
    ∷ "audit_get_manifest" ∷ "audit_list_spans" ∷ "audit_get_content_chunk" ∷ []

-- The paths of the stores are left out: no function of this file sets or reads them.
pub record GrixConnectionConfig : Type 0 where
  pub endpoint : String
  pub agent_id : String
  pub api_key : String
  pub account_id : String
  pub client : String
  pub client_type : String
  pub client_version : String
  pub host_type : String
  pub host_version : Option String
  pub contract_version : ℤ
  pub capabilities : List String
  pub local_actions : List String
  pub skills : List Value
  pub connect_timeout_ms : ℤ
  pub request_timeout_ms : ℤ
  pub shared_owner_id : Option String
  pub concurrency : Option (Dict Value)

-- `s or default`
abbrev pub text_or : String → String → String
text_or s default = if s == "" then default else s

-- `s or None`
abbrev pub some_text : String → Option String
some_text s = if s == "" then none else some s

abbrev texts : List String → List Value
texts names = map (λ s. Value.text s) names

-- The characters of a text, each a text of its own.
abbrev characters : String → List Value
characters String.[] = []
characters (String.◌∷◌ c s) = Value.text (String.◌∷◌ c String.[]) ∷ characters s

abbrev keys : Fields → List Value
keys Fields.end = []
keys (Fields.field k v fs) = Value.text k ∷ keys fs

-- What a loop over `values or ()` sees, or `none` where it raises.
unfoldable pub elements : Value → Option (List Value)
elements (Value.text s) = some (characters s)
elements (Value.array vs) = some (list_of vs)
elements (Value.object fs) = some (keys fs)
elements v = if truthy v then none else some []

-- A text is cut at its commas first.
unfoldable pub listed : Value → Option (List Value)
listed (Value.text s) = some (texts (map strip (split_on "," s)))
listed v = elements v

abbrev is_empty : List String → Bool
is_empty [] = true
is_empty (x ∷ xs) = false

unfoldable pub with_capabilities : List String → List String
with_capabilities capabilities =
    if is_empty capabilities
    then stable_auth_capabilities
    else ensure_names (ensure_names capabilities required_auth_capabilities)
        forced_auth_capabilities

unfoldable pub with_local_actions : List String → List String
with_local_actions local_actions =
    if is_empty local_actions
    then stable_local_actions
    else ensure_names local_actions stable_local_actions

-- `settings = raw if isinstance(raw, dict) else {}`
abbrev pub dict_or_empty : Value → Dict Value
dict_or_empty (Value.object fs) = dict_of fs
dict_or_empty _ = []

abbrev bounded : String → ℕ → ℕ → Dict Value → Value
bounded key fallback maximum settings =
    Value.number (clamp_int (value_at key settings) (pos fallback) (pos 0) (pos maximum))

unfoldable pub resolve_event_queue_settings : Dict Value → Dict Value
resolve_event_queue_settings extra =
    let settings = dict_or_empty (value_at "event_queue" extra) in
    ("max_concurrent", Value.number (pos 1))
    ∷ ("max_queued", bounded "max_queued" 5 100 settings)
    ∷ ("queue_timeout_ms", bounded "queue_timeout_ms" 0 86_400_000 settings)
    ∷ ("run_timeout_ms", bounded "run_timeout_ms" 1_800_000 86_400_000 settings)
    ∷ ("cancelable_queued", Value.boolean true)
    ∷ ("cancelable_running", Value.boolean true)
    ∷ []

abbrev setting : Dict Value → String → String
setting extra key = normalize_text (value_at key extra)

abbrev config_of : String → Dict Value → Value → List String → List String → GrixConnectionConfig
config_of installed extra api_key capabilities local_actions = record {
  endpoint = setting extra "endpoint";
  agent_id = setting extra "agent_id";
  api_key = normalize_text api_key;
  account_id = text_or (setting extra "account_id") "main";
  client = text_or (setting extra "client") "hermes-agent";
  client_type = text_or (setting extra "client_type") "hermes";
  client_version = text_or (setting extra "client_version") installed;
  host_type = text_or (setting extra "host_type") "hermes";
  host_version = some_text (setting extra "host_version");
  contract_version = clamp_int (value_at "contract_version" extra) (pos 1) (pos 1) (pos 999_999);
  capabilities = with_capabilities capabilities;
  local_actions = with_local_actions local_actions;
  skills = [];
  connect_timeout_ms =
      clamp_int (value_at "connect_timeout_ms" extra) (pos 10_000) (pos 1_000) (pos 300_000);
  request_timeout_ms =
      clamp_int (value_at "request_timeout_ms" extra) (pos 20_000) (pos 1_000) (pos 300_000);
  shared_owner_id = none;
  concurrency = some (resolve_event_queue_settings extra);
}

-- `none` where the capabilities or the actions can not be looped over. `installed` is what
-- `_resolve_client_version` returns.
unfoldable pub build_connection_config : String → Dict Value → Value → Option GrixConnectionConfig
build_connection_config installed extra api_key = elim (listed (value_at "capabilities" extra)) [
  | none ↦ none
  | some capabilities ↦ elim (listed (value_at "local_actions" extra)) [
    | none ↦ none
    | some local_actions ↦ some (
        config_of installed extra api_key (normalize_names capabilities)
          (normalize_names local_actions))
  ]
]
