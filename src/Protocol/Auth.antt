-- ===== src/Protocol/Auth.antt =====
-- `build_auth_payload` of grix_hermes/protocol.py.
use grix_hermes_python.Prelude.{
  String, Option, none, some, List, [], ◌∷◌, ◌++◌, ◌==◌, map, if◌then◌else◌,
}
use grix_hermes_python.Prelude.Dict.{Dict, get, put}
use grix_hermes_python.Prelude.Scan.{lower}
use grix_hermes_python.Json.{Value, fields_of, items_of}
use grix_hermes_python.Protocol.Names.{normalize_names}
use grix_hermes_python.Protocol.Settings.{
  GrixConnectionConfig, with_capabilities, with_local_actions,
}

-- What the modules `socket` and `platform` answer, and `host_meta_fields()`, which is empty where
-- it raises.
pub record Host : Type 0 where
  pub hostname : String
  pub system : String
  pub machine : String
  pub release : String
  pub fields : Dict Value

abbrev pub text_list : List String → Value
text_list names = Value.array (items_of (map (λ s. Value.text s) names))

-- A key where the text is there and not empty.
abbrev text_key : String → Option String → Dict Value
text_key key none = []
text_key key (some s) = if s == "" then [] else (key, Value.text s) ∷ []

abbrev skills_key : List Value → Dict Value
skills_key [] = []
skills_key (v ∷ vs) = ("skills", Value.array (items_of (v ∷ vs))) ∷ []

abbrev pub handshake_concurrency_fields : List String
handshake_concurrency_fields =
    "max_concurrent" ∷ "max_queued" ∷ "queue_timeout_ms" ∷ "cancelable_queued"
    ∷ "cancelable_running" ∷ []

abbrev with_key : String → Option Value → Dict Value → Dict Value
with_key key none rest = rest
with_key key (some v) rest = (key, v) ∷ rest

-- The named keys that are there.
unfoldable pub only : List String → Dict Value → Dict Value
only [] d = []
only (key ∷ rest) d = with_key key (get key d) (only rest d)

abbrev concurrency_key : Option (Dict Value) → Dict Value
concurrency_key none = []
concurrency_key (some []) = []
concurrency_key (some (x ∷ d)) =
    ("concurrency", Value.object (fields_of (only handshake_concurrency_fields (x ∷ d)))) ∷ []

-- d.update(e)
unfoldable pub update : Dict Value → Dict Value → Dict Value
update d [] = d
update d ((k, v) ∷ e) = update (put k v d) e

unfoldable pub host_meta : Host → Dict Value
unfolding update
host_meta host =
    update
      (("hostname", Value.text host.hostname)
        ∷ ("platform", Value.text (lower host.system))
        ∷ ("arch", Value.text host.machine)
        ∷ ("os_release", Value.text host.release)
        ∷ [])
      host.fields

abbrev pub as_values : List String → List Value
as_values names = map (λ s. Value.text s) names

unfoldable pub build_auth_payload : Host → GrixConnectionConfig → Dict Value
build_auth_payload host config =
    ("agent_id", Value.text config.agent_id)
    ∷ ("api_key", Value.text config.api_key)
    ∷ ("client", Value.text config.client)
    ∷ ("client_type", Value.text config.client_type)
    ∷ ("client_version", Value.text config.client_version)
    ∷ ("protocol_version", Value.text "aibot-agent-api-v1")
    ∷ ("contract_version", Value.number config.contract_version)
    ∷ ("host_type", Value.text config.host_type)
    ∷ (
      "capabilities",
      text_list (with_capabilities (normalize_names (as_values config.capabilities))),
    )
    ∷ (
      "local_actions",
      text_list (with_local_actions (normalize_names (as_values config.local_actions))),
    )
    ∷ (text_key "host_version" config.host_version
        ++ (skills_key config.skills
            ++ (text_key "shared_owner_id" config.shared_owner_id
                ++ (concurrency_key config.concurrency
                    ++ (("host_meta", Value.object (fields_of (host_meta host))) ∷ [])))))
