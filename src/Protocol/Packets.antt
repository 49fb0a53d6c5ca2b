-- ===== src/Protocol/Packets.antt =====
-- The packets of grix_hermes/protocol.py: `build_packet`, `encode_packet`, `decode_packet` and the
-- fields that are read of a payload. `json.dumps` and `json.loads` are arguments.
use grix_hermes_python.Prelude.{ℕ, String, Option, [], ◌∷◌, ◌==◌, ◌||◌, if◌then◌else◌}
use grix_hermes_python.Prelude.Dict.{Dict}
use grix_hermes_python.Prelude.Int.{ℤ, pos, negsuc, eq_ℤ}
use grix_hermes_python.Prelude.Scan.{lower, starts_with}
use grix_hermes_python.Json.{Value, value_at, truthy, dict_of, fields_of}
use grix_hermes_python.Protocol.Names.{clamp_int, normalize_text}
use grix_hermes_python.Protocol.Settings.{some_text, dict_or_empty}

-- What a function returns, or the text of the ValueError it raises; "TypeError" stands for that error.
pub data Result {ℓ} (A : Type ℓ) : Type ℓ where
  raises : String → Result A
  returns : A → Result A

-- if not text: raise ValueError(message)
abbrev pub require : {A : Type 0} → String → String → Result A → Result A
require text message rest = if text == "" then Result.raises message else rest

-- v or w
abbrev pub or_value : Value → Value → Value
or_value v w = if truthy v then v else w

pub record Packet : Type 0 where
  pub cmd : String
  pub seq : ℤ
  pub payload : Dict Value

abbrev pub as_value : Packet → Value
as_value packet = Value.object (
    fields_of (
      ("cmd", Value.text packet.cmd)
      ∷ ("seq", Value.number packet.seq)
      ∷ ("payload", Value.object (fields_of packet.payload))
      ∷ []))

unfoldable pub build_packet : String → Dict Value → ℤ → Packet
build_packet cmd payload seq = record { cmd = cmd; seq = seq; payload = payload }

unfoldable pub encode_packet : (Value → String) → Packet → String
encode_packet dumps packet = dumps (as_value packet)

abbrev pub largest_seq : ℕ
largest_seq = 9_223_372_036_854_775_807

abbrev pub packet_of : String → Value → Value → Result Packet
packet_of cmd seq (Value.object payload) = Result.returns (record {
  cmd = cmd;
  seq = clamp_int seq (pos 0) (pos 0) (pos largest_seq);
  payload = dict_of payload;
})
packet_of cmd seq payload = Result.raises "grix packet requires object payload"

-- `decode_packet` behind `json.loads`.
unfoldable pub read_packet : Value → Result Packet
read_packet (Value.object fields) =
    let parsed = dict_of fields in
    let cmd = normalize_text (value_at "cmd" parsed) in
    require cmd "grix packet requires cmd"
      (packet_of cmd (value_at "seq" parsed) (value_at "payload" parsed))
read_packet parsed = Result.raises "grix packet must be an object"

-- A text that is no JSON raises a JSONDecodeError, which is a ValueError.
abbrev pub read_loaded : Result Value → Result Packet
read_loaded (Result.raises message) = Result.raises message
read_loaded (Result.returns parsed) = read_packet parsed

unfoldable pub decode_packet : (String → Result Value) → String → Result Packet
decode_packet loads text = read_loaded (loads text)

abbrev code_of : Value → ℤ
code_of value = clamp_int value (pos 0) (negsuc 999_998) (pos 999_999)

unfoldable pub parse_code : Dict Value → ℤ
parse_code payload = code_of (value_at "code" payload)

unfoldable pub parse_message : Dict Value → String
parse_message payload =
    normalize_text (or_value (value_at "msg" payload) (value_at "message" payload))

unfoldable pub parse_heartbeat_sec : Dict Value → ℤ
parse_heartbeat_sec payload =
    clamp_int (value_at "heartbeat_sec" payload) (pos 30) (pos 5) (pos 300)

-- clamp_int(payload.get(key), 0, -999_999, 999_999)
abbrev pub code_at : String → Dict Value → ℤ
code_at key payload = code_of (value_at key payload)

unfoldable pub resolve_chat_type : Dict Value → String
resolve_chat_type payload =
    let event_type = lower (normalize_text (value_at "event_type" payload)) in
    if eq_ℤ (code_at "session_type" payload) (pos 2) || starts_with "group_" event_type
    then "group"
    else "dm"

pub record GrixLocalAction : Type 0 where
  pub action_id : String
  pub action_type : String
  pub params : Dict Value
  pub event_id : Option String
  pub timeout_ms : ℤ
  pub raw : Dict Value

unfoldable pub normalize_local_action : Dict Value → GrixLocalAction
normalize_local_action payload = record {
  action_id = normalize_text (value_at "action_id" payload);
  action_type = normalize_text (value_at "action_type" payload);
  params = dict_or_empty (value_at "params" payload);
  event_id = some_text (normalize_text (value_at "event_id" payload));
  timeout_ms = clamp_int (value_at "timeout_ms" payload) (pos 0) (pos 0) (pos 2_147_483_647);
  raw = payload;
}
