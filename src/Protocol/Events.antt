-- ===== src/Protocol/Events.antt =====
-- The events of grix_hermes/protocol.py that are no messages: stop, revoke, edit, and the five of
-- the queue. Each raises a ValueError where an id is missing.
use grix_hermes_python.Prelude.{String, Bool, true, false, Option, none, some, if◌then◌else◌}
use grix_hermes_python.Prelude.Dict.{Dict}
use grix_hermes_python.Prelude.Int.{ℤ, pos, eq_ℤ}
use grix_hermes_python.Json.{Value, value_at, truthy, decimal_ℤ}
use grix_hermes_python.Protocol.Names.{normalize_text, normalize_id}
use grix_hermes_python.Protocol.Settings.{some_text, dict_or_empty}
use grix_hermes_python.Protocol.Packets.{Result, require, code_at, resolve_chat_type}

abbrev pub id_at : String → Dict Value → String
id_at key payload = normalize_id (value_at key payload)

abbrev pub text_at : String → Dict Value → String
text_at key payload = normalize_text (value_at key payload)

-- `n or None`
abbrev pub some_number : ℤ → Option ℤ
some_number n = if eq_ℤ n (pos 0) then none else some n

unfoldable pub normalize_message_text : Value → String
normalize_message_text (Value.text s) = s
normalize_message_text (Value.number n) = decimal_ℤ n
normalize_message_text (Value.boolean true) = "true"
normalize_message_text (Value.boolean false) = "false"
normalize_message_text _ = ""

pub record GrixStopEvent : Type 0 where
  pub event_id : String
  pub session_id : String
  pub chat_type : String
  pub stop_id : Option String
  pub reason : Option String
  pub trigger_message_id : Option String
  pub stream_message_id : Option String
  pub raw : Dict Value

pub record GrixRevokeEvent : Type 0 where
  pub event_id : String
  pub session_id : String
  pub chat_type : String
  pub message_id : String
  pub sender_id : Option String
  pub is_revoked : Bool
  pub system_text : Option String
  pub system_context_key : Option String
  pub raw : Dict Value

pub record GrixEditEvent : Type 0 where
  pub session_id : String
  pub chat_type : String
  pub message_id : String
  pub text : String
  pub sender_id : Option String
  pub sender_type : Option ℤ
  pub message_type : Option ℤ
  pub reply_to_message_id : Option String
  pub thread_id : Option String
  pub raw : Dict Value

unfoldable pub normalize_stop_event : Dict Value → Result GrixStopEvent
normalize_stop_event payload = require (id_at "event_id" payload) "stop event requires event_id" (
    require (id_at "session_id" payload) "stop event requires session_id" (
      Result.returns (record {
        event_id = id_at "event_id" payload;
        session_id = id_at "session_id" payload;
        chat_type = resolve_chat_type payload;
        stop_id = some_text (id_at "stop_id" payload);
        reason = some_text (text_at "reason" payload);
        trigger_message_id = some_text (id_at "trigger_msg_id" payload);
        stream_message_id = some_text (id_at "stream_msg_id" payload);
        raw = payload;
      })))

unfoldable pub normalize_revoke_event : Dict Value → Result GrixRevokeEvent
normalize_revoke_event payload =
    let system_event = dict_or_empty (value_at "system_event" payload) in
    require (id_at "event_id" payload) "revoke event requires event_id" (
      require (id_at "session_id" payload) "revoke event requires session_id" (
        require (id_at "msg_id" payload) "revoke event requires msg_id" (
          Result.returns (record {
            event_id = id_at "event_id" payload;
            session_id = id_at "session_id" payload;
            chat_type = resolve_chat_type payload;
            message_id = id_at "msg_id" payload;
            sender_id = some_text (id_at "sender_id" payload);
            is_revoked = truthy (value_at "is_revoked" payload);
            system_text = some_text (text_at "text" system_event);
            system_context_key = some_text (text_at "context_key" system_event);
            raw = payload;
          }))))

unfoldable pub normalize_edit_event : Dict Value → Result GrixEditEvent
normalize_edit_event payload =
    require (id_at "session_id" payload) "edit event requires session_id" (
      require (id_at "msg_id" payload) "edit event requires msg_id" (
        Result.returns (record {
          session_id = id_at "session_id" payload;
          chat_type = resolve_chat_type payload;
          message_id = id_at "msg_id" payload;
          text = normalize_message_text (value_at "content" payload);
          sender_id = some_text (id_at "sender_id" payload);
          sender_type = some_number (code_at "sender_type" payload);
          message_type = some_number (code_at "msg_type" payload);
          reply_to_message_id = some_text (id_at "quoted_message_id" payload);
          thread_id = some_text (id_at "thread_id" payload);
          raw = payload;
        })))
