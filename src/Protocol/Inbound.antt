-- ===== src/Protocol/Inbound.antt =====
-- `normalize_inbound_message` of grix_hermes/protocol.py and its helpers.
use Prim.Native.String
use grix_hermes_python.Prelude.{
  String, Bool, false, Option, none, some, List, [], ◌∷◌, ◌==◌, ◌&&◌, map, not, if◌then◌else◌,
}
use grix_hermes_python.Prelude.Dict.{Dict}
use grix_hermes_python.Prelude.Int.{ℤ, pos, eq_ℤ}
use grix_hermes_python.Prelude.Scan.{lower}
use grix_hermes_python.Json.{Value, value_at, dict_of, list_of}
use grix_hermes_python.Protocol.Names.{normalize_text, normalize_id, names_from}
use grix_hermes_python.Protocol.Settings.{some_text, text_or, elements}
use grix_hermes_python.Protocol.Packets.{Result, require, or_value, code_at, resolve_chat_type}
use grix_hermes_python.Protocol.Events.{id_at, text_at, some_number, normalize_message_text}
use grix_hermes_python.Protocol.Cards.{CardAction, first_text, resolve_card_action}

pub record GrixInboundAttachment : Type 0 where
  pub url : String
  pub mime_type : Option String
  pub kind : Option String
  pub file_name : Option String

pub record GrixInboundMessage : Type 0 where
  pub event_id : String
  pub session_id : String
  pub sender_id : String
  pub sender_name : String
  pub chat_type : String
  pub text : String
  pub message_id : String
  pub mirror_mode : Option String
  pub content_type : String
  pub card_action_tag : Option String
  pub card_action_value : Value
  pub event_type : Option String
  pub session_type : Option ℤ
  pub chat_name : Option String
  pub chat_topic : Option String
  pub reply_to_message_id : Option String
  pub thread_id : Option String
  pub root_message_id : Option String
  pub thread_label : Option String
  pub mentioned_user_ids : List String
  pub attachments : List GrixInboundAttachment
  pub biz_card : Option (Dict Value)
  pub channel_data : Option (Dict Value)
  pub raw : Dict Value

-- f"{role} {sender_id}" if sender_id else role
abbrev called : String → String → String
called role sender_id =
    if sender_id == "" then role else String.◌++◌ role (String.◌++◌ " " sender_id)

abbrev by_sender_type : ℤ → String → String
by_sender_type sender_type sender_id =
    if eq_ℤ sender_type (pos 2)
    then called "Agent" sender_id
    else if eq_ℤ sender_type (pos 1)
    then called "User" sender_id
    else text_or sender_id "unknown"

unfoldable pub resolve_sender_name : Dict Value → String → String
resolve_sender_name payload sender_id =
    text_or
      (first_text ("sender_name" ∷ "sender_nickname" ∷ "nickname" ∷ "display_name" ∷ []) payload)
      (by_sender_type (code_at "sender_type" payload) sender_id)

-- normalize_text(value.get(a) or value.get(b))
abbrev pub either_text : String → String → Dict Value → String
either_text a b d = normalize_text (or_value (value_at a d) (value_at b d))

abbrev pub attachment_of : Dict Value → GrixInboundAttachment
attachment_of value = record {
  url = either_text "media_url" "url" value;
  mime_type = some_text (either_text "content_type" "mime" value);
  kind = some_text (lower (either_text "attachment_type" "kind" value));
  file_name = some_text (text_at "file_name" value);
}

unfoldable pub normalize_attachment : Value → Option GrixInboundAttachment
normalize_attachment (Value.object fs) =
    if either_text "media_url" "url" (dict_of fs) == ""
    then none
    else some (attachment_of (dict_of fs))
normalize_attachment value = none

abbrev pub with_attachment :
    Option GrixInboundAttachment → List GrixInboundAttachment → List GrixInboundAttachment
with_attachment none rest = rest
with_attachment (some attachment) rest = attachment ∷ rest

unfoldable pub normalize_attachments : List Value → List GrixInboundAttachment
normalize_attachments [] = []
normalize_attachments (entry ∷ rest) =
    with_attachment (normalize_attachment entry) (normalize_attachments rest)

unfoldable pub normalize_object : Value → Option (Dict Value)
normalize_object (Value.object fs) = some (dict_of fs)
normalize_object value = none

-- The loop is that of `normalize_names`, over ids.
unfoldable pub normalize_mentions : Value → List String
normalize_mentions (Value.array vs) = names_from [] (map normalize_id (list_of vs))
normalize_mentions value = []

abbrev pub has_tag : Option String → Bool
has_tag none = false
has_tag (some tag) = not (tag == "")

abbrev pub content_type_of : CardAction → String → String
content_type_of action text_content =
    if has_tag action.tag
    then "card_action"
    else if action.has_signal && text_content == ""
    then "interactive_invalid"
    else "text"

abbrev pub message_of : Dict Value → List Value → CardAction → GrixInboundMessage
message_of payload entries action = record {
  event_id = id_at "event_id" payload;
  session_id = id_at "session_id" payload;
  sender_id = id_at "sender_id" payload;
  sender_name = resolve_sender_name payload (id_at "sender_id" payload);
  chat_type = resolve_chat_type payload;
  text = normalize_message_text (value_at "content" payload);
  message_id = id_at "msg_id" payload;
  mirror_mode = some_text (lower (text_at "mirror_mode" payload));
  content_type = content_type_of action (normalize_message_text (value_at "content" payload));
  card_action_tag = action.tag;
  card_action_value = action.value;
  event_type = some_text (lower (text_at "event_type" payload));
  session_type = some_number (code_at "session_type" payload);
  chat_name = some_text (first_text ("session_name" ∷ "conversation_name" ∷ "name" ∷ []) payload);
  chat_topic = some_text (first_text ("chat_topic" ∷ "thread_label" ∷ []) payload);
  reply_to_message_id = some_text (id_at "quoted_message_id" payload);
  thread_id = some_text (id_at "thread_id" payload);
  root_message_id = some_text (id_at "root_msg_id" payload);
  thread_label = some_text (text_at "thread_label" payload);
  mentioned_user_ids = normalize_mentions (value_at "mention_user_ids" payload);
  attachments = normalize_attachments entries;
  biz_card = normalize_object (value_at "biz_card" payload);
  channel_data = normalize_object (value_at "channel_data" payload);
  raw = payload;
}

-- The message behind the checks of its ids. Attachments that can not be looped over raise a
-- TypeError.
unfoldable pub read_message :
    Option (String → String) → (String → Result Value) → Dict Value → Result GrixInboundMessage
read_message native loads payload = elim (elements (value_at "attachments" payload)) [
  | none ↦ Result.raises "TypeError"
  | some entries ↦ Result.returns (
      message_of payload entries (
        resolve_card_action native loads payload (normalize_object (value_at "biz_card" payload))
          (normalize_object (value_at "channel_data" payload)) (value_at "content" payload)))
]

unfoldable pub normalize_inbound_message :
    Option (String → String) → (String → Result Value) → Dict Value → Result GrixInboundMessage
normalize_inbound_message native loads payload =
    require (id_at "event_id" payload) "inbound message requires event_id" (
      require (id_at "session_id" payload) "inbound message requires session_id" (
        require (id_at "msg_id" payload) "inbound message requires msg_id"
          (read_message native loads payload)))
