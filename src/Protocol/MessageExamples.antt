-- ===== src/Protocol/MessageExamples.antt =====
-- Checks of `normalize_inbound_message` of grix_hermes/protocol.py on concrete payloads.
use grix_hermes_python.Prelude.{String, ◌≡◌, refl, true, none, some, [], ◌∷◌, member}
use grix_hermes_python.Prelude.Dict.{Dict, get, has}
use grix_hermes_python.Prelude.Int.{pos}
use grix_hermes_python.Prelude.Scan.{lower, starts_with, contains, replace}
use grix_hermes_python.Prelude.Text.{strip, is_space}
use grix_hermes_python.Json.{
  Value, fields_of, dict_of, items_of, list_of, value_at, text_of, str, truthy, decimal_ℤ, decimal,
}
use grix_hermes_python.Json.Numbers.{int_of}
use grix_hermes_python.Protocol.Names.{clamp_int, normalize_text, normalize_id, names_from}
use grix_hermes_python.Protocol.Settings.{elements}
use grix_hermes_python.Protocol.Packets.{Result, resolve_chat_type}
use grix_hermes_python.Protocol.Sanitize.{
  sanitize_card_action_tag, cleaned, lstrip_marks, rstrip_marks,
}
use grix_hermes_python.Protocol.Events.{normalize_message_text}
use grix_hermes_python.Protocol.Cards.{
  resolve_card_action, load_structured_content, encoded_size, is_card_action_event_type, any_in,
  any_has, first_text, parts, iter_card_action_candidates, first_action,
  normalize_card_action_candidate, extract_action_tag, extract_action_value, value_of_first,
}
use grix_hermes_python.Protocol.Inbound.{
  GrixInboundMessage, normalize_inbound_message, read_message, normalize_attachment,
  normalize_attachments, normalize_mentions, normalize_object, resolve_sender_name,
}
use grix_hermes_python.Protocol.Message.{IsWhole, normalize_inbound_message-IsWhole}

abbrev loads : String → Result Value
loads text = Result.raises "no JSON"

-- A press on a card's button, by an agent, with an attachment that has no address.
abbrev payload : Dict Value
payload =
    ("event_id", Value.text "e1")
    ∷ ("session_id", Value.number (pos 12))
    ∷ ("msg_id", Value.text " m1 ")
    ∷ ("sender_type", Value.number (pos 2))
    ∷ ("sender_id", Value.text "u7")
    ∷ (
      "mention_user_ids",
      Value.array (items_of (Value.text "a" ∷ Value.text "b" ∷ Value.text "a" ∷ [])),
    )
    ∷ (
      "attachments",
      Value.array (
          items_of (
            Value.object (fields_of (("kind", Value.text "image") ∷ []))
            ∷ Value.object (fields_of (("url", Value.text "https://x") ∷ []))
            ∷ [])),
    )
    ∷ (
      "channel_data",
      Value.object (
          fields_of (
            (
              "card_action",
              Value.object (
                  fields_of (("tag", Value.text "Vote Up") ∷ ("value", Value.number (pos 1)) ∷ [])),
            )
            ∷ [])),
    )
    ∷ []

abbrev message : GrixInboundMessage
message = record {
  event_id = "e1";
  session_id = "12";
  sender_id = "u7";
  sender_name = "Agent u7";
  chat_type = "dm";
  text = "";
  message_id = "m1";
  mirror_mode = none;
  content_type = "card_action";
  card_action_tag = some "vote_up";
  card_action_value = Value.number (pos 1);
  event_type = none;
  session_type = none;
  chat_name = none;
  chat_topic = none;
  reply_to_message_id = none;
  thread_id = none;
  root_message_id = none;
  thread_label = none;
  mentioned_user_ids = "a" ∷ "b" ∷ [];
  attachments = record { url = "https://x"; mime_type = none; kind = none; file_name = none } ∷ [];
  biz_card = none;
  channel_data = some (
      (
        "card_action",
        Value.object
            (fields_of (("tag", Value.text "Vote Up") ∷ ("value", Value.number (pos 1)) ∷ [])),
      )
      ∷ []);
  raw = payload;
}

message_read : normalize_inbound_message none loads payload ≡ Result.returns message
unfolding normalize_inbound_message read_message normalize_attachment normalize_attachments
    normalize_mentions normalize_object resolve_sender_name resolve_card_action
    load_structured_content encoded_size is_card_action_event_type any_in any_has first_text parts
    iter_card_action_candidates first_action normalize_card_action_candidate extract_action_tag
    extract_action_value value_of_first normalize_message_text sanitize_card_action_tag cleaned
    lstrip_marks rstrip_marks resolve_chat_type elements clamp_int normalize_text normalize_id
    names_from int_of fields_of dict_of items_of list_of value_at text_of str truthy decimal_ℤ
    decimal strip is_space lower starts_with contains replace get has member
message_read = refl

normalize_inbound_message-IsWhole_example : IsWhole message
normalize_inbound_message-IsWhole_example =
    normalize_inbound_message-IsWhole none loads payload message message_read

no_action_test :
    resolve_card_action none loads (("callback", Value.null) ∷ []) none none (Value.text "hi")
    ≡ record { tag = none; value = Value.null; has_signal = true }
unfolding resolve_card_action load_structured_content encoded_size is_card_action_event_type any_in
    any_has first_text parts iter_card_action_candidates first_action
    normalize_card_action_candidate normalize_text value_at text_of str truthy strip is_space lower
    starts_with contains get has
no_action_test = refl
