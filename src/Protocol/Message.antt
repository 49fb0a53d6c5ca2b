-- ===== src/Protocol/Message.antt =====
-- The messages that `normalize_inbound_message` of grix_hermes/protocol.py gives.
use mathlib.Core.Path.{subst}
use grix_hermes_python.Prelude.{
  String, ◌≡◌, refl, sym, arith, true, false, Option, none, some, Option-cases, inl, inr, List, [],
  ◌∷◌, map, ◌==◌, ◌&&◌, not, member, if_elim,
}
use grix_hermes_python.Prelude.Dict.{Dict}
use grix_hermes_python.Json.{Value, value_at, dict_of, list_of}
use grix_hermes_python.Protocol.Names.{normalize_id, names_from}
use grix_hermes_python.Protocol.Settings.{elements}
use grix_hermes_python.Protocol.Packets.{Result}
use grix_hermes_python.Protocol.Events.{id_at, normalize_message_text}
use grix_hermes_python.Protocol.Cards.{CardAction}
use grix_hermes_python.Protocol.Inbound.{
  GrixInboundAttachment, GrixInboundMessage, normalize_attachment, normalize_attachments,
  normalize_mentions, has_tag, content_type_of, message_of, read_message, normalize_inbound_message,
  either_text, with_attachment, attachment_of,
}
use grix_hermes_python.Protocol.Distinct.{distinct, names_from-distinct}

abbrev pub AreLinked : List GrixInboundAttachment → Type 0
AreLinked [] = Unit
AreLinked (a ∷ rest) = (a.url == "") ≡ false × AreLinked rest

-- What the adapter may rely on: the three ids are there, no user is mentioned twice or without an
-- id, every attachment has an address, and the content type says whether there is a card action,
-- and is `interactive_invalid` only for a message without text.
pub record IsWhole (message : GrixInboundMessage) : Type 0 where
  pub event : (message.event_id == "") ≡ false
  pub session : (message.session_id == "") ≡ false
  pub own : (message.message_id == "") ≡ false
  pub mentions : distinct message.mentioned_user_ids ≡ true
  pub named : member "" message.mentioned_user_ids ≡ false
  pub linked : AreLinked message.attachments
  pub card : (message.content_type == "card_action") ≡ has_tag message.card_action_tag
  pub invalid : (message.content_type == "interactive_invalid") && not (message.text == "") ≡ false

abbrev IsWholeResult : Result GrixInboundMessage → Type 0
IsWholeResult (Result.raises message) = Unit
IsWholeResult (Result.returns message) = IsWhole message

normalize_attachments-AreLinked : (entries : List Value) → AreLinked (normalize_attachments entries)
unfolding normalize_attachments normalize_attachment
normalize_attachments-AreLinked [] = tt
normalize_attachments-AreLinked (Value.object fs ∷ rest) =
    let later = normalize_attachments-AreLinked rest in
    if_elim (λ found. AreLinked (with_attachment found (normalize_attachments rest)))
      (either_text "media_url" "url" (dict_of fs) == "") none (some (attachment_of (dict_of fs)))
      (λ _. later) (λ named. (named, later))
normalize_attachments-AreLinked (Value.null ∷ rest) = normalize_attachments-AreLinked rest
normalize_attachments-AreLinked (Value.boolean b ∷ rest) = normalize_attachments-AreLinked rest
normalize_attachments-AreLinked (Value.number n ∷ rest) = normalize_attachments-AreLinked rest
normalize_attachments-AreLinked (Value.text s ∷ rest) = normalize_attachments-AreLinked rest
normalize_attachments-AreLinked (Value.array vs ∷ rest) = normalize_attachments-AreLinked rest

names_from-named : (seen values : List String) → member "" (names_from seen values) ≡ false
unfolding names_from member
names_from-named seen [] = refl
names_from-named seen (v ∷ vs) =
    ground (arith, names_from-named seen vs, names_from-named (v ∷ seen) vs)

normalize_mentions-distinct : (v : Value) → distinct (normalize_mentions v) ≡ true
unfolding normalize_mentions
normalize_mentions-distinct (Value.array vs) =
    names_from-distinct [] (map normalize_id (list_of vs))
normalize_mentions-distinct _ = refl

normalize_mentions-named : (v : Value) → member "" (normalize_mentions v) ≡ false
unfolding normalize_mentions member
normalize_mentions-named (Value.array vs) = names_from-named [] (map normalize_id (list_of vs))
normalize_mentions-named _ = refl

content_type_of-card :
    (action : CardAction) (text : String)
    → (content_type_of action text == "card_action") ≡ has_tag action.tag
content_type_of-card action text =
    if_elim (λ (s : String). (s == "card_action") ≡ has_tag action.tag) (has_tag action.tag)
      "card_action" _ (λ tagged. sym tagged)
      (λ untagged.
        if_elim (λ (s : String). (s == "card_action") ≡ has_tag action.tag)
          (action.has_signal && text == "") "interactive_invalid" "text" (λ _. sym untagged)
          (λ _. sym untagged))

content_type_of-invalid :
    (action : CardAction) (text : String)
    → (content_type_of action text == "interactive_invalid") && not (text == "") ≡ false
content_type_of-invalid action text =
    if_elim (λ (s : String). (s == "interactive_invalid") && not (text == "") ≡ false)
      (has_tag action.tag) "card_action" _ (λ _. refl)
      (λ _.
        if_elim (λ (s : String). (s == "interactive_invalid") && not (text == "") ≡ false)
          (action.has_signal && text == "") "interactive_invalid" "text" (λ both. ground arith)
          (λ _. refl))

message_of-IsWhole :
    (payload : Dict Value) (entries : List Value) (action : CardAction)
    → (id_at "event_id" payload == "") ≡ false
    → (id_at "session_id" payload == "") ≡ false
    → (id_at "msg_id" payload == "") ≡ false
    → IsWhole (message_of payload entries action)
message_of-IsWhole payload entries action event session own = record {
  event = event;
  session = session;
  own = own;
  mentions = normalize_mentions-distinct (value_at "mention_user_ids" payload);
  named = normalize_mentions-named (value_at "mention_user_ids" payload);
  linked = normalize_attachments-AreLinked entries;
  card = content_type_of-card action (normalize_message_text (value_at "content" payload));
  invalid = content_type_of-invalid action (normalize_message_text (value_at "content" payload));
}

module _ (native : Option (String → String)) (loads : String → Result Value) where
  read_message-IsWhole :
      (payload : Dict Value)
      → (id_at "event_id" payload == "") ≡ false
      → (id_at "session_id" payload == "") ≡ false
      → (id_at "msg_id" payload == "") ≡ false
      → IsWholeResult (read_message native loads payload)
  unfolding read_message
  read_message-IsWhole payload event session own =
      elim (Option-cases (elements (value_at "attachments" payload))) [
        | inl missing ↦ rw (missing, read_message) tt
        | inr (entries, found) ↦
            rw (found, read_message) (message_of-IsWhole payload entries _ event session own)
      ]

  whole : (payload : Dict Value) → IsWholeResult (normalize_inbound_message native loads payload)
  unfolding normalize_inbound_message
  whole payload =
      if_elim IsWholeResult (id_at "event_id" payload == "") _ _ (λ _. tt)
        (λ event.
          if_elim IsWholeResult (id_at "session_id" payload == "") _ _ (λ _. tt)
            (λ session.
              if_elim IsWholeResult (id_at "msg_id" payload == "")
                (Result.raises "inbound message requires msg_id")
                (read_message native loads payload) (λ _. tt)
                (read_message-IsWhole payload event session)))

  -- A message that `normalize_inbound_message` returns is whole: its three ids are there, no user
  -- is mentioned twice or without an id, every attachment has an address, and its content type is
  -- `card_action` exactly if it has a card action, and `interactive_invalid` only if it has no
  -- text.
  pub normalize_inbound_message-IsWhole :
      (payload : Dict Value) (message : GrixInboundMessage)
      → normalize_inbound_message native loads payload ≡ Result.returns message
      → IsWhole message
  normalize_inbound_message-IsWhole payload message returned =
      subst IsWholeResult returned (whole payload)
