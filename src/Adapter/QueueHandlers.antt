-- ===== src/Adapter/QueueHandlers.antt =====
-- The handlers of the packets for one queued event in grix_hermes/adapter.py:
-- `_handle_event_hold_packet` and `_handle_queue_edit_packet`. SessionHandlers has the others.
-- Each changes the queue before its first `await`, and awaits only calls that send. `sent` says
-- which of these calls return; the others raise. `with_message_text` is what writes a text into the
-- message that the payload of an item holds.
use grix_hermes_python.Prelude.{
  String, Bool, true, false, Option, none, some, List, [], ◌∷◌, ◌==◌, ◌&&◌, ◌||◌, not,
  if◌then◌else◌,
}
use grix_hermes_python.Prelude.Dict.{Dict}
use grix_hermes_python.Prelude.Int.{pos_part}
use grix_hermes_python.Prelude.Text.{strip}
use grix_hermes_python.Json.{Value, value_at, text_of}
use grix_hermes_python.Protocol.Settings.{text_or}
use grix_hermes_python.Protocol.Packets.{Result}
use grix_hermes_python.Protocol.Controls.{
  GrixEventHoldEvent, GrixQueueEditEvent, normalize_event_hold, normalize_queue_edit,
}
use grix_hermes_python.EventQueue.State.{QueueItem, EventQueue, update_item}
use grix_hermes_python.EventQueue.Query.{find, is_running}
use grix_hermes_python.EventQueue.Hold

-- A call of the client, with its session first, or of `_push_queue_snapshot`.
pub data Send : Type 0 where
  hold_result : String → String → Bool → Bool → String → Send
  edit_result : String → String → Bool → String → Send
  reorder_result : String → List String → Send
  clear_result : String → List String → Send
  clear_failed : String → Send
  push_snapshot : String → String → Send

-- The body of a `try`: calls up to the first that raises, and then what the handler of the
-- exception sends.
unfoldable pub attempt : (Send → Bool) → List Send → List Send → List Send
attempt sent [] fallback = []
attempt sent (send ∷ rest) fallback =
    let later = attempt sent rest fallback in if sent send then send ∷ later else send ∷ fallback

abbrev hold_refused : GrixEventHoldEvent → String → Send
hold_refused hold_ev error = Send.hold_result hold_ev.session_id hold_ev.event_id false false error

abbrev edit_refused : GrixQueueEditEvent → String → Send
edit_refused edit_ev error = Send.edit_result edit_ev.session_id edit_ev.event_id false error

module _ {P : Type 0} where
  unfoldable pub find_owned_queued_item :
      String → String → String → EventQueue P → Option (QueueItem P)
  find_owned_queued_item event_id session_id owner_key q = elim (find event_id q) [
    | none ↦ none
    | some item ↦
        if is_running event_id q
          || not (item.session_id == session_id)
          || not (item.owner_key == owner_key)
        then none
        else some item
  ]

  -- The queue, and whether the item is held when the result is sent.
  unfoldable pub set_hold : GrixEventHoldEvent → QueueItem P → EventQueue P → EventQueue P × Bool
  set_hold hold_ev item q =
      let held =
        Hold.hold hold_ev.event_id (text_or hold_ev.reason "manual") (pos_part hold_ev.ttl_ms) q in
      let released = Hold.release hold_ev.event_id q in
      if hold_ev.hold
      then (held.0, held.1 || item.held)
      else (released.0, not released.1 && item.held)

  unfoldable pub answer_hold :
      (Send → Bool) → String → GrixEventHoldEvent → EventQueue P → EventQueue P × List Send
  answer_hold sent owner_key hold_ev q =
      elim (find_owned_queued_item hold_ev.event_id hold_ev.session_id owner_key q) [
        | none ↦ (
          q,
          attempt sent (hold_refused hold_ev "not_found" ∷ [])
              (hold_refused hold_ev "bad_request" ∷ []),
        )
        | some item ↦ (
          (set_hold hold_ev item q).0,
          attempt sent
              (Send.hold_result hold_ev.session_id hold_ev.event_id true (set_hold hold_ev item q).1
                  ""
                ∷ Send.push_snapshot hold_ev.session_id owner_key
                ∷ [])
              (hold_refused hold_ev "bad_request" ∷ []),
        )
      ]

  abbrev pub hold_packet :
      (Send → Bool)
      → String
      → Dict Value
      → Result GrixEventHoldEvent
      → EventQueue P
      → EventQueue P × List Send
  hold_packet sent owner_key payload (Result.raises message) q = (
    q,
    Send.hold_result (text_of (value_at "session_id" payload))
          (text_of (value_at "event_id" payload)) false false "bad_request"
        ∷ [],
  )
  hold_packet sent owner_key payload (Result.returns hold_ev) q =
      answer_hold sent owner_key hold_ev q

  -- `client` says whether there is an active client, of the owner `owner_key`.
  unfoldable pub handle_event_hold_packet :
      Bool → (Send → Bool) → String → Dict Value → EventQueue P → EventQueue P × List Send
  handle_event_hold_packet client sent owner_key payload q =
      if client
      then hold_packet sent owner_key payload (normalize_event_hold payload) q
      else (q, [])

  -- The item is one object, wherever the queue has it.
  abbrev pub rewrite : (String → P → P) → GrixQueueEditEvent → EventQueue P → EventQueue P
  rewrite with_message_text edit_ev q = record q {
    queued =
        update_item edit_ev.event_id
          (λ item. record item { payload = with_message_text edit_ev.text item.payload }) q.queued;
    running =
        update_item edit_ev.event_id
          (λ item. record item { payload = with_message_text edit_ev.text item.payload }) q.running;
  }

  unfoldable pub apply_edit :
      (String → P → P)
      → (Send → Bool)
      → String
      → GrixQueueEditEvent
      → EventQueue P
      → EventQueue P × List Send
  apply_edit with_message_text sent owner_key edit_ev q =
      let edited = Hold.edit edit_ev.event_id edit_ev.text q in
      elim edited.1 [
        | none ↦ (
          edited.0,
          attempt sent (edit_refused edit_ev "not_found" ∷ [])
              (edit_refused edit_ev "bad_request" ∷ []),
        )
        | some updated ↦ (
          rewrite with_message_text edit_ev edited.0,
          attempt sent
              (Send.edit_result edit_ev.session_id edit_ev.event_id true ""
                ∷ Send.push_snapshot edit_ev.session_id owner_key
                ∷ [])
              (edit_refused edit_ev "bad_request" ∷ []),
        )
      ]

  unfoldable pub answer_edit :
      (String → P → P)
      → (Send → Bool)
      → String
      → GrixQueueEditEvent
      → EventQueue P
      → EventQueue P × List Send
  answer_edit with_message_text sent owner_key edit_ev q =
      if strip edit_ev.text == ""
      then (
        q,
        attempt sent (edit_refused edit_ev "empty_content" ∷ [])
            (edit_refused edit_ev "bad_request" ∷ []),
      )
      else elim (find_owned_queued_item edit_ev.event_id edit_ev.session_id owner_key q) [
        | none ↦ (
          q,
          attempt sent (edit_refused edit_ev "not_found" ∷ [])
              (edit_refused edit_ev "bad_request" ∷ []),
        )
        | some item ↦ apply_edit with_message_text sent owner_key edit_ev q
      ]

  abbrev pub edit_packet :
      (String → P → P)
      → (Send → Bool)
      → String
      → Dict Value
      → Result GrixQueueEditEvent
      → EventQueue P
      → EventQueue P × List Send
  edit_packet with_message_text sent owner_key payload (Result.raises message) q = (
    q,
    Send.edit_result (text_of (value_at "session_id" payload))
          (text_of (value_at "event_id" payload)) false "bad_request"
        ∷ [],
  )
  edit_packet with_message_text sent owner_key payload (Result.returns edit_ev) q =
      answer_edit with_message_text sent owner_key edit_ev q

  unfoldable pub handle_queue_edit_packet :
      (String → P → P)
      → Bool
      → (Send → Bool)
      → String
      → Dict Value
      → EventQueue P
      → EventQueue P × List Send
  handle_queue_edit_packet with_message_text client sent owner_key payload q =
      if client
      then edit_packet with_message_text sent owner_key payload (normalize_queue_edit payload) q
      else (q, [])
