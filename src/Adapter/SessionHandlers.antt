-- ===== src/Adapter/SessionHandlers.antt =====
-- The handlers of the packets for a whole session in grix_hermes/adapter.py:
-- `_handle_queue_reorder_packet` and `_handle_queue_clear_packet`.
use grix_hermes_python.Prelude.{String, Bool, List, [], ◌∷◌, map, if◌then◌else◌}
use grix_hermes_python.Prelude.Dict.{Dict}
use grix_hermes_python.Json.{Value}
use grix_hermes_python.Protocol.Packets.{Result}
use grix_hermes_python.Protocol.Controls.{
  GrixQueueReorderEvent, GrixQueueClearEvent, normalize_queue_reorder, normalize_queue_clear,
}
use grix_hermes_python.EventQueue.State.{EventQueue}
use grix_hermes_python.EventQueue.Reorder
use grix_hermes_python.EventQueue.Remove
use grix_hermes_python.Adapter.QueueHandlers.{Send, attempt}

module _ {P : Type 0} where
  abbrev pub reorder_packet :
      (Send → Bool)
      → String
      → Result GrixQueueReorderEvent
      → EventQueue P
      → EventQueue P × List Send
  reorder_packet sent owner_key (Result.raises message) q = (q, [])
  reorder_packet sent owner_key (Result.returns ev) q =
      let applied = Reorder.reorder ev.session_id ev.ordered_event_ids owner_key q in
      (
        applied.0,
        attempt sent
            (Send.reorder_result ev.session_id applied.1
              ∷ Send.push_snapshot ev.session_id owner_key
              ∷ [])
            [],
      )

  unfoldable pub handle_queue_reorder_packet :
      Bool → (Send → Bool) → String → Dict Value → EventQueue P → EventQueue P × List Send
  handle_queue_reorder_packet client sent owner_key payload q =
      if client then reorder_packet sent owner_key (normalize_queue_reorder payload) q else (q, [])

  abbrev pub clear_packet :
      (Send → Bool) → String → Result GrixQueueClearEvent → EventQueue P → EventQueue P × List Send
  clear_packet sent owner_key (Result.raises message) q = (q, [])
  clear_packet sent owner_key (Result.returns ev) q =
      let cleared = Remove.clear ev.session_id owner_key "canceled by queue clear" q in
      (
        cleared.0,
        attempt sent
            (Send.clear_result ev.session_id (map (λ item. item.event_id) cleared.1)
              ∷ Send.push_snapshot ev.session_id owner_key
              ∷ [])
            (Send.clear_failed ev.session_id ∷ []),
      )

  unfoldable pub handle_queue_clear_packet :
      Bool → (Send → Bool) → String → Dict Value → EventQueue P → EventQueue P × List Send
  handle_queue_clear_packet client sent owner_key payload q =
      if client then clear_packet sent owner_key (normalize_queue_clear payload) q else (q, [])
