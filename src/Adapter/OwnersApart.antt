-- ===== src/Adapter/OwnersApart.antt =====
-- The handlers of the queue's packets in grix_hermes/adapter.py and the events of other
-- owners: edits, orders and clears, and all four packets.
use grix_hermes_python.Prelude.{
  String, ◌≡◌, refl, sym, ◌∙◌, arith, Bool, true, false, Option-cases, inl, inr, List, [], ◌∷◌,
  ◌==◌, not, keep, if_elim, ap, if◌then◌else◌,
}
use grix_hermes_python.Prelude.Dict.{Dict}
use grix_hermes_python.Prelude.Text.{strip}
use grix_hermes_python.Json.{Value}
use grix_hermes_python.Protocol.Packets.{Result}
use grix_hermes_python.Protocol.Controls.{
  GrixEventHoldEvent, GrixQueueEditEvent, GrixQueueReorderEvent, GrixQueueClearEvent,
  normalize_event_hold, normalize_queue_edit, normalize_queue_reorder, normalize_queue_clear,
}
use grix_hermes_python.EventQueue.State.{
  QueueItem, EventQueue, find_item, update_item, in_session, call,
}
use grix_hermes_python.EventQueue.Drain.{schedule_drain, is_empty}
use grix_hermes_python.EventQueue.Timers.{cancel_hold, cancel_timeout}
use grix_hermes_python.EventQueue.Hold
use grix_hermes_python.EventQueue.Remove.{cancel_each, clear}
use grix_hermes_python.EventQueue.Reorder.{reorder}
use grix_hermes_python.EventQueue.Order.{reorder-IsPlaced, schedule_drain-queued}
use grix_hermes_python.Adapter.Owners.{
  is_foreign, IsOwned, IsInPlace, KeepsForeign, keep-update, update-IsOwned, found-IsOwned,
  release-KeepsForeign, answer_hold-KeepsForeign,
}
use grix_hermes_python.Adapter.QueueHandlers.{
  Send, find_owned_queued_item, apply_edit, answer_edit, hold_packet, edit_packet,
  handle_event_hold_packet, handle_queue_edit_packet,
}
use grix_hermes_python.Adapter.SessionHandlers.{
  reorder_packet, clear_packet, handle_queue_reorder_packet, handle_queue_clear_packet,
}

module _ {P : Type 0} (owner : String) where
  edit-KeepsForeign :
      (e text : String) (q : EventQueue P)
      → q.in_loop ≡ true
      → IsOwned owner (find_item e q.queued)
      → (KeepsForeign owner q (Hold.edit e text q).0
          × IsOwned owner (find_item e (Hold.edit e text q).0.queued))
  unfolding Hold.edit
  edit-KeepsForeign e text q looped mine =
      let place : IsInPlace owner (Hold.with_text text) = λ item. (refl, refl) in
      let same = keep-update owner e (Hold.with_text text) q.queued place mine in
      let changed = record q { queued = update_item e (Hold.with_text text) q.queued } in
      let rest =
        release-KeepsForeign owner e changed looped
          (update-IsOwned owner e (Hold.with_text text) q.queued place mine) in
      elim (Option-cases (find_item e q.queued)) [
        | inl missing ↦ rw (missing, Hold.edit) (refl, mine)
        | inr (item, found) ↦ rw (found, Hold.edit) (rest.0 ∙ same, rest.1)
      ]

  apply_edit-KeepsForeign :
      (with_message_text : String → P → P) (sent : Send → Bool) (edit_ev : GrixQueueEditEvent)
      (q : EventQueue P)
      → q.in_loop ≡ true
      → IsOwned owner (find_item edit_ev.event_id q.queued)
      → KeepsForeign owner q (apply_edit with_message_text sent owner edit_ev q).0
  unfolding apply_edit
  apply_edit-KeepsForeign with_message_text sent edit_ev q looped mine =
      let edited = Hold.edit edit_ev.event_id edit_ev.text q in
      let kept = edit-KeepsForeign edit_ev.event_id edit_ev.text q looped mine in
      elim (Option-cases edited.1) [
        | inl missing ↦ rw (missing, apply_edit) kept.0
        | inr (item, found) ↦
            rw (found, apply_edit)
              (keep-update owner edit_ev.event_id
                  (λ item. record item { payload = with_message_text edit_ev.text item.payload })
                  edited.0.queued (λ item. (refl, refl)) kept.1
                ∙ kept.0)
      ]

  answer_edit-KeepsForeign :
      (with_message_text : String → P → P) (sent : Send → Bool) (edit_ev : GrixQueueEditEvent)
      (q : EventQueue P)
      → q.in_loop ≡ true
      → KeepsForeign owner q (answer_edit with_message_text sent owner edit_ev q).0
  unfolding answer_edit
  answer_edit-KeepsForeign with_message_text sent edit_ev q looped =
      if_elim (λ (r : EventQueue P × List Send). KeepsForeign owner q r.0)
        (strip edit_ev.text == "") _ _ (λ _. refl)
        (λ _.
          elim (Option-cases (find_owned_queued_item edit_ev.event_id edit_ev.session_id owner q)) [
            | inl missing ↦ rw missing refl
            | inr (item, found) ↦ rw found (
                apply_edit-KeepsForeign with_message_text sent edit_ev q looped
                  (found-IsOwned owner edit_ev.event_id edit_ev.session_id q item found))
          ])

  -- What is no event of the owner's session holds every event of another owner.
  foreign_of_others :
      (session : String) (xs : List (QueueItem P))
      → keep (is_foreign owner) (keep (λ item. not (in_session session owner item)) xs)
        ≡ keep (is_foreign owner) xs
  foreign_of_others session [] = refl
  foreign_of_others session (x ∷ xs) = ground (arith, foreign_of_others session xs)

  reorder-KeepsForeign :
      (session : String) (ids : List String) (q : EventQueue P)
      → q.in_loop ≡ true
      → KeepsForeign owner q (reorder session ids owner q).0
  reorder-KeepsForeign session ids q looped =
      let moved = reorder-IsPlaced session owner ids q looped in
      sym (foreign_of_others session (reorder session ids owner q).0.queued)
      ∙ ap (keep (is_foreign owner)) moved.others
      ∙ foreign_of_others session q.queued

  cancel_each-queued :
      (reason : String) (items : List (QueueItem P)) (q : EventQueue P)
      → ((cancel_each reason items q).queued ≡ q.queued
          × (cancel_each reason items q).in_loop ≡ q.in_loop)
  unfolding cancel_each call cancel_hold cancel_timeout
  cancel_each-queued reason [] q = (refl, refl)
  cancel_each-queued reason (item ∷ rest) q = cancel_each-queued reason rest _

  clear-KeepsForeign :
      (session reason : String) (q : EventQueue P)
      → q.in_loop ≡ true
      → KeepsForeign owner q (clear session owner reason q).0
  unfolding clear
  clear-KeepsForeign session reason q looped =
      let cleared = keep (in_session session owner) q.queued in
      let remaining = keep (λ item. not (in_session session owner item)) q.queued in
      let emptied = cancel_each reason cleared (record q { queued = remaining }) in
      let told = cancel_each-queued reason cleared (record q { queued = remaining }) in
      let kept = ap (keep (is_foreign owner)) told.0 ∙ foreign_of_others session q.queued in
      if_elim (KeepsForeign owner q) (is_empty cleared) emptied (schedule_drain emptied) (λ _. kept)
        (λ _. ap (keep (is_foreign owner)) (schedule_drain-queued emptied (told.1 ∙ looped)) ∙ kept)

  hold_packet-KeepsForeign :
      (sent : Send → Bool) (payload : Dict Value) (read : Result GrixEventHoldEvent)
      (q : EventQueue P)
      → q.in_loop ≡ true
      → KeepsForeign owner q (hold_packet sent owner payload read q).0
  hold_packet-KeepsForeign sent payload (Result.raises message) q looped = refl
  hold_packet-KeepsForeign sent payload (Result.returns hold_ev) q looped =
      answer_hold-KeepsForeign owner sent hold_ev q looped

  edit_packet-KeepsForeign :
      (with_message_text : String → P → P) (sent : Send → Bool) (payload : Dict Value)
      (read : Result GrixQueueEditEvent) (q : EventQueue P)
      → q.in_loop ≡ true
      → KeepsForeign owner q (edit_packet with_message_text sent owner payload read q).0
  edit_packet-KeepsForeign with_message_text sent payload (Result.raises message) q looped = refl
  edit_packet-KeepsForeign with_message_text sent payload (Result.returns edit_ev) q looped =
      answer_edit-KeepsForeign with_message_text sent edit_ev q looped

  reorder_packet-KeepsForeign :
      (sent : Send → Bool) (read : Result GrixQueueReorderEvent) (q : EventQueue P)
      → q.in_loop ≡ true
      → KeepsForeign owner q (reorder_packet sent owner read q).0
  reorder_packet-KeepsForeign sent (Result.raises message) q looped = refl
  reorder_packet-KeepsForeign sent (Result.returns ev) q looped =
      reorder-KeepsForeign ev.session_id ev.ordered_event_ids q looped

  clear_packet-KeepsForeign :
      (sent : Send → Bool) (read : Result GrixQueueClearEvent) (q : EventQueue P)
      → q.in_loop ≡ true
      → KeepsForeign owner q (clear_packet sent owner read q).0
  clear_packet-KeepsForeign sent (Result.raises message) q looped = refl
  clear_packet-KeepsForeign sent (Result.returns ev) q looped =
      clear-KeepsForeign ev.session_id "canceled by queue clear" q looped

  when_client :
      (client : Bool) (q : EventQueue P) (answered : EventQueue P × List Send)
      → KeepsForeign owner q answered.0
      → KeepsForeign owner q (if client then answered else (q, [])).0
  when_client true q answered kept = kept
  when_client false q answered kept = refl

  -- In a running loop, whatever is in a packet that holds, edits, reorders or clears and comes from
  -- the connection of one owner, and whichever answers can be sent, the events of other owners that
  -- wait in the queue are the same as before and in the same order.
  pub handlers-KeepsForeign :
      (with_message_text : String → P → P) (client : Bool) (sent : Send → Bool)
      (payload : Dict Value) (q : EventQueue P)
      → q.in_loop ≡ true
      → (KeepsForeign owner q (handle_event_hold_packet client sent owner payload q).0
          × KeepsForeign owner q
              (handle_queue_edit_packet with_message_text client sent owner payload q).0
          × KeepsForeign owner q (handle_queue_reorder_packet client sent owner payload q).0
          × KeepsForeign owner q (handle_queue_clear_packet client sent owner payload q).0)
  unfolding handle_event_hold_packet handle_queue_edit_packet handle_queue_reorder_packet
      handle_queue_clear_packet
  handlers-KeepsForeign with_message_text client sent payload q looped = (
    when_client client q (hold_packet sent owner payload (normalize_event_hold payload) q)
        (hold_packet-KeepsForeign sent payload (normalize_event_hold payload) q looped),
    when_client client q
        (edit_packet with_message_text sent owner payload (normalize_queue_edit payload) q)
        (edit_packet-KeepsForeign with_message_text sent payload (normalize_queue_edit payload) q
          looped),
    when_client client q (reorder_packet sent owner (normalize_queue_reorder payload) q)
        (reorder_packet-KeepsForeign sent (normalize_queue_reorder payload) q looped),
    when_client client q (clear_packet sent owner (normalize_queue_clear payload) q)
        (clear_packet-KeepsForeign sent (normalize_queue_clear payload) q looped),
  )
