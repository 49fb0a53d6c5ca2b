-- ===== src/Adapter/Owners.antt =====
-- The handlers of the queue's packets in grix_hermes/adapter.py and the events of other owners.
use grix_hermes_python.Prelude.{
  ℕ, String, ◌≡◌, refl, sym, arith, Bool, true, false, Option, none, some, Option-cases, inl, inr,
  List, [], ◌∷◌, ◌==◌, not, keep, if_elim,
}
use mathlib.Core.Path.{subst}
use grix_hermes_python.Protocol.Controls.{GrixEventHoldEvent}
use grix_hermes_python.EventQueue.State.{QueueItem, EventQueue, find_item, update_item, calls}
use grix_hermes_python.EventQueue.Notify.{notify_item}
use grix_hermes_python.EventQueue.Timers.{arm_hold, arm_timeout, cancel_hold, cancel_timeout}
use grix_hermes_python.EventQueue.Query.{find, is_running}
use grix_hermes_python.EventQueue.Hold
use grix_hermes_python.EventQueue.Order.{schedule_drain-queued}
use grix_hermes_python.Adapter.QueueHandlers.{Send, find_owned_queued_item, set_hold, answer_hold}

module _ {P : Type 0} (owner : String) where
  -- The test for events of other owners.
  abbrev pub is_foreign : QueueItem P → Bool
  is_foreign item = not (item.owner_key == owner)

  abbrev pub IsOwned : Option (QueueItem P) → Type 0
  IsOwned none = Unit
  IsOwned (some item) = is_foreign item ≡ false

  -- A change of an item that leaves its id and its owner.
  abbrev pub IsInPlace : (QueueItem P → QueueItem P) → Type 0
  IsInPlace f =
      (item : QueueItem P)
      → ((f item).event_id ≡ item.event_id × (f item).owner_key ≡ item.owner_key)

  pub keep-update :
      (e : String) (f : QueueItem P → QueueItem P) (xs : List (QueueItem P))
      → IsInPlace f
      → IsOwned (find_item e xs)
      → keep is_foreign (update_item e f xs) ≡ keep is_foreign xs
  unfolding find_item update_item
  keep-update e f [] place mine = refl
  keep-update e f (x ∷ xs) place mine =
      ground (arith, keep-update e f xs place, (place x).0, (place x).1)

  pub update-IsOwned :
      (e : String) (f : QueueItem P → QueueItem P) (xs : List (QueueItem P))
      → IsInPlace f
      → IsOwned (find_item e xs)
      → IsOwned (find_item e (update_item e f xs))
  unfolding find_item update_item
  update-IsOwned e f [] place mine = tt
  update-IsOwned e f (x ∷ xs) place mine =
      ground (arith, update-IsOwned e f xs place, (place x).0, (place x).1)

  -- The waiting events of other owners are the same and in the same order.
  abbrev pub KeepsForeign : EventQueue P → EventQueue P → Type 0
  KeepsForeign q r = keep is_foreign r.queued ≡ keep is_foreign q.queued

  owned_of :
      (e session : String) (q : EventQueue P) (item : QueueItem P)
      → find_owned_queued_item e session owner q ≡ some item
      → (find_item e q.queued ≡ some item × is_foreign item ≡ false)
  unfolding find_owned_queued_item find is_running
  owned_of e session q item found = ground arith

  pub found-IsOwned :
      (e session : String) (q : EventQueue P) (item : QueueItem P)
      → find_owned_queued_item e session owner q ≡ some item
      → IsOwned (find_item e q.queued)
  found-IsOwned e session q item found =
      let (there, mine) = owned_of e session q item found in rw there mine

  pub release-KeepsForeign :
      (e : String) (q : EventQueue P)
      → q.in_loop ≡ true
      → IsOwned (find_item e q.queued)
      → (KeepsForeign q (Hold.release e q).0 × IsOwned (find_item e (Hold.release e q).0.queued))
  unfolding Hold.release notify_item calls arm_timeout cancel_hold
  release-KeepsForeign e q looped mine =
      let same = keep-update e Hold.not_held q.queued (λ item. (refl, refl)) mine in
      let owned = update-IsOwned e Hold.not_held q.queued (λ item. (refl, refl)) mine in
      elim (Option-cases (find_item e q.queued)) [
        | inl missing ↦ rw (missing, Hold.release) (refl, mine)
        | inr (item, found) ↦
            rw (found, Hold.release)
              (if_elim (λ (r : EventQueue P). (KeepsForeign q r × IsOwned (find_item e r.queued)))
                item.held _ _
                (λ _.
                  subst
                    (λ (xs : List (QueueItem P)).
                      (keep is_foreign xs ≡ keep is_foreign q.queued × IsOwned (find_item e xs)))
                    (sym (schedule_drain-queued _ looped)) (same, owned))
                (λ _. (refl, mine)))
      ]

  hold-KeepsForeign :
      (e reason : String) (ttl_ms : ℕ) (q : EventQueue P)
      → IsOwned (find_item e q.queued)
      → KeepsForeign q (Hold.hold e reason ttl_ms q).0
  unfolding Hold.hold notify_item calls arm_hold cancel_hold cancel_timeout
  hold-KeepsForeign e reason ttl_ms q mine = elim (Option-cases (find_item e q.queued)) [
    | inl missing ↦ rw (missing, Hold.hold) refl
    | inr (item, found) ↦
        rw (found, Hold.hold)
          (keep-update e (Hold.held_for reason) q.queued (λ item. (refl, refl)) mine)
  ]

  set_hold-KeepsForeign :
      (hold_ev : GrixEventHoldEvent) (item : QueueItem P) (q : EventQueue P)
      → q.in_loop ≡ true
      → IsOwned (find_item hold_ev.event_id q.queued)
      → KeepsForeign q (set_hold hold_ev item q).0
  unfolding set_hold
  set_hold-KeepsForeign hold_ev item q looped mine =
      if_elim (λ (r : EventQueue P × Bool). KeepsForeign q r.0) hold_ev.hold _ _
        (λ _. hold-KeepsForeign hold_ev.event_id _ _ q mine)
        (λ _. (release-KeepsForeign hold_ev.event_id q looped mine).0)

  pub answer_hold-KeepsForeign :
      (sent : Send → Bool) (hold_ev : GrixEventHoldEvent) (q : EventQueue P)
      → q.in_loop ≡ true
      → KeepsForeign q (answer_hold sent owner hold_ev q).0
  unfolding answer_hold
  answer_hold-KeepsForeign sent hold_ev q looped =
      elim (Option-cases (find_owned_queued_item hold_ev.event_id hold_ev.session_id owner q)) [
        | inl missing ↦ rw (missing, answer_hold) refl
        | inr (item, found) ↦
            rw (found, answer_hold)
              (set_hold-KeepsForeign hold_ev item q looped
                (found-IsOwned hold_ev.event_id hold_ev.session_id q item found))
      ]
