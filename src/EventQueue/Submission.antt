-- ===== src/EventQueue/Submission.antt =====
-- What `submit` of grix_hermes/event_queue.py does on each branch.
use grix_hermes_python.Prelude.{
  ◌≤◌, String, ◌≡◌, ◌≢◌, ◌⊎◌, ◌↔◌, refl, ap, ◌∙◌, inl, inr, true, false, List, [], ◌∷◌, ◌++◌, arith,
  keep, count, length, length-keep, not, ◌&&◌, ◌||◌, eq_refl, keep-append,
}
use grix_hermes_python.EventQueue.State.{
  QueueItem, EventQueue, EventState, Effect, Meta, in_group, call,
}
use grix_hermes_python.EventQueue.Query.{is_running, is_queued, group_busy}
use grix_hermes_python.EventQueue.Items.{put_item_new}
use grix_hermes_python.EventQueue.Timers.{arm_timeout}
use grix_hermes_python.EventQueue.Drain.{ready, start}
use grix_hermes_python.EventQueue.Submit.{SubmitResult, submit, is_full, enqueue}
use grix_hermes_python.EventQueue.Lanes.{Lane, lane, drain_lane}
use grix_hermes_python.EventQueue.Invariant.Submit.{absent_of_test}

module _ {P : Type 0} where
  -- The queue knows no event with the item's id.
  abbrev pub IsNew : QueueItem P → EventQueue P → Type 0
  IsNew item q = (is_running item.event_id q ≡ false) × (is_queued item.event_id q ≡ false)

  new_test :
      (item : QueueItem P) (q : EventQueue P)
      → IsNew item q
      → is_running item.event_id q || is_queued item.event_id q ≡ false
  new_test item q h = ground arith

  idle_test :
      (g : String) (q : EventQueue P)
      → ready q ≡ true
      → keep (in_group g) q.running ≡ []
      → ready q && not (group_busy g q) ≡ true
  unfolding group_busy
  idle_test g q opened free = ground (arith, length-keep (in_group g) q.running, ap length free)

  busy_test :
      (g : String) (q : EventQueue P)
      → keep (in_group g) q.running ≢ []
      → ready q && not (group_busy g q) ≡ false
  unfolding group_busy
  busy_test g q busy = ground (arith, length-keep (in_group g) q.running)

  -- A new event of a group that runs nothing starts at once while no reason pauses the queue,
  -- whatever waits in the group: it is told to run and delivered, in this order, and what waits
  -- stays as it was.
  pub submit_idle :
      (item : QueueItem P) (q : EventQueue P)
      → IsNew item q
      → ready q ≡ true
      → keep (in_group item.group_key) q.running ≡ []
      → ((submit item q).1 ≡ SubmitResult.running)
        × (lane item.group_key (submit item q).0
            ≡ record { running = item ∷ []; queued = keep (in_group item.group_key) q.queued })
        × ((submit item q).0.effects
            ≡ (q.effects ++ Effect.state_change item EventState.running Meta.bare ∷ [])
              ++ Effect.deliver item ∷ [])
  unfolding submit start is_running
  submit_idle item q new opened free =
      simp (new_test item q new, idle_test item.group_key q opened free) (refl, started, refl)
    where
      started :
          lane item.group_key (start item q)
          ≡ record { running = item ∷ []; queued = keep (in_group item.group_key) q.queued }
      started = ground (
        arith,
        put_item_new item q.running (absent_of_test item.event_id q.running new.0),
        keep-append (in_group item.group_key) q.running (item ∷ []),
        free,
        eq_refl item.group_key,
      )

  -- A lane in which one more event arrives: it waits behind the others, and then the lane drains.
  abbrev pub arrive : QueueItem P → Lane P → Lane P
  arrive item l = drain_lane (record l { queued = l.queued ++ item ∷ [] })

  -- The order of arrival is kept where a group runs something and has room, and where it neither
  -- runs nor holds anything: an unpaused queue then treats a new, unheld event as its group's own
  -- queue would, first come first served.
  pub submit_in_order :
      (item : QueueItem P) (q : EventQueue P)
      → IsNew item q
      → item.held ≡ false
      → ready q ≡ true
      → ((keep (in_group item.group_key) q.running ≢ []) × (is_full item q ≡ false))
        ⊎ ((keep (in_group item.group_key) q.running ≡ [])
            × (keep (in_group item.group_key) q.queued ≡ []))
      → lane item.group_key (submit item q).0 ≡ arrive item (lane item.group_key q)
  unfolding drain_lane
  submit_in_order item q new loose opened (inl (busy, room)) =
      let waits = busy_test item.group_key q busy in
      (unfold submit is_running enqueue call arm_timeout in
        simp (new_test item q new, waits, room)
          (ground (
            arith,
            keep-append (in_group item.group_key) q.queued (item ∷ []),
            eq_refl item.group_key,
          )))
  submit_in_order item q new loose opened (inr (free, empty)) =
      (submit_idle item q new opened free).1 ∙ (simp (free, empty) (ground arith))

  -- Where a group runs nothing but has an event waiting, since its first event is held or its drain
  -- is yet to come, an unpaused queue starts a new event ahead of it: `submit` answers that it
  -- runs, the group runs it and nothing else, all that waited still waits, and the callbacks are
  -- told that it runs and then to deliver it. So the group is not served in the order of arrival.
  pub submit_overtakes :
      (item w : QueueItem P) (rest : List (QueueItem P)) (q : EventQueue P)
      → IsNew item q
      → item.event_id ≢ w.event_id
      → ready q ≡ true
      → keep (in_group item.group_key) q.running ≡ []
      → keep (in_group item.group_key) q.queued ≡ w ∷ rest
      → ((submit item q).1 ≡ SubmitResult.running)
        × (lane item.group_key (submit item q).0
            ≡ record { running = item ∷ []; queued = w ∷ rest })
        × ((submit item q).0.effects
            ≡ (q.effects ++ Effect.state_change item EventState.running Meta.bare ∷ [])
              ++ Effect.deliver item ∷ [])
        × (lane item.group_key (submit item q).0 ≢ arrive item (lane item.group_key q))
  unfolding drain_lane
  submit_overtakes item w rest q new differ opened free waiting =
      let (answered, started, told) = submit_idle item q new opened free in
      (answered, started ∙ (rw waiting refl), told, λ same. ground (arith, started))

  -- An event is refused exactly if it is new, cannot start, and finds `max_queued` events or more
  -- of its group waiting. Then the user is told that it failed, and nothing else changes.
  pub submit_refuses :
      (item : QueueItem P) (q : EventQueue P)
      → (((submit item q).1 ≡ SubmitResult.rejected) ↔ (
          IsNew item q
          × (ready q && not (group_busy item.group_key q) ≡ false)
          × (q.config.max_queued ≤ count (in_group item.group_key) q.queued)))
        × ((submit item q).1 ≡ SubmitResult.rejected
            → (submit item q).0 ≡ record q {
              effects =
                  q.effects
                  ++ Effect.state_change item EventState.failed (Meta.reason "queue full") ∷ [];
            })
  unfolding submit is_full call is_running
  submit_refuses item q = ((λ h. ground arith, λ h. ground arith), λ h. ground arith)
