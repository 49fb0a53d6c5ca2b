-- ===== src/EventQueue/Lanes/Refine.antt =====
-- `_drain` of grix_hermes/event_queue.py and the lanes.
use grix_hermes_python.Prelude.{
  member, ◌+◌, ◌≤◌, String, ◌≡◌, ◌≢◌, refl, sym, ◌∙◌, inl, inr, true, false, List, [], ◌∷◌, ◌++◌,
  arith, eq_iff, count, keep, keep-append, append-nil, Bool-cases,
}
use grix_hermes_python.EventQueue.State.{QueueItem, EventQueue, has_id, in_group}
use grix_hermes_python.EventQueue.Drain.{Scan, visit, scan, dispatch, drain, ready, groups_of}
use grix_hermes_python.EventQueue.Lanes.{Lane, lane, advance, drain_lane}
use grix_hermes_python.EventQueue.Lanes.Scan.{
  IsScanning, visit_busy, visit_held, visit_free, visit-IsScanning, running-start,
}

-- No two events of the queue, waiting or running, have the same id.
pub record HasIdsApart {P : Type 0} (q : EventQueue P) : Type 0 where
  pub apart : (e : String) → count (has_id e) q.queued + count (has_id e) q.running ≤ 1

module _ {P : Type 0} where
  keep-middle_other :
      (g : String) (item : QueueItem P) (passed xs : List (QueueItem P))
      → in_group g item ≡ false
      → keep (in_group g) (passed ++ item ∷ xs) ≡ keep (in_group g) (passed ++ xs)
  keep-middle_other g item passed xs other =
      rw (keep-append (in_group g) passed (item ∷ xs), keep-append (in_group g) passed xs, other)

  -- Starting an event of another group does not show in a lane.
  lane-dispatch_other :
      (g : String) (item : QueueItem P) (xs : List (QueueItem P)) (s : Scan P)
      → IsScanning (item ∷ xs) s
      → in_group g item ≡ false
      → lane g (dispatch item (s.passed ++ xs) s.queue) ≡ lane g s.queue
  unfolding dispatch
  lane-dispatch_other g item xs s h other = ground (
    arith,
    running-start item xs s h,
    keep-append (in_group g) s.queue.running (item ∷ []),
    append-nil (keep (in_group g) s.queue.running),
    keep-middle_other g item s.passed xs,
    h.split,
  )

  -- Starting the first event of a free group.
  lane-dispatch_own :
      (g : String) (item : QueueItem P) (xs : List (QueueItem P)) (s : Scan P)
      → IsScanning (item ∷ xs) s
      → member g s.busy_groups ≡ false
      → in_group g item ≡ true
      → lane g (dispatch item (s.passed ++ xs) s.queue)
        ≡ record { running = item ∷ []; queued = keep (in_group g) xs }
  unfolding dispatch
  lane-dispatch_own g item xs s h free own = ground (
    arith,
    running-start item xs s h,
    keep-append (in_group g) s.queue.running (item ∷ []),
    keep-append (in_group g) s.passed xs,
    h.free_running g,
    h.free_passed g,
  )

  -- A round at an event leaves a busy lane alone.
  visit-lane_busy :
      (g : String) (item : QueueItem P) (xs : List (QueueItem P)) (s : Scan P)
      → IsScanning (item ∷ xs) s
      → member g s.busy_groups ≡ true
      → (member g (visit item xs s).busy_groups ≡ true)
        × (lane g (visit item xs s).queue ≡ lane g s.queue)
  unfolding member
  visit-lane_busy g item xs s h b = elim (Bool-cases (member item.group_key s.busy_groups)) [
    | inl busy ↦ rw (visit_busy item xs s busy) (b, refl)
    | inr free ↦ elim (Bool-cases item.held) [
      | inl held ↦ rw (visit_held item xs s free held) (ground arith, refl)
      | inr loose ↦ rw (visit_free item xs s free loose) (
        ground arith,
        lane-dispatch_other g item xs s h (ground (arith, eq_iff item.group_key g)),
      )
    ]
  ]

  -- A group that was seen busy is left alone by the rest of the loop.
  scan_busy :
      (g : String) (xs : List (QueueItem P)) (s : Scan P)
      → IsScanning xs s
      → member g s.busy_groups ≡ true
      → lane g (scan xs s).queue ≡ lane g s.queue
  unfolding scan
  scan_busy g [] s h b = refl
  scan_busy g (item ∷ xs) s h b =
      let (b', same) = visit-lane_busy g item xs s h b in
      scan_busy g xs (visit item xs s) (visit-IsScanning item xs s h) b' ∙ same

  -- A round at an event of another group leaves a free lane free.
  visit-lane_other :
      (g : String) (item : QueueItem P) (xs : List (QueueItem P)) (s : Scan P)
      → in_group g item ≡ false
      → member g s.busy_groups ≡ false
      → member g (visit item xs s).busy_groups ≡ false
  unfolding member
  visit-lane_other g item xs s other b = elim (Bool-cases (member item.group_key s.busy_groups)) [
    | inl busy ↦ rw (visit_busy item xs s busy) b
    | inr free ↦ elim (Bool-cases item.held) [
      | inl held ↦ rw (visit_held item xs s free held) (ground arith)
      | inr loose ↦ rw (visit_free item xs s free loose) (ground arith)
    ]
  ]

  -- A round at the first event of a free lane.
  visit-lane_own :
      (g : String) (item : QueueItem P) (xs : List (QueueItem P)) (s : Scan P)
      → IsScanning (item ∷ xs) s
      → member g s.busy_groups ≡ false
      → in_group g item ≡ true
      → (member g (visit item xs s).busy_groups ≡ true)
        × (lane g (visit item xs s).queue ≡ advance [] (item ∷ keep (in_group g) xs))
  unfolding member advance
  visit-lane_own g item xs s h b own =
      let free : member item.group_key s.busy_groups ≡ false =
        rw ((eq_iff item.group_key g).0 own) b in
      elim (Bool-cases item.held) [
        | inl held ↦ rw (visit_held item xs s free held) (
          ground arith,
          ground (
            arith,
            h.split,
            h.free_running g b,
            h.free_passed g b,
            keep-append (in_group g) s.passed (item ∷ xs),
          ),
        )
        | inr loose ↦
            rw (visit_free item xs s free loose)
              (ground arith, lane-dispatch_own g item xs s h b own ∙ (rw loose))
      ]

  -- At a group that was not seen yet, the rest of the loop does what draining its lane does.
  scan_free :
      (g : String) (xs : List (QueueItem P)) (s : Scan P)
      → IsScanning xs s
      → member g s.busy_groups ≡ false
      → lane g (scan xs s).queue ≡ advance [] (keep (in_group g) xs)
  unfolding scan advance
  scan_free g [] s h b =
      ground (arith, h.split, append-nil s.passed, h.free_running g b, h.free_passed g b)
  scan_free g (item ∷ xs) s h b = elim (Bool-cases (in_group g item)) [
    | inl own ↦
        let (b', same) = visit-lane_own g item xs s h b own in
        scan_busy g xs (visit item xs s) (visit-IsScanning item xs s h) b' ∙ same ∙ (rw own)
    | inr other ↦ rw other (
        scan_free g xs (visit item xs s) (visit-IsScanning item xs s h)
          (visit-lane_other g item xs s other b))
  ]

  not-member_groups :
      (g : String) (xs : List (QueueItem P))
      → member g (groups_of xs) ≡ false
      → keep (in_group g) xs ≡ []
  unfolding member
  not-member_groups g [] h = refl
  not-member_groups g (x ∷ xs) h = ground (arith, not-member_groups g xs)

  member_groups :
      (g : String) (xs : List (QueueItem P))
      → member g (groups_of xs) ≡ true
      → keep (in_group g) xs ≢ []
  unfolding member
  member_groups g [] h = cc
  member_groups g (x ∷ xs) h = ground (arith, member_groups g xs)

  pub begin-IsScanning :
      (q : EventQueue P)
      → HasIdsApart q
      → IsScanning q.queued (record { queue = q; busy_groups = groups_of q.running; passed = [] })
  begin-IsScanning q h = record {
    split = refl;
    apart = h.apart;
    free_running = λ g f. not-member_groups g q.running f;
    free_passed = λ g f. refl;
  }

  advance_busy : (l : Lane P) → l.running ≢ [] → drain_lane l ≡ l
  unfolding drain_lane
  advance_busy l h = ground arith

  -- While no reason pauses the queue and ids are distinct, one scan of the whole list does to every
  -- group what draining that group's own queue does: a busy group and one whose head is held are
  -- left as they are, any other starts its first event and nothing else.
  pub lane-drain :
      (q : EventQueue P) (g : String)
      → HasIdsApart q
      → ready q ≡ true
      → lane g (drain q) ≡ drain_lane (lane g q)
  unfolding drain
  lane-drain q g h opened = rw opened (elim (Bool-cases (member g (groups_of q.running))) [
    | inl busy ↦
        scan_busy g q.queued _ (begin-IsScanning q h) busy
        ∙ sym (advance_busy (lane g q) (member_groups g q.running busy))
    | inr free ↦
        scan_free g q.queued _ (begin-IsScanning q h) free
        ∙ (unfold drain_lane in rw (not-member_groups g q.running free))
  ])
