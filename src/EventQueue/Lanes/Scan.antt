-- ===== src/EventQueue/Lanes/Scan.antt =====
-- What holds at each round of the loop of `_drain` in grix_hermes/event_queue.py.
use grix_hermes_python.Prelude.{
  member, ◌+◌, ◌≤◌, String, ◌≡◌, refl, sym, ◌∙◌, inl, inr, Bool, true, false, List, [], ◌∷◌, ◌++◌,
  arith, eq_iff, eq_refl, count, keep, one_if, count-append, keep-append, append_assoc, Bool-cases,
}
use grix_hermes_python.EventQueue.State.{QueueItem, has_id, in_group, put_item}
use grix_hermes_python.EventQueue.Items.{put_item_new, count-put}
use grix_hermes_python.EventQueue.Drain.{Scan, visit, dispatch}

-- `xs` are the items from the loop's index on.
pub record IsScanning {P : Type 0} (xs : List (QueueItem P)) (s : Scan P) : Type 0 where
  pub split : s.queue.queued ≡ s.passed ++ xs
  pub apart :
      (e : String) → count (has_id e) (s.passed ++ xs) + count (has_id e) s.queue.running ≤ 1
  pub free_running :
      (g : String) → member g s.busy_groups ≡ false → keep (in_group g) s.queue.running ≡ []
  pub free_passed : (g : String) → member g s.busy_groups ≡ false → keep (in_group g) s.passed ≡ []

module _ {P : Type 0} where
  pub visit_busy :
      (item : QueueItem P) (xs : List (QueueItem P)) (s : Scan P)
      → member item.group_key s.busy_groups ≡ true
      → visit item xs s ≡ record s { passed = s.passed ++ item ∷ [] }
  unfolding visit
  visit_busy item xs s h = rw h

  pub visit_held :
      (item : QueueItem P) (xs : List (QueueItem P)) (s : Scan P)
      → member item.group_key s.busy_groups ≡ false
      → item.held ≡ true
      → visit item xs s
        ≡ record s { busy_groups = item.group_key ∷ s.busy_groups; passed = s.passed ++ item ∷ [] }
  unfolding visit
  visit_held item xs s h k = simp (h, k)

  pub visit_free :
      (item : QueueItem P) (xs : List (QueueItem P)) (s : Scan P)
      → member item.group_key s.busy_groups ≡ false
      → item.held ≡ false
      → visit item xs s ≡ record s {
        queue = dispatch item (s.passed ++ xs) s.queue;
        busy_groups = item.group_key ∷ s.busy_groups;
      }
  unfolding visit
  visit_free item xs s h k = simp (h, k)

  -- An item before the loop's rest.
  regroup :
      (item : QueueItem P) (passed xs : List (QueueItem P))
      → passed ++ item ∷ xs ≡ (passed ++ item ∷ []) ++ xs
  regroup item passed xs = sym (append_assoc passed (item ∷ []) xs)

  pub count-middle :
      (p : QueueItem P → Bool) (item : QueueItem P) (passed xs : List (QueueItem P))
      → count p (passed ++ item ∷ xs) ≡ count p (passed ++ xs) + one_if (p item)
  count-middle p item passed xs =
      omega (arith, count-append p passed (item ∷ xs), count-append p passed xs)

  pub pass-IsScanning :
      (item : QueueItem P) (xs : List (QueueItem P)) (s : Scan P) (busy : List String)
      → ((g : String) → member g busy ≡ false → member g s.busy_groups ≡ false)
      → ((g : String) → member g busy ≡ false → in_group g item ≡ false)
      → IsScanning (item ∷ xs) s
      → IsScanning xs (record s { busy_groups = busy; passed = s.passed ++ item ∷ [] })
  pass-IsScanning item xs s busy less other h = record {
    split = h.split ∙ regroup item s.passed xs;
    apart = λ e. rw (← regroup item s.passed xs) (h.apart e);
    free_running = λ g f. h.free_running g (less g f);
    free_passed = λ g f.
        rw (keep-append (in_group g) s.passed (item ∷ []), h.free_passed g (less g f), other g f);
  }

  -- No other event of the queue has the item's id.
  pub alone :
      (item : QueueItem P) (xs : List (QueueItem P)) (s : Scan P)
      → IsScanning (item ∷ xs) s
      → count (has_id item.event_id) s.queue.running ≡ 0
  alone item xs s h = ground (
    arith,
    h.apart item.event_id,
    count-middle (has_id item.event_id) item s.passed xs,
    eq_refl item.event_id,
  )

  pub running-start :
      (item : QueueItem P) (xs : List (QueueItem P)) (s : Scan P)
      → IsScanning (item ∷ xs) s
      → put_item item s.queue.running ≡ s.queue.running ++ item ∷ []
  running-start item xs s h = put_item_new item s.queue.running (alone item xs s h)

  -- The started item runs, and no other event of its group.
  pub start-IsScanning :
      (item : QueueItem P) (xs : List (QueueItem P)) (s : Scan P)
      → IsScanning (item ∷ xs) s
      → IsScanning xs (record s {
        queue = dispatch item (s.passed ++ xs) s.queue;
        busy_groups = item.group_key ∷ s.busy_groups;
      })
  unfolding dispatch member
  start-IsScanning item xs s h = record {
    split = refl;
    apart = λ e. omega (
      arith,
      h.apart e,
      count-middle (has_id e) item s.passed xs,
      count-put (has_id e) item s.queue.running (alone item xs s h),
    );
    free_running = λ g f.
        rw (running-start item xs s h, keep-append (in_group g) s.queue.running (item ∷ []))
          (ground (arith, h.free_running g));
    free_passed = λ g f. h.free_passed g (ground arith);
  }

  pub visit-IsScanning :
      (item : QueueItem P) (xs : List (QueueItem P)) (s : Scan P)
      → IsScanning (item ∷ xs) s
      → IsScanning xs (visit item xs s)
  unfolding member
  visit-IsScanning item xs s h = elim (Bool-cases (member item.group_key s.busy_groups)) [
    | inl busy ↦ rw (visit_busy item xs s busy) (
        pass-IsScanning item xs s s.busy_groups (λ g f. f)
          (λ g f. ground (arith, eq_iff item.group_key g)) h)
    | inr free ↦ elim (Bool-cases item.held) [
      | inl held ↦ rw (visit_held item xs s free held) (
          pass-IsScanning item xs s (item.group_key ∷ s.busy_groups) (λ g f. ground arith)
            (λ g f. ground arith) h)
      | inr loose ↦ rw (visit_free item xs s free loose) (start-IsScanning item xs s h)
    ]
  ]
