-- ===== src/EventQueue/Order.antt =====
-- What `reorder` of grix_hermes/event_queue.py does to the queue.
use grix_hermes_python.Prelude.{
  String, ◌≡◌, refl, ap, sym, ◌∙◌, Bool, true, false, List, [], ◌∷◌, map, arith, keep, count, ◌≤◌,
  count-keep-le, length, length-keep, not, eq_iff, keep-none, if_elim,
}
use grix_hermes_python.EventQueue.State.{QueueItem, EventQueue, has_id, in_session, find_item}
use grix_hermes_python.EventQueue.Notify.{notify_positions}
use grix_hermes_python.EventQueue.Drain.{schedule_drain, is_empty}
use grix_hermes_python.EventQueue.Wishes.{ids_of, in_order, ids_of-wished}
use grix_hermes_python.EventQueue.Reorder.{wished, fill_slots, differs, reorder}
use grix_hermes_python.EventQueue.Invariant.Reorder.{length-wished, count-wished, count-reordered}

module _ {P : Type 0} (mine : QueueItem P → Bool) where
  -- With as many new items as slots, all of them the session's: each slot stays a slot.
  slots-fill :
      (xs new : List (QueueItem P))
      → length new ≡ count mine xs
      → count (λ i. not (mine i)) new ≡ 0
      → map mine (fill_slots mine xs new) ≡ map mine xs
  unfolding fill_slots
  slots-fill [] new e m = refl
  slots-fill (x ∷ xs) [] e m = refl
  slots-fill (x ∷ xs) (n ∷ new) e m = ground (arith, slots-fill xs new, slots-fill xs (n ∷ new))

  mine-fill :
      (xs new : List (QueueItem P))
      → length new ≡ count mine xs
      → count (λ i. not (mine i)) new ≡ 0
      → keep mine (fill_slots mine xs new) ≡ new
  unfolding fill_slots
  mine-fill [] [] e m = refl
  mine-fill [] (n ∷ new) e m = absurd (omega arith)
  mine-fill (x ∷ xs) [] e m = keep-none mine (x ∷ xs) (sym e)
  mine-fill (x ∷ xs) (n ∷ new) e m = ground (arith, mine-fill xs new, mine-fill xs (n ∷ new))

  others-fill :
      (xs new : List (QueueItem P))
      → length new ≡ count mine xs
      → count (λ i. not (mine i)) new ≡ 0
      → keep (λ i. not (mine i)) (fill_slots mine xs new) ≡ keep (λ i. not (mine i)) xs
  unfolding fill_slots
  others-fill [] new e m = refl
  others-fill (x ∷ xs) [] e m = refl
  others-fill (x ∷ xs) (n ∷ new) e m = ground (arith, others-fill xs new, others-fill xs (n ∷ new))

  none_but_mine : (xs : List (QueueItem P)) → count (λ i. not (mine i)) (keep mine xs) ≡ 0
  none_but_mine [] = refl
  none_but_mine (x ∷ xs) = ground (arith, none_but_mine xs)

  -- Whatever the wishes, filling the slots with the wished order leaves every place of the queue to
  -- the session that had it, leaves the other sessions' events as they were, and puts the
  -- session's own events into the wished order, which holds each of them as often as before.
  pub fill_wished :
      (ids : List String) (xs : List (QueueItem P))
      → (map mine (fill_slots mine xs (wished ids (keep mine xs))) ≡ map mine xs)
        × (keep (λ i. not (mine i)) (fill_slots mine xs (wished ids (keep mine xs)))
            ≡ keep (λ i. not (mine i)) xs)
        × (keep mine (fill_slots mine xs (wished ids (keep mine xs))) ≡ wished ids (keep mine xs))
        × ((p : QueueItem P → Bool) → count p (wished ids (keep mine xs)) ≡ count p (keep mine xs))
  fill_wished ids xs =
      let fits = length-wished ids (keep mine xs) ∙ length-keep mine xs in
      let own = count-wished (λ i. not (mine i)) ids (keep mine xs) ∙ none_but_mine xs in
      (
        slots-fill xs _ fits own,
        others-fill xs _ fits own,
        mine-fill xs _ fits own,
        λ p. count-wished p ids (keep mine xs),
      )

module _ {P : Type 0} where
  -- Two lists of the same length that the code finds the same have the same ids.
  same_ids :
      (new old : List (QueueItem P))
      → length new ≡ length old
      → differs new old ≡ false
      → map (λ i. i.event_id) new ≡ map (λ i. i.event_id) old
  unfolding differs
  same_ids [] [] e h = refl
  same_ids [] (o ∷ old) e h = absurd (omega arith)
  same_ids (n ∷ new) [] e h = absurd (omega arith)
  same_ids (n ∷ new) (o ∷ old) e h = ground (arith, eq_iff n.event_id o.event_id, same_ids new old)

  pub schedule_drain-queued :
      (q : EventQueue P) → q.in_loop ≡ true → (schedule_drain q).queued ≡ q.queued
  unfolding schedule_drain
  schedule_drain-queued q loop =
      if_elim (λ (r : EventQueue P). r.queued ≡ q.queued) q.drain_scheduled q _ (λ _. refl)
        (λ _. simp loop)

  wished-nil : (ids : List String) → wished {P = P} ids [] ≡ []
  unfolding wished find_item
  wished-nil [] = refl
  wished-nil (e ∷ ids) = wished-nil ids

  empty_of_test : (xs : List (QueueItem P)) → is_empty xs ≡ true → xs ≡ []
  empty_of_test [] h = refl
  empty_of_test (x ∷ xs) h = cc

  -- `after` is a queue that `wished` leaves of `before`, with the answer.
  pub record IsPlaced (mine : QueueItem P → Bool) (ids : List String)
      (before after : List (QueueItem P)) (answer : List String) : Type 0 where
    pub slots : map mine after ≡ map mine before
    pub others : keep (λ i. not (mine i)) after ≡ keep (λ i. not (mine i)) before
    pub order :
        map (λ i. i.event_id) (keep mine after)
        ≡ map (λ i. i.event_id) (wished ids (keep mine before))
    pub told : answer ≡ map (λ i. i.event_id) (keep mine after)
    pub same : (p : QueueItem P → Bool) → count p after ≡ count p before

  -- What holds whatever the ids are.
  pub reorder-IsPlaced :
      (session owner : String) (ids : List String) (q : EventQueue P)
      → q.in_loop ≡ true
      → IsPlaced
          (in_session session owner)
          ids
          q.queued
          (reorder session ids owner q).0.queued
          (reorder session ids owner q).1
  unfolding reorder notify_positions
  reorder-IsPlaced session owner ids q loop =
      let mine : QueueItem P → Bool = in_session session owner in
      let (slots, others, own, kept) = fill_wished mine ids q.queued in
      if_elim (λ (r : EventQueue P × List String). IsPlaced mine ids q.queued r.0.queued r.1)
        (is_empty (keep mine q.queued)) _ _
        (λ nothing.
          let none_mine = empty_of_test (keep mine q.queued) nothing in
          record {
            slots = refl;
            others = refl;
            order = rw (none_mine, wished-nil ids);
            told = rw none_mine;
            same = λ p. refl;
          })
        λ _.
          if_elim
            (λ (r : EventQueue P).
              IsPlaced mine ids q.queued r.queued
                (map (λ i. i.event_id) (wished ids (keep mine q.queued))))
            (differs (wished ids (keep mine q.queued)) (keep mine q.queued)) _ q
            (λ _.
              rw
                (schedule_drain-queued
                  (notify_positions session owner (record q {
                    queued = fill_slots mine q.queued (wished ids (keep mine q.queued));
                  }))
                  loop)
                (record {
                  slots = slots;
                  others = others;
                  order = ap (map (λ i. i.event_id)) own;
                  told = ap (map (λ i. i.event_id)) (sym own);
                  same = λ p. count-reordered p mine ids q.queued;
                }))
            λ alike.
              let unmoved =
                same_ids (wished ids (keep mine q.queued)) (keep mine q.queued)
                  (length-wished ids (keep mine q.queued)) alike in
              record {
                slots = refl;
                others = refl;
                order = sym unmoved;
                told = unmoved;
                same = λ p. refl;
              }

  -- `after` is a queue that `ids` may leave of `before`, with the answer.
  pub record IsReordered (mine : QueueItem P → Bool) (ids : List String)
      (before after : List (QueueItem P)) (answer : List String) : Type 0 where
    pub slots : map mine after ≡ map mine before
    pub others : keep (λ i. not (mine i)) after ≡ keep (λ i. not (mine i)) before
    pub order : ids_of (keep mine after) ≡ in_order ids (ids_of (keep mine before))
    pub told : answer ≡ ids_of (keep mine after)
    pub same : (p : QueueItem P → Bool) → count p after ≡ count p before

  -- In a running loop, where no two waiting events have the same id, and whatever the list of ids,
  -- the queue after `reorder` gives every place to the session that had it, has the other sessions'
  -- events as they were, and the session's own in the wished order: first each listed id that
  -- waits, at its first place in the list, then the ids that are not listed, as they stood. It
  -- holds the same events as before, and the answer is the session's order in it.
  pub reorder-IsReordered :
      (session owner : String) (ids : List String) (q : EventQueue P)
      → q.in_loop ≡ true
      → ((e : String) → count (has_id e) q.queued ≤ 1)
      → IsReordered
          (in_session session owner)
          ids
          q.queued
          (reorder session ids owner q).0.queued
          (reorder session ids owner q).1
  reorder-IsReordered session owner ids q loop apart =
      let placed = reorder-IsPlaced session owner ids q loop in
      let mine : QueueItem P → Bool = in_session session owner in
      record {
        slots = placed.slots;
        others = placed.others;
        order =
            placed.order
            ∙ ids_of-wished ids (keep mine q.queued)
                (λ e. omega (arith, count-keep-le (has_id e) mine q.queued, apart e));
        told = placed.told;
        same = placed.same;
      }
