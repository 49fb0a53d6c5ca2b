-- ===== src/EventQueue/Invariant/Reorder.antt =====
-- `reorder` of grix_hermes/event_queue.py and the well-formedness of the queue.
use grix_hermes_python.Prelude.{
  ◌+◌, String, ◌≡◌, refl, sym, ◌∙◌, inl, inr, Bool, true, List, [], ◌∷◌, arith, count, keep,
  if_elim, Option-cases, length, length-keep, keep-none,
}
use grix_hermes_python.EventQueue.State.{
  QueueItem, EventQueue, has_id, in_group, in_session, find_item, remove_item,
}
use grix_hermes_python.EventQueue.Items.{count-remove}
use grix_hermes_python.EventQueue.Invariant.{IsWellFormed, held_id, waiting_id, quiet-IsWellFormed}
use grix_hermes_python.EventQueue.Drain.{is_empty}
use grix_hermes_python.EventQueue.Invariant.Drain.{schedule_drain-IsWellFormed}
use grix_hermes_python.EventQueue.Notify.{notify_positions}
use grix_hermes_python.EventQueue.Reorder.{wished, fill_slots, differs, reorder}

module _ {P : Type 0} where
  -- The wishes only change the order.
  pub count-wished :
      (p : QueueItem P → Bool) (ids : List String) (xs : List (QueueItem P))
      → count p (wished ids xs) ≡ count p xs
  unfolding wished
  count-wished p [] xs = refl
  count-wished p (e ∷ ids) xs = elim (Option-cases (find_item e xs)) [
    | inl missing ↦ rw (missing, wished) (count-wished p ids xs)
    | inr (item, found) ↦
        rw (found, wished)
          (omega (arith, count-wished p ids (remove_item e xs), count-remove p e xs item found))
  ]

  length-count : (xs : List (QueueItem P)) → count (λ _. true) xs ≡ length xs
  length-count [] = refl
  length-count (x ∷ xs) = omega (arith, length-count xs)

  pub length-wished :
      (ids : List String) (xs : List (QueueItem P)) → length (wished ids xs) ≡ length xs
  length-wished ids xs =
      sym (length-count (wished ids xs)) ∙ count-wished (λ _. true) ids xs ∙ length-count xs

  -- What the slots held goes out, what fills them comes in.
  count-fill :
      (p mine : QueueItem P → Bool) (xs new : List (QueueItem P))
      → length new ≡ count mine xs
      → count p (fill_slots mine xs new) + count p (keep mine xs) ≡ count p xs + count p new
  unfolding fill_slots
  count-fill p mine [] [] e = refl
  count-fill p mine [] (n ∷ new) e = absurd (omega arith)
  count-fill p mine (x ∷ xs) [] e = rw (keep-none mine (x ∷ xs) (sym e)) refl
  count-fill p mine (x ∷ xs) (n ∷ new) e =
      ground (arith, count-fill p mine xs new, count-fill p mine xs (n ∷ new))

  -- Reordering one session's events keeps every count of the queue.
  pub count-reordered :
      (p mine : QueueItem P → Bool) (ids : List String) (xs : List (QueueItem P))
      → count p (fill_slots mine xs (wished ids (keep mine xs))) ≡ count p xs
  count-reordered p mine ids xs = omega (
    arith,
    count-fill p mine xs (wished ids (keep mine xs))
        (length-wished ids (keep mine xs) ∙ length-keep mine xs),
    count-wished p ids (keep mine xs),
  )

  pub recounted-IsWellFormed :
      (xs : List (QueueItem P)) (q : EventQueue P)
      → ((p : QueueItem P → Bool) → count p xs ≡ count p q.queued)
      → IsWellFormed q
      → IsWellFormed (record q { queued = xs })
  recounted-IsWellFormed xs q same h = record {
    apart = λ e. omega (arith, h.apart e, same (has_id e));
    serial = h.serial;
    bounded = λ g. omega (arith, h.bounded g, same (in_group g));
    timeouts = λ e. omega (arith, h.timeouts e, same (waiting_id e));
    holds = λ e. omega (arith, h.holds e, same (held_id e));
    run_timeouts = h.run_timeouts;
  }

  pub reorder-IsWellFormed :
      (session owner : String) (ids : List String) (q : EventQueue P)
      → IsWellFormed q
      → IsWellFormed (reorder session ids owner q).0
  unfolding reorder notify_positions
  reorder-IsWellFormed session owner ids q h =
      let mine : QueueItem P → Bool = in_session session owner in
      if_elim (λ (r : EventQueue P × List String). IsWellFormed r.0) (is_empty (keep mine q.queued))
        _ _ (λ _. h)
        λ _.
          if_elim IsWellFormed (differs (wished ids (keep mine q.queued)) (keep mine q.queued)) _ q
            (λ _. schedule_drain-IsWellFormed _ (
              quiet-IsWellFormed _ _ _ _
                (recounted-IsWellFormed _ q (λ p. count-reordered p mine ids q.queued) h)))
            (λ _. h)
