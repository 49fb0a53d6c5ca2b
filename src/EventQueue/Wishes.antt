-- ===== src/EventQueue/Wishes.antt =====
-- The order that `reorder` of grix_hermes/event_queue.py gives to the events of a session.
use grix_hermes_python.Prelude.{
  ◌≤◌, String, ◌≡◌, refl, sym, ap, ◌∙◌, inl, inr, true, false, none, some, List, [], ◌∷◌, ◌++◌, map,
  arith, ◌==◌, not, eq_iff, keep, count, member, Option-cases,
}
use grix_hermes_python.Prelude.Firsts.{
  firsts, keep-firsts, member-without, keep_both, keep_all, keep_absent,
}
use grix_hermes_python.EventQueue.State.{QueueItem, has_id, find_item, remove_item}
use grix_hermes_python.EventQueue.Items.{find_item-id, count-remove}
use grix_hermes_python.EventQueue.Reorder.{wished}

-- First each listed id that is there, at its first place in the list, then the ids that are there
-- and not listed, as they stood.
abbrev pub in_order : List String → List String → List String
in_order ids present =
    firsts (keep (λ e. member e present) ids) ++ keep (λ e. not (member e ids)) present

module _ {P : Type 0} where
  abbrev pub ids_of : List (QueueItem P) → List String
  ids_of = map (λ i. i.event_id)

  member-ids_of :
      (e : String) (xs : List (QueueItem P)) → find_item e xs ≡ none → member e (ids_of xs) ≡ false
  unfolding find_item member
  member-ids_of e [] missing = refl
  member-ids_of e (x ∷ xs) missing = ground (arith, member-ids_of e xs)

  member_of_find :
      (e : String) (xs : List (QueueItem P)) (item : QueueItem P)
      → find_item e xs ≡ some item
      → member e (ids_of xs) ≡ true
  unfolding find_item member
  member_of_find e [] item found = absurd (ground arith)
  member_of_find e (x ∷ xs) item found = ground (arith, member_of_find e xs item)

  absent_of_count :
      (e : String) (xs : List (QueueItem P))
      → count (has_id e) xs ≡ 0
      → member e (ids_of xs) ≡ false
  unfolding member
  absent_of_count e [] none_there = refl
  absent_of_count e (x ∷ xs) none_there = ground (arith, absent_of_count e xs)

  ids_of-remove :
      (e : String) (xs : List (QueueItem P))
      → count (has_id e) xs ≤ 1
      → ids_of (remove_item e xs) ≡ keep (λ y. not (e == y)) (ids_of xs)
  unfolding remove_item
  ids_of-remove e [] once = refl
  ids_of-remove e (x ∷ xs) once = ground (
    arith,
    ids_of-remove e xs,
    absent_of_count e xs,
    keep_absent e (ids_of xs),
    eq_iff e x.event_id,
    eq_iff x.event_id e,
  )

rest_without :
    (e : String) (ids present : List String)
    → keep (λ x. not (member x ids)) (keep (λ y. not (e == y)) present)
      ≡ keep (λ x. not (member x (e ∷ ids))) present
unfolding member
rest_without e ids present =
    keep_both (λ y. not (e == y)) (λ x. not (member x ids)) (λ x. not (member x (e ∷ ids))) present
      (λ x. ground arith)

in_order-absent :
    (e : String) (ids present : List String)
    → member e present ≡ false
    → in_order (e ∷ ids) present ≡ in_order ids present
in_order-absent e ids present out =
    let rest =
      sym (rest_without e ids present)
      ∙ ap (keep (λ x. not (member x ids))) (keep_absent e present out) in
    rw (out, rest) refl

in_order-present :
    (e : String) (ids present : List String)
    → member e present ≡ true
    → in_order (e ∷ ids) present ≡ e ∷ in_order ids (keep (λ y. not (e == y)) present)
unfolding firsts
in_order-present e ids present there =
    let others = keep (λ y. not (e == y)) present in
    let named =
      keep-firsts (λ y. not (e == y)) (keep (λ x. member x present) ids)
      ∙ ap firsts (
          keep_both (λ x. member x present) (λ y. not (e == y)) (λ x. member x others) ids
            (λ x. member-without e x present)) in
    rw (there, named, ← rest_without e ids present) refl

module _ {P : Type 0} where
  -- Where no two events have the same id, the wished order is that of the list.
  pub ids_of-wished :
      (ids : List String) (xs : List (QueueItem P))
      → ((e : String) → count (has_id e) xs ≤ 1)
      → ids_of (wished ids xs) ≡ in_order ids (ids_of xs)
  unfolding wished firsts member
  ids_of-wished [] xs apart = sym (keep_all (λ e. true) (ids_of xs) (λ e. refl))
  ids_of-wished (e ∷ ids) xs apart = elim (Option-cases (find_item e xs)) [
    | inl missing ↦
        rw (missing, wished)
          (ids_of-wished ids xs apart
            ∙ sym (in_order-absent e ids (ids_of xs) (member-ids_of e xs missing)))
    | inr (item, found) ↦
        let fewer : (d : String) → count (has_id d) (remove_item e xs) ≤ 1 =
          λ d. omega (arith, count-remove (has_id d) e xs item found, apart d) in
        rw (found, wished)
          (ap (λ (es : List String). item.event_id ∷ es)
              (ids_of-wished ids (remove_item e xs) fewer
                ∙ ap (in_order ids) (ids_of-remove e xs (apart e)))
            ∙ ap (λ (d : String). d ∷ in_order ids (keep (λ y. not (e == y)) (ids_of xs)))
                (find_item-id e xs item found)
            ∙ sym (in_order-present e ids (ids_of xs) (member_of_find e xs item found)))
  ]
