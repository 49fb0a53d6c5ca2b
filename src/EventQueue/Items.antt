-- ===== src/EventQueue/Items.antt =====
-- Lists of items under look-up, removal, update and placement by id, measured by counts.
use grix_hermes_python.Prelude.{
  ◌+◌, ◌≤◌, String, ◌≡◌, refl, Bool, false, none, some, List, [], ◌∷◌, ◌++◌, arith, eq_iff, count,
  keep, one_if, count-append,
}
use grix_hermes_python.EventQueue.State.{
  QueueItem, has_id, find_item, remove_item, update_item, put_item,
}

module _ {P : Type 0} where
  pub find_item-id :
      (e : String) (xs : List (QueueItem P)) (item : QueueItem P)
      → find_item e xs ≡ some item
      → item.event_id ≡ e
  unfolding find_item
  find_item-id e [] item h = absurd (ground arith)
  find_item-id e (x ∷ xs) item h = ground (arith, eq_iff x.event_id e, find_item-id e xs item)

  pub count_of_find-none :
      (e : String) (xs : List (QueueItem P)) → find_item e xs ≡ none → count (has_id e) xs ≡ 0
  unfolding find_item
  count_of_find-none e [] h = refl
  count_of_find-none e (x ∷ xs) h = ground (arith, count_of_find-none e xs)

  pub find-none_of_count :
      (e : String) (xs : List (QueueItem P)) → count (has_id e) xs ≡ 0 → find_item e xs ≡ none
  unfolding find_item
  find-none_of_count e [] h = refl
  find-none_of_count e (x ∷ xs) h = ground (arith, find-none_of_count e xs)

  pub count_of_find-some :
      (e : String) (xs : List (QueueItem P)) (item : QueueItem P)
      → find_item e xs ≡ some item
      → 1 ≤ count (has_id e) xs
  unfolding find_item
  count_of_find-some e [] item h = absurd (ground arith)
  count_of_find-some e (x ∷ xs) item h = ground (arith, count_of_find-some e xs item)

  pub count-remove :
      (p : QueueItem P → Bool) (e : String) (xs : List (QueueItem P)) (item : QueueItem P)
      → find_item e xs ≡ some item
      → count p (remove_item e xs) + one_if (p item) ≡ count p xs
  unfolding find_item remove_item
  count-remove p e [] item h = absurd (ground arith)
  count-remove p e (x ∷ xs) item h = ground (arith, count-remove p e xs item)

  pub remove_absent :
      (e : String) (xs : List (QueueItem P)) → find_item e xs ≡ none → remove_item e xs ≡ xs
  unfolding find_item remove_item
  remove_absent e [] h = refl
  remove_absent e (x ∷ xs) h = ground (arith, remove_absent e xs)

  pub count-update :
      (p : QueueItem P → Bool) (f : QueueItem P → QueueItem P)
      → (e : String) (xs : List (QueueItem P)) (item : QueueItem P) → find_item e xs ≡ some item
      → count p (update_item e f xs) + one_if (p item) ≡ count p xs + one_if (p (f item))
  unfolding find_item update_item
  count-update p f e [] item h = absurd (ground arith)
  count-update p f e (x ∷ xs) item h = ground (arith, count-update p f e xs item)

  -- A new id goes to the end.
  pub put_item_new :
      (item : QueueItem P) (xs : List (QueueItem P))
      → count (has_id item.event_id) xs ≡ 0
      → put_item item xs ≡ xs ++ item ∷ []
  unfolding put_item
  put_item_new item [] h = refl
  put_item_new item (x ∷ xs) h = ground (arith, put_item_new item xs)

  pub count-put :
      (p : QueueItem P → Bool) (item : QueueItem P) (xs : List (QueueItem P))
      → count (has_id item.event_id) xs ≡ 0
      → count p (put_item item xs) ≡ count p xs + one_if (p item)
  count-put p item xs h = rw (put_item_new item xs h) (omega (arith, count-append p xs (item ∷ [])))

  -- An update that the test does not see, at an item that fails it, is not seen in what passes.
  pub keep-update_other :
      (p : QueueItem P → Bool) (f : QueueItem P → QueueItem P)
      → ((i : QueueItem P) → p (f i) ≡ p i)
      → (e : String) (xs : List (QueueItem P)) (item : QueueItem P) → find_item e xs ≡ some item
      → p item ≡ false
      → keep p (update_item e f xs) ≡ keep p xs
  unfolding find_item update_item
  keep-update_other p f same e [] item h n = refl
  keep-update_other p f same e (x ∷ xs) item h n =
      ground (arith, same x, keep-update_other p f same e xs item)
