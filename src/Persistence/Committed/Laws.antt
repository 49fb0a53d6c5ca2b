-- ===== src/Persistence/Committed/Laws.antt =====
-- What grix_hermes/persistence/terminal_committed_store.py remembers.
use grix_hermes_python.Prelude.{
  ℕ, zero, suc, ◌+◌, ◌-◌, ◌≤◌, String, ◌≡◌, refl, inl, inr, Bool, true, false, Option, List, [],
  ◌∷◌, ◌++◌, ◌==◌, not, arith, member, keep, count, length, length-append, drop, length-drop,
  if_elim, if◌then◌else◌, eq_iff, eq_refl, Bool-cases, member-append, drop-append, count-drop-le,
  count-append, length-keep-le,
}
use grix_hermes_python.Prelude.Text.{strip, strip_idem}
use grix_hermes_python.Persistence.File.{Env, Outcome}
use grix_hermes_python.Persistence.Committed.{CommittedStore, has, trim, add}

-- The ids are distinct, stripped and not blank, and no more than `max_size`, which is 1 at least.
pub record IsTidy (s : CommittedStore) : Type 0 where
  pub room : 1 ≤ s.max_size
  pub bounded : length s.ids ≤ s.max_size
  pub once : (x : String) → count (λ y. y == x) s.ids ≤ 1
  pub clean : (x : String) → member x s.ids ≡ true → (strip x ≡ x) × ((x == "") ≡ false)

member-keep :
    (x : String) (p : String → Bool) (xs : List String)
    → member x (keep p xs) ≡ true
    → member x xs ≡ true
unfolding member
member-keep x p [] h = h
member-keep x p (y ∷ xs) h = ground (arith, member-keep x p xs)

member-drop :
    (x : String) (n : ℕ) (xs : List String) → member x (drop n xs) ≡ true → member x xs ≡ true
unfolding member
member-drop x zero xs h = h
member-drop x (suc n) [] h = h
member-drop x (suc n) (y ∷ xs) h = ground (arith, member-drop x n xs)

absent-count : (x : String) (xs : List String) → member x xs ≡ false → count (λ y. y == x) xs ≡ 0
unfolding member
absent-count x [] h = refl
absent-count x (y ∷ xs) h = ground (arith, absent-count x xs)

-- Taking out an id that is there makes room for one.
length-without :
    (x : String) (xs : List String)
    → member x xs ≡ true
    → length (keep (λ y. not (y == x)) xs) + 1 ≤ length xs
unfolding member
length-without x [] h = cc
length-without x (y ∷ xs) h =
    ground (arith, length-without x xs, length-keep-le (λ z. not (z == x)) xs)

without-count :
    (x z : String) (xs : List String)
    → count (λ y. y == z) (keep (λ y. not (y == x)) xs)
      ≡ (if x == z then 0 else count (λ y. y == z) xs)
without-count x z [] = ground arith
without-count x z (y ∷ xs) =
    ground (arith, without-count x z xs, eq_iff y x, eq_iff y z, eq_iff x z)

trim_split :
    (max_size : ℕ) (ids : List String) (e : String)
    → 1 ≤ max_size
    → length ids ≤ max_size
    → trim max_size (ids ++ e ∷ []) ≡ drop (length ids + 1 - max_size) ids ++ e ∷ []
unfolding trim
trim_split max_size ids e room bounded =
    rw (length-append ids (e ∷ [])) (drop-append _ ids (e ∷ []) (omega arith))

-- An id at the end of tidy ones, behind some of them.
ending-clean :
    (kept : List String) (e : String) (s : CommittedStore)
    → IsTidy s
    → (strip e == "") ≡ false
    → ((x : String) → member x kept ≡ true → member x s.ids ≡ true)
    → (x : String) → member x (kept ++ strip e ∷ []) ≡ true
    → (strip x ≡ x) × ((x == "") ≡ false)
unfolding member
ending-clean kept e s h filled from x m = elim (Bool-cases (member x kept)) [
  | inl old ↦ h.clean x (from x old)
  | inr new_one ↦
      let is_e : strip e ≡ x =
        (eq_iff (strip e) x).0 (ground (arith, member-append x kept (strip e ∷ []))) in
      rw (← is_e) (strip_idem e, filled)
]

refreshed-IsTidy :
    (e : String) (s : CommittedStore)
    → IsTidy s
    → (strip e == "") ≡ false
    → member (strip e) s.ids ≡ true
    → IsTidy (record s { ids = keep (λ x. not (x == strip e)) s.ids ++ strip e ∷ [] })
refreshed-IsTidy e s h filled old = record {
  room = h.room;
  bounded = omega (
    arith,
    h.bounded,
    length-append (keep (λ x. not (x == strip e)) s.ids) (strip e ∷ []),
    length-without (strip e) s.ids old,
  );
  once = λ x. ground (
    arith,
    h.once x,
    count-append (λ y. y == x) (keep (λ y. not (y == strip e)) s.ids) (strip e ∷ []),
    without-count (strip e) x s.ids,
  );
  clean =
      ending-clean (keep (λ x. not (x == strip e)) s.ids) e s h filled
        (λ x m. member-keep x (λ y. not (y == strip e)) s.ids m);
}

appended-IsTidy :
    (e : String) (s : CommittedStore) (saved : Option (List String))
    → IsTidy s
    → (strip e == "") ≡ false
    → member (strip e) s.ids ≡ false
    → IsTidy (record s { ids = trim s.max_size (s.ids ++ strip e ∷ []); saved = saved })
appended-IsTidy e s saved h filled new_one =
    let n = length s.ids + 1 - s.max_size in
    let split = trim_split s.max_size s.ids (strip e) h.room h.bounded in
    record {
      room = h.room;
      bounded = rw split (
          omega (
            arith,
            h.bounded,
            h.room,
            length-append (drop n s.ids) (strip e ∷ []),
            length-drop n s.ids,
          ));
      once = λ x. rw split (
          ground (
            arith,
            h.once x,
            count-append (λ y. y == x) (drop n s.ids) (strip e ∷ []),
            count-drop-le (λ y. y == x) n s.ids,
            absent-count (strip e) s.ids new_one,
            eq_iff (strip e) x,
          ));
      clean = rw split (ending-clean (drop n s.ids) e s h filled (λ x m. member-drop x n s.ids m));
    }

-- A tidy store is tidy after `add`, whether its write succeeds or raises: its ids are distinct,
-- stripped, not blank, and no more than the limit, which is 1 at least.
pub add-IsTidy : (env : Env) (e : String) (s : CommittedStore) → IsTidy s → IsTidy (add env e s).0
unfolding add
add-IsTidy env e s h =
    if_elim (λ (t : CommittedStore × Outcome (Unit {0})). IsTidy t.0) (strip e == "") _ _ (λ _. h)
      λ filled.
        if_elim (λ (t : CommittedStore × Outcome (Unit {0})). IsTidy t.0) (member (strip e) s.ids) _
          _ (refreshed-IsTidy e s h filled) (appended-IsTidy e s _ h filled)

-- After `add` of an id that is not blank to a tidy store, the id is known as settled, whether the
-- write succeeded or raised.
pub has-add :
    (env : Env) (e : String) (s : CommittedStore)
    → IsTidy s
    → (strip e == "") ≡ false
    → has e (add env e s).0 ≡ true
unfolding has add member
has-add env e s h filled = rw filled (
    if_elim (λ (t : CommittedStore × Outcome (Unit {0})). member (strip e) t.0.ids ≡ true)
      (member (strip e) s.ids) _ _ (λ _. at_end (keep (λ x. not (x == strip e)) s.ids))
      (λ _.
        rw (trim_split s.max_size s.ids (strip e) h.room h.bounded)
          (at_end (drop (length s.ids + 1 - s.max_size) s.ids))))
  where
    at_end : (xs : List String) → member (strip e) (xs ++ strip e ∷ []) ≡ true
    at_end xs = ground (arith, member-append (strip e) xs (strip e ∷ []), eq_refl (strip e))
