-- ===== src/Persistence/Committed/Restart.antt =====
-- What a restart of grix_hermes/persistence/terminal_committed_store.py remembers.
use grix_hermes_python.Prelude.{
  ℕ, ◌-◌, ◌≤◌, String, ◌≡◌, refl, sym, ◌∙◌, true, false, Option, none, some, List, [], ◌∷◌, ◌++◌,
  ◌==◌, arith, member, count, length, eq_iff, eq_refl, is_some, member-append, append-nil,
  append_assoc,
}
use grix_hermes_python.Prelude.Text.{strip}
use grix_hermes_python.Persistence.File.{Env, Outcome, persist}
use grix_hermes_python.Persistence.Committed.{CommittedStore, trim, add, load_ids, reload, wanted}
use grix_hermes_python.Persistence.Committed.Laws.{IsTidy, add-IsTidy}

member-count : (x : String) (xs : List String) → member x xs ≡ true → 1 ≤ count (λ y. y == x) xs
unfolding member
member-count x [] h = cc
member-count x (y ∷ xs) h = ground (arith, member-count x xs)

member_nil : (x : String) → member x [] ≡ false
unfolding member
member_nil x = refl

-- What `_load` makes of tidy ids is those ids.
load_tidy :
    (xs before : List String)
    → ((x : String) → member x xs ≡ true → (strip x ≡ x) × ((x == "") ≡ false))
    → ((x : String) → member x xs ≡ true → member x before ≡ false)
    → ((x : String) → count (λ y. y == x) xs ≤ 1)
    → load_ids xs before ≡ before ++ xs
unfolding load_ids member
load_tidy [] before clean apart once = sym (append-nil before)
load_tidy (x ∷ xs) before clean apart once =
    let here : member x (x ∷ xs) ≡ true = ground (arith, eq_refl x) in
    let (stripped, filled) = clean x here in
    simp (stripped, filled, apart x here)
      (load_tidy xs (before ++ x ∷ []) (λ z m. clean z (ground arith))
          (λ z m. ground (
            arith,
            member-append z before (x ∷ []),
            apart z,
            once z,
            member-count z xs,
            eq_iff x z,
          ))
          (λ z. omega (arith, once z))
        ∙ append_assoc before (x ∷ []) xs)

trim_fits : (max_size : ℕ) (ids : List String) → length ids ≤ max_size → trim max_size ids ≡ ids
unfolding trim
trim_fits max_size ids h = let none_over : length ids - max_size ≡ 0 = omega arith in rw none_over

reload_ids : Option (List String) → ℕ → List String
reload_ids none max_size = []
reload_ids (some raws) max_size = trim max_size (load_ids raws [])

reload_wanted :
    (ids : List String) (max_size : ℕ)
    → load_ids ids [] ≡ ids
    → length ids ≤ max_size
    → reload_ids (wanted ids) max_size ≡ ids
unfolding reload_ids
reload_wanted [] max_size h k = refl
reload_wanted (x ∷ xs) max_size h k = rw h (trim_fits max_size (x ∷ xs) k)

reload_lem : (s : CommittedStore) → (reload s).ids ≡ reload_ids s.saved s.max_size
unfolding reload reload_ids
reload_lem s = ground arith

wrote_add :
    (env : Env) (e : String) (s : CommittedStore)
    → is_some s.file_path ≡ true
    → (strip e == "") ≡ false
    → member (strip e) s.ids ≡ false
    → (add env e s).1 ≡ Outcome.returned tt
    → ((add env e s).0.saved ≡ wanted (add env e s).0.ids) × ((add env e s).0.max_size ≡ s.max_size)
unfolding add persist
wrote_add env e s path filled new_one done = ground arith

-- Where a tidy store has a path, and `add` of an id that is new to it and not blank returned, a
-- restart over its file remembers the same ids in the same order.
pub reload-add :
    (env : Env) (e : String) (s : CommittedStore)
    → IsTidy s
    → is_some s.file_path ≡ true
    → (strip e == "") ≡ false
    → member (strip e) s.ids ≡ false
    → (add env e s).1 ≡ Outcome.returned tt
    → (reload (add env e s).0).ids ≡ (add env e s).0.ids
reload-add env e s h path filled new_one done =
    let after = (add env e s).0 in
    let tidy = add-IsTidy env e s h in
    let (written, size) = wrote_add env e s path filled new_one done in
    reload_lem after
    ∙ (rw written (
        reload_wanted after.ids after.max_size
          (load_tidy after.ids [] tidy.clean (λ x m. member_nil x) tidy.once) tidy.bounded))
