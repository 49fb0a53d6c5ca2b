-- ===== src/Prelude/Dict.antt =====
-- Python's `dict` with text keys: an association list in insertion order. A new key goes to the
-- end, a key that is there keeps its place.
use Prim.Native.Nat.{max, ◌-◌, ℕ, ◌≤◌}
use Prim.Native.String.{String}
use mathlib.Core.Logic.{inl, inr}
use text.Mathlib.TextPositions.{eq_refl}
use mathlib.Core.Path.{◌≡◌, refl}
use mathlib.Core.Bool.{Bool, false}
use mathlib.Core.List.{List, [], ◌∷◌}
use mathlib.Core.Option.{Option, none, some}
use native.Mathlib.Omega.{arith}
use text.Mathlib.Text.{◌==◌}
use text.Mathlib.TextEquality.{eq_iff}
use grix_hermes_python.Prelude.Tests.{Bool-cases, if◌then◌else◌, is_some}
use grix_hermes_python.Prelude.Lists.{count}

abbrev pub Dict {ℓ} : Type ℓ → Type ℓ
Dict V = List (String × V)

module _ {ℓ} {V : Type ℓ} where
  -- d.get(k)
  unfoldable pub get : String → Dict V → Option V
  get k [] = none
  get k ((j, v) ∷ d) = if j == k then some v else get k d

  -- d[k] = v
  unfoldable pub put : String → V → Dict V → Dict V
  put k v [] = (k, v) ∷ []
  put k v ((j, w) ∷ d) = let rest = put k v d in if j == k then (j, v) ∷ d else (j, w) ∷ rest

  -- d.pop(k, None), for its effect
  unfoldable pub pop : String → Dict V → Dict V
  pop k [] = []
  pop k ((j, v) ∷ d) = let rest = pop k d in if j == k then d else (j, v) ∷ rest

  -- k in d
  unfoldable pub has : String → Dict V → Bool
  unfolding get
  has k d = is_some (get k d)

  -- How many entries have the key.
  abbrev pub entries : String → Dict V → ℕ
  entries k d = count (λ e. e.0 == k) d

  pub get-put :
      (k j : String) (v : V) (d : Dict V) → get j (put k v d) ≡ (if k == j then some v else get j d)
  unfolding get put
  get-put k j v [] = refl
  get-put k j v ((i, w) ∷ d) = ground (arith, eq_iff k j, eq_iff i k, eq_iff i j, get-put k j v d)

  pub entries-put :
      (k j : String) (v : V) (d : Dict V)
      → entries j (put k v d) ≡ (if k == j then max 1 (entries j d) else entries j d)
  unfolding put
  entries-put k j v [] = ground (arith, eq_iff k j)
  entries-put k j v ((i, w) ∷ d) =
      ground (arith, eq_iff k j, eq_iff i k, eq_iff i j, entries-put k j v d)

  pub get_of_no-entries : (k : String) (d : Dict V) → entries k d ≡ 0 → get k d ≡ none
  unfolding get
  get_of_no-entries k [] h = refl
  get_of_no-entries k ((j, v) ∷ d) h = ground (arith, get_of_no-entries k d)

  pub entries_of_none : (k : String) (d : Dict V) → get k d ≡ none → entries k d ≡ 0
  unfolding get
  entries_of_none k [] h = refl
  entries_of_none k ((j, v) ∷ d) h = ground (arith, entries_of_none k d)

  pub entries-pop :
      (k j : String) (d : Dict V)
      → entries j (pop k d) ≡ (if k == j then entries j d - 1 else entries j d)
  unfolding pop
  entries-pop k j [] = ground arith
  entries-pop k j ((i, v) ∷ d) =
      ground (arith, eq_iff k j, eq_iff i k, eq_iff i j, entries-pop k j d)

  pub get-pop_ne : (k j : String) (d : Dict V) → (k == j) ≡ false → get j (pop k d) ≡ get j d
  unfolding get pop
  get-pop_ne k j [] h = refl
  get-pop_ne k j ((i, v) ∷ d) h =
      ground (arith, eq_iff k j, eq_iff i k, eq_iff i j, get-pop_ne k j d)

  pub get-pop_self : (k : String) (d : Dict V) → entries k d ≤ 1 → get k (pop k d) ≡ none
  unfolding get pop
  get-pop_self k [] h = refl
  get-pop_self k ((j, v) ∷ d) h = ground (arith, get-pop_self k d, get_of_no-entries k d)

  pub get-pop :
      (k j : String) (d : Dict V)
      → entries k d ≤ 1
      → get j (pop k d) ≡ (if k == j then none else get j d)
  get-pop k j d once = elim (Bool-cases (k == j)) [
    | inl same ↦ rw (same, ← (eq_iff k j).0 same) (get-pop_self k d once)
    | inr other ↦ rw other (get-pop_ne k j d other)
  ]

  -- Putting the old value back undoes a put.
  pub put-put_back :
      (k : String) (v w : V) (d : Dict V) → get k d ≡ some w → put k w (put k v d) ≡ d
  unfolding get put
  put-put_back k v w [] h = absurd (ground arith)
  put-put_back k v w ((j, u) ∷ d) h = ground (arith, eq_iff j k, eq_refl j, put-put_back k v w d)

  -- Taking a new key out again undoes a put.
  pub pop-put_new : (k : String) (v : V) (d : Dict V) → get k d ≡ none → pop k (put k v d) ≡ d
  unfolding get put pop
  pop-put_new k v [] h = ground (arith, eq_refl k)
  pop-put_new k v ((j, u) ∷ d) h = ground (arith, eq_iff j k, pop-put_new k v d)

  -- Putting an entry back that was taken out restores every look-up, and not the order.
  pub get-put-pop :
      (k j : String) (v : V) (d : Dict V)
      → entries k d ≤ 1
      → get k d ≡ some v
      → get j (put k v (pop k d)) ≡ get j d
  get-put-pop k j v d once h =
      rw (get-put k j v (pop k d), get-pop k j d once) (ground (arith, eq_iff k j))

  pub put-once :
      (k : String) (v : V) (d : Dict V)
      → ((j : String) → entries j d ≤ 1)
      → (j : String) → entries j (put k v d) ≤ 1
  put-once k v d once j = ground (arith, once j, entries-put k j v d)

  pub pop-once :
      (k : String) (d : Dict V)
      → ((j : String) → entries j d ≤ 1)
      → (j : String) → entries j (pop k d) ≤ 1
  pop-once k d once j = ground (arith, once j, entries-pop k j d)
