-- ===== src/Prelude/Entries.antt =====
-- A property of every entry of a dict.
use Prim.Native.String.{String}
use mathlib.Core.Logic.{inl, inr}
use mathlib.Core.Path.{◌≡◌, refl}
use mathlib.Core.List.{[], ◌∷◌, ◌++◌}
use mathlib.Core.Option.{none, some}
use native.Mathlib.Omega.{arith}
use text.Mathlib.Text.{◌==◌}
use text.Mathlib.TextEquality.{eq_iff}
use grix_hermes_python.Prelude.Tests.{Bool-cases}
use grix_hermes_python.Prelude.Dict.{Dict, get, put, pop}

abbrev pub Every {ℓ κ} : {V : Type ℓ} → (String → V → Type κ) → Dict V → Type κ
Every P [] = Unit
Every P ((k, v) ∷ d) = P k v × Every P d

module _ {ℓ κ} {V : Type ℓ} (P : String → V → Type κ) where
  pub Every-get : (k : String) (v : V) (d : Dict V) → Every P d → get k d ≡ some v → P k v
  unfolding get
  Every-get k v [] h there = absurd (ground arith)
  Every-get k v ((j, w) ∷ d) (here, rest) there = elim (Bool-cases (j == k)) [
    | inl same ↦ let is_it : w ≡ v = ground arith in rw (← (eq_iff j k).0 same, ← is_it) here
    | inr other ↦ Every-get k v d rest (ground arith)
  ]

  pub Every-put : (k : String) (v : V) (d : Dict V) → P k v → Every P d → Every P (put k v d)
  unfolding put
  Every-put k v [] fit h = (fit, tt)
  Every-put k v ((j, w) ∷ d) fit (here, rest) = elim (Bool-cases (j == k)) [
    | inl same ↦ rw same ((rw ((eq_iff j k).0 same) fit), rest)
    | inr other ↦ rw other (here, Every-put k v d fit rest)
  ]

  pub Every-pop : (k : String) (d : Dict V) → Every P d → Every P (pop k d)
  unfolding pop
  Every-pop k [] h = tt
  Every-pop k ((j, w) ∷ d) (here, rest) = elim (Bool-cases (j == k)) [
    | inl same ↦ rw same rest
    | inr other ↦ rw other (here, Every-pop k d rest)
  ]

-- A key that is not there is put at the end.
pub put_new {ℓ} :
    {V : Type ℓ} (k : String) (v : V) (d : Dict V) → get k d ≡ none → put k v d ≡ d ++ (k, v) ∷ []
unfolding get put
put_new k v [] h = refl
put_new k v ((j, w) ∷ d) h = ground (arith, put_new k v d)
