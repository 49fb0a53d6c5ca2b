-- ===== src/Json/Equality.antt =====
-- Python's `==` on what `json.loads` gives.
use grix_hermes_python.Prelude.{
  ℕ, suc, String, ◌≡◌, refl, Bool, true, false, ◌||◌, ◌&&◌, ◌==◌, arith, nat_eq, eq_refl,
}
use grix_hermes_python.Prelude.Int.{pos, eq_ℤ, eq_ℤ_refl}
use grix_hermes_python.Json.{Value, Items, Fields}
use grix_hermes_python.Json.Numbers.{as_number}

size : Fields → ℕ
size Fields.end = 0
size (Fields.field k v fs) = suc (size fs)

-- Does a value under the key pass the test? A dict has one value under a key at most.
any_at : String → (Value → Bool) → Fields → Bool
any_at k p Fields.end = false
any_at k p (Fields.field j w gs) = (j == k && p w) || any_at k p gs

-- `True` is 1 and `False` is 0; dicts are compared whatever the order of their keys.
unfoldable mutual
  unfolding size any_at

  pub value_eq : Value → Value → Bool
  value_eq Value.null Value.null = true
  value_eq (Value.boolean a) (Value.boolean b) = nat_eq (as_number a) (as_number b)
  value_eq (Value.boolean a) (Value.number n) = eq_ℤ (pos (as_number a)) n
  value_eq (Value.number n) (Value.boolean b) = eq_ℤ n (pos (as_number b))
  value_eq (Value.number n) (Value.number m) = eq_ℤ n m
  value_eq (Value.text s) (Value.text t) = s == t
  value_eq (Value.array vs) (Value.array ws) = items_eq vs ws
  value_eq (Value.object fs) (Value.object gs) = nat_eq (size fs) (size gs) && within fs gs
  value_eq _ _ = false

  pub items_eq : Items → Items → Bool
  items_eq Items.nil Items.nil = true
  items_eq (Items.item v vs) (Items.item w ws) = value_eq v w && items_eq vs ws
  items_eq _ _ = false

  pub within : Fields → Fields → Bool
  within Fields.end gs = true
  within (Fields.field k v fs) gs = any_at k (value_eq v) gs && within fs gs

abbrev IsPartOf : Fields → Fields → Type 0
IsPartOf fs gs = (k : String) (p : Value → Bool) → any_at k p fs ≡ true → any_at k p gs ≡ true

IsPartOf-tail :
    (j : String) (v : Value) (fs gs : Fields) → IsPartOf (Fields.field j v fs) gs → IsPartOf fs gs
unfolding any_at
IsPartOf-tail j v fs gs h k p there = h k p (ground arith)

any_at_head :
    (k : String) (v : Value) (fs gs : Fields)
    → IsPartOf (Fields.field k v fs) gs
    → value_eq v v ≡ true
    → any_at k (value_eq v) gs ≡ true
unfolding any_at
any_at_head k v fs gs h same = h k (value_eq v) (ground (arith, eq_refl k))

both_true : (a b : Bool) → a ≡ true → b ≡ true → a && b ≡ true
both_true a b h k = ground arith

same_size : (fs : Fields) → nat_eq (size fs) (size fs) ≡ true
same_size fs = ground arith

mutual
  unfolding value_eq

  refl_value : (v : Value) → value_eq v v ≡ true
  refl_value Value.null = refl
  refl_value (Value.boolean b) = ground arith
  refl_value (Value.number n) = eq_ℤ_refl n
  refl_value (Value.text s) = eq_refl s
  refl_value (Value.array vs) = refl_items vs
  refl_value (Value.object fs) =
      both_true _ _ (same_size fs) (refl_fields fs fs (λ k p there. there))

  refl_items : (vs : Items) → items_eq vs vs ≡ true
  refl_items Items.nil = refl
  refl_items (Items.item v vs) = both_true _ _ (refl_value v) (refl_items vs)

  refl_fields : (fs gs : Fields) → IsPartOf fs gs → within fs gs ≡ true
  refl_fields Fields.end gs h = refl
  refl_fields (Fields.field k v fs) gs h =
      both_true _ _ (any_at_head k v fs gs h (refl_value v))
        (refl_fields fs gs (IsPartOf-tail k v fs gs h))

pub value_eq_refl : (v : Value) → value_eq v v ≡ true
value_eq_refl v = refl_value v
