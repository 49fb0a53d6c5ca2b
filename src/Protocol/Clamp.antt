-- ===== src/Protocol/Clamp.antt =====
-- What `clamp_int` of grix_hermes/protocol.py keeps to.
use grix_hermes_python.Prelude.{◌≡◌, arith, Option-cases, inl, inr}
use grix_hermes_python.Prelude.Int.{ℤ, ◌≤ℤ◌}
use grix_hermes_python.Json.{Value}
use grix_hermes_python.Json.Numbers.{int_of}
use grix_hermes_python.Protocol.Names.{clamp_int}

pub clamp_int-le :
    (value : Value) (fallback minimum maximum : ℤ)
    → fallback ≤ℤ maximum
    → minimum ≤ℤ maximum
    → clamp_int value fallback minimum maximum ≤ℤ maximum
unfolding clamp_int
clamp_int-le value fallback minimum maximum below ordered = elim (Option-cases (int_of value)) [
  | inl missing ↦ rw (missing, clamp_int) below
  | inr (n, found) ↦ rw (found, clamp_int) (ground arith)
]

pub clamp_int-ge :
    (value : Value) (fallback minimum maximum : ℤ)
    → minimum ≤ℤ fallback
    → minimum ≤ℤ clamp_int value fallback minimum maximum
unfolding clamp_int
clamp_int-ge value fallback minimum maximum above = elim (Option-cases (int_of value)) [
  | inl missing ↦ rw (missing, clamp_int) above
  | inr (n, found) ↦ rw (found, clamp_int) (ground arith)
]

-- A number that is in the range is kept.
pub clamp_int-id :
    (n fallback minimum maximum : ℤ)
    → minimum ≤ℤ n
    → n ≤ℤ maximum
    → clamp_int (Value.number n) fallback minimum maximum ≡ n
unfolding clamp_int int_of
clamp_int-id n fallback minimum maximum above below = ground arith
