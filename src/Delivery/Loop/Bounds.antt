-- ===== src/Delivery/Loop/Bounds.antt =====
-- How often `_send_event_result_reliable` of grix_hermes/terminal_delivery.py sends, and how long it
-- pauses.
use grix_hermes_python.Prelude.{
  ℕ, zero, suc, ◌+◌, ◌-◌, ◌*◌, ◌≤◌, ◌<◌, ◌≡◌, ◌⊎◌, refl, sym, ◌∙◌, inl, inr, List, [], ◌∷◌, ◌++◌,
  arith, nat_eq, Option-cases, Bool-cases, append-nil, append_assoc,
}
use grix_hermes_python.Persistence.TerminalOutbox.{TerminalOutboxEntry}
use grix_hermes_python.Delivery.Controller.{Controller, Client}
use grix_hermes_python.Delivery.Attempt.{Verdict, before_attempt}
use grix_hermes_python.Delivery.Loop.{Round, Attempts, attempts, ask}

Verdict-cases :
    (v : Verdict)
    → ((d : ℕ) × (v ≡ Verdict.ended d)) ⊎ ((v ≡ Verdict.left) ⊎ (v ≡ Verdict.attempt_failed))
Verdict-cases (Verdict.ended d) = inl (d, refl)
Verdict-cases Verdict.left = inr (inl refl)
Verdict-cases Verdict.attempt_failed = inr (inr refl)

module _ (client : Client) (entry : TerminalOutboxEntry) (world : ℕ → Round) where
  -- The loop stops in this attempt, or goes on with the next.
  abbrev StopsOrGoes : ℕ → ℕ → ℕ → List ℕ → Controller → Type 0
  StopsOrGoes left attempt requests slept c =
      let a = attempts client entry world (suc left) attempt requests slept c in
      ((a.slept ≡ slept) × (requests ≤ a.requests) × (a.requests ≤ requests + 1))
      ⊎ ((0 < left)
          × ((next : Controller) × (a
                ≡ attempts client entry world left (attempt + 1) (requests + 1)
                    (slept ++ (750 * attempt) ∷ []) next)))

  stops_or_goes :
      (left attempt requests : ℕ) (slept : List ℕ) (c : Controller)
      → StopsOrGoes left attempt requests slept c
  unfolding attempts
  stops_or_goes left attempt requests slept c =
      elim (Option-cases (before_attempt (world attempt).connected entry c)) [
        | inr (d, early) ↦ rw (early, attempts) (inl (refl, omega arith, omega arith))
        | inl asks ↦
            rw (asks, attempts)
              (elim (Verdict-cases (ask client (world attempt) entry c).1) [
                | inl (d, ended) ↦ rw ended (inl (refl, omega arith, omega arith))
                | inr (inl out) ↦ rw out (inl (refl, omega arith, omega arith))
                | inr (inr failed) ↦ rw failed (elim (Bool-cases (nat_eq left 0)) [
                  | inl last ↦ rw last (inl (refl, omega arith, omega arith))
                  | inr more ↦ rw more (inr (ground arith, (_, refl)))
                ])
              ])
      ]

-- The pauses after the attempts from one on: 750 ms times the number of each.
pub pauses : ℕ → ℕ → List ℕ
pauses attempt zero = []
pauses attempt (suc k) = (750 * attempt) ∷ pauses (attempt + 1) k

-- Enough is said of the pauses by how many there are.
abbrev Counted : ℕ → ℕ → ℕ → List ℕ → Attempts → Type 0
Counted left attempt requests slept a =
    (k : ℕ) × (a.slept ≡ slept ++ pauses attempt k)
    × (k + requests ≤ a.requests)
    × (a.requests ≤ requests + left)
    × (k ≤ left - 1)

-- From the next attempt to this one.
Counted-suc :
    (left attempt requests : ℕ) (slept : List ℕ) (a : Attempts)
    → 0 < left
    → Counted left (attempt + 1) (requests + 1) (slept ++ (750 * attempt) ∷ []) a
    → Counted (suc left) attempt requests slept a
unfolding pauses
Counted-suc left attempt requests slept a more (k, waits, low, high, few) = (
  suc k,
  waits ∙ append_assoc slept ((750 * attempt) ∷ []) (pauses (attempt + 1) k),
  omega arith,
  omega arith,
  omega arith,
)

Counted-none :
    (left attempt requests : ℕ) (slept : List ℕ) (a : Attempts)
    → a.slept ≡ slept
    → requests ≤ a.requests
    → a.requests ≤ requests + left
    → Counted left attempt requests slept a
unfolding pauses
Counted-none left attempt requests slept a same low high =
    (0, same ∙ sym (append-nil slept), omega arith, high, omega arith)

module _ (client : Client) (entry : TerminalOutboxEntry) (world : ℕ → Round) where
  no_attempt :
      (attempt requests : ℕ) (slept : List ℕ) (c : Controller)
      → Counted 0 attempt requests slept (attempts client entry world 0 attempt requests slept c)
  unfolding attempts pauses
  no_attempt attempt requests slept c =
      (0, sym (append-nil slept), omega arith, omega arith, omega arith)

  counted :
      (left attempt requests : ℕ) (slept : List ℕ) (c : Controller)
      → Counted left attempt requests slept
          (attempts client entry world left attempt requests slept c)
  counted zero attempt requests slept c = no_attempt attempt requests slept c
  counted (suc left) attempt requests slept c =
      elim (stops_or_goes client entry world left attempt requests slept c) [
        | inl (same, low, high) ↦
            Counted-none (suc left) attempt requests slept
              (attempts client entry world (suc left) attempt requests slept c) same low
              (omega arith)
        | inr (more, (next, goes)) ↦ rw goes (
            Counted-suc left attempt requests slept
              (attempts client entry world left (attempt + 1) (requests + 1)
                (slept ++ (750 * attempt) ∷ []) next)
              more (counted left (attempt + 1) (requests + 1) (slept ++ (750 * attempt) ∷ []) next))
      ]

  -- Whatever is answered and whatever other tasks do meanwhile, a delivery that is allowed some
  -- number of attempts comes to an end with at most that many requests, and pauses 750 ms times the
  -- number of the attempt after each of the first ones, of which there are no more than requests
  -- and fewer than the attempts allowed, or none.
  pub attempts-bounded :
      (most : ℕ) (c : Controller)
      → let a = attempts client entry world most 1 0 [] c in
        (a.requests ≤ most) × ((k : ℕ) × (a.slept ≡ pauses 1 k) × (k ≤ a.requests) × (k ≤ most - 1))
  attempts-bounded most c =
      let (k, waits, low, high, few) = counted most 1 0 [] c in
      (omega arith, (k, waits, omega arith, few))
