-- ===== src/Delivery/Loop/Outcomes.antt =====
-- What a delivery of grix_hermes/terminal_delivery.py leads to, where no other task changes anything.
use grix_hermes_python.Prelude.{
  ℕ, zero, suc, ◌+◌, ◌*◌, ◌<◌, ◌≡◌, refl, ap, ◌∙◌, true, false, none, some, List, [], ◌∷◌, ◌++◌,
  arith, nat_eq,
}
use grix_hermes_python.Persistence.TerminalOutbox.{TerminalOutboxEntry, is_current}
use grix_hermes_python.Delivery.Controller.{Controller, Client}
use grix_hermes_python.Delivery.Attempt.{Verdict, before_attempt}
use grix_hermes_python.Delivery.Loop.{Round, attempts, ask}

-- The connection stands and no other task changes the controller.
pub record IsCalm (r : Round) : Type 0 where
  pub connected : r.connected ≡ true
  pub meanwhile : (c : Controller) → r.meanwhile c ≡ c
  pub pause : (c : Controller) → r.pause c ≡ c

module _ (client : Client) (entry : TerminalOutboxEntry) (world : ℕ → Round) (c : Controller)
    (current : is_current entry c.terminal_outbox ≡ true) where
  asks : (r : Round) → IsCalm r → before_attempt r.connected entry c ≡ none
  unfolding before_attempt
  asks r calm = rw (calm.connected, current)

  unanswered :
      (r : Round) → IsCalm r → r.answer ≡ none → ask client r entry c ≡ (c, Verdict.attempt_failed)
  unfolding ask
  unanswered r calm silent = rw (silent, calm.meanwhile c)

  -- An attempt without an answer leads to the next one, if there is one.
  goes_on :
      (left attempt requests : ℕ) (slept : List ℕ)
      → IsCalm (world attempt)
      → (world attempt).answer ≡ none
      → IsCalm (world (attempt + 1))
      → 0 < left
      → (waited : List ℕ) × (attempts client entry world (suc left) attempt requests slept c
          ≡ attempts client entry world left (attempt + 1) (requests + 1) waited c)
  unfolding attempts
  goes_on left attempt requests slept calm silent next more =
      let some_left : nat_eq left 0 ≡ false = ground arith in
      let waited = slept ++ (750 * attempt) ∷ [] in
      let asked = unanswered (world attempt) calm silent in
      let same = ap (λ (t : Controller × Verdict). (world (attempt + 1)).pause t.0) asked in
      (
        waited,
        rw (asks (world attempt) calm, attempts)
            (rw (ap (λ (t : Controller × Verdict). t.1) asked, some_left, attempts)
              (ap
                (λ (d : Controller).
                  attempts client entry world left (attempt + 1) (requests + 1) waited d)
                (same ∙ next.pause c))),
      )

  -- The last attempt, without an answer.
  gives_up :
      (attempt requests : ℕ) (slept : List ℕ)
      → IsCalm (world attempt)
      → (world attempt).answer ≡ none
      → let a = attempts client entry world 1 attempt requests slept c in
        (a.controller ≡ c) × (a.ending ≡ none) × (a.requests ≡ requests + 1)
  unfolding attempts
  gives_up attempt requests slept calm silent =
      let asked = unanswered (world attempt) calm silent in
      rw (asks (world attempt) calm, attempts)
        (rw (ap (λ (t : Controller × Verdict). t.1) asked, attempts)
          (ap (λ (t : Controller × Verdict). t.0) asked, refl, refl))

  -- An attempt whose answer ends the delivery.
  ends :
      (left attempt requests delay : ℕ) (slept : List ℕ) (d : Controller)
      → IsCalm (world attempt)
      → ask client (world attempt) entry c ≡ (d, Verdict.ended delay)
      → let a = attempts client entry world (suc left) attempt requests slept c in
        (a.controller ≡ d) × (a.ending ≡ some delay) × (a.requests ≡ requests + 1)
  unfolding attempts
  ends left attempt requests delay slept d calm asked =
      rw (asks (world attempt) calm, attempts)
        (rw (ap (λ (t : Controller × Verdict). t.1) asked, attempts)
          (ap (λ (t : Controller × Verdict). t.0) asked, refl, refl))

  module _ (calm : (i : ℕ) → IsCalm (world i)) where
    pub all_unanswered :
        (left attempt requests : ℕ) (slept : List ℕ)
        → ((i : ℕ) → (world i).answer ≡ none)
        → let a = attempts client entry world (suc left) attempt requests slept c in
          (a.controller ≡ c) × (a.ending ≡ none) × (a.requests ≡ requests + suc left)
    all_unanswered zero attempt requests slept silent =
        gives_up attempt requests slept (calm attempt) (silent attempt)
    all_unanswered (suc left) attempt requests slept silent =
        let (waited, goes) =
          goes_on (suc left) attempt requests slept (calm attempt) (silent attempt)
            (calm (attempt + 1)) (omega arith) in
        rw goes (
          let (same, out, count) = all_unanswered left (attempt + 1) (requests + 1) waited silent in
          (same, out, count ∙ omega arith))

    pub answered_at :
        (left k attempt requests delay : ℕ) (slept : List ℕ) (at : ℕ) (d : Controller)
        → k < left
        → at ≡ attempt + k
        → ((i : ℕ) → i < at → (world i).answer ≡ none)
        → ask client (world at) entry c ≡ (d, Verdict.ended delay)
        → let a = attempts client entry world left attempt requests slept c in
          (a.controller ≡ d) × (a.ending ≡ some delay) × (a.requests ≡ requests + k + 1)
    answered_at zero k attempt requests delay slept at d few is_it silent asked =
        absurd (omega arith)
    answered_at (suc left) zero attempt requests delay slept at d few is_it silent asked =
        let here : at ≡ attempt = omega arith in
        let (same, out, count) =
          ends left attempt requests delay slept d (calm attempt) (rw (← here) asked) in
        (same, out, count ∙ omega arith)
    answered_at (suc left) (suc k) attempt requests delay slept at d few is_it silent asked =
        let (waited, goes) =
          goes_on left attempt requests slept (calm attempt) (silent attempt (omega arith))
            (calm (attempt + 1)) (omega arith) in
        rw goes (
          let (same, out, count) =
            answered_at left k (attempt + 1) (requests + 1) delay waited at d (omega arith)
              (is_it ∙ omega arith) silent asked in
          (same, out, count ∙ omega arith))
