-- ===== src/Delivery/Loop/Delivered.antt =====
-- The whole of `_send_event_result_reliable` of grix_hermes/terminal_delivery.py, where no other task
-- changes the stores meanwhile.
use grix_hermes_python.Prelude.{
  ℕ, ◌+◌, ◌-◌, ◌≤◌, ◌<◌, String, ◌≡◌, refl, ap, sym, ◌∙◌, Bool, true, false, Option, none, some, [],
  ◌==◌, arith, eq_refl,
}
use mathlib.Core.Path.{subst}
use grix_hermes_python.Prelude.Dict.{Dict, get, entries, get-put}
use grix_hermes_python.Prelude.Int.{ℤ, pos, negsuc}
use grix_hermes_python.Prelude.Text.{strip}
use grix_hermes_python.Json.{Value, value_at}
use grix_hermes_python.Persistence.File.{Env, persist}
use grix_hermes_python.Persistence.TerminalOutbox.{
  TerminalOutboxEntry, Ack, is_current, id_of, current_of, record_retry, commit,
}
use grix_hermes_python.Persistence.TerminalOutbox.Durability.{
  IsDurable, mark_delivery_started-IsDurable,
}
use grix_hermes_python.Persistence.Committed.Laws.{IsTidy}
use grix_hermes_python.Delivery.Controller.{Controller, Client, terminal_retry_delay_ms}
use grix_hermes_python.Delivery.Attempt.{Packet, Verdict, on_packet, prepare, keep_for_retry}
use grix_hermes_python.Delivery.Acknowledged.{
  IsPending, IsAnswered, IsOver, on_packet-IsOver, is_here,
}
use grix_hermes_python.Delivery.Loop.Started.{IsKept, mark-IsKept, kept-IsPending, prepare-marks}
use grix_hermes_python.Delivery.Loop.{
  Round, at_least_one, setting, attempts, ask, on_answer, after_packet, after_loop, max_attempts,
  timeout_ms, run_attempts, send_event_result_reliable,
}
use grix_hermes_python.Delivery.Loop.Outcomes.{IsCalm, all_unanswered, answered_at}

after_ended :
    (r : Round) (entry : TerminalOutboxEntry) (packet : Packet) (t : Controller × Verdict) (n : ℕ)
    → t.1 ≡ Verdict.ended n
    → after_packet r entry packet t ≡ (t.0, Verdict.ended n)
after_ended r entry packet (c, Verdict.ended m) n h = λ i. (c, h i)
after_ended r entry packet (c, Verdict.left) n h = absurd (ground arith)
after_ended r entry packet (c, Verdict.attempt_failed) n h = absurd (ground arith)

ask_ended :
    (client : Client) (r : Round) (entry : TerminalOutboxEntry) (packet : Packet) (c : Controller)
    (n : ℕ)
    → IsCalm r
    → r.answer ≡ some packet
    → (on_packet r.writes client r.still_connected entry packet c).1 ≡ Verdict.ended n
    → ask client r entry c
      ≡ ((on_packet r.writes client r.still_connected entry packet c).0, Verdict.ended n)
unfolding ask
ask_ended client r entry packet c n calm there ended =
    ap (on_answer client r entry (r.meanwhile c)) there
    ∙ ap (λ d. on_answer client r entry d (some packet)) (calm.meanwhile c)
    ∙ after_ended r entry packet (on_packet r.writes client r.still_connected entry packet c) n
        ended

-- How a delivery starts: the entry was marked, and the negotiated policy is read.
pub record IsStarted (start : Env) (client : Client) (ack_policy : Dict Value)
    (entry : TerminalOutboxEntry) (c marked : Controller) (most : ℕ) : Type 0 where
  pub prepared : prepare start client entry c ≡ (marked, none)
  pub attempts : max_attempts ack_policy ≡ some most
  pub timeout : (t : ℤ) × (timeout_ms ack_policy ≡ some t)

module _ (start : Env) (client : Client) (ack_policy : Dict Value) (entry : TerminalOutboxEntry)
    (world : ℕ → Round) (env : Env) (last_error : String) (c marked : Controller) (most : ℕ)
    (started : IsStarted start client ack_policy entry c marked most) where
  is_kept : (h : IsPending entry c.terminal_outbox) → IsKept entry h.current marked.terminal_outbox
  is_kept h =
      subst (λ (d : Controller). IsKept entry h.current d.terminal_outbox)
        (sym (prepare-marks start client entry c marked started.prepared))
        (mark-IsKept start entry c.terminal_outbox h)

  is_pending : IsPending entry c.terminal_outbox → IsPending entry marked.terminal_outbox
  is_pending h = kept-IsPending entry c.terminal_outbox marked.terminal_outbox h (is_kept h)

  attempts_run :
      run_attempts client ack_policy entry world env last_error marked
      ≡ after_loop env entry last_error (attempts client entry world most 1 0 [] marked)
  unfolding run_attempts
  attempts_run = rw (started.attempts, run_attempts) (rw (started.timeout.1, run_attempts) refl)

  the_loop :
      send_event_result_reliable start client ack_policy entry world env last_error c
      ≡ after_loop env entry last_error (attempts client entry world most 1 0 [] marked)
  unfolding send_event_result_reliable
  the_loop =
      rw (ap (λ (t : Controller × Option ℕ). t.1) started.prepared, send_event_result_reliable)
        (ap
            (λ (t : Controller × Option ℕ).
              run_attempts client ack_policy entry world env last_error t.0)
            started.prepared
          ∙ attempts_run)

  -- Where an attempt of the allowed ones is answered by what ends the delivery.
  ends_with :
      (when : ℕ) (packet : Packet)
      → is_current entry marked.terminal_outbox ≡ true
      → ((i : ℕ) → IsCalm (world i))
      → 1 ≤ when
      → when ≤ most
      → ((i : ℕ) → i < when → (world i).answer ≡ none)
      → (world when).answer ≡ some packet
      → (n : ℕ)
      → let after =
          on_packet (world when).writes client (world when).still_connected entry packet marked in
        after.1 ≡ Verdict.ended n
        → send_event_result_reliable start client ack_policy entry world env last_error c
          ≡ (after.0, some n)
  ends_with when packet current calm low high silent there n ended =
      let asked = ask_ended client (world when) entry packet marked n (calm when) there ended in
      let (same, out, count) =
        answered_at client entry world marked current calm most (when - 1) 1 0 n [] when _
          (omega arith) (omega arith) silent asked in
      the_loop ∙ (rw (out, after_loop) (ap (λ (d : Controller). (d, some n)) same))

  -- Take a delivery, the first of its entry or a later one, for which an entry of its generation,
  -- status and token is pending, whose policy is read, and which gets to its attempts, and during
  -- which the connection stands and no other task changes anything. If it gets no answer before
  -- some attempt within the allowed ones, and at that one an acknowledgement which fits the entry,
  -- it returns the delay 0 and is over: the entry is out of the outbox, its id is sealed, and its
  -- token is taken back. The writes of that attempt succeed, and before the delivery the outbox is
  -- durable, the sealed ids are tidy, and the event has one token at most and an id that is not
  -- blank.
  pub acknowledged_at :
      (when : ℕ) (a : Ack)
      → ((i : ℕ) → IsCalm (world i))
      → 1 ≤ when
      → when ≤ most
      → ((i : ℕ) → i < when → (world i).answer ≡ none)
      → (world when).answer ≡ some (Packet.ack a)
      → (world when).still_connected ≡ true
      → (world when).writes.first.writes ≡ true
      → (world when).writes.second.writes ≡ true
      → (world when).writes.third.writes ≡ true
      → IsDurable c.terminal_outbox
      → IsTidy c.terminal_committed
      → entries (id_of entry) c.terminal_commit_tokens.tokens ≤ 1
      → (strip (id_of entry) == "") ≡ false
      → IsPending entry c.terminal_outbox
      → IsAnswered entry a
      → (d : Controller) × (send_event_result_reliable start client ack_policy entry world env
            last_error c
          ≡ (d, some 0))
        × IsOver entry (d, Verdict.ended 0)
  acknowledged_at when a calm low high silent there stands w1 w2 w3 durable tidy once named pending
        answered =
      let r = world when in
      let marks = sym (prepare-marks start client entry c marked started.prepared) in
      let here = is_pending pending in
      let durable_too =
        subst (λ (d : Controller). IsDurable d.terminal_outbox) marks
          (mark_delivery_started-IsDurable start entry c.terminal_outbox durable) in
      let tidy_too = subst (λ (d : Controller). IsTidy d.terminal_committed) marks tidy in
      let once_too =
        subst (λ (d : Controller). entries (id_of entry) d.terminal_commit_tokens.tokens ≤ 1) marks
          once in
      let after = on_packet r.writes client true entry (Packet.ack a) marked in
      let over =
        on_packet-IsOver r.writes client entry a marked w1 w2 w3 durable_too tidy_too once_too named
          here answered in
      let same : on_packet r.writes client r.still_connected entry (Packet.ack a) marked ≡ after =
        ap (λ (b : Bool). on_packet r.writes client b entry (Packet.ack a) marked) stands in
      let ended = ap (λ (t : Controller × Verdict). t.1) same ∙ over.verdict in
      (
        after.0,
        ends_with when (Packet.ack a) (is_here entry marked.terminal_outbox here) calm low high
              silent there 0 ended
            ∙ ap (λ (t : Controller × Verdict). (t.0, some 0)) same,
        record {
          verdict = refl;
          gone = over.gone;
          sealed = over.sealed;
          token_free = over.token_free;
        },
      )

at_least_one_pos : (o : Option ℤ) (most : ℕ) → at_least_one o ≡ some most → 1 ≤ most
at_least_one_pos none most h = absurd (ground arith)
at_least_one_pos (some (pos n)) most h = ground arith
at_least_one_pos (some (negsuc n)) most h = ground arith

some_attempts : (policy : Dict Value) (most : ℕ) → max_attempts policy ≡ some most → 1 ≤ most
unfolding max_attempts
some_attempts policy most h = at_least_one_pos (setting (value_at "max_retries" policy) 3) most h

-- An entry as it waits for its next delivery after the attempts failed: the result that it was, with
-- one more delivery counted, the time of the next and the text of the error.
pub record IsRetried (env : Env) (error : String) (before after : TerminalOutboxEntry)
    : Type 0 where
  pub payload : after.payload ≡ before.payload
  pub generation : after.generation ≡ before.generation
  pub created_at : after.created_at ≡ before.created_at
  pub attempts : after.attempts ≡ before.attempts + 1
  pub next_attempt_at : after.next_attempt_at ≡ pos (env.now + terminal_retry_delay_ms)
  pub last_error : after.last_error ≡ some error

abbrev retried : Env → String → TerminalOutboxEntry → TerminalOutboxEntry
retried env error e = record e {
  attempts = e.attempts + 1;
  updated_at = pos env.now;
  next_attempt_at = pos (env.now + terminal_retry_delay_ms);
  last_error = some error;
}

kept :
    (env : Env) (entry current : TerminalOutboxEntry) (error : String) (c : Controller)
    → env.writes ≡ true
    → get (id_of entry) c.terminal_outbox.pending ≡ some current
    → current.generation ≡ entry.generation
    → get (id_of entry) (keep_for_retry env entry error c).terminal_outbox.pending
      ≡ some (retried env error current)
unfolding keep_for_retry record_retry current_of commit persist
kept env entry current error c w there same = ground (
  arith,
  get-put (id_of entry) (id_of entry) (retried env error current) c.terminal_outbox.pending,
  eq_refl (id_of entry),
)

abbrev Unanswered : Client → TerminalOutboxEntry → (ℕ → Round) → Controller → ℕ → Type 0
Unanswered client entry world c most =
    let a = attempts client entry world most 1 0 [] c in
    (a.controller ≡ c) × (a.ending ≡ none) × (a.requests ≡ 0 + most)

-- Take a delivery, the first of its entry or a later one, for which an entry of its generation,
-- status and token is pending, whose policy is read, and which gets to its attempts, during which
-- the connection stands, no other task changes anything and no request is answered, and after which
-- the last write succeeds. It makes all the attempts it is allowed, asks to be repeated after 15
-- seconds, and leaves pending the result that was, with its generation and its age, one more
-- delivery counted, the time of the next and the text of the error.
pub unanswered_kept :
    (start : Env) (client : Client) (ack_policy : Dict Value) (entry : TerminalOutboxEntry)
    (world : ℕ → Round) (env : Env) (last_error : String) (c marked : Controller) (most : ℕ)
    → IsStarted start client ack_policy entry c marked most
    → ((i : ℕ) → IsCalm (world i))
    → ((i : ℕ) → (world i).answer ≡ none)
    → env.writes ≡ true
    → (h : IsPending entry c.terminal_outbox)
    → let t = send_event_result_reliable start client ack_policy entry world env last_error c in
      (t.1 ≡ some terminal_retry_delay_ms)
      × ((e : TerminalOutboxEntry) × (get (id_of entry) t.0.terminal_outbox.pending ≡ some e)
          × IsRetried env last_error h.current e)
      × ((attempts client entry world most 1 0 [] marked).requests ≡ most)
unanswered_kept start client ack_policy entry world env last_error c marked most started calm silent
      w h =
    let (after, there, unchanged) =
      is_kept start client ack_policy entry world env last_error c marked most started h in
    let current =
      is_here entry marked.terminal_outbox
        (is_pending start client ack_policy entry world env last_error c marked most started h) in
    let low = some_attempts ack_policy most started.attempts in
    let (same, out, count) =
      subst (Unanswered client entry world marked) (omega arith)
        (all_unanswered client entry world marked current calm (most - 1) 1 0 [] silent) in
    let whole : send_event_result_reliable start client ack_policy entry world env last_error c
        ≡ (keep_for_retry env entry last_error marked, some terminal_retry_delay_ms) =
      the_loop start client ack_policy entry world env last_error c marked most started
      ∙ (rw (out, after_loop)
          (ap
            (λ (d : Controller).
              (keep_for_retry env entry last_error d, some terminal_retry_delay_ms))
            same)) in
    (
      ap (λ (t : Controller × Option ℕ). t.1) whole,
      (
        retried env last_error after,
        ap (λ (t : Controller × Option ℕ). get (id_of entry) t.0.terminal_outbox.pending) whole
            ∙ kept env entry after last_error marked w there (unchanged.generation ∙ h.generation),
        record {
          payload = unchanged.payload;
          generation = unchanged.generation;
          created_at = unchanged.created_at;
          attempts = ap (λ (n : ℕ). n + 1) unchanged.attempts;
          next_attempt_at = refl;
          last_error = refl;
        },
      ),
      count ∙ omega arith,
    )
