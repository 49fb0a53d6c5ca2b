-- ===== src/Persistence/Examples.antt =====
-- Runs of the stores of grix_hermes/persistence, at which their theorems are applied.
use grix_hermes_python.Prelude.{
  inr, ◌+◌, String, ◌≡◌, ◌≢◌, ◌⊎◌, ◌↔◌, refl, true, false, none, some, List, [], ◌∷◌, arith, ◌==◌,
  member,
}
use grix_hermes_python.Prelude.Int.{pos}
use grix_hermes_python.Prelude.Dict.{get, put, pop}
use grix_hermes_python.Prelude.Text.{strip, is_space}
use grix_hermes_python.Persistence.File.{Env, Outcome, persist}
use grix_hermes_python.Json.{Value, value_at, text_of, is_true}
use grix_hermes_python.Json.Equality.{value_eq}
use grix_hermes_python.Persistence.Payload.{Payload, clean_text}
use grix_hermes_python.Persistence.TerminalOutbox
use grix_hermes_python.Persistence.TerminalOutbox.{
  TerminalOutbox, TerminalOutboxEntry, TerminalRejection, Ack, is_event_result_payload, new_entry,
  enqueue, id_of, current_of, mark_delivery_started, acknowledge, commit, save, same_status,
  token_of, ack_fits,
}
use grix_hermes_python.Persistence.TerminalOutbox.Durability.{IsDurable, IsRestored}
use grix_hermes_python.Persistence.TerminalOutbox.History.{
  Operation, perform, replay, new-IsDurable, replay-IsDurable, perform_raised,
}
use grix_hermes_python.Persistence.TerminalOutbox.Generations.{IsIgnored}
use grix_hermes_python.Persistence.TerminalOutbox.Superseded.History.{superseded_for_good}
use grix_hermes_python.Persistence.TerminalOutbox.Settlement.{acknowledge_iff}
use grix_hermes_python.Persistence.Committed
use grix_hermes_python.Persistence.Committed.Laws.{IsTidy}
use grix_hermes_python.Persistence.Committed.Restart.{reload-add}
use grix_hermes_python.Persistence.Tokens
use grix_hermes_python.Persistence.Tokens.Laws.{
  new-IsDurable as new_registry-IsDurable, registry-IsDurable,
}
use grix_hermes_python.Persistence.Tokens.Registration.{
  register_fixed, register_iff, never_takes, takes,
}
use grix_hermes_python.Persistence.Tokens.Laws as TokenLaws

abbrev works : Env
works = record { now = 1_000; writes = true }

abbrev broken : Env
broken = record { now = 2_000; writes = false }

abbrev result_of : String → Payload
result_of status =
    ("event_id", Value.text " e1 ")
    ∷ ("status", Value.text status)
    ∷ ("terminal_commit_token", Value.text "t1")
    ∷ []

abbrev nothing_yet : TerminalOutbox
nothing_yet = TerminalOutbox.new (some "outbox.json")

abbrev first : TerminalOutboxEntry
first = new_entry 1_000 "e1" (result_of "responded") none

abbrev outbox : TerminalOutbox
outbox = replay ((works, Operation.put_in (result_of "responded")) ∷ []) nothing_yet

outbox_pending : outbox.pending ≡ ("e1", first) ∷ []
unfolding replay perform enqueue is_event_result_payload clean_text value_at text_of strip is_space
    commit save persist get put pop new_entry id_of current_of mark_delivery_started acknowledge
    value_eq is_true ack_fits
outbox_pending = refl

-- The second write fails, and so does the last, after the entry was settled.
abbrev history : List (Env × Operation)
history =
    (works, Operation.put_in (result_of "responded"))
    ∷ (broken, Operation.start first)
    ∷ (works, Operation.retry first 5_000 "timeout")
    ∷ (broken, Operation.put_in (result_of "failed"))
    ∷ []

replay-IsDurable_example : IsDurable (replay history nothing_yet)
replay-IsDurable_example = replay-IsDurable history nothing_yet (new-IsDurable (some "outbox.json"))

outbox-IsDurable : IsDurable outbox
outbox-IsDurable =
    replay-IsDurable ((works, Operation.put_in (result_of "responded")) ∷ []) nothing_yet
      (new-IsDurable (some "outbox.json"))

abbrev answer : Ack
answer = record {
  event_id = Value.text "e1";
  status = Value.text "responded";
  terminal_commit_token = Value.text " t1";
  terminal_committed = Value.boolean true;
}

settling_raises : (perform broken (Operation.settle first answer) outbox).1 ≡ true
unfolding replay perform enqueue is_event_result_payload clean_text value_at text_of strip is_space
    commit save persist get put pop new_entry id_of current_of mark_delivery_started acknowledge
    value_eq is_true ack_fits
settling_raises = refl

perform_raised_example : IsRestored outbox (perform broken (Operation.settle first answer) outbox).0
perform_raised_example =
    perform_raised broken (Operation.settle first answer) outbox outbox-IsDurable settling_raises

failed_fits : is_event_result_payload (result_of "failed") ≡ true
unfolding replay perform enqueue is_event_result_payload clean_text value_at text_of strip is_space
    commit save persist get put pop new_entry id_of current_of mark_delivery_started acknowledge
    value_eq is_true ack_fits
failed_fits = refl

same_event : clean_text "event_id" (result_of "failed") ≡ id_of first
unfolding replay perform enqueue is_event_result_payload clean_text value_at text_of strip is_space
    commit save persist get put pop new_entry id_of current_of mark_delivery_started acknowledge
    value_eq is_true ack_fits
same_event = refl

first_there : get (id_of first) outbox.pending ≡ some first
unfolding replay perform enqueue is_event_result_payload clean_text value_at text_of strip is_space
    commit save persist get put pop new_entry id_of current_of mark_delivery_started acknowledge
    value_eq is_true ack_fits
first_there = refl

-- The old entry as a delivery was handed it, before it was marked.
abbrev handed : TerminalOutboxEntry
handed = record first { delivery_started_at = none }

-- The new entry is started and retried, a third result comes, and the answer to the first packet
-- comes late.
abbrev late : List (Env × Operation)
late =
    (works, Operation.start first)
    ∷ (works, Operation.settle handed answer)
    ∷ (broken, Operation.put_in (result_of "canceled"))
    ∷ (works, Operation.retry first 5_000 "timeout")
    ∷ []

superseded_for_good_example :
    (e : TerminalOutboxEntry) × ((enqueue works (result_of "failed") outbox).1 ≡ Outcome.returned e)
    × (get (id_of first) (enqueue works (result_of "failed") outbox).0.pending ≡ some e)
    × (e.generation ≡ first.generation + 1)
    × (e.created_at ≡ first.created_at)
    × (e.attempts ≡ 0)
    × (e.delivery_started_at ≡ none)
    × IsIgnored handed (replay late (enqueue works (result_of "failed") outbox).0)
unfolding id_of
superseded_for_good_example =
    superseded_for_good works (result_of "failed") first handed outbox late failed_fits refl
      same_event first_there refl refl (tt, (inr (omega arith), (tt, (tt, tt))))

acknowledge_iff_example : ((acknowledge works first answer outbox).1 ≡ Outcome.returned true) ↔ (
    (current : TerminalOutboxEntry) × (get (id_of first) outbox.pending ≡ some current)
    × (current.generation ≡ first.generation)
    × (same_status current first ≡ true)
    × (token_of current.payload ≡ token_of first.payload)
    × (value_eq answer.event_id (value_at "event_id" first.payload) ≡ true)
    × (value_eq answer.status (value_at "status" first.payload) ≡ true)
    × ((token_of first.payload ≡ "")
        ⊎ ((strip (text_of answer.terminal_commit_token) ≡ token_of first.payload)
            × (is_true answer.terminal_committed ≡ true))))
acknowledge_iff_example = acknowledge_iff works first answer outbox refl

settled : (acknowledge works first answer outbox).1 ≡ Outcome.returned true
unfolding replay perform enqueue is_event_result_payload clean_text value_at text_of strip is_space
    commit save persist get put pop new_entry id_of current_of mark_delivery_started acknowledge
    value_eq is_true ack_fits
settled = refl

abbrev stamped_first : TerminalOutboxEntry
stamped_first = record first { delivery_started_at = some (pos 1_000); updated_at = pos 1_000 }

first_started : (mark_delivery_started works first outbox).1 ≡ Outcome.returned (some stamped_first)
unfolding replay perform enqueue is_event_result_payload clean_text value_at text_of strip is_space
    commit save persist get put pop new_entry id_of current_of mark_delivery_started acknowledge
    value_eq is_true ack_fits
first_started = refl

abbrev settled_ids : Committed.CommittedStore
settled_ids = Committed.new (some "committed.json") 2

settled_ids-IsTidy : IsTidy settled_ids
unfolding member
settled_ids-IsTidy = record {
  room = omega arith;
  bounded = omega arith;
  once = λ x. omega arith;
  clean = λ x h. absurd (ground arith);
}

e1_filled : (strip " e1 " == "") ≡ false
unfolding strip is_space
e1_filled = refl

e1_new : member (strip " e1 ") settled_ids.ids ≡ false
unfolding member
e1_new = refl

e1_added : (Committed.add works " e1 " settled_ids).1 ≡ Outcome.returned tt
unfolding Committed.add strip is_space member persist
e1_added = refl

reload-add_example :
    (Committed.reload (Committed.add works " e1 " settled_ids).0).ids
    ≡ (Committed.add works " e1 " settled_ids).0.ids
reload-add_example =
    reload-add works " e1 " settled_ids settled_ids-IsTidy refl e1_filled e1_new e1_added

abbrev registry : Tokens.TokenStore
registry = Tokens.new (some "tokens.json")

abbrev later : List (Env × TokenLaws.Operation)
later =
    (works, TokenLaws.Operation.register "e1" "t2")
    ∷ (broken, TokenLaws.Operation.remove "e1" "t2")
    ∷ (works, TokenLaws.Operation.remove "e2" "t1")
    ∷ []

registry-IsDurable_example : TokenLaws.IsDurable (TokenLaws.replay later registry)
registry-IsDurable_example =
    registry-IsDurable later registry (new_registry-IsDurable (some "tokens.json"))

e1_registered : (Tokens.register works "e1" " t1" registry).1 ≡ Outcome.returned tt
unfolding Tokens.register Tokens.commit strip is_space persist get put pop
e1_registered = refl

t1_stays : never_takes (strip "e1") (strip " t1") later ≡ true
unfolding never_takes takes strip is_space
t1_stays = refl

register_fixed_example :
    get (strip "e1") (TokenLaws.replay later (Tokens.register works "e1" " t1" registry).0).tokens
    ≡ some (strip " t1")
register_fixed_example =
    register_fixed works "e1" " t1" registry later (new_registry-IsDurable (some "tokens.json"))
      e1_registered t1_stays

register_iff_example : ((Tokens.register works "e1" " t1" registry).1 ≡ Outcome.returned tt) ↔ (
    (strip "e1" ≢ "")
    × (strip " t1" ≢ "")
    × ((get (strip "e1") registry.tokens ≡ none)
        ⊎ (get (strip "e1") registry.tokens ≡ some (strip " t1"))))
register_iff_example =
    register_iff works "e1" " t1" registry (new_registry-IsDurable (some "tokens.json")) refl
