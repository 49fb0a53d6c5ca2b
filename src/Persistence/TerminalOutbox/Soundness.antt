-- ===== src/Persistence/TerminalOutbox/Soundness.antt =====
-- The entries and dead letters that the operations of grix_hermes/persistence/terminal_outbox.py
-- make, in memory and on disk.
pub mod Operations
use grix_hermes_python.Prelude.{
  ℕ, zero, suc, ◌+◌, ◌≤◌, ◌<◌, String, ◌≡◌, refl, ap, sym, ◌∙◌, inl, inr, Bool, true, false, Option,
  none, some, List, [], ◌∷◌, ◌++◌, ◌==◌, ◌||◌, ◌&&◌, arith, length, drop, if_elim, Option-cases,
  Bool-cases, eq_iff, not, eq_refl,
}
use grix_hermes_python.Prelude.Dict.{Dict, get, put, pop, entries, put-once, pop-once, get-put}
use grix_hermes_python.Prelude.Int.{pos}
use grix_hermes_python.Prelude.Text.{strip, strip_idem}
use grix_hermes_python.Json.{Value, value_at, text_of, text_of-text, truthy}
use grix_hermes_python.Json.Equality.{value_eq, value_eq_refl}
use grix_hermes_python.Persistence.Payload.{
  Payload, clean_text, value_at-put_self, clean_text-put_self, clean_text-put_other,
}
use grix_hermes_python.Persistence.File.{Env, Outcome, persist}
use grix_hermes_python.Persistence.TerminalOutbox.{
  TerminalOutbox, TerminalOutboxEntry, TerminalDeadLetter, TerminalRejection, Snapshot, Ack, save,
  commit, restore, enqueue, mark_delivery_started, acknowledge, record_retry, move_to_dead_letter,
  bury, current_of, id_of, is_event_result_payload, max_dead_letters, new_entry, started, ack_fits,
  same_status, token_of,
}
use grix_hermes_python.Persistence.TerminalOutbox.Durability.{current_of-get, bury-bounded}
use grix_hermes_python.Persistence.TerminalOutbox.RoundTrip.{
  IsSound, IsSoundLetter, AllSoundLetters, IsSoundSnapshot,
}

AllSoundLetters-drop :
    (n : ℕ) (ls : List TerminalDeadLetter) → AllSoundLetters ls → AllSoundLetters (drop n ls)
AllSoundLetters-drop zero ls h = h
AllSoundLetters-drop (suc n) [] h = h
AllSoundLetters-drop (suc n) (l ∷ ls) h = AllSoundLetters-drop n ls h.1

AllSoundLetters-append :
    (l : TerminalDeadLetter) (ls : List TerminalDeadLetter)
    → IsSoundLetter l
    → AllSoundLetters ls
    → AllSoundLetters (ls ++ l ∷ [])
AllSoundLetters-append l [] fit h = (fit, tt)
AllSoundLetters-append l (m ∷ ls) fit h = (h.0, AllSoundLetters-append l ls fit h.1)

pub AllSoundLetters-bury :
    (l : TerminalDeadLetter) (ls : List TerminalDeadLetter)
    → IsSoundLetter l
    → AllSoundLetters ls
    → AllSoundLetters (bury l ls)
unfolding bury
AllSoundLetters-bury l ls fit h =
    AllSoundLetters-drop _ (ls ++ l ∷ []) (AllSoundLetters-append l ls fit h)

-- What is in memory, as it would be written.
abbrev pub in_memory : TerminalOutbox → Snapshot
in_memory o = record { pending = o.pending; dead_letters = o.dead_letters }

abbrev pub IsSoundFile : Option Snapshot → Type 0
IsSoundFile none = Unit
IsSoundFile (some s) = IsSoundSnapshot s

pub record IsSoundOutbox (o : TerminalOutbox) : Type 0 where
  pub memory : IsSoundSnapshot (in_memory o)
  pub disk : IsSoundFile o.saved

persist-IsSoundFile :
    (path : Option String) (writes : Bool) (s : Snapshot) (saved : Option Snapshot)
    → IsSoundSnapshot s
    → IsSoundFile saved
    → IsSoundFile (persist path writes (some s) saved).0
unfolding persist
persist-IsSoundFile none writes s saved h k = k
persist-IsSoundFile (some path) true s saved h k = h
persist-IsSoundFile (some path) false s saved h k = k

pub commit-IsSoundOutbox :
    {A : Type 0} (env : Env) (changed restored : TerminalOutbox) (answer : A)
    → IsSoundOutbox changed
    → IsSoundOutbox restored
    → IsSoundOutbox (commit env changed restored answer).0
unfolding commit save
commit-IsSoundOutbox {A} env changed restored answer h k =
    if_elim (λ (t : TerminalOutbox × Outcome A). IsSoundOutbox t.0) (save env changed).1 _ _
      (λ done. record {
        memory = h.memory;
        disk =
            persist-IsSoundFile changed.file_path env.writes (in_memory changed) changed.saved
              h.memory h.disk;
      })
      (λ _. k)

pub IsSound-marked :
    (k : String) (now : ℕ) (e : TerminalOutboxEntry)
    → 0 < now
    → IsSound k e
    → IsSound k (record e { delivery_started_at = some (pos now); updated_at = pos now })
IsSound-marked k now e h s = record {
  keyed = s.keyed;
  terminal = s.terminal;
  generation = s.generation;
  started = ground arith;
}

pub IsSound-retried :
    (k : String) (now at : ℕ) (error : String) (e : TerminalOutboxEntry)
    → IsSound k e
    → IsSound k (record e {
      attempts = e.attempts + 1;
      updated_at = pos now;
      next_attempt_at = pos at;
      last_error = some error;
    })
IsSound-retried k now at error e s = record {
  keyed = s.keyed;
  terminal = s.terminal;
  generation = s.generation;
  started = s.started;
}

clean_text_idem : (k : String) (p : Payload) → strip (clean_text k p) ≡ clean_text k p
unfolding clean_text
clean_text_idem k p = strip_idem (text_of (value_at k p))

abbrev fits : String → String → Bool
fits event_id status =
    not (event_id == "") && (status == "responded" || status == "failed" || status == "canceled")

is_event_result_payload_lem :
    (p : Payload)
    → is_event_result_payload p ≡ fits (clean_text "event_id" p) (clean_text "status" p)
unfolding is_event_result_payload
is_event_result_payload_lem p = refl

new_payload-terminal :
    (payload : Payload)
    → is_event_result_payload payload ≡ true
    → is_event_result_payload (put "event_id" (Value.text (clean_text "event_id" payload)) payload)
      ≡ true
new_payload-terminal payload h =
    let eid = clean_text "event_id" payload in
    let p = put "event_id" (Value.text eid) payload in
    let same : clean_text "event_id" p ≡ eid =
      clean_text-put_self "event_id" eid payload ∙ clean_text_idem "event_id" payload in
    let status = clean_text-put_other "event_id" "status" (Value.text eid) payload refl in
    is_event_result_payload_lem p
    ∙ ap (λ e. fits e (clean_text "status" p)) same
    ∙ ap (fits eid) status
    ∙ sym (is_event_result_payload_lem payload)
    ∙ h

pub IsSound-new_entry :
    (now : ℕ) (payload : Payload) (previous : Option TerminalOutboxEntry)
    → is_event_result_payload payload ≡ true
    → IsSound
        (clean_text "event_id" payload)
        (new_entry now (clean_text "event_id" payload) payload previous)
unfolding new_entry
IsSound-new_entry now payload previous h = record {
  keyed =
      let eid = Value.text (clean_text "event_id" payload) in
      rw (value_at-put_self "event_id" eid payload) (value_eq_refl eid);
  terminal = new_payload-terminal payload h;
  generation = omega arith;
  started = tt;
}
