-- ===== src/Persistence/ToolbarModels/Laws.antt =====
-- What grix_hermes/persistence/toolbar_model_store.py keeps, and what a restart brings back.
use grix_hermes_python.Prelude.{
  ℕ, zero, suc, ◌-◌, ◌≤◌, String, ◌≡◌, refl, ◌⊎◌, inl, inr, Bool, true, false, Option, none, some,
  [], ◌∷◌, ◌++◌, ◌==◌, arith, length, drop, if_elim, Bool-cases, if◌then◌else◌, length-drop,
  count-append, count-drop-le,
}
use grix_hermes_python.Prelude.Text.{strip, strip_idem}
use grix_hermes_python.Prelude.Dict.{Dict, put, pop, entries, put-once, entries-put, entries-pop}
use grix_hermes_python.Persistence.Payload.{Payload, clean_text}
use grix_hermes_python.Persistence.File.{Env}
use grix_hermes_python.Persistence.ToolbarModels.{
  Choice, ToolbarModelStore, new, normalize_entry, save, remember, set_session,
}

-- Stripped, with a model id.
pub record IsClean (c : Choice) : Type 0 where
  pub filled : (c.model_id == "") ≡ false
  pub model_id : strip c.model_id ≡ c.model_id
  pub provider : strip c.provider ≡ c.provider
  pub display_label : strip c.display_label ≡ c.display_label

-- Every key and choice of the list is as the store makes them.
abbrev pub AreClean : Bool → Dict Choice → Type 0
AreClean named [] = Unit
AreClean named ((k, c) ∷ d) = ((named ≡ true → (k == "") ≡ false) × IsClean c) × AreClean named d

pub record IsTidy (s : ToolbarModelStore) : Type 0 where
  pub room : 1 ≤ s.max_sessions
  pub bounded : length s.sessions ≤ s.max_sessions
  pub once : (k : String) → entries k s.sessions ≤ 1
  pub once_last : (k : String) → entries k s.last ≤ 1
  pub clean : AreClean true s.sessions
  pub clean_last : AreClean false s.last

cleaned : Payload → Choice
cleaned value = record {
  model_id = clean_text "model_id" value;
  provider = clean_text "provider" value;
  display_label = clean_text "display_label" value;
}

cleaned-IsClean :
    (value : Payload) → (clean_text "model_id" value == "") ≡ false → IsClean (cleaned value)
unfolding cleaned clean_text
cleaned-IsClean value h = record {
  filled = h;
  model_id = strip_idem _;
  provider = strip_idem _;
  display_label = strip_idem _;
}

-- An entry is refused, or it is clean.
normalized :
    (value : Payload)
    → (normalize_entry value ≡ none)
      ⊎ ((normalize_entry value ≡ some (cleaned value)) × IsClean (cleaned value))
unfolding normalize_entry cleaned
normalized value = elim (Bool-cases (clean_text "model_id" value == "")) [
  | inl blank ↦ inl (rw blank refl)
  | inr filled ↦ inr (rw filled refl, cleaned-IsClean value filled)
]

AreClean-put :
    (named : Bool) (k : String) (c : Choice) (d : Dict Choice)
    → (named ≡ true → (k == "") ≡ false)
    → IsClean c
    → AreClean named d
    → AreClean named (put k c d)
unfolding put
AreClean-put named k c [] n clean h = ((n, clean), tt)
AreClean-put named k c ((j, v) ∷ d) n clean h =
    if_elim (AreClean named) (j == k) _ _ (λ _. ((h.0.0, clean), h.1))
      (λ _. (h.0, AreClean-put named k c d n clean h.1))

AreClean-pop :
    (named : Bool) (k : String) (d : Dict Choice) → AreClean named d → AreClean named (pop k d)
unfolding pop
AreClean-pop named k [] h = h
AreClean-pop named k ((j, v) ∷ d) h =
    if_elim (AreClean named) (j == k) _ _ (λ _. h.1) (λ _. (h.0, AreClean-pop named k d h.1))

AreClean-append :
    (named : Bool) (d e : Dict Choice)
    → AreClean named d
    → AreClean named e
    → AreClean named (d ++ e)
AreClean-append named [] e h k = k
AreClean-append named (x ∷ d) e h k = (h.0, AreClean-append named d e h.1 k)

AreClean-drop :
    (named : Bool) (n : ℕ) (d : Dict Choice) → AreClean named d → AreClean named (drop n d)
AreClean-drop named zero d h = h
AreClean-drop named (suc n) [] h = h
AreClean-drop named (suc n) (x ∷ d) h = AreClean-drop named n d h.1

remember-bounded :
    (m : ℕ) (k : String) (c : Choice) (d : Dict Choice) → length (remember m k c d) ≤ m
unfolding remember
remember-bounded m k c d =
    let all = pop k (put k c d) ++ (k, c) ∷ [] in omega (arith, length-drop (length all - m) all)

remember-once :
    (m : ℕ) (k : String) (c : Choice) (d : Dict Choice)
    → ((j : String) → entries j d ≤ 1)
    → (j : String) → entries j (remember m k c d) ≤ 1
unfolding remember
remember-once m k c d once j =
    let all = pop k (put k c d) ++ (k, c) ∷ [] in
    let here = once j in
    ground (
      arith,
      count-drop-le (λ e. e.0 == j) (length all - m) all,
      count-append (λ e. e.0 == j) (pop k (put k c d)) ((k, c) ∷ []),
      entries-pop k j (put k c d),
      entries-put k j c d,
    )

remember-AreClean :
    (m : ℕ) (k : String) (c : Choice) (d : Dict Choice)
    → (k == "") ≡ false
    → IsClean c
    → AreClean true d
    → AreClean true (remember m k c d)
unfolding remember
remember-AreClean m k c d named clean h = AreClean-drop true _ (pop k (put k c d) ++ (k, c) ∷ []) (
    AreClean-append true (pop k (put k c d)) ((k, c) ∷ [])
      (AreClean-pop true k (put k c d) (AreClean-put true k c d (λ _. named) clean h))
      (((λ _. named), clean), tt))

pub new-IsTidy : (path : Option String) (m : ℕ) → IsTidy (new path m)
new-IsTidy path m = record {
  room = omega arith;
  bounded = omega arith;
  once = λ k. omega arith;
  once_last = λ k. omega arith;
  clean = tt;
  clean_last = tt;
}

changed : Env → String → Choice → String → Bool → ToolbarModelStore → ToolbarModelStore
changed env key choice owner_key update_global s = save env (record s {
  sessions = remember s.max_sessions key choice s.sessions;
  last = if update_global then put owner_key choice s.last else s.last;
})

changed-IsTidy :
    (env : Env) (key : String) (c : Choice) (owner_key : String) (u : Bool) (s : ToolbarModelStore)
    → (key == "") ≡ false
    → IsClean c
    → IsTidy s
    → IsTidy (changed env key c owner_key u s)
unfolding changed save
changed-IsTidy env key c owner_key u s named clean h = record {
  room = h.room;
  bounded = remember-bounded s.max_sessions key c s.sessions;
  once = remember-once s.max_sessions key c s.sessions h.once;
  once_last =
      if_elim (λ (d : Dict Choice). (k : String) → entries k d ≤ 1) u _ _
        (λ _. put-once owner_key c s.last h.once_last) (λ _. h.once_last);
  clean = remember-AreClean s.max_sessions key c s.sessions named clean h.clean;
  clean_last =
      if_elim (AreClean false) u _ _
        (λ _. AreClean-put false owner_key c s.last (λ no. cc) clean h.clean_last)
        (λ _. h.clean_last);
}

-- A tidy store is tidy after `set_session`, whatever its arguments and whether its write succeeds:
-- no more sessions than the limit, which is 1 at least, keys are distinct, and every choice is
-- stripped and has a model id.
pub set_session-IsTidy :
    (env : Env) (key : String) (entry : Payload) (owner_key : String) (update_global : Bool)
    (s : ToolbarModelStore)
    → IsTidy s
    → IsTidy (set_session env key entry owner_key update_global s)
unfolding set_session changed
set_session-IsTidy env key entry owner_key u s h = elim (normalized entry) [
  | inl refused ↦ rw (refused, set_session) h
  | inr (made, clean) ↦
      rw (made, set_session)
        (if_elim IsTidy (key == "") _ _ (λ _. h)
          (λ named. changed-IsTidy env key (cleaned entry) owner_key u s named clean h))
]
