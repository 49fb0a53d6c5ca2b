-- ===== src/Persistence/ToolbarModels/Recency.antt =====
-- Which sessions grix_hermes/persistence/toolbar_model_store.py drops.
use grix_hermes_python.Prelude.{
  ℕ, suc, ◌+◌, ◌-◌, ◌≤◌, String, ◌≡◌, refl, ap, ◌∙◌, inl, inr, Bool, true, false, some, List, [],
  ◌∷◌, ◌++◌, ◌==◌, ◌&&◌, not, arith, length, drop, if_elim, Option-cases, Bool-cases, eq_iff,
  eq_refl, length-append, drop-append, count-drop-le, append_assoc,
}
use grix_hermes_python.Prelude.Dict.{Dict, get, put, pop, entries, entries-pop}
use grix_hermes_python.Persistence.Payload.{Payload}
use grix_hermes_python.Persistence.File.{Env}
use grix_hermes_python.Persistence.ToolbarModels.{
  Choice, ToolbarModelStore, normalize_entry, save, get_session, remember, set_session,
}
use grix_hermes_python.Persistence.ToolbarModels.Laws.{IsTidy}

-- The choice of the session is there, with no more than `n` sessions used since.
record IsRecent (k : String) (c : Choice) (n : ℕ) (d : Dict Choice) : Type 0 where
  older : Dict Choice
  newer : Dict Choice
  split : d ≡ older ++ (k, c) ∷ newer
  few : length newer ≤ n
  once : entries k older ≡ 0

get_recent :
    (k : String) (c : Choice) (xs ys : Dict Choice)
    → entries k xs ≡ 0
    → get k (xs ++ (k, c) ∷ ys) ≡ some c
unfolding get
get_recent k c [] ys h = rw (eq_refl k) refl
get_recent k c ((j, v) ∷ xs) ys h = elim (Bool-cases (j == k)) [
  | inl same ↦ absurd (ground arith)
  | inr other ↦ rw other (get_recent k c xs ys (ground arith))
]

pop-put : (j : String) (v : Choice) (d : Dict Choice) → pop j (put j v d) ≡ pop j d
unfolding pop put
pop-put j v [] = rw (eq_refl j) refl
pop-put j v ((i, w) ∷ d) = elim (Bool-cases (i == j)) [
  | inl same ↦ rw (same, same) refl
  | inr other ↦ rw (other, other) (ap (λ r. (i, w) ∷ r) (pop-put j v d))
]

length-pop : (j : String) (d : Dict Choice) → length (pop j d) ≤ length d
unfolding pop
length-pop j [] = omega arith
length-pop j ((i, v) ∷ d) = ground (arith, length-pop j d)

pop-IsRecent :
    (j k : String) (c : Choice) (n : ℕ) (xs ys : Dict Choice)
    → (j == k) ≡ false
    → length ys ≤ n
    → entries k xs ≡ 0
    → IsRecent k c n (pop j (xs ++ (k, c) ∷ ys))
unfolding pop
pop-IsRecent j k c n [] ys other few once = record {
  older = [];
  newer = pop j ys;
  split = ground (arith, eq_iff k j, eq_iff j k);
  few = let less = length-pop j ys in omega arith;
  once = once;
}
pop-IsRecent j k c n ((i, w) ∷ xs) ys other few once = elim (Bool-cases (i == j)) [
  | inl same ↦
      rw same (record { older = xs; newer = ys; split = refl; few = few; once = ground arith })
  | inr apart ↦
      let r = pop-IsRecent j k c n xs ys other few (ground arith) in
      rw apart (record {
        older = (i, w) ∷ r.older;
        newer = r.newer;
        split = ap (λ l. (i, w) ∷ l) r.split;
        few = r.few;
        once = let left = r.once in ground arith;
      })
]

-- The loop takes out none that is recent enough.
drop-IsRecent :
    (k : String) (c : Choice) (n m : ℕ) (d : Dict Choice)
    → IsRecent k c n d
    → n + 1 ≤ m
    → IsRecent k c n (drop (length d - m) d)
drop-IsRecent k c n m d r room =
    let few = r.few in
    let size : length d ≡ length r.older + suc (length r.newer) =
      ap length r.split ∙ length-append r.older ((k, c) ∷ r.newer) in
    let gone = length d - m in
    record {
      older = drop gone r.older;
      newer = r.newer;
      split = ap (drop gone) r.split ∙ drop-append gone r.older ((k, c) ∷ r.newer) (omega arith);
      few = r.few;
      once =
          let none_left = r.once in
          let fewer = count-drop-le (λ e. e.0 == k) gone r.older in omega arith;
    }

-- A session that is used now is the most recent.
remember-first :
    (m : ℕ) (k : String) (c : Choice) (d : Dict Choice)
    → 1 ≤ m
    → entries k d ≤ 1
    → IsRecent k c 0 (remember m k c d)
unfolding remember
remember-first m k c d room once =
    drop-IsRecent k c 0 m (pop k (put k c d) ++ (k, c) ∷ [])
      (record {
        older = pop k (put k c d);
        newer = [];
        split = refl;
        few = omega arith;
        once = rw (pop-put k c d) (ground (arith, entries-pop k k d, eq_refl k));
      })
      room

-- The use of another session makes it older by one.
remember-other :
    (m : ℕ) (j k : String) (v c : Choice) (n : ℕ) (d : Dict Choice)
    → (j == k) ≡ false
    → n + 2 ≤ m
    → IsRecent k c n d
    → IsRecent k c (n + 1) (remember m j v d)
unfolding remember
remember-other m j k v c n d other room r =
    let same : pop j (put j v d) ≡ pop j (r.older ++ (k, c) ∷ r.newer) =
      pop-put j v d ∙ ap (pop j) r.split in
    let p = pop-IsRecent j k c n r.older r.newer other r.few r.once in
    let few = p.few in
    drop-IsRecent k c (n + 1) m (pop j (put j v d) ++ (j, v) ∷ [])
      (record {
        older = p.older;
        newer = p.newer ++ (j, v) ∷ [];
        split =
            ap (λ l. l ++ (j, v) ∷ []) (same ∙ p.split)
            ∙ append_assoc p.older ((k, c) ∷ p.newer) ((j, v) ∷ []);
        few = let size = length-append p.newer ((j, v) ∷ []) in omega arith;
        once = p.once;
      })
      (omega arith)

-- A call of `set_session`.
pub record Setting : Type 0 where
  pub env : Env
  pub key : String
  pub entry : Payload
  pub owner_key : String
  pub update_global : Bool

abbrev pub set : Setting → ToolbarModelStore → ToolbarModelStore
set a s = set_session a.env a.key a.entry a.owner_key a.update_global s

unfoldable pub set_all : List Setting → ToolbarModelStore → ToolbarModelStore
set_all [] s = s
set_all (a ∷ settings) s = set_all settings (set a s)

-- No call is for the session.
unfoldable pub spares : String → List Setting → Bool
spares k [] = true
spares k (a ∷ settings) = not (a.key == k) && spares k settings

older_by_one :
    (k : String) (c : Choice) (n : ℕ) (d : Dict Choice) → IsRecent k c n d → IsRecent k c (n + 1) d
older_by_one k c n d r = record {
  older = r.older;
  newer = r.newer;
  split = r.split;
  few = let few = r.few in omega arith;
  once = r.once;
}

set-IsRecent :
    (a : Setting) (k : String) (c : Choice) (n : ℕ) (s : ToolbarModelStore)
    → (a.key == k) ≡ false
    → n + 2 ≤ s.max_sessions
    → IsRecent k c n s.sessions
    → IsRecent k c (n + 1) (set a s).sessions
unfolding set_session save
set-IsRecent a k c n s other room r = elim (Option-cases (normalize_entry a.entry)) [
  | inl refused ↦ rw (refused, set_session) (older_by_one k c n s.sessions r)
  | inr (v, made) ↦
      rw (made, set_session)
        (if_elim (λ (t : ToolbarModelStore). IsRecent k c (n + 1) t.sessions) (a.key == "") _ _
          (λ _. older_by_one k c n s.sessions r)
          (λ _. remember-other s.max_sessions a.key k v c n s.sessions other room r))
]

max_of_set : (a : Setting) (s : ToolbarModelStore) → (set a s).max_sessions ≡ s.max_sessions
unfolding set_session save
max_of_set a s = ground arith

set_all_keeps :
    (settings : List Setting) (k : String) (c : Choice) (n : ℕ) (s : ToolbarModelStore)
    → spares k settings ≡ true
    → n + length settings + 1 ≤ s.max_sessions
    → IsRecent k c n s.sessions
    → get k (set_all settings s).sessions ≡ some c
unfolding set_all spares
set_all_keeps [] k c n s others room r = ap (get k) r.split ∙ get_recent k c r.older r.newer r.once
set_all_keeps (a ∷ settings) k c n s others room r =
    let keeps = max_of_set a s in
    set_all_keeps settings k c (n + 1) (set a s) (ground arith) (omega arith)
      (set-IsRecent a k c n s (ground arith) (omega arith) r)

-- A choice that a tidy store takes for a named session is still there after settings of other
-- sessions, with writes that may fail, where these are fewer than the limit of sessions.
pub get-set_all :
    (env : Env) (key : String) (entry : Payload) (owner_key : String) (update_global : Bool)
    (c : Choice) (settings : List Setting) (s : ToolbarModelStore)
    → IsTidy s
    → (key == "") ≡ false
    → normalize_entry entry ≡ some c
    → spares key settings ≡ true
    → length settings + 1 ≤ s.max_sessions
    → get_session key (set_all settings (set_session env key entry owner_key update_global s))
      ≡ some c
unfolding get_session set_session save
get-set_all env key entry owner_key u c settings s h named made others room =
    set_all_keeps settings key c 0 (set_session env key entry owner_key u s) others
      (rw (made, set_session, named) (omega arith))
      (rw (made, set_session, named)
        (remember-first s.max_sessions key c s.sessions h.room (h.once key)))
