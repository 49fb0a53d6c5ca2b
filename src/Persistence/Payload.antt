-- ===== src/Persistence/Payload.antt =====
-- The payloads that grix_hermes/persistence keeps: JSON objects.
use grix_hermes_python.Prelude.{String, ◌≡◌, ap, ◌∙◌, false, ◌==◌, arith, eq_refl, if◌then◌else◌}
use grix_hermes_python.Prelude.Dict.{Dict, put, get-put}
use grix_hermes_python.Prelude.Text.{strip}
use grix_hermes_python.Json.{Value, value_at, text_of, text_of-text}

abbrev pub Payload : Type 0
Payload = Dict Value

-- str(payload.get(key) or "").strip()
unfoldable pub clean_text : String → Payload → String
unfolding value_at text_of
clean_text key payload = strip (text_of (value_at key payload))

pub value_at-put :
    (k j : String) (v : Value) (p : Payload)
    → value_at j (put k v p) ≡ (if k == j then v else value_at j p)
unfolding value_at
value_at-put k j v p = ground (arith, get-put k j v p)

pub value_at-put_self : (k : String) (v : Value) (p : Payload) → value_at k (put k v p) ≡ v
value_at-put_self k v p = ground (arith, value_at-put k k v p, eq_refl k)

pub clean_text-put_self :
    (k s : String) (p : Payload) → clean_text k (put k (Value.text s) p) ≡ strip s
unfolding clean_text
clean_text-put_self k s p =
    ap (λ v. strip (text_of v)) (value_at-put_self k (Value.text s) p) ∙ ap strip (text_of-text s)

pub clean_text-put_other :
    (k j : String) (v : Value) (p : Payload)
    → (k == j) ≡ false
    → clean_text j (put k v p) ≡ clean_text j p
unfolding clean_text
clean_text-put_other k j v p other =
    let same : value_at j (put k v p) ≡ value_at j p = ground (arith, value_at-put k j v p) in
    ap (λ u. strip (text_of u)) same
