-- ===== src/EventQueue/Bounds.antt =====
-- The bounds that grix_hermes/event_queue.py keeps: the length of a preview, the delay of a hold.
use grix_hermes_python.Prelude.{ℕ, ◌≤◌, String, ◌≡◌, refl, arith, ◌==◌, Bool-cases, inl, inr}
use grix_hermes_python.Prelude.Text.{split, join, size, take, size-append, size-take-le, size_pos}
use grix_hermes_python.EventQueue.Hold.{build_preview, preview_max_chars}
use grix_hermes_python.EventQueue.Timers.{hold_delay, hold_ttl_min_ms, hold_ttl_max_ms}

size_message : size "Message" ≡ 7
unfolding size
size_message = refl

size_dots : size "..." ≡ 3
unfolding size
size_dots = refl

-- A preview has one character at least and 67 at most, whatever the text.
pub build_preview_bounded :
    (text : String) → (1 ≤ size (build_preview text)) × (size (build_preview text) ≤ 67)
unfolding build_preview
build_preview_bounded text =
    let collapsed = join " " (split text) in
    elim (Bool-cases (collapsed == "")) [
      | inl blank ↦ rw (blank, size_message) (omega arith, omega arith)
      | inr words ↦
          let cut = size-append (take preview_max_chars collapsed) "..." in
          let within = size-take-le preview_max_chars collapsed in
          let some_word = size_pos collapsed words in
          rw words (ground (arith, size_dots), ground (arith, size_dots))
    ]

-- The timer of a hold is armed with one minute at least and thirty at most, and with the time asked
-- for where that is between them.
pub hold_delay_clamped :
    (ttl_ms : ℕ)
    → (hold_ttl_min_ms ≤ hold_delay ttl_ms)
      × (hold_delay ttl_ms ≤ hold_ttl_max_ms)
      × (hold_ttl_min_ms ≤ ttl_ms → ttl_ms ≤ hold_ttl_max_ms → hold_delay ttl_ms ≡ ttl_ms)
unfolding hold_delay
hold_delay_clamped ttl_ms = (omega arith, omega arith, λ low high. omega arith)
