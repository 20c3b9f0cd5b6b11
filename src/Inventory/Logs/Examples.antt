-- ===== src/Inventory/Logs/Examples.antt =====
-- The theorems of the log decoder on a few frames.
use nox_yard.Prelude.{
  leb, ◌==◌, length, every, ℕ, String, ◌≡◌, refl, Bool, true, false, none, some, List, [], ◌∷◌, map,
}
use nox_yard.Inventory.Logs.{
  trim_return, before_space, stamp_of, flushed_text, stamped, event_of, emptied, is_full, flush,
  write_byte, write, copy_frame, copy_frames, flush_both, broken_by, new_decoder, decode_log_events,
}
use nox_yard.Inventory.Logs.Rebuilding.{rebuilt, keep, has_no_return, bytes_for}
use nox_yard.Inventory.Logs.RoundTrip.{decode_log_events_roundtrip}
use nox_yard.Inventory.Logs.Bounds.{decode_log_events_bounded}

-- "a b\nc" on stdout, in two frames, and "d" on stderr between them.
abbrev frames : List (Bool × List ℕ)
frames = (false, b'a' ∷ b' ' ∷ b'b' ∷ []) ∷ (true, b'd' ∷ []) ∷ (false, b'\n' ∷ b'c' ∷ []) ∷ []

abbrev is_a : List ℕ → Bool
is_a [] = false
is_a (c ∷ s) = c == b'a'

decode_log_events_roundtrip_example :
    let (events, failure) = decode_log_events is_a keep false frames (some tt) [] in
    (failure ≡ some tt)
    × (rebuilt "stdout" events ≡ bytes_for false frames)
    × (rebuilt "stderr" events ≡ bytes_for true frames)
unfolding has_no_return
decode_log_events_roundtrip_example = decode_log_events_roundtrip is_a frames (some tt) refl

decode_log_events_bounded_example :
    every (λ e. leb (length e.text) 65540) (decode_log_events is_a keep true frames none []).0
    ≡ true
decode_log_events_bounded_example = decode_log_events_bounded is_a true frames none

first_line :
    map {B = String × List ℕ × List ℕ}
      (λ e. (e.stream, e.text, e.timestamp))
      (decode_log_events is_a keep false frames none []).0
    ≡ ("stdout", b'a' ∷ b' ' ∷ b'b' ∷ [], b'a' ∷ [])
      ∷ ("stdout", b'c' ∷ [], [])
      ∷ ("stderr", b'd' ∷ [], [])
      ∷ []
unfolding decode_log_events copy_frames copy_frame write write_byte flush stamped stamp_of
    before_space flushed_text trim_return event_of emptied is_full flush_both broken_by new_decoder
first_line = refl
