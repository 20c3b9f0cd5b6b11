-- ===== src/Inventory/Logs/Bounds.antt =====
-- inventory/logs.go: no event is longer than a bounded chunk.
use nox_yard.Prelude.{
  leb, ◌==◌, Bool-cases, is_some, length, length-append, every, every-append, ℕ, ◌+◌, ◌≤◌, ◌<◌, ◌≡◌,
  refl, ◌∙◌, inl, inr, Bool, true, false, ◌&&◌, ◌||◌, not, Option, none, some, List, [], ◌∷◌, ◌++◌,
  arith,
}
use nox_yard.Inventory.Logs.{
  max_log_line_bytes, utf_max, LogEvent, EventWriter, trim_return, flushed_text, event_of, emptied,
  is_empty, is_full, Written, flush, write_byte, go_on, write, Decoder, with_stdout, with_stderr,
  copy_frame, copy_frames, flush_both, broken_by, new_decoder, decode_log_events,
}
use nox_yard.Inventory.Logs.Utf8.{valid_utf8}
use nox_yard.Inventory.Logs.Rebuilding.{keep}

abbrev pub max_event_bytes : ℕ
max_event_bytes = max_log_line_bytes + utf_max

unfoldable pub are_bounded : List LogEvent → Bool
are_bounded es = every (λ e. leb (length e.text) max_event_bytes) es

length-trim_return : (s : List ℕ) → length (trim_return s) ≤ length s
unfolding trim_return
length-trim_return [] = omega arith
length-trim_return (c ∷ []) = ground arith
length-trim_return (c ∷ d ∷ s) = omega (arith, length-trim_return (d ∷ s))

-- A buffer between two bytes, and what has been delivered.
record IsBounded (w : EventWriter) (es : List LogEvent) : Type 0 where
  short : length w.buffer < max_event_bytes
  bounded : are_bounded es ≡ true

bounded-snoc :
    (es : List LogEvent) (e : LogEvent)
    → are_bounded es ≡ true
    → length e.text ≤ max_event_bytes
    → are_bounded (es ++ e ∷ []) ≡ true
unfolding are_bounded
bounded-snoc es e h l =
    every-append (λ x. leb (length x.text) max_event_bytes) es (e ∷ []) ∙ rw (h) (ground arith)

below_both : (l k n : ℕ) (v : Bool) → l ≤ k → (leb l n && (v || leb k n)) ≡ false → n < k
below_both l k n v h q = ground arith

full_or_short : (buffer : List ℕ) → is_full buffer ≡ false → length buffer < max_event_bytes
unfolding is_full
full_or_short buffer h =
    below_both max_log_line_bytes max_event_bytes (length buffer) (valid_utf8 buffer) (omega arith)
      h

short_empty :
    (buffer : List ℕ) (end : Bool)
    → (is_empty buffer && not end) ≡ true
    → length buffer < max_event_bytes
short_empty [] end h = omega arith
short_empty (c ∷ s) end h = cc

module _ (is_stamp : List ℕ → Bool) where
  flushed-length : (end : Bool) (w : EventWriter) → length (flushed_text end w) ≤ length w.buffer
  unfolding flushed_text
  flushed-length true w = length-trim_return w.buffer
  flushed-length false w = omega arith

  flush-IsBounded :
      (end : Bool) (w : EventWriter) (es : List LogEvent)
      → length w.buffer ≤ max_event_bytes
      → are_bounded es ≡ true
      → IsBounded (flush is_stamp keep end w es).0 (flush is_stamp keep end w es).1
  unfolding flush emptied event_of
  flush-IsBounded end w es l h = elim (Bool-cases (is_empty w.buffer && not end)) [
    | inl q ↦ rw (q) (record { short = short_empty w.buffer end q; bounded = h })
    | inr q ↦ rw (q) (record {
      short = omega arith;
      bounded = bounded-snoc es _ h (omega (arith, flushed-length end w, l));
    })
  ]

  write_byte-IsBounded :
      (c : ℕ) (w : EventWriter) (es : List LogEvent)
      → IsBounded w es
      → IsBounded (write_byte is_stamp keep c w es).0 (write_byte is_stamp keep c w es).1
  unfolding write_byte
  write_byte-IsBounded c w es h = elim (Bool-cases (c == b'\n')) [
    | inl q ↦ rw (q) (flush-IsBounded true w es (omega (arith, h.short)) h.bounded)
    | inr q ↦ elim (Bool-cases (is_full (w.buffer ++ c ∷ []))) [
      | inl f ↦
          rw (q, f)
            (flush-IsBounded false (record w { buffer = w.buffer ++ c ∷ [] }) es
              (omega (arith, h.short, length-append w.buffer (c ∷ []))) h.bounded)
      | inr f ↦
          rw (q, f) (record { short = full_or_short (w.buffer ++ c ∷ []) f; bounded = h.bounded })
    ]
  ]

  went-IsBounded :
      (next : EventWriter
        → List LogEvent
        → Written {S = List LogEvent} {E = Unit {0}} is_stamp keep)
      → ((w : EventWriter) (es : List LogEvent)
          → IsBounded w es
          → IsBounded (next w es).0 (next w es).1)
      → (r : Written {S = List LogEvent} {E = Unit {0}} is_stamp keep) → IsBounded r.0 r.1
      → IsBounded (go_on is_stamp keep next r).0 (go_on is_stamp keep next r).1
  went-IsBounded next k (w, s, some x) h = h
  went-IsBounded next k (w, s, none) h = k w s h

  write-IsBounded :
      (p : List ℕ) (w : EventWriter) (es : List LogEvent)
      → IsBounded w es
      → IsBounded (write is_stamp keep p w es).0 (write is_stamp keep p w es).1
  unfolding write
  write-IsBounded [] w es h = h
  write-IsBounded (c ∷ p) w es h =
      went-IsBounded (write is_stamp keep p) (write-IsBounded p) (write_byte is_stamp keep c w es)
        (write_byte-IsBounded c w es h)

  abbrev BoundedDecoder : Decoder {S = List LogEvent} {E = Unit {0}} is_stamp keep → Type 0
  BoundedDecoder d = IsBounded d.stdout d.state × IsBounded d.stderr d.state

  out-bounded :
      (d : Decoder {S = List LogEvent} {E = Unit {0}} is_stamp keep) (r : Written is_stamp keep)
      → BoundedDecoder d
      → IsBounded r.0 r.1
      → BoundedDecoder (with_stdout is_stamp keep d r)
  out-bounded d (w, s, e) h k = (k, record { short = h.1.short; bounded = k.bounded })

  errors-bounded :
      (d : Decoder {S = List LogEvent} {E = Unit {0}} is_stamp keep) (r : Written is_stamp keep)
      → BoundedDecoder d
      → IsBounded r.0 r.1
      → BoundedDecoder (with_stderr is_stamp keep d r)
  errors-bounded d (w, s, e) h k = (record { short = h.0.short; bounded = k.bounded }, k)

  copy_frames-bounded :
      (frames : List (Bool × List ℕ)) (d : Decoder {S = List LogEvent} {E = Unit {0}} is_stamp keep)
      → BoundedDecoder d
      → BoundedDecoder (copy_frames is_stamp keep frames d)
  unfolding copy_frames copy_frame
  copy_frames-bounded [] d h = h
  copy_frames-bounded ((e, p) ∷ frames) d h = elim (Bool-cases (is_some d.failure)) [
    | inl q ↦ rw (q) h
    | inr q ↦ rw (q) (copy_frames-bounded frames (copy_frame is_stamp keep e p d) (copied_frame e))
  ]
    where
      copied_frame : (e : Bool) → BoundedDecoder (copy_frame is_stamp keep e p d)
      copied_frame false =
          out-bounded d (write is_stamp keep p d.stdout d.state) h
            (write-IsBounded p d.stdout d.state h.0)
      copied_frame true =
          errors-bounded d (write is_stamp keep p d.stderr d.state) h
            (write-IsBounded p d.stderr d.state h.1)

  flush_both-bounded :
      (d : Decoder {S = List LogEvent} {E = Unit {0}} is_stamp keep)
      → BoundedDecoder d
      → are_bounded (flush_both is_stamp keep d).state ≡ true
  unfolding flush_both
  flush_both-bounded d h =
      let k = flush-IsBounded false d.stdout d.state (omega (arith, h.0.short)) h.0.bounded in
      (flush-IsBounded false d.stderr (flush is_stamp keep false d.stdout d.state).1
        (omega (arith, h.1.short)) k.bounded).bounded

  -- Every event of DecodeLogEvents, with a terminal or without, carries at most 64 KiB and 4 bytes of
  -- text, whatever the bytes of the stream are, its invalid UTF-8 and its lines without end included,
  -- and whether or not the stream ends with an error.
  pub decode_log_events_bounded :
      (tty : Bool) (frames : List (Bool × List ℕ)) (broken : Option (Unit {0}))
      → every
          (λ e. leb (length e.text) 65540)
          (decode_log_events is_stamp keep tty frames broken []).0
        ≡ true
  unfolding decode_log_events broken_by are_bounded
  decode_log_events_bounded tty frames broken =
      flush_both-bounded
        (broken_by is_stamp keep broken
          (copy_frames is_stamp keep frames (new_decoder is_stamp keep tty [])))
        (copy_frames-bounded frames (new_decoder is_stamp keep tty []) new_bounded)
    where
      new_bounded : BoundedDecoder (new_decoder is_stamp keep tty [])
      new_bounded =
          unfold new_decoder in
          (
            record { short = omega arith; bounded = refl },
            record { short = omega arith; bounded = refl },
          )
