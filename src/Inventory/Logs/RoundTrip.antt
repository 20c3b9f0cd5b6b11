-- ===== src/Inventory/Logs/RoundTrip.antt =====
-- inventory/logs.go: the events of a stream, put together again, are its bytes.
use nox_yard.Prelude.{
  Bool-cases, &&-true, every, ℕ, ◌≡◌, refl, ◌∙◌, subst, inl, inr, Bool, true, false, Option, none,
  some, List, [], ◌∷◌, ◌++◌, append-nil, append_assoc,
}
use nox_yard.Inventory.Logs.{
  LogEvent, EventWriter, emptied, is_empty, Written, flush, write, Decoder, with_stdout,
  with_stderr, copy_frame, copy_frames, first_failure, flush_both, broken_by, new_decoder,
  decode_log_events,
}
use nox_yard.Inventory.Logs.Rebuilding.{
  rebuilt, keep, has_no_return, bytes_for, own_part, other_part, empty_is_nil, drained,
}
use nox_yard.Inventory.Logs.Writing.{Keeps, flush-Keeps, write-Keeps}

module _ (is_stamp : List ℕ → Bool) where
  -- The bytes that the frames bring to a writer.
  abbrev Kept : Type 0
  Kept = Decoder {S = List LogEvent} {E = Unit {0}} is_stamp keep

  -- Both writers of a decoder against the bytes `out` and `errors` that they were given.
  record IsKept (d : Kept) (out errors : List ℕ) : Type 0 where
    names : (d.stdout.stream ≡ "stdout") × (d.stderr.stream ≡ "stderr")
    plain_out : has_no_return d.stdout.buffer ≡ true
    plain_errors : has_no_return d.stderr.buffer ≡ true
    clean : d.failure ≡ none
    out_same : rebuilt "stdout" d.state ++ d.stdout.buffer ≡ out
    errors_same : rebuilt "stderr" d.state ++ d.stderr.buffer ≡ errors

  out-IsKept :
      (d : Kept) (out errors p : List ℕ) (r : Written is_stamp keep)
      → IsKept d out errors
      → Keeps is_stamp p d.stdout d.state r
      → IsKept (with_stdout is_stamp keep d r) (out ++ p) errors
  out-IsKept d out errors p (w, s, e) h k = record {
    names = (k.stream ∙ h.names.0, h.names.1);
    plain_out = k.plain;
    plain_errors = h.plain_errors;
    clean = k.clean;
    out_same =
        own_part "stdout" w d.stdout _ _ p out h.names.0 k.stream (k.same "stdout") h.out_same;
    errors_same =
        other_part "stdout" "stderr" w d.stdout _ _ p d.stderr.buffer errors refl h.names.0 k.stream
          (k.same "stderr") h.errors_same;
  }

  errors-IsKept :
      (d : Kept) (out errors p : List ℕ) (r : Written is_stamp keep)
      → IsKept d out errors
      → Keeps is_stamp p d.stderr d.state r
      → IsKept (with_stderr is_stamp keep d r) out (errors ++ p)
  errors-IsKept d out errors p (w, s, e) h k = record {
    names = (h.names.0, k.stream ∙ h.names.1);
    plain_out = h.plain_out;
    plain_errors = k.plain;
    clean = k.clean;
    out_same =
        other_part "stderr" "stdout" w d.stderr _ _ p d.stdout.buffer out refl h.names.1 k.stream
          (k.same "stdout") h.out_same;
    errors_same =
        own_part "stderr" w d.stderr _ _ p errors h.names.1 k.stream (k.same "stderr")
          h.errors_same;
  }

  copy_frames-IsKept :
      (frames : List (Bool × List ℕ)) (d : Kept) (out errors : List ℕ)
      → IsKept d out errors
      → every (λ f. has_no_return f.1) frames ≡ true
      → IsKept
          (copy_frames is_stamp keep frames d)
          (out ++ bytes_for false frames)
          (errors ++ bytes_for true frames)
  unfolding copy_frames copy_frame bytes_for
  copy_frames-IsKept [] d out errors h n = rw (append-nil out, append-nil errors) h
  copy_frames-IsKept ((false, p) ∷ frames) d out errors h n = rw (h.clean) (
      subst
        (λ x.
          IsKept
            (copy_frames is_stamp keep frames
              (with_stdout is_stamp keep d (write is_stamp keep p d.stdout d.state)))
            x (errors ++ bytes_for true frames))
        (append_assoc out p (bytes_for false frames))
        (copy_frames-IsKept frames
          (with_stdout is_stamp keep d (write is_stamp keep p d.stdout d.state)) (out ++ p) errors
          (out-IsKept d out errors p (write is_stamp keep p d.stdout d.state) h
            (write-Keeps is_stamp p d.stdout d.state h.plain_out (&&-true _ _ n).0))
          (&&-true _ _ n).1))
  copy_frames-IsKept ((true, p) ∷ frames) d out errors h n = rw (h.clean) (
      subst
        (λ x.
          IsKept
            (copy_frames is_stamp keep frames
              (with_stderr is_stamp keep d (write is_stamp keep p d.stderr d.state)))
            (out ++ bytes_for false frames) x)
        (append_assoc errors p (bytes_for true frames))
        (copy_frames-IsKept frames
          (with_stderr is_stamp keep d (write is_stamp keep p d.stderr d.state)) out (errors ++ p)
          (errors-IsKept d out errors p (write is_stamp keep p d.stderr d.state) h
            (write-Keeps is_stamp p d.stderr d.state h.plain_errors (&&-true _ _ n).0))
          (&&-true _ _ n).1))

  flush-empties :
      (w : EventWriter) (s : List LogEvent) → (flush is_stamp keep false w s).0.buffer ≡ []
  unfolding flush emptied
  flush-empties w s = elim (Bool-cases (is_empty w.buffer)) [
    | inl q ↦ rw (q) (empty_is_nil w.buffer q)
    | inr q ↦ rw (q) refl
  ]

  no_failure :
      (broken : Option (Unit {0}))
      → first_failure {S = List LogEvent} is_stamp keep
          (first_failure {S = List LogEvent} is_stamp keep broken none)
          none
        ≡ broken
  no_failure none = refl
  no_failure (some e) = refl

  flushed_both :
      (d : Kept) (out errors : List ℕ) (broken : Option (Unit {0}))
      → IsKept d out errors
      → (rebuilt "stdout" (flush_both is_stamp keep (broken_by is_stamp keep broken d)).state ≡ out)
        × (rebuilt "stderr" (flush_both is_stamp keep (broken_by is_stamp keep broken d)).state
            ≡ errors)
        × ((flush_both is_stamp keep (broken_by is_stamp keep broken d)).failure ≡ broken)
  unfolding flush_both broken_by
  flushed_both d out errors broken h =
      let r = flush is_stamp keep false d.stdout d.state in
      let once = with_stdout is_stamp keep d r in
      let k =
        out-IsKept d out errors [] r h (flush-Keeps is_stamp false d.stdout d.state h.plain_out) in
      let q = flush is_stamp keep false once.stderr once.state in
      let l =
        errors-IsKept once (out ++ []) errors [] q k
          (flush-Keeps is_stamp false once.stderr once.state k.plain_errors) in
      rw (h.clean, k.clean)
        (
          drained _ r.0.buffer out (flush-empties d.stdout d.state) l.out_same,
          drained _ q.0.buffer errors (flush-empties once.stderr once.state) l.errors_same,
          rw (l.clean) (no_failure broken),
        )

  -- If no byte is a carriage return, then DecodeLogEvents of a container without a terminal, with a
  -- receiver that takes every event, fails exactly with the error that ends the reading of the
  -- stream, if there is one; and the events of stdout, put together with a newline where a line ends,
  -- are the bytes of its frames that could be read, and those of stderr are the bytes of theirs.
  pub decode_log_events_roundtrip :
      (frames : List (Bool × List ℕ)) (broken : Option (Unit {0}))
      → every (λ f. has_no_return f.1) frames ≡ true
      → let (events, failure) = decode_log_events is_stamp keep false frames broken [] in
        (failure ≡ broken)
        × (rebuilt "stdout" events ≡ bytes_for false frames)
        × (rebuilt "stderr" events ≡ bytes_for true frames)
  unfolding decode_log_events
  decode_log_events_roundtrip frames broken n =
      let (a, b, c) =
        flushed_both (copy_frames is_stamp keep frames (new_decoder is_stamp keep false [])) _ _
          broken (copy_frames-IsKept frames (new_decoder is_stamp keep false []) [] [] fresh n) in
      (c, a, b)
    where
      fresh : IsKept (new_decoder is_stamp keep false []) [] []
      fresh =
          unfold new_decoder rebuilt has_no_return in
          record {
            names = (refl, refl);
            plain_out = refl;
            plain_errors = refl;
            clean = refl;
            out_same = refl;
            errors_same = refl;
          }
