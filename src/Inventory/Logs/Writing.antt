-- ===== src/Inventory/Logs/Writing.antt =====
-- inventory/logs.go: no byte that is written is lost or made up.
use nox_yard.Prelude.{
  ◌==◌, ◌=ₛ◌, if◌then◌else◌, ==_iff, Bool-cases, &&-true, ℕ, String, ◌≡◌, refl, sym, ◌∙◌, subst,
  inl, inr, Bool, true, false, ◌&&◌, not, none, List, [], ◌∷◌, ◌++◌, append-nil, append_assoc,
  arith,
}
use nox_yard.Inventory.Logs.{
  LogEvent, EventWriter, flushed_text, stamped, event_of, emptied, is_empty, is_full, Written,
  taken, flush, write_byte, write,
}
use nox_yard.Inventory.Logs.Rebuilding.{
  bytes_of, rebuilt, keep, has_no_return, trim_return_same, rebuilt-append, carried, share,
  no_return_nil, plain-append, unended, went_on,
}

module _ (is_stamp : List ℕ → Bool) where
  -- From a writer and the kept events to those after the bytes `p`: nothing is lost or made up.
  pub record Keeps (p : List ℕ) (w : EventWriter) (s : List LogEvent)
      (r : Written {S = List LogEvent} {E = Unit {0}} is_stamp keep) : Type 0 where
    pub clean : r.2 ≡ none
    pub stream : r.0.stream ≡ w.stream
    pub plain : has_no_return r.0.buffer ≡ true
    pub same :
        (name : String)
        → rebuilt name r.1 ++ carried name r.0
          ≡ (rebuilt name s ++ carried name w) ++ share name w p

  stamped-stream :
      (end : Bool) (w : EventWriter)
      → ((stamped is_stamp end w).stream ≡ w.stream) × ((stamped is_stamp end w).buffer ≡ w.buffer)
  unfolding stamped
  stamped-stream end w = (ground arith, ground arith)

  event_bytes :
      (end : Bool) (w v : EventWriter)
      → has_no_return w.buffer ≡ true
      → bytes_of (event_of end (flushed_text end w) v)
        ≡ w.buffer ++ (if end then b'\n' ∷ [] else [])
  unfolding event_of flushed_text
  event_bytes true w v h = rw (trim_return_same w.buffer h) refl
  event_bytes false w v h = sym (append-nil w.buffer)

  -- The equation of `same`, for an event of the stream `stream` that empties the buffer.
  emptied_same :
      (name stream : String) (before buffer bytes rest : List ℕ)
      → bytes ≡ buffer ++ rest
      → (before ++ (if stream =ₛ name then bytes else [])) ++ (if stream =ₛ name then [] else [])
        ≡ (before ++ (if stream =ₛ name then buffer else []))
          ++ (if stream =ₛ name then rest else [])
  emptied_same name stream before buffer bytes rest e = elim (Bool-cases (stream =ₛ name)) [
    | inl q ↦
        rw (q, e) (append-nil (before ++ (buffer ++ rest)) ∙ sym (append_assoc before buffer rest))
    | inr q ↦ rw (q) refl
  ]

  rebuilt_one :
      (name : String) (e : LogEvent)
      → rebuilt name (e ∷ []) ≡ (if e.stream =ₛ name then bytes_of e else [])
  unfolding rebuilt
  rebuilt_one name e = elim (Bool-cases (e.stream =ₛ name)) [
    | inl q ↦ rw (q) (append-nil (bytes_of e))
    | inr q ↦ rw (q) refl
  ]

  event_stream :
      (end : Bool) (text : List ℕ) (v : EventWriter) → (event_of end text v).stream ≡ v.stream
  unfolding event_of
  event_stream end text v = refl

  emptied_fields :
      (end : Bool) (v : EventWriter)
      → ((emptied end v).stream ≡ v.stream) × ((emptied end v).buffer ≡ [])
  unfolding emptied
  emptied_fields end v = (refl, refl)

  emitted_same :
      (end : Bool) (w v : EventWriter) (s : List LogEvent) (name : String)
      → has_no_return w.buffer ≡ true
      → v.stream ≡ w.stream
      → rebuilt name (s ++ event_of end (flushed_text end w) v ∷ []) ++ carried name (emptied end v)
        ≡ (rebuilt name s ++ carried name w) ++ share name w (if end then b'\n' ∷ [] else [])
  unfolding event_of
  emitted_same end w v s name h e =
      rw
        (
          rebuilt-append name s (event_of end (flushed_text end w) v ∷ []),
          rebuilt_one name (event_of end (flushed_text end w) v),
          event_stream end (flushed_text end w) v,
          (emptied_fields end v).0,
          (emptied_fields end v).1,
          e,
        )
        (emptied_same name w.stream (rebuilt name s) w.buffer _ _ (event_bytes end w v h))

  emitted-Keeps :
      (end : Bool) (w : EventWriter) (s : List LogEvent)
      → has_no_return w.buffer ≡ true
      → Keeps (if end then b'\n' ∷ [] else []) w s (
          taken is_stamp keep end
            (stamped is_stamp end w)
            (keep (event_of end (flushed_text end w) (stamped is_stamp end w)) s))
  emitted-Keeps end w s h = record {
    clean = refl;
    stream = (emptied_fields end (stamped is_stamp end w)).0 ∙ (stamped-stream end w).0;
    plain = rw ((emptied_fields end (stamped is_stamp end w)).1) no_return_nil;
    same = λ name. emitted_same end w (stamped is_stamp end w) s name h (stamped-stream end w).0;
  }

  -- Nothing is delivered: the bytes wait in the buffer.
  waiting_same :
      (name stream : String) (before buffer rest : List ℕ)
      → before ++ (if stream =ₛ name then buffer ++ rest else [])
        ≡ (before ++ (if stream =ₛ name then buffer else []))
          ++ (if stream =ₛ name then rest else [])
  waiting_same name stream before buffer rest = elim (Bool-cases (stream =ₛ name)) [
    | inl q ↦ rw (q) (sym (append_assoc before buffer rest))
    | inr q ↦ rw (q) (sym (append-nil (before ++ [])))
  ]

  waiting-Keeps :
      (p : List ℕ) (w v : EventWriter) (s : List LogEvent)
      → v.stream ≡ w.stream
      → v.buffer ≡ w.buffer ++ p
      → has_no_return v.buffer ≡ true
      → Keeps p w s (v, s, none)
  waiting-Keeps p w v s e f h = record {
    clean = refl;
    stream = e;
    plain = h;
    same = λ name. rw (e, f) (waiting_same name w.stream (rebuilt name s) w.buffer p);
  }

  pub flush-Keeps :
      (end : Bool) (w : EventWriter) (s : List LogEvent)
      → has_no_return w.buffer ≡ true
      → Keeps (if end then b'\n' ∷ [] else []) w s (flush is_stamp keep end w s)
  unfolding flush
  flush-Keeps end w s h = elim (Bool-cases (is_empty w.buffer && not end)) [
    | inl q ↦ rw (q) (waiting-Keeps _ w w s refl (unended end w.buffer q) h)
    | inr q ↦ rw (q) (emitted-Keeps end w s h)
  ]

  pub joined_Keeps :
      (p q : List ℕ) (w : EventWriter) (s : List LogEvent) (mid r : Written is_stamp keep)
      → Keeps p w s mid
      → Keeps q mid.0 mid.1 r
      → Keeps (p ++ q) w s r
  joined_Keeps p q w s mid r h k = record {
    clean = k.clean;
    stream = k.stream ∙ h.stream;
    plain = k.plain;
    same = λ name. k.same name ∙ rw (h.same name, h.stream) (joined_same name);
  }
    where
      joined_same :
          (name : String)
          → ((rebuilt name s ++ carried name w) ++ share name w p)
              ++ (if w.stream =ₛ name then q else [])
            ≡ (rebuilt name s ++ carried name w) ++ share name w (p ++ q)
      joined_same name = elim (Bool-cases (w.stream =ₛ name)) [
        | inl e ↦ rw (e) (append_assoc (rebuilt name s ++ w.buffer) p q)
        | inr e ↦ rw (e) (append-nil ((rebuilt name s ++ []) ++ []))
      ]

  write_byte-Keeps :
      (c : ℕ) (w : EventWriter) (s : List LogEvent)
      → has_no_return w.buffer ≡ true
      → not (c == b'\r') ≡ true
      → Keeps (c ∷ []) w s (write_byte is_stamp keep c w s)
  unfolding write_byte has_no_return
  write_byte-Keeps c w s h n = elim (Bool-cases (c == b'\n')) [
    | inl q ↦ rw (q) (
        subst (λ x. Keeps (x ∷ []) w s (flush is_stamp keep true w s)) (sym ((==_iff c b'\n').0 q))
          (flush-Keeps true w s h))
    | inr q ↦ elim (Bool-cases (is_full (w.buffer ++ c ∷ []))) [
      | inl f ↦
          rw (q, f)
            (joined_Keeps (c ∷ []) [] w s (appended, s, none) (flush is_stamp keep false appended s)
              (appended_Keeps) (flush-Keeps false appended s (appended_plain)))
      | inr f ↦ rw (q, f) (appended_Keeps)
    ]
  ]
    where
      appended : EventWriter
      appended = record w { buffer = w.buffer ++ c ∷ [] }

      appended_plain : has_no_return (w.buffer ++ c ∷ []) ≡ true
      appended_plain = plain-append w.buffer (c ∷ []) h (rw (n) refl)

      appended_Keeps : Keeps (c ∷ []) w s (appended, s, none)
      appended_Keeps = waiting-Keeps (c ∷ []) w appended s refl refl appended_plain

  pub write-Keeps :
      (p : List ℕ) (w : EventWriter) (s : List LogEvent)
      → has_no_return w.buffer ≡ true
      → has_no_return p ≡ true
      → Keeps p w s (write is_stamp keep p w s)
  unfolding write has_no_return
  write-Keeps [] w s h n = waiting-Keeps [] w w s refl (sym (append-nil w.buffer)) h
  write-Keeps (c ∷ p) w s h n =
      let (first, rest) = &&-true _ _ n in
      let k = write_byte-Keeps c w s h first in
      let l =
        write-Keeps p (write_byte is_stamp keep c w s).0 (write_byte is_stamp keep c w s).1 k.plain
          rest in
      joined_Keeps (c ∷ []) p w s (write_byte is_stamp keep c w s) _ k
        (rw (went_on is_stamp keep p (write_byte is_stamp keep c w s) k.clean) l)
