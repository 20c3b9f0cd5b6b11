-- ===== src/Inventory/Logs.antt =====
-- inventory/logs.go: DecodeLogEvents makes events of bounded size of the bytes of a container's log.
-- A text is its bytes. The demultiplexed frames, the error of reading on after them, the test for an RFC 3339 time and the receiver of the
-- events are arguments; the receiver has a state. Cancelled contexts are left out.
pub mod Utf8
pub mod Rebuilding
pub mod Writing
pub mod RoundTrip
pub mod Bounds
mod Examples
use nox_yard.Prelude.{
  leb, ◌==◌, if◌then◌else◌, is_some, length, ℕ, ◌+◌, String, Bool, true, false, ◌&&◌, ◌||◌, not,
  Option, none, some, List, [], ◌∷◌, ◌++◌,
}
use nox_yard.Inventory.Logs.Utf8.{valid_utf8}

abbrev pub max_log_line_bytes : ℕ
max_log_line_bytes = 65536

abbrev pub max_log_page_bytes : ℕ
max_log_page_bytes = 4194304

abbrev pub utf_max : ℕ
utf_max = 4

pub record LogEvent : Type 0 where
  pub stream : String
  pub text : List ℕ
  pub timestamp : List ℕ
  pub continuation : Bool
  pub line_end : Bool

-- eventWriter, without its context and receiver.
pub record EventWriter : Type 0 where
  pub stream : String
  pub buffer : List ℕ
  pub continued : Bool
  pub timestamp : List ℕ

abbrev pub new_writer : String → EventWriter
new_writer stream = record { stream = stream; buffer = []; continued = false; timestamp = [] }

-- strings.TrimSuffix(text, "\r")
unfoldable pub trim_return : List ℕ → List ℕ
trim_return [] = []
trim_return (c ∷ []) = if c == b'\r' then [] else c ∷ []
trim_return (c ∷ d ∷ s) = c ∷ trim_return (d ∷ s)

abbrev pub longer : ℕ → Option (List ℕ) → Option (List ℕ)
longer c none = none
longer c (some w) = some (c ∷ w)

-- What stands before the first space, if there is one.
unfoldable pub before_space : List ℕ → Option (List ℕ)
before_space [] = none
before_space (c ∷ s) = let rest = before_space s in if c == b' ' then some [] else longer c rest

abbrev pub accepted_stamp : (List ℕ → Bool) → Option (List ℕ) → List ℕ
accepted_stamp is_stamp none = []
accepted_stamp is_stamp (some w) = if is_stamp w then w else []

unfoldable pub stamp_of : (List ℕ → Bool) → List ℕ → List ℕ
unfolding before_space
stamp_of is_stamp text = accepted_stamp is_stamp (before_space text)

-- The text of a flush, and the writer with its timestamp brought up to date.
unfoldable pub flushed_text : Bool → EventWriter → List ℕ
unfolding trim_return
flushed_text end w = if end then trim_return w.buffer else w.buffer

unfoldable pub stamped : (List ℕ → Bool) → Bool → EventWriter → EventWriter
unfolding stamp_of flushed_text
stamped is_stamp end w =
    if w.continued then w else record w { timestamp = stamp_of is_stamp (flushed_text end w) }

unfoldable pub event_of : Bool → List ℕ → EventWriter → LogEvent
event_of end text w = record {
  stream = w.stream;
  text = text;
  timestamp = w.timestamp;
  continuation = w.continued;
  line_end = end;
}

-- The writer after its event was taken.
unfoldable pub emptied : Bool → EventWriter → EventWriter
emptied end w = record w {
  buffer = [];
  continued = not end;
  timestamp = if end then [] else w.timestamp;
}

abbrev pub is_empty : List ℕ → Bool
is_empty [] = true
is_empty (c ∷ s) = false

-- utf8.Valid is tested only on a long buffer, which no text but an unfinished rune can leave.
unfoldable pub is_full : List ℕ → Bool
unfolding valid_utf8
is_full buffer =
    leb max_log_line_bytes (length buffer)
    && (valid_utf8 buffer || leb (max_log_line_bytes + utf_max) (length buffer))

module _ {S E : Type 0} (is_stamp : List ℕ → Bool) (emit : LogEvent → S → S × Option E) where
  -- A writer and the receiver's state after some bytes, with the error that stopped them.
  abbrev pub Written : Type 0
  Written = EventWriter × S × Option E

  abbrev pub taken : Bool → EventWriter → S × Option E → Written
  taken end w (s, some e) = (w, s, some e)
  taken end w (s, none) = (emptied end w, s, none)

  -- flush
  unfoldable pub flush : Bool → EventWriter → S → Written
  unfolding stamped event_of flushed_text
  flush end w s =
      if is_empty w.buffer && not end
      then (w, s, none)
      else taken end (stamped is_stamp end w)
          (emit (event_of end (flushed_text end w) (stamped is_stamp end w)) s)

  -- One byte of Write.
  unfoldable pub write_byte : ℕ → EventWriter → S → Written
  unfolding flush is_full
  write_byte c w s =
      let appended = record w { buffer = w.buffer ++ c ∷ [] } in
      if c == b'\n'
      then flush true w s
      else if is_full appended.buffer
      then flush false appended s
      else (appended, s, none)

  abbrev pub go_on : (EventWriter → S → Written) → Written → Written
  go_on next (w, s, some e) = (w, s, some e)
  go_on next (w, s, none) = next w s

  -- Write
  unfoldable pub write : List ℕ → EventWriter → S → Written
  unfolding write_byte
  write [] w s = (w, s, none)
  write (c ∷ p) w s = go_on (write p) (write_byte c w s)

  -- The two writers of DecodeLogEvents.
  pub record Decoder : Type 0 where
    pub stdout : EventWriter
    pub stderr : EventWriter
    pub state : S
    pub failure : Option E

  abbrev pub with_stdout : Decoder → Written → Decoder
  with_stdout d (w, s, e) = record d { stdout = w; state = s; failure = e }

  abbrev pub with_stderr : Decoder → Written → Decoder
  with_stderr d (w, s, e) = record d { stderr = w; state = s; failure = e }

  -- A frame of StdCopy, for stderr or not; io.Copy has frames for the first writer only.
  unfoldable pub copy_frame : Bool → List ℕ → Decoder → Decoder
  unfolding write
  copy_frame true p d = with_stderr d (write p d.stderr d.state)
  copy_frame false p d = with_stdout d (write p d.stdout d.state)

  unfoldable pub copy_frames : List (Bool × List ℕ) → Decoder → Decoder
  unfolding copy_frame
  copy_frames [] d = d
  copy_frames ((is_stderr, p) ∷ frames) d =
      if is_some d.failure then d else copy_frames frames (copy_frame is_stderr p d)

  abbrev pub first_failure : Option E → Option E → Option E
  first_failure none e = e
  first_failure (some x) e = some x

  -- The two final flushes, which come after an error too.
  abbrev pub flushed_stdout : Decoder → Written → Decoder
  flushed_stdout d (w, s, e) = record d {
    stdout = w;
    state = s;
    failure = first_failure d.failure e;
  }

  abbrev pub flushed_stderr : Decoder → Written → Decoder
  flushed_stderr d (w, s, e) = record d {
    stderr = w;
    state = s;
    failure = first_failure d.failure e;
  }

  unfoldable pub flush_both : Decoder → Decoder
  unfolding flush
  flush_both d =
      let once = flushed_stdout d (flush false d.stdout d.state) in
      flushed_stderr once (flush false once.stderr once.state)

  -- The error with which io.Copy or StdCopy ends after the frames, if no write has failed.
  unfoldable pub broken_by : Option E → Decoder → Decoder
  broken_by broken d = record d { failure = first_failure d.failure broken }

  unfoldable pub new_decoder : Bool → S → Decoder
  new_decoder tty s = record {
    stdout = new_writer (if tty then "combined" else "stdout");
    stderr = new_writer "stderr";
    state = s;
    failure = none;
  }

  -- DecodeLogEvents, of the frames that can be read and the error that comes after them.
  unfoldable pub decode_log_events : Bool → List (Bool × List ℕ) → Option E → S → S × Option E
  unfolding copy_frames broken_by flush_both new_decoder
  decode_log_events tty frames broken s =
      let d = flush_both (broken_by broken (copy_frames frames (new_decoder tty s))) in
      (d.state, d.failure)
