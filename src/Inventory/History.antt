-- ===== src/Inventory/History.antt =====
-- inventory/log_history.go: pages of the log that Docker still has, and the cursor between them. A
-- text is its bytes. The instant that time.Parse reads, the size that json.Marshal gives an event and
-- the encoding of a cursor are arguments.
use nox_yard.Prelude.{
  ltb, leb, ◌==◌, ◌=ₛ◌, if◌then◌else◌, length, Result, err, ok, ◌>>=◌, ℕ, suc, ◌+◌, String, len,
  Bool, true, false, ◌&&◌, ◌||◌, not, Option, none, some, List, [], ◌∷◌, ◌++◌,
}
use nox_yard.Inventory.Logs.{max_log_page_bytes, LogEvent, is_empty, decode_log_events}

pub record LogHistoryQuery : Type 0 where
  pub since : List ℕ
  pub until : List ℕ
  pub cursor : String

-- logCursor; `seen` is a map from streams to counts.
pub record LogCursor : Type 0 where
  pub id : String
  pub since : List ℕ
  pub until : List ℕ
  pub stamp : List ℕ
  pub seen : List (String × ℕ)

pub record LogPage : Type 0 where
  pub lines : List LogEvent
  pub next : Option LogCursor
  pub until : List ℕ

pub data HistoryError : Type 0 where
  invalid_cursor invalid_time reversed_interval : HistoryError
  no_timestamps unavailable reading_failed : HistoryError
  page_full : HistoryError

-- A map from streams to counts, whose missing entries are 0.
unfoldable pub count_of : String → List (String × ℕ) → ℕ
count_of s [] = 0
count_of s ((key, n) ∷ counts) = let rest = count_of s counts in if key =ₛ s then n else rest

unfoldable pub count_more : String → List (String × ℕ) → List (String × ℕ)
unfolding count_of
count_more s counts = (s, suc (count_of s counts)) ∷ counts

unfoldable pub same_text : List ℕ → List ℕ → Bool
same_text [] [] = true
same_text [] (d ∷ t) = false
same_text (c ∷ s) [] = false
same_text (c ∷ s) (d ∷ t) = c == d && same_text s t

-- What the receiver of ReadLogPage has collected.
pub record Collected : Type 0 where
  pub lines : List LogEvent
  pub bytes : ℕ
  pub next : LogCursor
  pub skipped : List (String × ℕ)

abbrev pub max_page_lines : ℕ
max_page_lines = 1000

module _ (instant : List ℕ → ℕ) (size : LogEvent → ℕ) where
  unfoldable pub fits : ℕ → ℕ → LogEvent → Bool
  fits lines bytes e = not (leb max_page_lines lines || ltb max_log_page_bytes (bytes + size e + 1))

  -- next after an event of the page.
  unfoldable pub advanced : LogEvent → LogCursor → LogCursor
  unfolding count_more same_text
  advanced e next =
      if same_text next.stamp e.timestamp
      then record next { seen = count_more e.stream next.seen }
      else record next { stamp = e.timestamp; seen = count_more e.stream [] }

  unfoldable pub collected : LogEvent → Collected → Collected
  unfolding advanced
  collected e p = record p {
    lines = p.lines ++ e ∷ [];
    bytes = p.bytes + size e + 1;
    next = advanced e p.next;
  }

  unfoldable pub is_seen : LogCursor → LogEvent → Collected → Bool
  unfolding count_of
  is_seen cursor e p =
      instant e.timestamp == instant cursor.stamp
      && ltb (count_of e.stream p.skipped) (count_of e.stream cursor.seen)

  -- The receiver that ReadLogPage passes to DecodeLogEvents.
  unfoldable pub receive : LogCursor → LogEvent → Collected → Collected × Option HistoryError
  unfolding fits collected is_seen count_more
  receive cursor e p =
      if is_empty e.timestamp
      then (p, some no_timestamps)
      else if not (is_empty cursor.stamp) && ltb (instant e.timestamp) (instant cursor.stamp)
      then (p, none)
      else if not (is_empty cursor.stamp) && is_seen cursor e p
      then (record p { skipped = count_more e.stream p.skipped }, none)
      else if fits (length p.lines) p.bytes e
      then (collected e p, none)
      else (p, some page_full)

  unfoldable pub new_page : LogCursor → Collected
  new_page cursor = record { lines = []; bytes = 8192; next = cursor; skipped = [] }

  -- What the page says of its last error.
  unfoldable pub finished_page :
      List ℕ → Collected → Option HistoryError → Result HistoryError LogPage
  finished_page until p none = ok (record { lines = p.lines; next = none; until = until })
  finished_page until p (some page_full) =
      ok (record { lines = p.lines; next = some p.next; until = until })
  finished_page until p (some e) = err e

  module _ (parses : List ℕ → Bool) (decode_cursor : String → Option LogCursor)
      (open_logs : String
        → List ℕ
        → List ℕ
        → Option (Bool × List (Bool × List ℕ) × Option HistoryError)) where
    -- The cursor that the query names, or the first one.
    unfoldable pub first_cursor : String → LogHistoryQuery → LogCursor
    first_cursor id q = record { id = id; since = q.since; until = q.until; stamp = []; seen = [] }

    unfoldable pub accepted_cursor : String → Option LogCursor → Result HistoryError LogCursor
    accepted_cursor id none = err invalid_cursor
    accepted_cursor id (some c) =
        if c.id =ₛ id && not (is_empty c.stamp) && leb (length c.seen) 3
        then ok c
        else err invalid_cursor

    unfoldable pub query_cursor : String → LogHistoryQuery → Result HistoryError LogCursor
    unfolding first_cursor accepted_cursor
    query_cursor id q =
        if q.cursor =ₛ ""
        then ok (first_cursor id q)
        else if ltb 4096 (len q.cursor)
        then err invalid_cursor
        else accepted_cursor id (decode_cursor q.cursor)

    unfoldable pub is_time : List ℕ → Bool
    is_time value = is_empty value || parses value

    unfoldable pub checked_times : LogCursor → Result HistoryError LogCursor
    unfolding is_time
    checked_times c =
        if not (is_time c.since && is_time c.until && is_time c.stamp)
        then err invalid_time
        else if not (is_empty c.since) && ltb (instant c.until) (instant c.since)
        then err reversed_interval
        else ok c

    unfoldable pub page_of :
        LogCursor
        → Option (Bool × List (Bool × List ℕ) × Option HistoryError)
        → Result HistoryError LogPage
    unfolding receive new_page finished_page
    page_of c none = err unavailable
    page_of c (some (tty, frames, broken)) =
        let r = decode_log_events parses (receive c) tty frames broken (new_page c) in
        finished_page c.until r.0 r.1

    -- ReadLogPage; `now` is the end of a query that names none.
    unfoldable pub read_log_page : List ℕ → String → LogHistoryQuery → Result HistoryError LogPage
    unfolding query_cursor checked_times page_of
    read_log_page now id q = do
      found ← query_cursor id q
      c ← checked_times (if is_empty found.until then record found { until = now } else found)
      page_of c (open_logs id (if is_empty c.stamp then c.since else c.stamp) c.until)
