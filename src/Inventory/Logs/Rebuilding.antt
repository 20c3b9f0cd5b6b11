-- ===== src/Inventory/Logs/Rebuilding.antt =====
-- inventory/logs.go: the bytes that events stand for, and how they are put together again.
use nox_yard.Prelude.{
  ◌==◌, ◌=ₛ◌, if◌then◌else◌, Bool-cases, &&-true, every, every-append, ℕ, String, ◌≡◌, refl, sym,
  ap, ◌∙◌, inl, inr, Bool, true, false, ◌&&◌, not, Option, none, some, List, [], ◌∷◌, ◌++◌,
  append-nil, append_assoc, arith, eq_iff,
}
use nox_yard.Inventory.Logs.{LogEvent, EventWriter, trim_return, is_empty, Written, go_on, write}

-- The bytes that the events of a stream stand for: each text, with a newline where its line ends.
abbrev pub bytes_of : LogEvent → List ℕ
bytes_of e = if e.line_end then e.text ++ b'\n' ∷ [] else e.text

unfoldable pub rebuilt : String → List LogEvent → List ℕ
rebuilt name [] = []
rebuilt name (e ∷ es) =
    let rest = rebuilt name es in if e.stream =ₛ name then bytes_of e ++ rest else rest

-- A receiver that keeps all events.
abbrev pub keep : LogEvent → List LogEvent → List LogEvent × Option (Unit {0})
keep e es = (es ++ e ∷ [], none)

unfoldable pub has_no_return : List ℕ → Bool
has_no_return s = every (λ c. not (c == b'\r')) s

pub trim_return_same : (s : List ℕ) → has_no_return s ≡ true → trim_return s ≡ s
unfolding has_no_return trim_return
trim_return_same [] h = refl
trim_return_same (c ∷ []) h = ground arith
trim_return_same (c ∷ d ∷ s) h = ap (λ t. c ∷ t) (trim_return_same (d ∷ s) (&&-true _ _ h).1)

pub rebuilt-append :
    (name : String) (es fs : List LogEvent)
    → rebuilt name (es ++ fs) ≡ rebuilt name es ++ rebuilt name fs
unfolding rebuilt
rebuilt-append name [] fs = refl
rebuilt-append name (e ∷ es) fs = elim (Bool-cases (e.stream =ₛ name)) [
  | inl q ↦
      rw
        (
          q,
          rebuilt-append name es fs,
          append_assoc (bytes_of e) (rebuilt name es) (rebuilt name fs),
        )
        refl
  | inr q ↦ rw (q) (rebuilt-append name es fs)
]

-- What a writer has not delivered of a stream, and what some bytes add to it.
abbrev pub carried : String → EventWriter → List ℕ
carried name w = if w.stream =ₛ name then w.buffer else []

abbrev pub share : String → EventWriter → List ℕ → List ℕ
share name w p = if w.stream =ₛ name then p else []

pub no_return_nil : has_no_return [] ≡ true
unfolding has_no_return
no_return_nil = refl

pub plain-append :
    (xs ys : List ℕ)
    → has_no_return xs ≡ true
    → has_no_return ys ≡ true
    → has_no_return (xs ++ ys) ≡ true
unfolding has_no_return
plain-append xs ys h k = every-append (λ c. not (c == b'\r')) xs ys ∙ rw (h, k) refl

pub unended :
    (end : Bool) (buffer : List ℕ)
    → (is_empty buffer && not end) ≡ true
    → buffer ≡ buffer ++ (if end then b'\n' ∷ [] else [])
unended true [] h = cc
unended true (c ∷ s) h = cc
unended false buffer h = sym (append-nil buffer)

-- A write goes on after a byte that raised no error.
pub went_on :
    (is_stamp : List ℕ → Bool) (emit : LogEvent → List LogEvent → List LogEvent × Option (Unit {0}))
    (p : List ℕ) (r : Written is_stamp emit)
    → r.2 ≡ none
    → go_on is_stamp emit (write is_stamp emit p) r ≡ write is_stamp emit p r.0 r.1
went_on is_stamp emit p (w, s, none) h = refl
went_on is_stamp emit p (w, s, some x) h = cc

-- The bytes that the frames bring to one of the two writers.
unfoldable pub bytes_for : Bool → List (Bool × List ℕ) → List ℕ
bytes_for errors [] = []
bytes_for errors ((is_stderr, p) ∷ frames) =
    let rest = bytes_for errors frames in
    if is_stderr then if errors then p ++ rest else rest else if errors then rest else p ++ rest

pub carried_own : (name : String) (w : EventWriter) → w.stream ≡ name → carried name w ≡ w.buffer
carried_own name w e = ground (arith, eq_iff w.stream name)

pub share_own :
    (name : String) (w : EventWriter) (p : List ℕ) → w.stream ≡ name → share name w p ≡ p
share_own name w p e = ground (arith, eq_iff w.stream name)

pub own_part :
    (name : String) (w v : EventWriter) (a b p out : List ℕ)
    → v.stream ≡ name
    → w.stream ≡ v.stream
    → a ++ carried name w ≡ (b ++ carried name v) ++ share name v p
    → b ++ v.buffer ≡ out
    → a ++ w.buffer ≡ out ++ p
own_part name w v a b p out e f h k =
    ap (λ x. a ++ x) (sym (carried_own name w (f ∙ e)))
    ∙ h
    ∙ ap (λ x. (b ++ x) ++ share name v p) (carried_own name v e)
    ∙ ap (λ x. (b ++ v.buffer) ++ x) (share_own name v p e)
    ∙ ap (λ x. x ++ p) k

pub carried_other :
    (name other : String) (w : EventWriter)
    → (name =ₛ other) ≡ false
    → w.stream ≡ name
    → carried other w ≡ []
carried_other name other w d e =
    ground (arith, eq_iff w.stream name, eq_iff w.stream other, eq_iff name other)

pub share_other :
    (name other : String) (w : EventWriter) (p : List ℕ)
    → (name =ₛ other) ≡ false
    → w.stream ≡ name
    → share other w p ≡ []
share_other name other w p d e =
    ground (arith, eq_iff w.stream name, eq_iff w.stream other, eq_iff name other)

pub other_part :
    (name other : String) (w v : EventWriter) (a b p buffer out : List ℕ)
    → (name =ₛ other) ≡ false
    → v.stream ≡ name
    → w.stream ≡ v.stream
    → a ++ carried other w ≡ (b ++ carried other v) ++ share other v p
    → b ++ buffer ≡ out
    → a ++ buffer ≡ out
other_part name other w v a b p buffer out d e f h k =
    ap (λ x. x ++ buffer)
      (sym (append-nil a)
        ∙ ap (λ x. a ++ x) (sym (carried_other name other w d (f ∙ e)))
        ∙ h
        ∙ ap (λ x. (b ++ x) ++ share other v p) (carried_other name other v d e)
        ∙ ap (λ x. (b ++ []) ++ x) (share_other name other v p d e)
        ∙ append-nil (b ++ [])
        ∙ append-nil b)
    ∙ k

pub empty_is_nil : (s : List ℕ) → is_empty s ≡ true → s ≡ []
empty_is_nil [] h = refl
empty_is_nil (c ∷ s) h = cc

-- A writer that has nothing left has delivered all.
pub drained : (a buffer out : List ℕ) → buffer ≡ [] → a ++ buffer ≡ out ++ [] → a ≡ out
drained a buffer out e h = sym (append-nil a) ∙ ap (λ x. a ++ x) (sym e) ∙ h ∙ append-nil out
