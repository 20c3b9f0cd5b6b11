-- ===== src/Recreate/Keeping.antt =====
-- recreate/worker.go: parts of the worker that keep the state sound, and how they are put together.
use nox_yard.Prelude.{
  Option-cases, is_some, get_elem?, Result, err, ok, is_ok, ℕ, ◌≡◌, refl, ◌⊎◌, inl, inr, Bool, true,
  false, ◌||◌, not, Option, none, some, List, [], ◌∷◌, arith,
}
use nox_yard.Recreate.{
  Entry, Failure, Call, Event, asked, Engine, World, Stop, failing, leaving, ended, Work, and_then,
  done, when, log_event, is_uncertain, ruled, must, store_must, valued, query, entry_at, each,
}
use nox_yard.Recreate.Trace.{
  is_mutation, is_finish_call, allowed, is_safe, IsSound, Grew, Grew-same, Grew-again, log-Grew,
  log-IsSound,
}

-- How a part ends that begins in a sound state; on the way out by FinishJob or by an error only the
-- trace matters.
abbrev pub Meets : {A : Type 0} → World → (A → World → Type 0) → Result Stop A × World → Type 0
Meets v Q (ok a, w) = IsSound w × Grew v w × Q a w
Meets v Q (err (failing u), w) = IsSound w
Meets v Q (err leaving, w) = is_safe w.trace ≡ true
Meets v Q (err ended, w) = is_safe w.trace ≡ true

abbrev pub Always : {A : Type 0} → A → World → Type 0
Always a w = Unit {0}

Meets-onward :
    {B : Type 0} (v w : World) (R : B → World → Type 0) (r : Result Stop B × World)
    → Grew v w
    → Meets w R r
    → Meets v R r
Meets-onward v w R (ok b, x) g (h, i, p) = (h, Grew-again v w x g i, p)
Meets-onward v w R (err (failing u), x) g h = h
Meets-onward v w R (err leaving, x) g h = h
Meets-onward v w R (err ended, x) g h = h

pub Meets-then :
    {A B : Type 0} (v : World) (Q : A → World → Type 0) (R : B → World → Type 0)
    (r : Result Stop A × World) (next : A → Work B)
    → Meets v Q r
    → ((a : A) (w : World) → IsSound w → Grew v w → Q a w → Meets w R (next a w))
    → Meets v R (and_then next r)
Meets-then v Q R (ok a, w) next (h, g, q) k = Meets-onward v w R (next a w) g (k a w h g q)
Meets-then v Q R (err (failing u), w) next h k = h
Meets-then v Q R (err leaving, w) next h k = h
Meets-then v Q R (err ended, w) next h k = h

pub Meets-return : {A : Type 0} (a : A) (w : World) → IsSound w → Meets w Always (ok a, w)
Meets-return a w h = (h, Grew-same w, tt)

pub Meets-done : (w : World) → IsSound w → Meets w Always (done w)
Meets-done w h = (h, Grew-same w, tt)

pub Meets-when :
    (b : Bool) (work : Work (Unit {0})) (w : World)
    → IsSound w
    → (b ≡ true → Meets w Always (work w))
    → Meets w Always (when b work w)
Meets-when true work w h k = k refl
Meets-when false work w h k = Meets-done w h

-- A call that the state allows.
pub record Fits (c : Call) (w : World) : Type 0 where
  pub fits_trace : allowed c w.trace ≡ true
  pub no_finish : is_finish_call c ≡ false
  pub fits_mode : (w.journal.mutated || not (is_mutation c)) ≡ true

-- A call that changes no container, and one that does, in a journal that says so.
pub plain-Fits :
    (c : Call) (w : World)
    → allowed c w.trace ≡ true
    → is_finish_call c ≡ false
    → is_mutation c ≡ false
    → Fits c w
plain-Fits c w a f m = record { fits_trace = a; no_finish = f; fits_mode = rw (m) (ground arith) }

pub mutating-Fits :
    (c : Call) (w : World)
    → allowed c w.trace ≡ true
    → is_finish_call c ≡ false
    → w.journal.mutated ≡ true
    → Fits c w
mutating-Fits c w a f m = record { fits_trace = a; no_finish = f; fits_mode = rw (m) refl }

pub asked-IsSound :
    (c : Call) (b : Bool) (w : World) → Fits c w → IsSound w → IsSound (log_event (asked c b) w)
asked-IsSound c b w f h = log-IsSound (asked c b) w h f.fits_trace f.no_finish f.fits_mode

pub Meets-must :
    (o : Engine) (c : Call) (w : World) → Fits c w → IsSound w → Meets w Always (must o c w)
Meets-must o c w f h = answered (o.answers c w.trace)
  where
    answered :
        (a : Option Failure)
        → Meets w Always
            (ruled (λ x. failing (is_uncertain x)) (a, log_event (asked c (not (is_some a))) w))
    answered none = (asked-IsSound c true w f h, log-Grew (asked c true) w, tt)
    answered (some x) = asked-IsSound c false w f h

pub Meets-store_must :
    (o : Engine) (c : Call) (w : World) → Fits c w → IsSound w → Meets w Always (store_must o c w)
Meets-store_must o c w f h = answered (o.answers c w.trace)
  where
    answered :
        (a : Option Failure)
        → Meets w Always (ruled (λ x. leaving) (a, log_event (asked c (not (is_some a))) w))
    answered none = (asked-IsSound c true w f h, log-Grew (asked c true) w, tt)
    answered (some x) = (asked-IsSound c false w f h).safe

pub Meets-query :
    {A : Type 0} (rule : Failure → Stop) (c : Call) (answer : List Event → Result Failure A)
    (w : World)
    → ((f : Failure) → ((u : Bool) × (rule f ≡ failing u)) ⊎ (rule f ≡ leaving))
    → Fits c w
    → IsSound w
    → Meets w Always (query rule c answer w)
Meets-query {A = A} rule c answer w l f h = answered (answer w.trace)
  where
    refused_by :
        (r : Result Failure A) (s : Stop)
        → ((u : Bool) × (s ≡ failing u)) ⊎ (s ≡ leaving)
        → Meets {A = A} w Always (err s, log_event (asked c (is_ok r)) w)
    refused_by r s (inl (u, q)) = rw (q) (asked-IsSound c (is_ok r) w f h)
    refused_by r s (inr q) = rw (q) (asked-IsSound c (is_ok r) w f h).safe

    answered :
        (r : Result Failure A) → Meets w Always (valued rule r, log_event (asked c (is_ok r)) w)
    answered (ok a) = (asked-IsSound c true w f h, log-Grew (asked c true) w, tt)
    answered (err x) = refused_by (err x) (rule x) (l x)

-- A loop whose condition what comes later does not end.
pub Meets-each :
    {A : Type 0} (P : World → Type 0) (f : A → Work (Unit {0})) (xs : List A) (w : World)
    → ((u v : World) → Grew u v → P u → P v)
    → ((a : A) (v : World) → IsSound v → P v → Meets v Always (f a v))
    → IsSound w
    → P w
    → Meets w Always (each f xs w)
Meets-each P f [] w g k h p = Meets-done w h
Meets-each P f (a ∷ rest) w g k h p =
    Meets-then w Always Always (f a w) (λ _. each f rest) (k a w h p)
      (λ _ v i j _. Meets-each P f rest v g k i (g w v j p))

abbrev pub Found : ℕ → Entry → World → Type 0
Found i e w = get_elem? w.journal.entries i ≡ some e

pub Meets-entry_at : (i : ℕ) (w : World) → IsSound w → Meets w (Found i) (entry_at i w)
Meets-entry_at i w h = elim (Option-cases (get_elem? w.journal.entries i)) [
  | inl q ↦ rw (q) h.safe
  | inr (e, q) ↦ rw (q) (h, Grew-same w, q)
]
