-- ===== src/Recreate/Seeing.antt =====
-- recreate/worker.go: what a part of the worker has seen when it goes well.
use nox_yard.Prelude.{
  ◌=ₛ◌, is_some, Result, err, ok, is_ok, ℕ, zero, suc, String, ◌≡◌, refl, sym, ap, ◌∙◌, Bool, true,
  false, ◌&&◌, ◌||◌, not, Option, none, some, List, [], ◌∷◌, ◌++◌, append_assoc, arith, eq_refl,
}
use nox_yard.Recreate.{
  Entry, Failure, Call, inspect, Event, asked, Inspection, Engine, World, Stop, failing, Work,
  and_then, when, log_event, is_uncertain, ruled, must, valued,
}
use nox_yard.Recreate.Steps.{
  Readiness, ready_now, broken, wait_more, readiness, look, judged, ready,
}

-- The world after a part that went well: the same journal, and a longer trace.
pub record Extends (w v : World) : Type 0 where
  pub same_journal : v.journal ≡ w.journal
  pub added : List Event
  pub longer : v.trace ≡ added ++ w.trace

pub Extends-same : (w : World) → Extends w w
Extends-same w = record { same_journal = refl; added = []; longer = refl }

pub Extends-again : (u v w : World) → Extends u v → Extends v w → Extends u w
Extends-again u v w g h = record {
  same_journal = h.same_journal ∙ g.same_journal;
  added = h.added ++ g.added;
  longer = h.longer ∙ ap (λ t. h.added ++ t) g.longer ∙ sym (append_assoc h.added g.added u.trace);
}

abbrev pub Yields : {A : Type 0} → World → (A → World → Type 0) → Result Stop A × World → Type 0
Yields w Q (ok a, v) = Extends w v × Q a v
Yields w Q (err x, v) = Unit {0}

abbrev pub Nothing : {A : Type 0} → A → World → Type 0
Nothing a w = Unit {0}

pub Yields-onward :
    {B : Type 0} (w v : World) (R : B → World → Type 0) (r : Result Stop B × World)
    → Extends w v
    → Yields v R r
    → Yields w R r
Yields-onward w v R (ok b, u) g (h, q) = (Extends-again w v u g h, q)
Yields-onward w v R (err x, u) g h = tt

pub Yields-then :
    {A B : Type 0} (w : World) (Q : A → World → Type 0) (R : B → World → Type 0)
    (r : Result Stop A × World) (next : A → Work B)
    → Yields w Q r
    → ((a : A) (v : World) → Extends w v → Q a v → Yields v R (next a v))
    → Yields w R (and_then next r)
Yields-then w Q R (ok a, v) next (g, q) k = Yields-onward w v R (next a v) g (k a v g q)
Yields-then w Q R (err x, v) next h k = tt

pub Yields-when :
    (b : Bool) (work : Work (Unit {0})) (w : World)
    → Yields w Nothing (work w)
    → Yields w Nothing (when b work w)
Yields-when true work w h = h
Yields-when false work w h = (Extends-same w, tt)

pub one_more : (e : Event) (w : World) → Extends w (log_event e w)
one_more e w = record { same_journal = refl; added = e ∷ []; longer = refl }

module _ (o : Engine) where
  pub Yields-must : (c : Call) (w : World) → Yields w Nothing (must o c w)
  Yields-must c w = answered (o.answers c w.trace)
    where
      answered :
          (a : Option Failure)
          → Yields w Nothing
              (ruled (λ f. failing (is_uncertain f)) (a, log_event (asked c (not (is_some a))) w))
      answered none = (one_more (asked c true) w, tt)
      answered (some f) = tt

  abbrev pub answers_with : (Inspection → Bool) → Result Failure Inspection → Bool
  answers_with p (ok i) = p i
  answers_with p (err f) = false

  abbrev pub inspects : String → Event → Bool
  inspects id (asked (inspect x) b) = x =ₛ id
  inspects id e = false

  -- Whether some inspection of a container in the trace had an answer that passes a test.
  unfoldable pub seen : (Inspection → Bool) → String → List Event → Bool
  seen p id [] = false
  seen p id (e ∷ t) = inspects id e && answers_with p (o.inspects id t) || seen p id t

  pub seen_longer :
      (p : Inspection → Bool) (id : String) (es t : List Event)
      → seen p id t ≡ true
      → seen p id (es ++ t) ≡ true
  unfolding seen
  seen_longer p id [] t h = h
  seen_longer p id (e ∷ es) t h = rw (seen_longer p id es t h) (ground arith)

  pub seen_Extends :
      (p : Inspection → Bool) (id : String) (w v : World)
      → Extends w v
      → seen p id w.trace ≡ true
      → seen p id v.trace ≡ true
  seen_Extends p id w v g h = rw (g.longer) (seen_longer p id g.added w.trace h)

  abbrev pub Saw : String → Inspection → World → Type 0
  Saw id i w = (p : Inspection → Bool) → p i ≡ true → seen p id w.trace ≡ true

  pub Yields-look : (id : String) (w : World) → Yields w (Saw id) (look o id w)
  unfolding seen
  Yields-look id w = answered (o.inspects id w.trace) refl
    where
      answered :
          (r : Result Failure Inspection)
          → o.inspects id w.trace ≡ r
          → Yields w
              (Saw id)
              (valued (λ f. failing false) r, log_event (asked (inspect id) (is_ok r)) w)
      answered (ok i) q = (one_more (asked (inspect id) true) w, λ p h. rw (eq_refl id, q, h) refl)
      answered (err f) q = tt

  abbrev pub is_ready_now : Entry → Inspection → Bool
  is_ready_now e i = is_now (readiness e i)
    where
      is_now : Readiness → Bool
      is_now ready_now = true
      is_now broken = false
      is_now wait_more = false

  pub Yields-ready :
      (n : ℕ) (e : Entry) (id : String) (w : World)
      → Yields w (λ _ v. seen (is_ready_now e) id v.trace ≡ true) (ready o n e id w)
  unfolding ready
  Yields-ready zero e id w = tt
  Yields-ready (suc n) e id w =
      Yields-then w (Saw id) _ (look o id w) _ (Yields-look id w)
        (λ i v g s. judged_by i v s (readiness e i) refl (Yields-ready n e id v))
    where
      judged_by :
          (i : Inspection) (v : World)
          → Saw id i v
          → (r : Readiness) → readiness e i ≡ r
          → Yields v (λ _ u. seen (is_ready_now e) id u.trace ≡ true) (ready o n e id v)
          → Yields v
              (λ _ u. seen (is_ready_now e) id u.trace ≡ true)
              (judged o (ready o n e id) r v)
      judged_by i v s ready_now q k = (Extends-same v, s (is_ready_now e) (rw (q) refl))
      judged_by i v s broken q k = tt
      judged_by i v s wait_more q k = k
