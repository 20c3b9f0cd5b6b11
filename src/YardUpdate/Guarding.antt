-- ===== src/YardUpdate/Guarding.antt =====
-- selfupdate/worker.go: the original container is removed only after a success is saved.
-- A site whose trace is guarded, with what else is known of the trace.
use nox_yard.YardUpdate.{
  Failure, Container, Call, inspect, Event, asked, Engine, Site, Work, and_then, within, log_event,
  told, call, shown_as, look, is_open, attempted, transact, queried, ask_store,
}
use nox_yard.YardUpdate.Worker.{
  Verdict, healthy, undecided, ill, verdict, unless_late, judged, wait_healthy,
}
use nox_yard.YardUpdate.Trace.{
  is_committed, passes, is_healthy, seen_healthy, is_made, is_allowed, permitted, is_guarded,
  passes-is_well,
}
use nox_yard.Store.Types.{Tx}
use nox_yard.Store.SelfUpdate.{SelfUpdate}
use nox_yard.Prelude.{
  ◌=ₛ◌, Result, err, ok, ℕ, zero, suc, String, ◌≡◌, refl, Bool, true, false, Option, none, some,
  List, ◌∷◌, arith, eq_refl,
}

pub record IsGuarded (o : Engine) (old : String) (keep : List Event → Bool) (w : Site)
    : Type 0 where
  pub guarded : is_guarded o old w.trace ≡ true
  pub other : (w.new_id =ₛ old) ≡ false
  pub kept : keep w.trace ≡ true

-- What is known of a trace stays so.
abbrev pub Stays : (List Event → Bool) → Type 0
Stays keep = (e : Event) (t : List Event) → keep t ≡ true → keep (e ∷ t) ≡ true

abbrev pub anything : List Event → Bool
anything t = true

abbrev pub anything-Stays : Stays anything
anything-Stays e t h = refl

pub is_made-Stays : (id : String) → Stays (is_made id)
unfolding is_made
is_made-Stays id e t h = ground arith

pub is_committed-Stays : Stays is_committed
unfolding is_committed
is_committed-Stays e t h = ground arith

abbrev pub Nothing : {A : Type 0} → A → Site → Type 0
Nothing a w = Unit {0}

module _ (o : Engine) (old : String) (keep : List Event → Bool) (stays : Stays keep) where
  abbrev pub Keeps : {A : Type 0} → (A → Site → Type 0) → Result String A × Site → Type 0
  Keeps Q (ok a, v) = IsGuarded o old keep v × Q a v
  Keeps Q (err x, v) = IsGuarded o old keep v

  pub log-IsGuarded :
      (e : Event) (w : Site)
      → IsGuarded o old keep w
      → permitted o old e w.trace ≡ true
      → IsGuarded o old keep (log_event e w)
  unfolding is_guarded
  log-IsGuarded e w h p = record {
    guarded = rw (p, h.guarded) refl;
    other = h.other;
    kept = stays e w.trace h.kept;
  }

  pub Keeps-then :
      {A B : Type 0} (Q : A → Site → Type 0) (R : B → Site → Type 0) (r : Result String A × Site)
      (next : A → Work B)
      → Keeps Q r
      → ((a : A) (v : Site) → IsGuarded o old keep v → Q a v → Keeps R (next a v))
      → Keeps R (and_then next r)
  Keeps-then Q R (ok a, v) next (g, q) k = k a v g q
  Keeps-then Q R (err x, v) next h k = h

  pub Keeps-within :
      {A : Type 0} (Q : A → Site → Type 0) (text : String) (r : Result String A × Site)
      → Keeps Q r
      → Keeps Q (within text r)
  Keeps-within Q text (ok a, v) h = h
  Keeps-within Q text (err x, v) h = h

  Keeps-told :
      (c : Call) (w : Site) (a : Option Failure)
      → IsGuarded o old keep w
      → is_allowed o old c w.trace ≡ true
      → Keeps Nothing (told c w a)
  Keeps-told c w none h p = (log-IsGuarded (asked c true) w h p, tt)
  Keeps-told c w (some f) h p = log-IsGuarded (asked c false) w h p

  pub Keeps-call :
      (c : Call) (w : Site)
      → IsGuarded o old keep w
      → is_allowed o old c w.trace ≡ true
      → Keeps Nothing (call o c w)
  Keeps-call c w h p = Keeps-told c w (o.answers c w.trace) h p

  Keeps-attempted :
      (c : Call) (w : Site) (b : Bool) (a : Option Failure) (t : Tx SelfUpdate)
      → IsGuarded o old keep w
      → is_allowed o old c w.trace ≡ true
      → Keeps Nothing (attempted o c w b a t)
  Keeps-attempted c w false a t h p = log-IsGuarded (asked c false) w h p
  Keeps-attempted c w true (some f) t h p = log-IsGuarded (asked c false) w h p
  Keeps-attempted c w true none (err e) h p = log-IsGuarded (asked c false) w h p
  Keeps-attempted c w true none (ok s) h p = (
    log-IsGuarded (asked c true) (record w { database = s })
        (record { guarded = h.guarded; other = h.other; kept = h.kept }) p,
    tt,
  )

  pub Keeps-transact :
      (c : Call) (change : SelfUpdate → Tx SelfUpdate) (w : Site)
      → IsGuarded o old keep w
      → is_allowed o old c w.trace ≡ true
      → Keeps Nothing (transact o c change w)
  Keeps-transact c change w h p =
      Keeps-attempted c w (is_open w.connection) (o.answers c w.trace) (change w.database) h p

  Keeps-queried :
      {A : Type 0} (c : Call) (w : Site) (a : Option Failure) (t : Tx A)
      → IsGuarded o old keep w
      → is_allowed o old c w.trace ≡ true
      → Keeps Nothing (queried o c w a t)
  Keeps-queried c w (some f) t h p = log-IsGuarded (asked c false) w h p
  Keeps-queried c w none (err e) h p = log-IsGuarded (asked c false) w h p
  Keeps-queried c w none (ok a) h p = (log-IsGuarded (asked c true) w h p, tt)

  pub Keeps-ask_store :
      {A : Type 0} (c : Call) (query : SelfUpdate → Tx A) (w : Site)
      → IsGuarded o old keep w
      → is_allowed o old c w.trace ≡ true
      → Keeps Nothing (ask_store o c query w)
  Keeps-ask_store c query w h p = Keeps-queried c w (o.answers c w.trace) (query w.database) h p

  -- An inspection, with what its answer makes seen.
  abbrev pub Saw : String → Container → Site → Type 0
  Saw id c v = is_healthy (ok c) ≡ true → seen_healthy o id v.trace ≡ true

  pub Keeps-look : (id : String) (w : Site) → IsGuarded o old keep w → Keeps (Saw id) (look o id w)
  unfolding seen_healthy
  Keeps-look id w h = shown (o.inspects id w.trace) refl
    where
      shown :
          (r : Result Failure Container)
          → o.inspects id w.trace ≡ r
          → Keeps (Saw id) (shown_as id w r)
      shown (ok c) q =
          (log-IsGuarded (asked (inspect id) true) w h refl, λ k. rw (eq_refl id, q, k) refl)
      shown (err f) q = log-IsGuarded (asked (inspect id) false) w h refl

  abbrev pub Healthy : String → Unit {0} → Site → Type 0
  Healthy id a v = seen_healthy o id v.trace ≡ true

  Keeps-judged :
      (id : String) (again : Work (Unit {0})) (w : Site) (v : Verdict)
      → IsGuarded o old keep w
      → (passes v ≡ true → seen_healthy o id w.trace ≡ true)
      → Keeps (Healthy id) (again w)
      → Keeps (Healthy id) (judged o again v w)
  Keeps-judged id again w healthy h s k = (h, s refl)
  Keeps-judged id again w (ill text) h s k = h
  Keeps-judged id again w undecided h s k = late (o.expires w.trace)
    where
      late : (b : Bool) → Keeps (Healthy id) (unless_late b w (again w))
      late true = h
      late false = k

  pub Keeps-wait_healthy :
      (n : ℕ) (id : String) (w : Site)
      → IsGuarded o old keep w
      → Keeps (Healthy id) (wait_healthy o n id w)
  unfolding wait_healthy
  Keeps-wait_healthy zero id w h = h
  Keeps-wait_healthy (suc n) id w h =
      Keeps-then (Saw id) (Healthy id) (look o id w) _ (Keeps-look id w h) (λ c v g s.
        Keeps-judged id (wait_healthy o n id) v (verdict o c.state) g
          (λ q. s (passes-is_well o c.state q)) (Keeps-wait_healthy n id v g))

  -- A known fact about a result that is reached.
  abbrev pub OnOk : {A : Type 0} → (A → Site → Type 0) → Result String A × Site → Type 0
  OnOk Q (ok a, v) = Q a v
  OnOk Q (err x, v) = Unit {0}

  pub Keeps-OnOk :
      {A : Type 0} (Q : A → Site → Type 0) (r : Result String A × Site)
      → Keeps Nothing r
      → OnOk Q r
      → Keeps Q r
  Keeps-OnOk Q (ok a, v) (g, _) q = (g, q)
  Keeps-OnOk Q (err x, v) g q = g

  -- Only the trace and the variable `newID` matter.
  pub same-IsGuarded :
      (w v : Site)
      → v.trace ≡ w.trace
      → v.new_id ≡ w.new_id
      → IsGuarded o old keep w
      → IsGuarded o old keep v
  same-IsGuarded w v t n h = record {
    guarded = rw (t) h.guarded;
    other = rw (n) h.other;
    kept = rw (t) h.kept;
  }
