-- ===== src/Recreate/Cleanup.antt =====
-- recreate/worker.go: Reconcile, and Cleanup, which removes the retained originals.
use nox_yard.Prelude.{
  ◌=ₛ◌, Bool-cases, is_some, exists, ◌++ₛ◌, Result, err, ok, is_ok, String, ◌≡◌, refl, sym, subst,
  inl, inr, Bool, true, false, ◌&&◌, ◌||◌, not, Option, none, some, List, [], ◌∷◌, ◌++◌,
  append_assoc, arith, eq_refl,
}
use nox_yard.Recreate.{
  Entry, Journal, Failure, not_found, timed_out, refused, inspect, remove, Event, asked, Inspection,
  Engine, World, Stop, leaving, Work, and_then, ◌>=>◌, done, stopped, when, log_event, ruled,
  store_must, each,
}
use nox_yard.Recreate.Steps.{verify_entry}
use nox_yard.Recreate.Worker.{positions, root_of, complete}
use nox_yard.Recreate.Seeing.{seen}

module _ (o : Engine) where
  -- Reconcile: every error is returned.
  unfoldable pub reconcile : World → Result Stop (Unit {0}) × World
  unfolding verify_entry complete root_of
  reconcile w =
      (when (not w.journal.mutated) (stopped leaving) >=> λ _.
      each (verify_entry o (root_of w.journal)) (positions 0 w.journal.entries) >=> λ _.
      complete o "reconciled")
        w

  -- An original as the replacement left it.
  abbrev pub is_left : Entry → Inspection → Bool
  is_left e i = i.name =ₛ ("/" ++ₛ e.backup) && (i.has_state && not i.running && i.image =ₛ e.image)

  abbrev pub remove_if : Bool → String → Work (Unit {0})
  remove_if true id = store_must o (remove id)
  remove_if false id = stopped leaving

  abbrev pub cleared : Entry → Result Failure Inspection → Work (Unit {0})
  cleared e (ok i) = remove_if (is_left e i) e.id
  cleared e (err not_found) = done
  cleared e (err timed_out) = stopped leaving
  cleared e (err refused) = stopped leaving

  unfoldable pub cleanup_entry : Entry → Work (Unit {0})
  cleanup_entry e w =
      let found = o.inspects e.id w.trace in
      cleared e found (log_event (asked (inspect e.id) (is_ok found)) w)

  abbrev pub is_replaced : String → String → Bool
  is_replaced status outcome =
      status =ₛ "succeeded" && (outcome =ₛ "verified" || outcome =ₛ "reconciled")

  unfoldable pub cleanup : String → String → Work (Unit {0})
  unfolding cleanup_entry
  cleanup status outcome w =
      when (is_replaced status outcome) (each cleanup_entry w.journal.entries) w

  -- Only inspections, and removals of originals that an inspection showed as left.
  abbrev may_clean : List Entry → Event → List Event → Bool
  may_clean es (asked (inspect id) b) t = true
  may_clean es (asked (remove id) b) t = exists (λ e. e.id =ₛ id && seen o (is_left e) id t) es
  may_clean es e t = false

  unfoldable pub is_cleaning : List Entry → List Event → Bool
  is_cleaning es [] = true
  is_cleaning es (e ∷ t) = may_clean es e t && is_cleaning es t

  exists-middle :
      (p : Entry → Bool) (before : List Entry) (e : Entry) (after : List Entry)
      → p e ≡ true
      → exists p (before ++ e ∷ after) ≡ true
  exists-middle p [] e after h = rw (h) refl
  exists-middle p (x ∷ before) e after h = rw (exists-middle p before e after h) (ground arith)

  removed-IsCleaning :
      (es : List Entry) (id : String) (w : World)
      → is_cleaning es w.trace ≡ true
      → exists (λ e. e.id =ₛ id && seen o (is_left e) id w.trace) es ≡ true
      → is_cleaning es (store_must o (remove id) w).1.trace ≡ true
  unfolding is_cleaning
  removed-IsCleaning es id w h k = answered (o.answers (remove id) w.trace)
    where
      answered :
          (a : Option Failure)
          → is_cleaning es
              (ruled (λ f. leaving) (a, log_event (asked (remove id) (not (is_some a))) w)).1.trace
            ≡ true
      answered none = rw (k, h) refl
      answered (some f) = rw (k, h) refl

  cleaned_entry :
      (before : List Entry) (e : Entry) (after : List Entry) (w : World)
      → is_cleaning (before ++ e ∷ after) w.trace ≡ true
      → is_cleaning (before ++ e ∷ after) (cleanup_entry e w).1.trace ≡ true
  unfolding cleanup_entry is_cleaning seen
  cleaned_entry before e after w h = judged_answer (o.inspects e.id w.trace) refl
    where
      es : List Entry
      es = before ++ e ∷ after

      judged_answer :
          (r : Result Failure Inspection)
          → o.inspects e.id w.trace ≡ r
          → is_cleaning es (cleared e r (log_event (asked (inspect e.id) (is_ok r)) w)).1.trace
            ≡ true
      judged_answer (err not_found) q = h
      judged_answer (err timed_out) q = h
      judged_answer (err refused) q = h
      judged_answer (ok i) q = kept_or_removed (is_left e i) refl
        where
          kept_or_removed :
              (b : Bool)
              → is_left e i ≡ b
              → is_cleaning es (remove_if b e.id (log_event (asked (inspect e.id) true) w)).1.trace
                ≡ true
          kept_or_removed false k = h
          kept_or_removed true k =
              removed-IsCleaning es e.id (log_event (asked (inspect e.id) true) w) h (
                exists-middle
                  (λ x.
                    x.id =ₛ e.id && seen o (is_left x) e.id (asked (inspect e.id) true ∷ w.trace))
                  before e after (rw (eq_refl e.id, q, k) refl))

  cleaned_then :
      (es : List Entry) (next : Work (Unit {0})) (r : Result Stop (Unit {0}) × World)
      → is_cleaning es r.1.trace ≡ true
      → ((v : World) → is_cleaning es v.trace ≡ true → is_cleaning es (next v).1.trace ≡ true)
      → is_cleaning es (and_then (λ _. next) r).1.trace ≡ true
  cleaned_then es next (ok u, v) h k = k v h
  cleaned_then es next (err x, v) h k = h

  cleaned_all :
      (before after : List Entry) (w : World)
      → is_cleaning (before ++ after) w.trace ≡ true
      → is_cleaning (before ++ after) (each cleanup_entry after w).1.trace ≡ true
  cleaned_all before [] w h = h
  cleaned_all before (e ∷ after) w h =
      cleaned_then (before ++ e ∷ after) (each cleanup_entry after) (cleanup_entry e w)
        (cleaned_entry before e after w h)
        (λ v k.
          subst (λ es. is_cleaning es (each cleanup_entry after v).1.trace ≡ true)
            (append_assoc before (e ∷ []) after)
            (cleaned_all (before ++ e ∷ []) after v (
              subst (λ es. is_cleaning es v.trace ≡ true) (sym (append_assoc before (e ∷ []) after))
                k)))

-- Cleanup asks nothing unless the job succeeded as verified or reconciled; and then it removes nothing
-- but originals of the journal that Docker has shown before under their backup name, stopped and with
-- their old image, and asks nothing else but inspections.
pub cleanup_removes_retained :
    (o : Engine) (status outcome : String) (j : Journal)
    → let t = (cleanup o status outcome (record { trace = []; journal = j })).1.trace in
      (is_cleaning o j.entries t ≡ true) × (is_replaced o status outcome ≡ false → t ≡ [])
unfolding cleanup is_cleaning
cleanup_removes_retained o status outcome j = elim (Bool-cases (is_replaced o status outcome)) [
  | inl q ↦ rw (q) (cleaned_all o [] j.entries (record { trace = []; journal = j }) refl, λ k. cc)
  | inr q ↦ rw (q) (refl, λ k. refl)
]
