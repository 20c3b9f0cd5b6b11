-- ===== src/Recreate/Returning.antt =====
-- recreate/worker.go: the parts of execute that do not return after FinishJob.
use nox_yard.Recreate.{
  Entry, Failure, Call, inspect, create, stop, start, rename, disconnect, asked, Inspection, Engine,
  World, Stop, failing, leaving, ended, Work, and_then, stopped, when, log_event, is_uncertain,
  ruled, must, store_must, valued, entry_at, save_stage, each,
}
use nox_yard.Recreate.Steps.{
  Readiness, ready_now, broken, wait_more, readiness, look, judged, ready, retain, entered,
  new_container, reserve, replace, is_same_original, is_same_replacement, verify_entry,
}
use nox_yard.Prelude.{
  ◌=ₛ◌, Option-cases, is_some, get_elem?, Result, err, ok, is_ok, ℕ, zero, suc, String, inl, inr,
  Bool, true, false, ◌||◌, not, Option, none, some, List, [], ◌∷◌,
}

-- A part that does not return after FinishJob; what holds where one does.
abbrev pub WhenEnded : {A : Type 0} → (World → Type 0) → Result Stop A × World → Type 0
WhenEnded R (ok a, w) = Unit {0}
WhenEnded R (err ended, w) = R w
WhenEnded R (err leaving, w) = Unit {0}
WhenEnded R (err (failing u), w) = Unit {0}

abbrev pub GoesOn : {A : Type 0} → Result Stop A × World → Type 0
GoesOn r = WhenEnded (λ w. ⊥) r

pub then-WhenEnded :
    {A B : Type 0} (R : World → Type 0) (r : Result Stop A × World) (next : A → Work B)
    → GoesOn r
    → ((a : A) (w : World) → WhenEnded R (next a w))
    → WhenEnded R (and_then next r)
then-WhenEnded R (ok a, w) next h k = k a w
then-WhenEnded R (err (failing u), w) next h k = tt
then-WhenEnded R (err leaving, w) next h k = tt
then-WhenEnded R (err ended, w) next h k = absurd h

when-GoesOn :
    (b : Bool) (work : Work (Unit {0})) (w : World) → GoesOn (work w) → GoesOn (when b work w)
when-GoesOn true work w h = h
when-GoesOn false work w h = tt

pub each-GoesOn :
    {A : Type 0} (f : A → Work (Unit {0})) (xs : List A) (w : World)
    → ((a : A) (v : World) → GoesOn (f a v))
    → GoesOn (each f xs w)
each-GoesOn f [] w k = tt
each-GoesOn f (a ∷ rest) w k =
    then-WhenEnded (λ w. ⊥) (f a w) (λ _. each f rest) (k a w) (λ _ v. each-GoesOn f rest v k)

entry_at-GoesOn : (i : ℕ) (w : World) → GoesOn (entry_at i w)
entry_at-GoesOn i w = elim (Option-cases (get_elem? w.journal.entries i)) [
  | inl q ↦ rw (q) tt
  | inr (e, q) ↦ rw (q) tt
]

module _ (o : Engine) where
  must-GoesOn : (c : Call) (w : World) → GoesOn (must o c w)
  must-GoesOn c w = answered (o.answers c w.trace)
    where
      answered :
          (a : Option Failure)
          → GoesOn
              (ruled (λ f. failing (is_uncertain f)) (a, log_event (asked c (not (is_some a))) w))
      answered none = tt
      answered (some f) = tt

  pub store_must-GoesOn : (c : Call) (w : World) → GoesOn (store_must o c w)
  store_must-GoesOn c w = answered (o.answers c w.trace)
    where
      answered :
          (a : Option Failure)
          → GoesOn (ruled (λ f. leaving) (a, log_event (asked c (not (is_some a))) w))
      answered none = tt
      answered (some f) = tt

  look-GoesOn : (id : String) (w : World) → GoesOn (look o id w)
  look-GoesOn id w = answered (o.inspects id w.trace)
    where
      answered :
          (r : Result Failure Inspection)
          → GoesOn (valued (λ f. failing false) r, log_event (asked (inspect id) (is_ok r)) w)
      answered (ok i) = tt
      answered (err f) = tt

  ready-GoesOn : (n : ℕ) (e : Entry) (id : String) (w : World) → GoesOn (ready o n e id w)
  unfolding ready
  ready-GoesOn zero e id w = tt
  ready-GoesOn (suc n) e id w =
      then-WhenEnded (λ x. ⊥) (look o id w) (λ i. judged o (ready o n e id) (readiness e i))
        (look-GoesOn id w) (λ i v. judging v (readiness e i) (ready-GoesOn n e id v))
    where
      judging :
          (v : World) (r : Readiness)
          → GoesOn (ready o n e id v)
          → GoesOn (judged o (ready o n e id) r v)
      judging v ready_now k = tt
      judging v broken k = tt
      judging v wait_more k = k

  pub retain-GoesOn : (i : ℕ) (w : World) → GoesOn (retain o i w)
  unfolding retain
  retain-GoesOn i w =
      then-WhenEnded (λ x. ⊥) (entry_at i w) _ (entry_at-GoesOn i w)
        (λ e v.
          then-WhenEnded (λ x. ⊥) (save_stage o "replacing" _) _ (store_must-GoesOn _ _)
            (λ _ u.
              then-WhenEnded (λ x. ⊥) (when e.running (must o (stop e.id)) u) _
                (when-GoesOn e.running (must o (stop e.id)) u (must-GoesOn (stop e.id) u))
                (λ _ t.
                  then-WhenEnded (λ x. ⊥) (must o (rename e.id e.backup) t) _
                    (must-GoesOn (rename e.id e.backup) t)
                    (λ _ x.
                      each-GoesOn
                        (λ name. when (not (name =ₛ "none")) (must o (disconnect name e.id)))
                        e.networks x
                        (λ name y.
                          when-GoesOn (not (name =ₛ "none")) (must o (disconnect name e.id)) y
                            (must-GoesOn (disconnect name e.id) y))))))

  new_container-GoesOn : (root : String) (e : Entry) (w : World) → GoesOn (new_container o root e w)
  new_container-GoesOn root e w = answered (o.creates w.trace)
    where
      answered : (r : Result Failure String) → GoesOn (entered o (create e.id root) w r)
      answered (ok id) = tt
      answered (err f) = tt

  pub replace-GoesOn : (root : String) (i : ℕ) (w : World) → GoesOn (replace o root i w)
  unfolding replace
  replace-GoesOn root i w =
      then-WhenEnded (λ x. ⊥) (entry_at i w) _ (entry_at-GoesOn i w)
        (λ e v.
          then-WhenEnded (λ x. ⊥) (new_container o root e v) _ (new_container-GoesOn root e v)
            (λ id u.
              then-WhenEnded (λ x. ⊥) (save_stage o "replacing" _) _ (store_must-GoesOn _ _)
                (λ _ t.
                  then-WhenEnded (λ x. ⊥) (reserve o id t) _ (must-GoesOn _ t)
                    (λ _ x.
                      then-WhenEnded (λ x. ⊥) (when (e.running || e.one_shot) (must o (start id)) x)
                        _
                        (when-GoesOn (e.running || e.one_shot) (must o (start id)) x
                          (must-GoesOn (start id) x))
                        (λ _ y. ready-GoesOn o.polls e id y)))))

  guard-GoesOn : (b : Bool) (w : World) → GoesOn (when b (stopped (failing false)) w)
  guard-GoesOn b w = when-GoesOn b (stopped (failing false)) w tt

  pub verify_entry-GoesOn : (root : String) (i : ℕ) (w : World) → GoesOn (verify_entry o root i w)
  unfolding verify_entry
  verify_entry-GoesOn root i w =
      then-WhenEnded (λ x. ⊥) (entry_at i w) _ (entry_at-GoesOn i w)
        (λ e v.
          then-WhenEnded (λ x. ⊥) (when (e.new_id =ₛ "") (stopped (failing false)) v) _
            (guard-GoesOn (e.new_id =ₛ "") v)
            (λ _ u.
              then-WhenEnded (λ x. ⊥) (look o e.id u) _ (look-GoesOn e.id u)
                (λ old t.
                  then-WhenEnded (λ x. ⊥)
                    (when (not (is_same_original o e old)) (stopped (failing false)) t) _
                    (guard-GoesOn (not (is_same_original o e old)) t)
                    (λ _ x.
                      then-WhenEnded (λ x. ⊥) (look o e.new_id x) _ (look-GoesOn e.new_id x)
                        (λ new y.
                          then-WhenEnded (λ x. ⊥)
                            (when (not (is_same_replacement o root e new)) (stopped (failing false))
                              y)
                            _ (guard-GoesOn (not (is_same_replacement o root e new)) y)
                            (λ _ z. ready-GoesOn o.polls e e.new_id z))))))
