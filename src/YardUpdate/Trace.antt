-- ===== src/YardUpdate/Trace.antt =====
-- selfupdate/worker.go: what a run of the worker may ask.
-- Calls that remove a container, and the transaction that ends the update as succeeded.
use nox_yard.YardUpdate.{
  Failure, State, Container, Call, finish, inspect, remove, force_remove, Event, asked, created,
  Engine,
}
use nox_yard.YardUpdate.Worker.{Verdict, healthy, undecided, ill, verdict_of, verdict}
use nox_yard.Prelude.{
  ◌=ₛ◌, exists, Result, err, ok, String, ◌≡◌, Bool, true, false, ◌&&◌, ◌||◌, not, Option, none,
  some, List, [], ◌∷◌, arith, eq_iff,
}

abbrev pub removes : String → Call → Bool
removes id (remove x) = x =ₛ id
removes id (force_remove x) = x =ₛ id
removes id c = false

abbrev pub is_success : Call → Bool
is_success (finish status recovery) = status =ₛ "succeeded"
is_success c = false

abbrev pub commits : Event → Bool
commits (asked c b) = b && is_success c
commits (created id) = false

unfoldable pub is_committed : List Event → Bool
is_committed t = exists commits t

-- Whether an inspection of a container in the trace showed it healthy, and whether it was created here.
abbrev pub passes : Verdict → Bool
passes healthy = true
passes undecided = false
passes (ill text) = false

abbrev pub reports_healthy : Option String → Bool
reports_healthy none = false
reports_healthy (some h) = h =ₛ "healthy"

abbrev pub is_well : Option State → Bool
is_well none = false
is_well (some s) = s.running && reports_healthy s.health

abbrev pub is_healthy : Result Failure Container → Bool
is_healthy (err f) = false
is_healthy (ok c) = is_well c.state

abbrev pub inspects : String → Event → Bool
inspects id (asked (inspect x) b) = x =ₛ id
inspects id e = false

unfoldable pub seen_healthy : Engine → String → List Event → Bool
seen_healthy o id [] = false
seen_healthy o id (e ∷ t) = (inspects id e && is_healthy (o.inspects id t)) || seen_healthy o id t

abbrev pub makes : String → Event → Bool
makes id (created x) = x =ₛ id
makes id (asked c b) = false

unfoldable pub is_made : String → List Event → Bool
is_made id t = exists (makes id) t

-- Whether one of the containers created in a trace has been seen healthy in another.
unfoldable pub shows_healthy : Engine → List Event → List Event → Bool
unfolding seen_healthy
shows_healthy o t es = exists (λ e. made_healthy e) es
  where
    made_healthy : Event → Bool
    made_healthy (created id) = seen_healthy o id t
    made_healthy (asked c b) = false

-- The original is removed only after the success was saved, and that is saved only when
-- a container that was created here has been seen healthy.
abbrev pub is_allowed : Engine → String → Call → List Event → Bool
is_allowed o old c t =
    (not (removes old c) || is_committed t) && (not (is_success c) || shows_healthy o t t)

abbrev pub permitted : Engine → String → Event → List Event → Bool
permitted o old (asked c b) t = is_allowed o old c t
permitted o old (created id) t = true

unfoldable pub is_guarded : Engine → String → List Event → Bool
unfolding shows_healthy
is_guarded o old [] = true
is_guarded o old (e ∷ t) = permitted o old e t && is_guarded o old t

pub shows_healthy_lem :
    (o : Engine) (id : String) (t es : List Event)
    → is_made id es ≡ true
    → seen_healthy o id t ≡ true
    → shows_healthy o t es ≡ true
unfolding is_made shows_healthy
shows_healthy_lem o id t [] h k = ground arith
shows_healthy_lem o id t (asked c b ∷ es) h k = shows_healthy_lem o id t es h k
shows_healthy_lem o id t (created x ∷ es) h k =
    ground (arith, shows_healthy_lem o id t es, k, eq_iff x id)

pub passes-is_well :
    (o : Engine) (s : Option State) → passes (verdict o s) ≡ true → is_well s ≡ true
unfolding verdict
passes-is_well o none h = h
passes-is_well o (some s) h = reported s.running s.health h
  where
    reported :
        (b : Bool) (m : Option String)
        → passes (verdict_of o s b m) ≡ true
        → (b && reports_healthy m) ≡ true
    reported false m h = h
    reported true none h = h
    reported true (some m) h = ground arith
