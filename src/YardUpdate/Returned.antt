-- ===== src/YardUpdate/Returned.antt =====
-- selfupdate/worker.go: a rollback without a failure has seen the original running under its name.
use nox_yard.YardUpdate.{
  Failure, State, Container, inspect, start, tag, Event, asked, Engine, Site, and_then, log_event,
  shown_as,
}
use nox_yard.YardUpdate.Checks.{is_running}
use nox_yard.YardUpdate.Worker.{
  Verdict, healthy, undecided, ill, verdict_of, verdict, unless_late, judged, wait_healthy, site_of,
  Undo, also, noting,
}
use nox_yard.YardUpdate.Running.{
  find_replacement, drop_replacement, restore_name, restarted, restart, tag_again, put_back,
  put_back_shown, restore_original, restore_data, rollback,
}
use nox_yard.YardUpdate.Trace.{passes}
use nox_yard.YardUpdate.Guarding.{anything, anything-Stays}
use nox_yard.YardUpdate.Locked.{IsLocked, log-IsLocked, call-IsLocked, wait_healthy-IsLocked}
use nox_yard.YardUpdate.Undone.{
  shows, bears, runs, is_named, site_after, also-IsLocked, asking, find_replacement-IsLocked,
  drop_replacement-IsLocked, restore_data-IsLocked, restart-IsLocked,
}
use nox_yard.YardUpdate.Back.{
  looked_at, ahead, is_back, is_named-Stays, looked_at-Stays, Ends, with_fact, without_fact,
  also-Ends, kept-Ends, if-Ends, restore_name-Ends,
}
use nox_yard.Store.Types.{Lock}
use nox_yard.Prelude.{
  Bool-cases, &&-true, Result, err, ok, ℕ, zero, suc, String, ◌≡◌, refl, inl, inr, Bool, true,
  false, Option, none, some, List, [], arith, eq_refl,
}

module _ (o : Engine) (locks : List Lock) (old name : String) where
  -- waitHealthy ends without an error only after it has seen the container running.
  passes-runs : (s : Option State) → passes (verdict o s) ≡ true → is_running s ≡ true
  unfolding verdict is_running
  passes-runs none h = h
  passes-runs (some s) h = running s.running s.health h
    where
      running : (b : Bool) (m : Option String) → passes (verdict_of o s b m) ≡ true → b ≡ true
      running true m h = refl
      running false m h = h

  abbrev Runs : Result String (Unit {0}) × Site → Type 0
  Runs (ok _, v) = shows o runs old v.trace ≡ true
  Runs (err x, v) = Unit {0}

  wait_healthy-Runs : (n : ℕ) (w : Site) → Runs (wait_healthy o n old w)
  unfolding wait_healthy shows
  wait_healthy-Runs zero w = tt
  wait_healthy-Runs (suc n) w = looked (o.inspects old w.trace) refl (λ v. wait_healthy-Runs n v)
    where
      late :
          (b : Bool) (v : Site)
          → Runs (wait_healthy o n old v)
          → Runs (unless_late b v (wait_healthy o n old v))
      late true v r = tt
      late false v r = r

      judging :
          (v : Site) (x : Verdict)
          → Runs (wait_healthy o n old v)
          → (passes x ≡ true → shows o runs old v.trace ≡ true)
          → Runs (judged o (wait_healthy o n old) x v)
      judging v healthy r k = k refl
      judging v (ill text) r k = tt
      judging v undecided r k = late (o.expires v.trace) v r

      looked :
          (r : Result Failure Container)
          → o.inspects old w.trace ≡ r
          → ((v : Site) → Runs (wait_healthy o n old v))
          → Runs (
              and_then
                (λ c. judged o (wait_healthy o n old) (verdict o c.state))
                (shown_as old w r))
      looked (err f) q again = tt
      looked (ok c) q again =
          judging _ (verdict o c.state) (again _)
            (λ k. rw (eq_refl old, q, passes-runs c.state k) refl)

  restart-Ends :
      (c : Container) (w : Site)
      → IsLocked locks anything w
      → looked_at o locks old name (runs c) w.trace ≡ true
      → Ends o locks old name (is_back o locks old name) (restart o old c w)
  unfolding restart
  restart-Ends c w h k =
      if-Ends o locks old name (is_back o locks old name) (is_running c.state) ([], w) _
        (λ q. (h, λ _. ground (arith, k, q)))
        (λ q. starting _ (
          call-IsLocked o locks (is_named o old name) (is_named-Stays o locks old name) (start old)
            w (with_fact o locks old name (is_named o old name) w h (&&-true _ _ k).0)))
    where
      proved :
          (r : Result String (Unit {0}) × Site)
          → IsLocked locks (is_named o old name) (site_of r)
          → Runs r
          → Ends o locks old name (is_back o locks old name) (noting "original healthcheck" r)
      proved (ok _, v) g s = (without_fact o locks old name _ v g, λ _. rw (g.kept, s) refl)
      proved (err x, v) g s = (without_fact o locks old name _ v g, λ c. ground arith)

      starting :
          (r : Result String (Unit {0}) × Site)
          → IsLocked locks (is_named o old name) (site_of r)
          → Ends o locks old name (is_back o locks old name) (restarted o old r)
      starting (err x, v) g = (without_fact o locks old name _ v g, λ c. ground arith)
      starting (ok _, v) g =
          proved _
            (wait_healthy-IsLocked o locks (is_named o old name) (is_named-Stays o locks old name)
              o.polls old v g)
            (wait_healthy-Runs o.polls v)

  tagged-Ends :
      (c : Container) (w : Site)
      → IsLocked locks anything w
      → looked_at o locks old name (runs c) w.trace ≡ true
      → Ends o locks old name (is_back o locks old name) (also (tag_again o c) (restart o old c) w)
  tagged-Ends c w h k =
      also-Ends o locks old name (looked_at o locks old name (runs c)) (is_back o locks old name)
        (tag_again o c) (restart o old c) w
        (kept-Ends o locks old name (looked_at o locks old name (runs c)) _ (
          asking o locks (looked_at o locks old name (runs c))
            (looked_at-Stays o locks old name (runs c)) "restore previous latest tag" (tag c.image)
            w (with_fact o locks old name (looked_at o locks old name (runs c)) w h k)))
        (λ v g. restart-IsLocked o locks anything anything-Stays old c v g)
        (λ v g m. restart-Ends c v g m)

  put_back-Ends :
      (c : Container) (w : Site)
      → IsLocked locks anything w
      → ahead o locks old name (runs c) w.trace ≡ true
      → (bears name c ≡ true → is_named o old name w.trace ≡ true)
      → Ends o locks old name (is_back o locks old name) (put_back o old name c w)
  unfolding put_back
  put_back-Ends c w h a n =
      also-Ends o locks old name (looked_at o locks old name (runs c)) (is_back o locks old name)
        (restore_name o old name c) (also (tag_again o c) (restart o old c)) w
        (restore_name-Ends o locks old name c w h a n)
        (λ v g.
          also-IsLocked o locks anything anything-Stays (tag_again o c) (restart o old c) v
            (asking o locks anything anything-Stays "restore previous latest tag" (tag c.image) v g)
            (λ u m. restart-IsLocked o locks anything anything-Stays old c u m))
        (λ v g m. tagged-Ends c v g m)

  restore_original-Ends :
      (w : Site)
      → IsLocked locks anything w
      → Ends o locks old name (is_back o locks old name) (restore_original o old name w)
  unfolding restore_original is_named shows
  restore_original-Ends w h = looked (o.inspects old w.trace) refl
    where
      logged : (b : Bool) → IsLocked locks anything (log_event (asked (inspect old) b) w)
      logged b = log-IsLocked o locks anything anything-Stays (asked (inspect old) b) w h

      looked :
          (r : Result Failure Container)
          → o.inspects old w.trace ≡ r
          → Ends o locks old name
              (is_back o locks old name)
              (put_back_shown o old name (shown_as old w r))
      looked (err f) q = (logged false, λ c. ground arith)
      looked (ok c) q =
          put_back-Ends c _ (logged true)
            (elim (Bool-cases (runs c)) [
              | inl k ↦ rw (k, eq_refl old, q, k) refl
              | inr k ↦ rw (k) refl
            ])
            (λ k. rw (eq_refl old, q, k) refl)

  Ends-IsLocked :
      (keep : List Event → Bool) (r : List String × Site)
      → Ends o locks old name keep r
      → IsLocked locks anything (site_after r)
  Ends-IsLocked keep (xs, v) (h, k) = h

  data_and_original-Ends :
      (w : Site)
      → IsLocked locks anything w
      → Ends o locks old name
          (is_back o locks old name)
          (also (restore_data o) (restore_original o old name) w)
  data_and_original-Ends w h =
      also-Ends o locks old name anything (is_back o locks old name) (restore_data o)
        (restore_original o old name) w
        (kept-Ends o locks old name anything (restore_data o w)
          (restore_data-IsLocked o locks anything anything-Stays w h))
        (λ v g.
          Ends-IsLocked (is_back o locks old name) (restore_original o old name v)
            (restore_original-Ends v g))
        (λ v g _. restore_original-Ends v g)

  abbrev last : Undo
  last = also (restore_data o) (restore_original o old name)

  dropping-Ends :
      (w : Site)
      → IsLocked locks anything w
      → Ends o locks old name (is_back o locks old name) (also (drop_replacement o) last w)
  dropping-Ends w h =
      also-Ends o locks old name anything (is_back o locks old name) (drop_replacement o) last w
        (kept-Ends o locks old name anything (drop_replacement o w)
          (drop_replacement-IsLocked o locks anything anything-Stays w h))
        (λ v g. Ends-IsLocked (is_back o locks old name) (last v) (data_and_original-Ends v g))
        (λ v g _. data_and_original-Ends v g)

  pub rollback-Ends :
      (w : Site)
      → IsLocked locks anything w
      → Ends o locks old name (is_back o locks old name) (rollback o old name w)
  unfolding rollback
  rollback-Ends w h =
      also-Ends o locks old name anything (is_back o locks old name) (find_replacement o old name)
        (also (drop_replacement o) last) w
        (kept-Ends o locks old name anything (find_replacement o old name w)
          (find_replacement-IsLocked o locks anything anything-Stays old name w h))
        (λ v g.
          Ends-IsLocked (is_back o locks old name) (also (drop_replacement o) last v)
            (dropping-Ends v g))
        (λ v g _. dropping-Ends v g)
