-- ===== src/Lifecycle/Examples.antt =====
-- The theorems of the group actions on a project of two containers, of which one is Yard's.
use nox_yard.Prelude.{
  exists, every, filter_length, Result, err, ok, is_ok, ◌≤◌, ◌≡◌, refl, true, false, not, none,
  List, [], ◌∷◌, arith,
}
use nox_yard.Lifecycle.{restart, LifecycleError, Summary, Engine, is_self}
use nox_yard.Lifecycle.Actions.{Run, is_refused, new_run, run_project}
use nox_yard.Lifecycle.Counting.{counted, IsTold, project_counts_all}
use nox_yard.Lifecycle.Lock.{
  arriving, selecting, sent, inside, Mutex, moved, selects, sends_token, enters, all_arriving,
  Reached, begins, goes_on, owners, is_inside, mutex_excludes,
}
use nox_yard.Lifecycle.Protection.{is_allowed, is_queued, project_spares_yard}

abbrev quiet : Engine
quiet = record {
  hostname = "0123456789ab";
  answer = λ calls call. none;
  inspect = λ calls n id. none;
  polls = 480;
}

abbrev two : List Summary
two =
    record { id = "0123456789abcd"; names = "/yard" ∷ []; labels = []; state = "running" }
    ∷ record { id = "ffff"; names = "/web" ∷ []; labels = []; state = "running" }
    ∷ []

abbrev run_or : Result LifecycleError Run → Run
run_or (ok r) = r
run_or (err e) = new_run restart

abbrev restarted : Run
restarted = run_or (run_project quiet restart two)

project_counts_all_example : (counted restarted.report ≡ 2) × IsTold restarted.report
unfolding run_project is_self
project_counts_all_example = project_counts_all quiet restart two restarted refl (omega arith) refl

project_spares_yard_example :
    (is_ok (run_project quiet restart two) ≡ not (exists (is_refused "0123456789ab" restart) two))
    × ((r : Run)
        → run_project quiet restart two ≡ ok r
        → (every (is_allowed quiet restart two) r.calls ≡ true)
          × (filter_length is_queued r.calls ≤ 1))
project_spares_yard_example = project_spares_yard quiet restart two refl

-- Two requests, of which the first has entered.
abbrev waiting : Mutex
waiting = record { token = false; phases = arriving ∷ arriving ∷ [] }

abbrev one_inside : Mutex
one_inside = moved 0 inside true (moved 0 sent true (moved 0 selecting false waiting))

one_inside-Reached : Reached 2 one_inside
unfolding all_arriving moved
one_inside-Reached =
    goes_on _ _ (goes_on _ _ (goes_on _ _ begins (selects 0 refl)) (sends_token 0 refl refl))
      (enters 0 refl)

mutex_excludes_example :
    (filter_length is_inside one_inside.phases ≤ 1)
    × (owners one_inside.phases ≡ 0 → one_inside.token ≡ false)
mutex_excludes_example = mutex_excludes 2 one_inside one_inside-Reached
