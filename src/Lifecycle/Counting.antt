-- ===== src/Lifecycle/Counting.antt =====
-- lifecycle/lifecycle.go: what the counters of a group action say.
use nox_yard.Prelude.{
  ◌=ₛ◌, if◌then◌else◌, Bool-cases, &&-true, length, length-append, every, filter_length,
  length-backwards, filter_length-backwards, every-backwards, ◌++ₛ◌, Result, err, ok, ℕ, suc, ◌+◌,
  ◌≤◌, String, ◌≡◌, refl, ◌∙◌, subst, inl, inr, Bool, true, false, not, Option, none, some, List,
  [], ◌∷◌, arith,
}
use nox_yard.Lifecycle.{
  Action, start, stop, restart, other, Summary, Report, Call, restarts_self, Engine, should_run,
  is_self, is_helper, failing,
}
use nox_yard.Lifecycle.Actions.{
  Run, applied, apply, waited, run_action, leaves_out, leaves_for_later, skip_item, visit_target,
  visit_targets, queued, restart_yard, new_run, in_order, run_project,
}

abbrev pub counted : Report → ℕ
counted r = r.succeeded + r.skipped + r.failed + r.queued

-- Each failure is counted, and has a text and a cause.
pub record IsTold (r : Report) : Type 0 where
  pub texts : length r.errors ≡ r.failed
  pub causes : length r.failures ≡ r.failed

failing-IsTold :
    (id shown cause : String) (r : Report) → IsTold r → IsTold (failing id shown cause r)
unfolding failing
failing-IsTold id shown cause r h = record {
  texts = omega (arith, length-append r.errors (shown ∷ []), h.texts);
  causes =
      omega
        (arith, length-append r.failures (record { target = id; cause = cause } ∷ []), h.causes);
}

-- A step that settles a container: one more is counted, Yard's own stays as it was.
pub record IsSettled (r after : Run) : Type 0 where
  pub one : counted after.report ≡ suc (counted r.report)
  pub same : after.self_id ≡ r.self_id
  pub told : IsTold r.report → IsTold after.report

applied-IsSettled :
    (o : Option String) (shown id : String) (call : Call) (r : Run)
    → IsSettled r (applied o shown id call r)
unfolding applied failing
applied-IsSettled none shown id call r = record {
  one = omega arith;
  same = refl;
  told = λ h. record { texts = h.texts; causes = h.causes };
}
applied-IsSettled (some e) shown id call r = record {
  one = omega arith;
  same = refl;
  told = failing-IsTold id (shown ++ₛ ": " ++ₛ e) e r.report;
}

apply-IsSettled :
    (e : Engine) (action : Action) (item : Summary) (r : Run) → IsSettled r (apply e action item r)
unfolding apply
apply-IsSettled e action item r = applied-IsSettled _ _ _ _ r

waited-IsSettled :
    (e : Engine) (action : Action) (item : Summary) (o : Result String ℕ) (r : Run)
    → IsSettled r (waited e action item o r)
unfolding waited failing
waited-IsSettled e action item (ok left) r = apply-IsSettled e action item r
waited-IsSettled e action item (err reason) r = record {
  one = omega arith;
  same = refl;
  told = failing-IsTold item.id reason reason r.report;
}

pub run_action-IsSettled :
    (e : Engine) (action : Action) (targets : List Summary) (item : Summary) (r : Run)
    → IsSettled r (run_action e action targets item r)
unfolding run_action
run_action-IsSettled e start targets item r = waited-IsSettled e start item _ r
run_action-IsSettled e stop targets item r = apply-IsSettled e stop item r
run_action-IsSettled e restart targets item r = waited-IsSettled e restart item _ r
run_action-IsSettled e other targets item r = apply-IsSettled e other item r

skip-IsSettled : (r : Run) → IsSettled r (skip_item r)
skip-IsSettled r = record {
  one = omega arith;
  same = refl;
  told = λ h. record { texts = h.texts; causes = h.causes };
}

-- Yard's own container, in a restart, is remembered instead.
abbrev pub is_yard : Engine → Summary → Bool
is_yard e item = is_self e.hostname item.id item.labels

-- How many containers the loop has left for later, as far as it matters: one at most.
abbrev remembered : Run → ℕ
remembered r = if r.self_id =ₛ "" then 0 else 1

-- A stretch of the loop over `n` containers, `yards` of which are Yard's.
record IsWalked (n yards : ℕ) (r after : Run) : Type 0 where
  sum :
      yards + remembered r ≤ 1
      → counted after.report + remembered after ≡ counted r.report + remembered r + n
  few : remembered after ≤ remembered r + yards
  told : IsTold r.report → IsTold after.report

settled-IsWalked : (r after : Run) (yards : ℕ) → IsSettled r after → IsWalked 1 yards r after
settled-IsWalked r after yards h = record {
  sum = λ l. rw (h.same, h.one) (omega arith);
  few = rw (h.same) (omega arith);
  told = h.told;
}

later-IsWalked :
    (r : Run) (id : String) → (id =ₛ "") ≡ false → IsWalked 1 1 r (record r { self_id = id })
later-IsWalked r id n = record { sum = λ l. ground arith; few = ground arith; told = λ h. h }

IsWalked-nothing : (r : Run) → IsWalked 0 0 r r
IsWalked-nothing r = record { sum = λ l. omega arith; few = omega arith; told = λ h. h }

IsWalked-on :
    (m y z : ℕ) (r mid after : Run)
    → IsWalked 1 y r mid
    → IsWalked m z mid after
    → IsWalked (suc m) (y + z) r after
IsWalked-on m y z r mid after h k = record {
  sum = λ l. walked_sum h k l;
  few = omega (arith, h.few, k.few);
  told = λ t. k.told (h.told t);
}
  where
    walked_sum :
        IsWalked 1 y r mid
        → IsWalked m z mid after
        → (y + z) + remembered r ≤ 1
        → counted after.report + remembered after ≡ counted r.report + remembered r + suc m
    walked_sum h k l = omega (arith, h.sum (omega arith), k.sum (omega (arith, h.few)))

abbrev pub yard_count : Engine → List Summary → ℕ
yard_count e ts = filter_length (is_yard e) ts

later-yard : (action : Action) (self : Bool) → leaves_for_later action self ≡ true → self ≡ true
unfolding leaves_for_later
later-yard start self h = cc
later-yard stop self h = cc
later-yard restart self h = h
later-yard other self h = cc

visit_target-IsWalked :
    (e : Engine) (action : Action) (targets : List Summary) (item : Summary) (r : Run)
    → (item.id =ₛ "") ≡ false
    → IsWalked 1 (if is_yard e item then 1 else 0) r (visit_target e action targets item r)
unfolding visit_target
visit_target-IsWalked e action targets item r n =
    elim (Bool-cases (leaves_out action (is_yard e item) (is_helper item.labels))) [
      | inl a ↦ rw (a) (settled-IsWalked r _ _ (skip-IsSettled r))
      | inr a ↦ elim (Bool-cases (leaves_for_later action (is_yard e item))) [
        | inl b ↦ rw (a, b, later-yard action (is_yard e item) b) (later-IsWalked r item.id n)
        | inr b ↦ elim (Bool-cases (should_run item.state action)) [
          | inl c ↦
              rw (a, b, c) (settled-IsWalked r _ _ (run_action-IsSettled e action targets item r))
          | inr c ↦ rw (a, b, c) (settled-IsWalked r _ _ (skip-IsSettled r))
        ]
      ]
    ]

-- Every container has an id.
abbrev pub has_ids : List Summary → Bool
has_ids ts = every (λ t. not (t.id =ₛ "")) ts

visit_targets-IsWalked :
    (e : Engine) (action : Action) (targets ts : List Summary) (r : Run)
    → has_ids ts ≡ true
    → IsWalked (length ts) (yard_count e ts) r (visit_targets e action targets ts r)
unfolding visit_targets
visit_targets-IsWalked e action targets [] r h = IsWalked-nothing r
visit_targets-IsWalked e action targets (x ∷ xs) r h =
    let (named, rest) = &&-true _ _ h in
    IsWalked-on (length xs) (if is_yard e x then 1 else 0) (yard_count e xs) r
      (visit_target e action targets x r) _
      (visit_target-IsWalked e action targets x r (ground arith))
      (visit_targets-IsWalked e action targets xs (visit_target e action targets x r) rest)

-- Reversing the group keeps its size, its ids and its share of Yard.
length-in_order :
    (e : Engine) (action : Action) (ts : List Summary)
    → has_ids ts ≡ true
    → (length (in_order action ts) ≡ length ts)
      × (yard_count e (in_order action ts) ≡ yard_count e ts)
      × (has_ids (in_order action ts) ≡ true)
unfolding in_order
length-in_order e start ts h = (refl, refl, h)
length-in_order e restart ts h = (refl, refl, h)
length-in_order e other ts h = (refl, refl, h)
length-in_order e stop ts h = (
  length-backwards ts,
  filter_length-backwards (is_yard e) ts,
  every-backwards (λ t. not (t.id =ₛ "")) ts ∙ h,
)

queued-counts :
    (o : Option String) (prefix id : String) (r : Run)
    → IsTold r.report
    → (counted (queued o prefix id r).report ≡ suc (counted r.report))
      × IsTold (queued o prefix id r).report
unfolding queued failing
queued-counts none prefix id r h = (omega arith, record { texts = h.texts; causes = h.causes })
queued-counts (some e) prefix id r h = (omega arith, failing-IsTold id (prefix ++ₛ e) e r.report h)

restart_yard-counts :
    (e : Engine) (r : Run)
    → IsTold r.report
    → (counted (restart_yard e r).report ≡ counted r.report + remembered r)
      × IsTold (restart_yard e r).report
unfolding restart_yard
restart_yard-counts e r h = elim (Bool-cases (r.self_id =ₛ "")) [
  | inl a ↦ rw (a) (omega arith, h)
  | inr a ↦
      let (one, told) =
        queued-counts (e.answer r.calls (restarts_self r.self_id r.report.failures)) "Yard: "
          r.self_id r h in
      rw (a) (one ∙ omega arith, told)
]

pub run_project-ok :
    (e : Engine) (action : Action) (targets : List Summary) (r : Run)
    → run_project e action targets ≡ ok r
    → restart_yard e (
        visit_targets e action (in_order action targets) (in_order action targets) (new_run action))
      ≡ r
unfolding run_project
run_project-ok e action targets r h = ground arith

-- A group action that is not refused, on containers with ids of which one at most is Yard's, counts
-- each container exactly once, as succeeded, skipped, failed or queued; and each failure has one
-- text and one cause.
pub project_counts_all :
    (e : Engine) (action : Action) (targets : List Summary) (r : Run)
    → has_ids targets ≡ true
    → yard_count e targets ≤ 1
    → run_project e action targets ≡ ok r
    → (counted r.report ≡ length targets) × IsTold r.report
project_counts_all e action targets r ids few h =
    let (same, yards, named) = length-in_order e action targets ids in
    let group = in_order action targets in
    let walked = visit_targets-IsWalked e action group group (new_run action) named in
    let told = walked.told (record { texts = refl; causes = refl }) in
    let (count, all_told) =
      restart_yard-counts e (visit_targets e action group group (new_run action)) told in
    subst (λ s. (counted s.report ≡ length targets) × IsTold s.report)
      (run_project-ok e action targets r h)
      (count ∙ walked.sum (rw (yards) (ground arith)) ∙ rw (same) (omega arith), all_told)
