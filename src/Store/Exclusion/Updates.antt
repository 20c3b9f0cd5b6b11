-- ===== src/Store/Exclusion/Updates.antt =====
-- An UPDATE that leaves the ids, the activity and the resources alone keeps the locks right.
use nox_yard.Prelude.{
  true, Option-cases, ok, >>=-eq-ok, ℕ, String, ◌≡◌, refl, sym, ◌∙◌, subst, inl, inr, Bool, Option,
  List, arith,
}
use nox_yard.Store.Types.{ImageIdentity, Job, Row, Lock, Db}
use nox_yard.Store.Tables.{update_where, changed, find_row}
use nox_yard.Store.Tables.Rows.{find_row-update_where, update_where-UniqueIds}
use nox_yard.Store.Jobs.{
  update_jobs, on_job, owned_running, set_job_worker, job_payload, claim_job, job_progress,
  job_cleanup_error, worker_cleaned, suppression, update_candidate,
}
use nox_yard.Store.Exclusion.{row_claims, claims, Sound, IsSound}

-- What such an UPDATE must not write in the rows that it touches.
pub record IsQuiet (hit : Row → Bool) (f : Row → Row) : Type 0 where
  pub id : (x : Row) → (f x).job.id ≡ x.job.id
  pub claim : (x : Row) (r : String) → hit x ≡ true → row_claims (f x) r ≡ row_claims x r

module _ (hit : Row → Bool) (f : Row → Row) (q : IsQuiet hit f) where
  claims-update_where :
      (rows : List Row) (id r : String) → claims (update_where hit f rows) id r ≡ claims rows id r
  claims-update_where rows id r = elim (Option-cases (find_row id rows)) [
    | inl e ↦ rw (find_row-update_where hit f q.id id rows, e)
    | inr (x, e) ↦ rw (find_row-update_where hit f q.id id rows, e) (ground (arith, q.claim x r))
  ]

  pub update_where-Sound :
      (rows : List Row) (locks : List Lock)
      → Sound rows locks
      → Sound (update_where hit f rows) locks
  update_where-Sound rows locks s = record {
    ids = update_where-UniqueIds hit f q.id rows s.ids;
    resources = s.resources;
    named = s.named;
    agree = λ r id. s.agree r id ∙ sym (claims-update_where rows id r);
  }

-- What a successful UPDATE leaves.
pub update_jobs-ok :
    (hit : Row → Bool) (f : Row → Row) (db : Db) {after : Db}
    → update_jobs hit f db ≡ ok after
    → after ≡ record db { jobs = update_where hit f db.jobs }
unfolding update_jobs changed
update_jobs-ok hit f db h = ground arith

pub update_jobs-IsSound :
    (hit : Row → Bool) (f : Row → Row)
    → IsQuiet hit f
    → (db : Db) {after : Db} → IsSound db
    → update_jobs hit f db ≡ ok after
    → IsSound after
update_jobs-IsSound hit f q db s h =
    rw (update_jobs-ok hit f db h) (update_where-Sound hit f q db.jobs db.locks s)

-- The operations of a running worker.
module _ (db : Db) {after : Db} (s : IsSound db) where
  pub set_job_worker-IsSound :
      (now : ℕ) (id owner worker : String)
      → set_job_worker now id owner worker db ≡ ok after
      → IsSound after
  unfolding set_job_worker
  set_job_worker-IsSound now id owner worker h =
      update_jobs-IsSound _ _ (record { id = λ x. refl; claim = λ x r _. refl }) db s h

  pub job_payload-IsSound :
      (now : ℕ) (id owner payload : String)
      → job_payload now id owner payload db ≡ ok after
      → IsSound after
  unfolding job_payload
  job_payload-IsSound now id owner payload h =
      update_jobs-IsSound _ _ (record { id = λ x. refl; claim = λ x r _. refl }) db s h

  pub claim_job-IsSound :
      (now : ℕ) (id owner : String) → claim_job now id owner db ≡ ok after → IsSound after
  unfolding claim_job
  claim_job-IsSound now id owner h =
      update_jobs-IsSound _ _ (record { id = λ x. refl; claim = λ x r _. refl }) db s h

  pub job_progress-IsSound :
      (now : ℕ) (id owner stage : String) (source target : Option (List ImageIdentity))
      → job_progress now id owner stage source target db ≡ ok after
      → IsSound after
  unfolding job_progress
  job_progress-IsSound now id owner stage source target h =
      update_jobs-IsSound _ _ (record { id = λ x. refl; claim = λ x r _. refl }) db s h

  pub update_candidate-IsSound :
      (j : Job) (signature reason : String)
      → update_candidate j signature db ≡ ok (after, reason)
      → IsSound after
  unfolding update_candidate
  update_candidate-IsSound j signature reason h =
      let (marked, e, rest) =
        >>=-eq-ok
          (update_jobs (owned_running j.id j.owner)
            (on_job (λ k. record k { candidate_fingerprint = signature })) db)
          _ h in
      let (said, _, same) = >>=-eq-ok (suppression j signature marked.plans) _ rest in
      let kept : marked ≡ after = ground (arith, same) in
      subst IsSound kept
        (update_jobs-IsSound _ _ (record { id = λ x. refl; claim = λ x r _. refl }) db s e)

pub job_cleanup_error-IsSound :
    (db : Db) (id message : String) → IsSound db → IsSound (job_cleanup_error id message db)
unfolding job_cleanup_error
job_cleanup_error-IsSound db id message s =
    update_where-Sound _ _ (record { id = λ x. refl; claim = λ x r _. refl }) db.jobs db.locks s

pub worker_cleaned-IsSound :
    (db : Db) (now : ℕ) (id : String) (clear : Bool)
    → IsSound db
    → IsSound (worker_cleaned now id clear db)
unfolding worker_cleaned
worker_cleaned-IsSound db now id clear s =
    update_where-Sound _ _ (record { id = λ x. refl; claim = λ x r _. refl }) db.jobs db.locks s
