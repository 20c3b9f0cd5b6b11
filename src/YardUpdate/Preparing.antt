-- ===== src/YardUpdate/Preparing.antt =====
-- selfupdate/worker.go: what RunWorker does before it replaces anything.
use nox_yard.Workers.{WorkerError, validate_worker}
use nox_yard.YardUpdate.{
  Container, Replacement, dial, read_update, read_job, claim, tag, Engine, Site, Work, ◌>=>◌, give,
  check, call, look, transact, on_db, ask_store,
}
use nox_yard.YardUpdate.Worker.{Plan, site_of}
use nox_yard.YardUpdate.Running.{
  retold, refused_with, save_refusal, fail_before_replacement, read_update_job, read_operation,
  dialled, valid_worker, claimed, named_update, its_operation, admitted, planned, checked, prepared,
}
use nox_yard.YardUpdate.Guarding.{
  anything, anything-Stays, Nothing, Keeps, Keeps-then, Keeps-transact, Keeps-ask_store, Saw,
  Keeps-look,
}
use nox_yard.YardUpdate.Undoing.{Safe, Goes, Then, call-Safe, finish_update-Safe}
use nox_yard.Store.Types.{Job}
use nox_yard.Store.Jobs.{claim_job}
use nox_yard.Store.SelfUpdate.{SelfUpdateJob}
use nox_yard.Prelude.{
  ◌==◌, ◌=ₛ◌, is_hex, Result, err, ok, String, len, ◌≡◌, refl, Bool, true, false, ◌&&◌,
}

module _ (o : Engine) (old : String) where
  abbrev pub Keeping : {A : Type 0} → (A → Site → Type 0) → Result String A × Site → Type 0
  Keeping = Keeps o old anything anything-Stays

  refused_with-Keeps :
      {A : Type 0} (Q : A → Site → Type 0) (text : String) (r : Result String (Unit {0}) × Site)
      → Goes o old r
      → Keeping Q (refused_with {A = A} text r)
  refused_with-Keeps Q text (ok _, v) (g, _) = g
  refused_with-Keeps Q text (err x, v) g = g

  fail_before_replacement-Keeps :
      {A : Type 0} (Q : A → Site → Type 0) (job : SelfUpdateJob) (cause : String) (w : Site)
      → Safe o old w
      → Keeping Q (fail_before_replacement {A = A} o job cause w)
  unfolding fail_before_replacement
  fail_before_replacement-Keeps {A = A} Q job cause w h =
      tagged (call o (tag job.old_image_id) w) (call-Safe o old (tag job.old_image_id) w h refl)
    where
      tagged :
          (r : Result String (Unit {0}) × Site)
          → Goes o old r
          → Keeping Q (save_refusal {A = A} o job.id (retold cause r))
      tagged (ok _, v) (g, _) =
          refused_with-Keeps Q cause _ (finish_update-Safe o old job.id cause "" false v g)
      tagged (err x, v) g =
          refused_with-Keeps Q _ _ (finish_update-Safe o old job.id _ "" false v g)

  abbrev pub Aims : Plan → Site → Type 0
  Aims p v = p.old_id ≡ old

  pub prepared-Keeps :
      (known : SelfUpdateJob × String) (w : Site)
      → Safe o old w
      → Keeping Aims (prepared o old known w)
  unfolding prepared
  prepared-Keeps (job, owner) w h =
      seen (look o old w) (Keeps-look o old anything anything-Stays old w h)
    where
      planning :
          (c : Container) (r : Result String Replacement) (v : Site)
          → Safe o old v
          → Keeping Aims (planned o old (job, owner) c r v)
      planning c (err x) v g = fail_before_replacement-Keeps Aims job x v g
      planning c (ok options) v g = (g, refl)

      seen :
          (r : Result String Container × Site)
          → Keeping (Saw o old anything anything-Stays old) r
          → Keeping Aims (checked o old (job, owner) r)
      seen (err x, v) g = fail_before_replacement-Keeps Aims job x v g
      seen (ok c, v) (g, _) = planning c _ v g

  check-Keeps : (b : Bool) (text : String) (w : Site) → Safe o old w → Goes o old (check b text w)
  check-Keeps true text w h = (h, tt)
  check-Keeps false text w h = h

  dialled-Keeps :
      (id : String) (r : Result String (Unit {0}) × Site)
      → Goes o old r
      → Goes o old (dialled o id r)
  dialled-Keeps id (ok _, v) g = g
  dialled-Keeps id (err x, v) g = reached _ (finish_update-Safe o old id x "" false v g)
    where
      reached : (r : Result String (Unit {0}) × Site) → Goes o old r → Safe o old (site_of r)
      reached (ok _, u) (k, _) = k
      reached (err y, u) k = k

  valid_worker-Keeps :
      (r : Result WorkerError (Unit {0})) (w : Site)
      → Safe o old w
      → Goes o old (valid_worker o r w)
  valid_worker-Keeps (ok _) w h = (h, tt)
  valid_worker-Keeps (err e) w h = h

  after :
      {A B : Type 0} (f : Work A) (next : A → Work B) (w : Site)
      → Keeping Nothing (f w)
      → ((a : A) (v : Site) → Safe o old v → Keeping Nothing (next a v))
      → Keeping Nothing ((f >=> next) w)
  after f next w g k =
      Keeps-then o old anything anything-Stays Nothing Nothing (f w) next g (λ a v s _. k a v s)

  claimed-Keeps :
      (id : String) (job : SelfUpdateJob) (operation : Job) (w : Site)
      → Safe o old w
      → Keeping Nothing (claimed o id job operation w)
  unfolding claimed
  claimed-Keeps id job operation w h =
      Keeps-then o old anything anything-Stays Nothing Nothing _ (λ _. give (job, operation.owner))
        (Then o old
          (valid_worker o (validate_worker operation operation.owner (o.this_container w.trace)) w)
          (λ _ v. transact o claim (on_db (claim_job (o.now v.trace) id operation.owner)) v)
          (valid_worker-Keeps (validate_worker operation operation.owner (o.this_container w.trace))
            w h)
          (λ t m.
            Keeps-transact o old anything anything-Stays claim
              (on_db (claim_job (o.now t.trace) id operation.owner)) t m refl))
        (λ _ t m _. (m, tt))

  named_update-Keeps :
      (id : String) (w : Site) → Safe o old w → Keeping Nothing (named_update o id w)
  named_update-Keeps id w h =
      after (check _ _) (λ _. ask_store o read_update (read_update_job id)) w
        (check-Keeps (len id == 24 && is_hex id) _ w h)
        (λ _ v g.
          Keeps-ask_store o old anything anything-Stays read_update (read_update_job id) v g refl)

  its_operation-Keeps :
      (id : String) (job : SelfUpdateJob) (w : Site)
      → Safe o old w
      → Keeping Nothing (its_operation o id job w)
  its_operation-Keeps id job w h =
      after (check (job.status =ₛ "updating") _ >=> λ _ v. dialled o id (call o dial v))
        (λ _. ask_store o read_job (read_operation id)) w
        (Then o old _ _ (check-Keeps (job.status =ₛ "updating") _ w h)
          (λ v g. dialled-Keeps id _ (call-Safe o old dial v g refl)))
        (λ _ v g.
          Keeps-ask_store o old anything anything-Stays read_job (read_operation id) v g refl)

  pub admitted-Keeps : (id : String) (w : Site) → Safe o old w → Keeping Nothing (admitted o id w)
  unfolding admitted
  admitted-Keeps id w h =
      after (named_update o id) (λ job. its_operation o id job >=> claimed o id job) w
        (named_update-Keeps id w h)
        (λ job v g.
          after (its_operation o id job) (claimed o id job) v (its_operation-Keeps id job v g)
            (λ operation u k. claimed-Keeps id job operation u k))
