-- ===== src/YardUpdate/Undone.antt =====
-- selfupdate/worker.go: the rollback changes no lock, and what it has seen when nothing of it failed.
-- Whether an inspection of a container in the trace had an answer that passes a test.
use nox_yard.YardUpdate.{
  Failure, Container, Call, open_store, close_store, start, force_remove, rename, drop_journal,
  swap_database, Event, asked, Engine, closed, Site, and_then, ◌>=>◌, log_event, call, look,
}
use nox_yard.YardUpdate.Checks.{is_running}
use nox_yard.YardUpdate.Worker.{
  site_of, Undo, onto, going_on, also, noting, gone_file, drop_file, swapped, restore_database,
  with_connection, reopened, restored_from, restore,
}
use nox_yard.YardUpdate.Running.{
  adopted, find_replacement, drop_replacement, restarted, restart, restore_data,
}
use nox_yard.YardUpdate.Trace.{inspects}
use nox_yard.YardUpdate.Guarding.{Stays}
use nox_yard.YardUpdate.Locked.{
  SavedLocks, IsLocked, log-IsLocked, same-IsLocked, then-IsLocked, call-IsLocked, look-IsLocked,
  wait_healthy-IsLocked,
}
use nox_yard.Store.Types.{Lock}
use nox_yard.Store.SelfUpdate.{SelfUpdate}
use nox_yard.Prelude.{
  ◌=ₛ◌, if◌then◌else◌, exists, trim_prefix, Result, err, ok, String, ◌≡◌, refl, Bool, true, false,
  ◌&&◌, ◌||◌, Option, none, some, List, [], ◌∷◌,
}

abbrev pub shown_with : (Container → Bool) → Result Failure Container → Bool
shown_with test (ok c) = test c
shown_with test (err f) = false

unfoldable pub shows : Engine → (Container → Bool) → String → List Event → Bool
shows o test id [] = false
shows o test id (e ∷ t) = (inspects id e && shown_with test (o.inspects id t)) || shows o test id t

abbrev pub is_renaming : String → String → Event → Bool
is_renaming id name (asked (rename x n) true) = x =ₛ id && n =ₛ name
is_renaming id name e = false

abbrev pub bears : String → Container → Bool
bears name c = trim_prefix c.name "/" =ₛ name

abbrev pub runs : Container → Bool
runs c = is_running c.state

-- Docker has shown the container under a name, or accepted its renaming.
unfoldable pub is_named : Engine → String → String → List Event → Bool
unfolding shows
is_named o id name t = shows o (bears name) id t || exists (is_renaming id name) t

abbrev pub site_after : List String × Site → Site
site_after (xs, w) = w

module _ (o : Engine) (locks : List Lock) (keep : List Event → Bool) (stays : Stays keep) where
  abbrev pub Same : Site → Type 0
  Same = IsLocked locks keep

  pub also-IsLocked :
      (f g : Undo) (w : Site)
      → Same (site_after (f w))
      → ((v : Site) → Same v → Same (site_after (g v)))
      → Same (site_after (also f g w))
  also-IsLocked f g w h k = going (f w) h
    where
      added :
          (xs : List String) (r : List String × Site)
          → Same (site_after r)
          → Same (site_after (onto xs r))
      added xs (ys, v) h = h

      going : (r : List String × Site) → Same (site_after r) → Same (site_after (going_on g r))
      going (xs, v) h = added xs (g v) (k v h)

  pub noting-IsLocked :
      (text : String) (r : Result String (Unit {0}) × Site)
      → Same (site_of r)
      → Same (site_after (noting text r))
  noting-IsLocked text (ok _, v) h = h
  noting-IsLocked text (err x, v) h = h

  pub if-IsLocked :
      (b : Bool) (r s : List String × Site)
      → Same (site_after r)
      → Same (site_after s)
      → Same (site_after (if b then r else s))
  if-IsLocked true r s h k = h
  if-IsLocked false r s h k = k

  pub asking :
      (text : String) (c : Call) (w : Site) → Same w → Same (site_after (noting text (call o c w)))
  asking text c w h = noting-IsLocked text (call o c w) (call-IsLocked o locks keep stays c w h)

  pub find_replacement-IsLocked :
      (old name : String) (w : Site) → Same w → Same (site_after (find_replacement o old name w))
  unfolding find_replacement
  find_replacement-IsLocked old name w h =
      if-IsLocked (w.new_id =ₛ "") _ ([], w)
        (adopting (look o name w) (look-IsLocked o locks keep stays name w h)) h
    where
      adopting :
          (r : Result String Container × Site)
          → Same (site_of r)
          → Same (site_after (adopted old r))
      adopting (err x, v) g = g
      adopting (ok c, v) g = same-IsLocked o locks keep stays v _ refl refl refl g

  pub drop_replacement-IsLocked : (w : Site) → Same w → Same (site_after (drop_replacement o w))
  unfolding drop_replacement
  drop_replacement-IsLocked w h =
      if-IsLocked (w.new_id =ₛ "") ([], w) _ h
        (asking "remove replacement" (force_remove w.new_id) w h)

  -- restore: the snapshot has the same locks.
  drop_file-IsLocked : (suffix : String) (w : Site) → Same w → Same (site_of (drop_file o suffix w))
  drop_file-IsLocked suffix w h = dropped (o.answers (drop_journal suffix) w.trace)
    where
      logged : (b : Bool) → Same (log_event (asked (drop_journal suffix) b) w)
      logged b = log-IsLocked o locks keep stays (asked (drop_journal suffix) b) w h

      either :
          (b : Bool) (x : String) (v : Site)
          → Same v
          → Same (site_of (if b then (ok tt, v) else (err x, v)))
      either true x v g = g
      either false x v g = g

      dropped : (a : Option Failure) → Same (site_of (gone_file suffix w a))
      dropped none = logged true
      dropped (some f) = either f.absent f.text _ (logged false)

  restore_database-IsLocked :
      (s : SelfUpdate) (w : Site)
      → s.db.locks ≡ locks
      → Same w
      → Same (site_of (restore_database o s w))
  unfolding restore_database
  restore_database-IsLocked s w e h =
      then-IsLocked o locks keep stays (and_then (λ _. drop_file o "-shm") (drop_file o "-wal" w))
        (λ _ v. swapped s (call o swap_database v))
        (then-IsLocked o locks keep stays (drop_file o "-wal" w) (λ _. drop_file o "-shm")
          (drop_file-IsLocked "-wal" w h) (λ _ v g. drop_file-IsLocked "-shm" v g))
        (λ _ v g. swapping _ (call-IsLocked o locks keep stays swap_database v g))
    where
      swapping :
          (r : Result String (Unit {0}) × Site) → Same (site_of r) → Same (site_of (swapped s r))
      swapping (ok _, v) g = record { current = e; saved = g.saved; kept = g.kept }
      swapping (err x, v) g = g

  restored_from-IsLocked :
      (b : Option SelfUpdate) (w : Site)
      → SavedLocks locks b
      → Same w
      → Same (site_of (restored_from o b w))
  restored_from-IsLocked none w e h = h
  restored_from-IsLocked (some s) w e h =
      then-IsLocked o locks keep stays (with_connection closed (call o close_store w))
        (λ _. restore_database o s >=> λ _ v. reopened (call o open_store v))
        (connected (call o close_store w) (call-IsLocked o locks keep stays close_store w h))
        (λ _ v g.
          then-IsLocked o locks keep stays (restore_database o s v)
            (λ _ u. reopened (call o open_store u)) (restore_database-IsLocked s v e g)
            (λ _ u k. opening _ (call-IsLocked o locks keep stays open_store u k)))
    where
      connected :
          (r : Result String (Unit {0}) × Site)
          → Same (site_of r)
          → Same (site_of (with_connection closed r))
      connected (r, v) g = same-IsLocked o locks keep stays v _ refl refl refl g

      opening :
          (r : Result String (Unit {0}) × Site) → Same (site_of r) → Same (site_of (reopened r))
      opening (ok _, v) g = same-IsLocked o locks keep stays v _ refl refl refl g
      opening (err x, v) g = same-IsLocked o locks keep stays v _ refl refl refl g

  -- The part of the rollback before the original is put back.
  pub restore_data-IsLocked : (w : Site) → Same w → Same (site_after (restore_data o w))
  unfolding restore
  restore_data-IsLocked w h =
      noting-IsLocked "restore database" _ (restored_from-IsLocked w.backup w h.saved h)

  pub restart-IsLocked :
      (old : String) (c : Container) (w : Site) → Same w → Same (site_after (restart o old c w))
  unfolding restart
  restart-IsLocked old c w h =
      if-IsLocked (is_running c.state) ([], w) _ h
        (starting (call o (start old) w) (call-IsLocked o locks keep stays (start old) w h))
    where
      starting :
          (r : Result String (Unit {0}) × Site)
          → Same (site_of r)
          → Same (site_after (restarted o old r))
      starting (err x, v) g = g
      starting (ok _, v) g =
          noting-IsLocked "original healthcheck" _
            (wait_healthy-IsLocked o locks keep stays o.polls old v g)
