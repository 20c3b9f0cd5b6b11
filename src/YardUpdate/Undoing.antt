-- ===== src/YardUpdate/Undoing.antt =====
-- selfupdate/worker.go: the rollback and what surrounds it keep a trace guarded.
use nox_yard.YardUpdate.{
  Failure, Container, Call, open_store, close_store, finish, start, force_remove, tag, rename,
  drop_journal, swap_database, asked, Engine, closed, Site, Work, and_then, log_event, call, look,
}
use nox_yard.YardUpdate.Checks.{is_running}
use nox_yard.YardUpdate.Worker.{
  finish_update, Undo, onto, going_on, also, noting, gone_file, drop_file, swapped,
  restore_database, with_connection, reopened, restored_from, restore,
}
use nox_yard.YardUpdate.Running.{
  adopted, find_replacement, drop_replacement, restore_name, restarted, restart, tag_again,
  put_back, put_back_shown, restore_original, restore_data, rollback,
}
use nox_yard.YardUpdate.Trace.{is_allowed}
use nox_yard.YardUpdate.Guarding.{
  IsGuarded, anything, anything-Stays, Nothing, Keeps, log-IsGuarded, Keeps-then, Keeps-call,
  Keeps-transact, Saw, Keeps-look, Healthy, Keeps-wait_healthy, same-IsGuarded,
}
use nox_yard.Store.SelfUpdate.{SelfUpdate, finish_self_update_outcome}
use nox_yard.Prelude.{
  ◌=ₛ◌, if◌then◌else◌, Bool-cases, trim_prefix, Result, err, ok, String, ◌≡◌, refl, inl, inr, Bool,
  true, false, Option, none, some, List, [],
}

module _ (o : Engine) (old : String) where
  abbrev pub Safe : Site → Type 0
  Safe w = IsGuarded o old anything w

  abbrev pub Goes : Result String (Unit {0}) × Site → Type 0
  Goes = Keeps o old anything anything-Stays Nothing

  abbrev pub Then :
      (r : Result String (Unit {0}) × Site) (next : Unit {0} → Work (Unit {0}))
      → Goes r
      → ((v : Site) → Safe v → Goes (next tt v))
      → Goes (and_then next r)
  Then r next h k =
      Keeps-then o old anything anything-Stays Nothing Nothing r next h (λ _ v g _. k v g)

  pub call-Safe :
      (c : Call) (w : Site) → Safe w → is_allowed o old c w.trace ≡ true → Goes (call o c w)
  call-Safe c w h p = Keeps-call o old anything anything-Stays c w h p

  pub finish_update-Safe :
      (id message undone : String) (recovery : Bool) (w : Site)
      → Safe w
      → Goes (finish_update o id "failed" message recovery undone w)
  finish_update-Safe id message undone recovery w h =
      Keeps-transact o old anything anything-Stays (finish "failed" recovery)
        (finish_self_update_outcome (o.now w.trace) id "failed" message recovery undone) w h refl

  -- A step of the rollback.
  abbrev pub Undoes : List String × Site → Type 0
  Undoes (xs, v) = Safe v

  onto-Undoes : (xs : List String) (r : List String × Site) → Undoes r → Undoes (onto xs r)
  onto-Undoes xs (ys, v) h = h

  also-Undoes :
      (f g : Undo) (w : Site)
      → Undoes (f w)
      → ((v : Site) → Safe v → Undoes (g v))
      → Undoes (also f g w)
  also-Undoes f g w h k = going (f w) h
    where
      going : (r : List String × Site) → Undoes r → Undoes (going_on g r)
      going (xs, v) h = onto-Undoes xs (g v) (k v h)

  noting-Undoes :
      (text : String) (r : Result String (Unit {0}) × Site) → Goes r → Undoes (noting text r)
  noting-Undoes text (ok _, v) (h, _) = h
  noting-Undoes text (err x, v) h = h

  if-Undoes :
      (b : Bool) (r s : List String × Site) → Undoes r → Undoes s → Undoes (if b then r else s)
  if-Undoes true r s h k = h
  if-Undoes false r s h k = k

  adopted-Safe :
      (c : Container) (v : Site)
      → Safe v
      → Safe (record v { new_id = if c.id =ₛ old then v.new_id else c.id })
  adopted-Safe c v h = record {
    guarded = h.guarded;
    other = elim (Bool-cases (c.id =ₛ old)) [ inl q ↦ rw (q) h.other | inr q ↦ rw (q) q ];
    kept = refl;
  }

  find_replacement-Undoes :
      (name : String) (w : Site) → Safe w → Undoes (find_replacement o old name w)
  unfolding find_replacement
  find_replacement-Undoes name w h =
      if-Undoes (w.new_id =ₛ "") _ ([], w)
        (adopting (look o name w) (Keeps-look o old anything anything-Stays name w h)) h
    where
      adopting :
          (r : Result String Container × Site)
          → Keeps o old anything anything-Stays (Saw o old anything anything-Stays name) r
          → Undoes (adopted old r)
      adopting (err x, v) g = g
      adopting (ok c, v) (g, _) = adopted-Safe c v g

  drop_replacement-Undoes : (w : Site) → Safe w → Undoes (drop_replacement o w)
  unfolding drop_replacement
  drop_replacement-Undoes w h =
      if-Undoes (w.new_id =ₛ "") ([], w) _ h
        (noting-Undoes _ _ (call-Safe (force_remove w.new_id) w h (rw (h.other) refl)))

  restore_name-Undoes :
      (name : String) (c : Container) (w : Site) → Safe w → Undoes (restore_name o old name c w)
  unfolding restore_name
  restore_name-Undoes name c w h =
      if-Undoes (trim_prefix c.name "/" =ₛ name) ([], w) _ h
        (noting-Undoes _ _ (call-Safe (rename old name) w h refl))

  restart-Undoes : (c : Container) (w : Site) → Safe w → Undoes (restart o old c w)
  unfolding restart
  restart-Undoes c w h =
      if-Undoes (is_running c.state) ([], w) _ h
        (starting (call o (start old) w) (call-Safe (start old) w h refl))
    where
      forget :
          (r : Result String (Unit {0}) × Site)
          → Keeps o old anything anything-Stays (Healthy o old anything anything-Stays old) r
          → Goes r
      forget (ok _, v) (g, _) = (g, tt)
      forget (err x, v) g = g

      starting : (r : Result String (Unit {0}) × Site) → Goes r → Undoes (restarted o old r)
      starting (err x, v) g = g
      starting (ok _, v) (g, _) =
          noting-Undoes _ _
            (forget _ (Keeps-wait_healthy o old anything anything-Stays o.polls old v g))

  restore_original-Undoes :
      (name : String) (w : Site) → Safe w → Undoes (restore_original o old name w)
  unfolding restore_original put_back
  restore_original-Undoes name w h =
      shown (look o old w) (Keeps-look o old anything anything-Stays old w h)
    where
      shown :
          (r : Result String Container × Site)
          → Keeps o old anything anything-Stays (Saw o old anything anything-Stays old) r
          → Undoes (put_back_shown o old name r)
      shown (err x, v) g = g
      shown (ok c, v) (g, _) =
          also-Undoes (restore_name o old name c) (also (tag_again o c) (restart o old c)) v
            (restore_name-Undoes name c v g)
            (λ u k.
              also-Undoes (tag_again o c) (restart o old c) u
                (noting-Undoes _ _ (call-Safe (tag c.image) u k refl))
                (λ t m. restart-Undoes c t m))

  drop_file-Goes : (suffix : String) (w : Site) → Safe w → Goes (drop_file o suffix w)
  drop_file-Goes suffix w h = dropped (o.answers (drop_journal suffix) w.trace)
    where
      logged : (b : Bool) → Safe (log_event (asked (drop_journal suffix) b) w)
      logged b =
          log-IsGuarded o old anything anything-Stays (asked (drop_journal suffix) b) w h refl

      either :
          (b : Bool) (x : String) (v : Site) → Safe v → Goes (if b then (ok tt, v) else (err x, v))
      either true x v g = (g, tt)
      either false x v g = g

      dropped : (a : Option Failure) → Goes (gone_file suffix w a)
      dropped none = (logged true, tt)
      dropped (some f) = either f.absent f.text _ (logged false)

  -- Steps that change what is neither the trace nor the variable `newID`.
  restored_from-Goes : (b : Option SelfUpdate) (w : Site) → Safe w → Goes (restored_from o b w)
  unfolding restore_database
  restored_from-Goes none w h = (h, tt)
  restored_from-Goes (some s) w h = Then _ _ (connected _ (call-Safe close_store w h refl)) (λ v g.
      Then _ _
        (Then _ _ (Then _ _ (drop_file-Goes "-wal" v g) (λ u k. drop_file-Goes "-shm" u k))
          (λ u k. swapped-Goes _ (call-Safe swap_database u k refl)))
        (λ u k. reopened-Goes _ (call-Safe open_store u k refl)))
    where
      moved : (v u : Site) → u.trace ≡ v.trace → u.new_id ≡ v.new_id → Safe v → Safe u
      moved v u t n g = same-IsGuarded o old anything anything-Stays v u t n g

      connected : (r : Result String (Unit {0}) × Site) → Goes r → Goes (with_connection closed r)
      connected (ok _, v) (g, _) = (moved v _ refl refl g, tt)
      connected (err x, v) g = moved v _ refl refl g

      swapped-Goes : (r : Result String (Unit {0}) × Site) → Goes r → Goes (swapped s r)
      swapped-Goes (ok _, v) (g, _) = (moved v _ refl refl g, tt)
      swapped-Goes (err x, v) g = g

      reopened-Goes : (r : Result String (Unit {0}) × Site) → Goes r → Goes (reopened r)
      reopened-Goes (ok _, v) (g, _) = (moved v _ refl refl g, tt)
      reopened-Goes (err x, v) g = moved v _ refl refl g

  pub rollback-Undoes : (name : String) (w : Site) → Safe w → Undoes (rollback o old name w)
  unfolding rollback restore
  rollback-Undoes name w h =
      also-Undoes (find_replacement o old name) (also (drop_replacement o) last) w
        (find_replacement-Undoes name w h)
        (λ v g. also-Undoes (drop_replacement o) last v (drop_replacement-Undoes v g) (λ u k.
          also-Undoes (restore_data o) (restore_original o old name) u
            (noting-Undoes _ _ (restored_from-Goes u.backup u k))
            (λ t m. restore_original-Undoes name t m)))
    where
      last : Undo
      last = also (restore_data o) (restore_original o old name)
