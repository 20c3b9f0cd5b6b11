-- ===== src/YardUpdate/Back.antt =====
-- selfupdate/worker.go: what Docker has shown of the original when a rollback reports no failure.
use nox_yard.YardUpdate.{Failure, Container, rename, Event, asked, Engine, Site, log_event, told}
use nox_yard.YardUpdate.Worker.{Undo, onto, going_on, also, noting}
use nox_yard.YardUpdate.Running.{restore_name, is_clean}
use nox_yard.YardUpdate.Guarding.{Stays, anything, anything-Stays}
use nox_yard.YardUpdate.Locked.{IsLocked, log-IsLocked}
use nox_yard.YardUpdate.Undone.{shows, bears, runs, is_named, site_after}
use nox_yard.Store.Types.{Lock}
use nox_yard.Prelude.{
  ◌=ₛ◌, if◌then◌else◌, &&-true, trim_prefix, String, ◌≡◌, refl, sym, ◌∙◌, Bool, true, false, ◌&&◌,
  ◌||◌, not, Option, none, some, List, [], ◌∷◌, ◌++◌, arith, eq_refl,
}

module _ (o : Engine) (locks : List Lock) (old name : String) where
  -- What is known after the original `c` was looked at, and what has to be known in the end.
  abbrev pub looked_at : Bool → List Event → Bool
  looked_at running t = is_named o old name t && (not running || shows o runs old t)

  abbrev pub ahead : Bool → List Event → Bool
  ahead running t = not running || shows o runs old t

  abbrev pub is_back : List Event → Bool
  is_back t = is_named o old name t && shows o runs old t

  shows-Stays : (test : Container → Bool) → Stays (shows o test old)
  unfolding shows
  shows-Stays test e t h = ground arith

  pub is_named-Stays : Stays (is_named o old name)
  unfolding is_named shows
  is_named-Stays e t h = ground arith

  pub ahead-Stays : (b : Bool) → Stays (ahead b)
  ahead-Stays true e t h = shows-Stays runs e t h
  ahead-Stays false e t h = refl

  pub looked_at-Stays : (b : Bool) → Stays (looked_at b)
  looked_at-Stays b e t h = ground (arith, is_named-Stays e t, ahead-Stays b e t)

  pub is_back-Stays : Stays is_back
  is_back-Stays e t h = ground (arith, is_named-Stays e t, shows-Stays runs e t)

  -- A part of the rollback: its locks, and a fact if it reports no failure.
  abbrev pub Ends : (List Event → Bool) → List String × Site → Type 0
  Ends keep (xs, v) = IsLocked locks anything v × (is_clean xs ≡ true → keep v.trace ≡ true)

  pub with_fact :
      (keep : List Event → Bool) (w : Site)
      → IsLocked locks anything w
      → keep w.trace ≡ true
      → IsLocked locks keep w
  with_fact keep w h k = record { current = h.current; saved = h.saved; kept = k }

  pub without_fact :
      (keep : List Event → Bool) (w : Site) → IsLocked locks keep w → IsLocked locks anything w
  without_fact keep w h = record { current = h.current; saved = h.saved; kept = refl }

  clean-append : (xs ys : List String) → is_clean (xs ++ ys) ≡ (is_clean xs && is_clean ys)
  clean-append [] ys = refl
  clean-append (x ∷ xs) ys = refl

  pub also-Ends :
      (first keep : List Event → Bool) (f g : Undo) (w : Site)
      → Ends first (f w)
      → ((v : Site) → IsLocked locks anything v → IsLocked locks anything (site_after (g v)))
      → ((v : Site) → IsLocked locks anything v → first v.trace ≡ true → Ends keep (g v))
      → Ends keep (also f g w)
  also-Ends first keep f g w h k l = going (f w) h
    where
      added :
          (xs : List String) (r : List String × Site)
          → IsLocked locks anything (site_after r)
          → (is_clean xs ≡ true → Ends keep r)
          → Ends keep (onto xs r)
      added xs (ys, u) m n = (
        m,
        λ c.
            let (cx, cy) = &&-true (is_clean xs) (is_clean ys) (sym (clean-append xs ys) ∙ c) in
            (n cx).1 cy,
      )

      going : (r : List String × Site) → Ends first r → Ends keep (going_on g r)
      going (xs, v) (m, n) = added xs (g v) (k v m) (λ c. l v m (n c))

  -- A part after which a fact stays known, whatever it reports.
  pub kept-Ends :
      (keep : List Event → Bool) (r : List String × Site)
      → IsLocked locks keep (site_after r)
      → Ends keep r
  kept-Ends keep (xs, v) h = (without_fact keep v h, λ c. h.kept)

  pub if-Ends :
      (keep : List Event → Bool) (b : Bool) (r s : List String × Site)
      → (b ≡ true → Ends keep r)
      → (b ≡ false → Ends keep s)
      → Ends keep (if b then r else s)
  if-Ends keep true r s h k = h refl
  if-Ends keep false r s h k = k refl

  pub restore_name-Ends :
      (c : Container) (w : Site)
      → IsLocked locks anything w
      → ahead (runs c) w.trace ≡ true
      → (bears name c ≡ true → is_named o old name w.trace ≡ true)
      → Ends (looked_at (runs c)) (restore_name o old name c w)
  unfolding restore_name is_named
  restore_name-Ends c w h a n =
      if-Ends (looked_at (runs c)) (trim_prefix c.name "/" =ₛ name) ([], w) _
        (λ q. (h, λ _. rw (n q, a) refl)) (λ q. renamed (o.answers (rename old name) w.trace))
    where
      logged : (b : Bool) → IsLocked locks anything (log_event (asked (rename old name) b) w)
      logged b = log-IsLocked o locks anything anything-Stays (asked (rename old name) b) w h

      renamed :
          (r : Option Failure)
          → Ends (looked_at (runs c)) (noting "restore original name" (told (rename old name) w r))
      renamed none = (
        logged true,
        λ _.
            rw (eq_refl old, eq_refl name)
              (ground (arith, ahead-Stays (runs c) (asked (rename old name) true) w.trace a)),
      )
      renamed (some f) = (logged false, λ c. ground arith)
