-- ===== src/Recreate/Restoring.antt =====
-- recreate/worker.go: the rollback keeps the state sound.
use nox_yard.Prelude.{
  ◌=ₛ◌, Bool-cases, is_some, backwards, ◌++ₛ◌, trim_prefix, ℕ, ◌≡◌, refl, inl, inr, Bool, true,
  false, ◌&&◌, ◌||◌, not, Option, none, some, List, [], arith,
}
use nox_yard.Recreate.{
  Entry, Failure, not_found, timed_out, refused, Call, retarget, start, remove, rename, connect,
  Event, asked, Inspection, Engine, World, failing, ◌>=>◌, stopped, when, log_event, must, entry_at,
  each,
}
use nox_yard.Recreate.Steps.{
  is_text_in, look, ready, forgiven, remove_candidate, restore_name, restore_touched, restore,
  rollback,
}
use nox_yard.Recreate.Trace.{is_journaled, is_new, is_known, IsSound, log-Grew}
use nox_yard.Recreate.Keeping.{
  Meets, Always, Meets-then, Meets-done, Meets-when, Fits, plain-Fits, mutating-Fits, asked-IsSound,
  Meets-must, Meets-each, Found, Meets-entry_at,
}
use nox_yard.Recreate.Replacing.{entry_known, Keeping, Keeping-later}
use nox_yard.Recreate.Starting.{Meets-look, Meets-ready}

pub Meets-guard :
    (b : Bool) (w : World) → IsSound w → Meets w Always (when b (stopped (failing false)) w)
Meets-guard b w h = Meets-when b (stopped (failing false)) w h (λ _. h)

known_new :
    (t : List Event) (e : Entry)
    → is_known t e ≡ true
    → (e.new_id =ₛ "") ≡ false
    → is_new e.new_id t ≡ true
known_new t e h q = ground arith

known_touched :
    (t : List Event) (e : Entry)
    → is_known t e ≡ true
    → e.touched ≡ true
    → is_journaled e.id t ≡ true
known_touched t e h q = ground arith

abbrev pub IsMutated : World → Type 0
IsMutated w = w.journal.mutated ≡ true

module _ (o : Engine) where
  forgiven-Meets :
      (c : Call) (w : World) (a : Option Failure)
      → Fits c w
      → IsSound w
      → Meets w Always (forgiven o (a, log_event (asked c (not (is_some a))) w))
  forgiven-Meets c w none f h = (asked-IsSound c true w f h, log-Grew (asked c true) w, tt)
  forgiven-Meets c w (some not_found) f h =
      (asked-IsSound c false w f h, log-Grew (asked c false) w, tt)
  forgiven-Meets c w (some timed_out) f h = asked-IsSound c false w f h
  forgiven-Meets c w (some refused) f h = asked-IsSound c false w f h

  Meets-remove_candidate :
      (i : ℕ) (w : World)
      → IsSound w
      → w.journal.mutated ≡ true
      → Meets w Always (remove_candidate o i w)
  unfolding remove_candidate
  Meets-remove_candidate i w h m =
      Meets-then w (Found i) Always (entry_at i w) _ (Meets-entry_at i w h) (λ e v j g f.
        elim (Bool-cases (e.new_id =ₛ "")) [
          | inl q ↦ rw (q) (Meets-done v j)
          | inr q ↦ rw (q) (
              forgiven-Meets (remove e.new_id) v (o.answers (remove e.new_id) v.trace)
                (mutating-Fits (remove e.new_id) v
                  (known_new v.trace e (entry_known v.trace v.journal.entries i e j.known f) q) refl
                  (g.still_mutated m))
                j)
        ])

  Meets-restore_name :
      (e : Entry) (i : Inspection) (w : World)
      → IsSound w
      → Keeping o e.id w
      → Meets w Always (restore_name o e i w)
  unfolding restore_name
  Meets-restore_name e i w h k = Meets-when (not (i.name =ₛ e.name)) _ w h (λ _.
      Meets-then w Always Always
        (when (not (i.name =ₛ ("/" ++ₛ e.backup))) (stopped (failing false)) w) _
        (Meets-guard (not (i.name =ₛ ("/" ++ₛ e.backup))) w h)
        (λ _ v j g _.
          let l = Keeping-later o e.id w v g k in
          Meets-must o (rename e.id (trim_prefix e.name "/")) v
            (mutating-Fits (rename e.id (trim_prefix e.name "/")) v l.in_journal refl l.may_change)
            j))

  reconnect-Meets :
      (e : Entry) (i : Inspection) (w : World)
      → IsSound w
      → Keeping o e.id w
      → Meets w Always (
          each
            (λ name. when (not (is_text_in name i.networks)) (must o (connect name e.id)))
            e.networks
            w)
  reconnect-Meets e i w h k =
      Meets-each (Keeping o e.id)
        (λ name. when (not (is_text_in name i.networks)) (must o (connect name e.id))) e.networks w
        (Keeping-later o e.id)
        (λ name v j l.
          Meets-when (not (is_text_in name i.networks)) (must o (connect name e.id)) v j (λ _.
            Meets-must o (connect name e.id) v
              (mutating-Fits (connect name e.id) v l.in_journal refl l.may_change) j))
        h k

  restart-Meets :
      (e : Entry) (i : Inspection) (w : World)
      → IsSound w
      → Keeping o e.id w
      → Meets w Always (when (e.running && not i.running) (must o (start e.id)) w)
  restart-Meets e i w h k = Meets-when (e.running && not i.running) (must o (start e.id)) w h (λ _.
      Meets-must o (start e.id) w
        (mutating-Fits (start e.id) w
          (either_way (is_new e.id w.trace) (is_journaled e.id w.trace) k.in_journal) refl
          k.may_change)
        h)
    where
      either_way : (a b : Bool) → b ≡ true → (a || b) ≡ true
      either_way a b q = ground arith

  Meets-restore_touched :
      (e : Entry) (w : World)
      → IsSound w
      → Keeping o e.id w
      → Meets w Always (restore_touched o e w)
  unfolding restore_touched
  Meets-restore_touched e w h k =
      Meets-then w Always Always (look o e.id w) _ (Meets-look o e.id w h) (λ i v j g _.
        let k = Keeping-later o e.id w v g k in
        Meets-then v Always Always (restore_name o e i v) _ (Meets-restore_name e i v j k)
          (λ _ u j g _.
            let k = Keeping-later o e.id v u g k in
            Meets-then u Always Always
              (each (λ name. when (not (is_text_in name i.networks)) (must o (connect name e.id)))
                e.networks u)
              _ (reconnect-Meets e i u j k)
              (λ _ x j g _.
                let k = Keeping-later o e.id u x g k in
                Meets-then x Always Always
                  (when (e.running && not i.running) (must o (start e.id)) x) _
                  (restart-Meets e i x j k) (λ _ y j g _. checked e i y j))))
    where
      checked :
          (e : Entry) (i : Inspection) (y : World)
          → IsSound y
          → Meets y Always (
              (when (not e.running && i.running) (stopped (failing false)) >=> λ _.
              ready o o.polls e e.id >=> λ _. look o e.id >=> λ a.
              when
                (not (a.image =ₛ e.image && o.is_restored a.settings e.settings))
                (stopped (failing false)))
                y)
      checked e i y j =
          Meets-then y Always Always (when (not e.running && i.running) (stopped (failing false)) y)
            _ (Meets-guard (not e.running && i.running) y j)
            (λ _ z j _ _.
              Meets-then z Always Always (ready o o.polls e e.id z) _
                (Meets-ready o o.polls e e.id z j)
                (λ _ u j _ _.
                  Meets-then u Always Always (look o e.id u) _ (Meets-look o e.id u j) (λ a v j _ _.
                    Meets-guard (not (a.image =ₛ e.image && o.is_restored a.settings e.settings)) v
                      j)))

  Meets-restore :
      (i : ℕ) (w : World) → IsSound w → w.journal.mutated ≡ true → Meets w Always (restore o i w)
  unfolding restore
  Meets-restore i w h m =
      Meets-then w (Found i) Always (entry_at i w) _ (Meets-entry_at i w h) (λ e v j g f.
        Meets-when e.touched (restore_touched o e) v j (λ q. Meets-restore_touched e v j (record {
          in_journal =
              known_touched v.trace e (entry_known v.trace v.journal.entries i e j.known f) q;
          may_change = g.still_mutated m;
        })))

  pub Meets-rollback : (w : World) → IsSound w → IsMutated w → Meets w Always (rollback o w)
  unfolding rollback
  Meets-rollback w h m =
      Meets-then w Always Always (each (remove_candidate o) (backwards w.journal.order) w) _
        (Meets-each IsMutated (remove_candidate o) (backwards w.journal.order) w
          (λ u v g. g.still_mutated) Meets-remove_candidate h m)
        (λ _ v j g _.
          Meets-then v Always Always (each (restore o) w.journal.order v) _
            (Meets-each IsMutated (restore o) w.journal.order v (λ u v g. g.still_mutated)
              Meets-restore j (g.still_mutated m))
            (λ _ u k _ _.
              Meets-must o (retarget w.journal.request_id []) u
                (plain-Fits (retarget w.journal.request_id []) u refl refl refl) k))
