-- ===== src/Recreate/Verified.antt =====
-- recreate/worker.go: what Docker has shown when a recreation is recorded as verified.
use nox_yard.Recreate.{
  Entry, Failure, Call, save, retarget, finish, Event, asked, Inspection, Engine, World, Stop,
  failing, leaving, ended, Work, and_then, stopped, when, log_event, ruled, store_must, save_stage,
  each,
}
use nox_yard.Recreate.Steps.{
  look, ready, retain, replace, is_same_original, is_same_replacement, verify_entry,
}
use nox_yard.Recreate.Worker.{positions, root_of, finish_with, final_target, complete, mutate}
use nox_yard.Recreate.Seeing.{
  Extends, Extends-same, Extends-again, Yields, Nothing, Yields-then, Yields-when, one_more, seen,
  seen_Extends, Saw, Yields-look, is_ready_now, Yields-ready,
}
use nox_yard.Recreate.Shown.{Yields-each}
use nox_yard.Recreate.Restored.{for_entry}
use nox_yard.Recreate.Returning.{
  WhenEnded, GoesOn, then-WhenEnded, each-GoesOn, store_must-GoesOn, retain-GoesOn, replace-GoesOn,
  verify_entry-GoesOn,
}
use nox_yard.Prelude.{
  ◌=ₛ◌, Bool-cases, Option-cases, &&-true, is_some, get_elem?, every, backwards, ◌++ₛ◌, Result, err,
  ok, ℕ, String, ◌≡◌, refl, sym, ap, subst, inl, inr, Bool, true, false, ◌&&◌, not, Option, none,
  some, List, [], ◌∷◌, arith,
}

module _ (o : Engine) where
  -- The original out of the way, and the replacement as it was asked for.
  abbrev pub stands_aside : Entry → Inspection → Bool
  stands_aside e i =
      i.name =ₛ ("/" ++ₛ e.backup)
      && (i.has_state
          && not i.running
          && (i.image =ₛ e.image && o.is_retained i.settings e.settings))

  abbrev pub is_as_wanted : String → Entry → Inspection → Bool
  is_as_wanted root e i =
      i.image =ₛ e.target_image && (i.name =ₛ e.name && o.is_created i.settings (o.creation e root))

  -- What verify has seen for an entry.
  abbrev pub shown_verified : String → List Event → Entry → Bool
  shown_verified root t e =
      seen o (stands_aside e) e.id t
      && (seen o (is_as_wanted root e) e.new_id t && seen o (is_ready_now o e) e.new_id t)

  shown_verified-Extends :
      (root : String) (e : Entry) (w v : World)
      → Extends w v
      → shown_verified root w.trace e ≡ true
      → shown_verified root v.trace e ≡ true
  shown_verified-Extends root e w v g h = ground (
    arith,
    seen_Extends o (stands_aside e) e.id w v g,
    seen_Extends o (is_as_wanted root e) e.new_id w v g,
    seen_Extends o (is_ready_now o e) e.new_id w v g,
  )

  -- A comparison that stops the worker where it fails.
  compared :
      (test : Inspection → Bool) (id : String) (i : Inspection) (w : World)
      → Saw o id i w
      → Yields w
          (λ _ v. seen o test id v.trace ≡ true)
          (when (not (test i)) (stopped (failing false)) w)
  compared test id i w s = elim (Bool-cases (test i)) [
    | inl q ↦ rw (q) (Extends-same w, s test q)
    | inr q ↦ rw (q) tt
  ]

  ready_last :
      (root : String) (e : Entry) (w : World)
      → seen o (stands_aside e) e.id w.trace ≡ true
      → seen o (is_as_wanted root e) e.new_id w.trace ≡ true
      → Yields w (λ _ v. shown_verified root v.trace e ≡ true) (ready o o.polls e e.new_id w)
  ready_last root e w p q = collected _ (Yields-ready o o.polls e e.new_id w)
    where
      collected :
          (r : Result Stop (Unit {0}) × World)
          → Yields w (λ _ v. seen o (is_ready_now o e) e.new_id v.trace ≡ true) r
          → Yields w (λ _ v. shown_verified root v.trace e ≡ true) r
      collected (ok x, v) (g, k) = (
        g,
        rw
            (
              seen_Extends o (stands_aside e) e.id w v g p,
              seen_Extends o (is_as_wanted root e) e.new_id w v g q,
              k,
            )
            refl,
      )
      collected (err x, v) h = tt

  abbrev entry_verified : String → List Entry → ℕ → World → Bool
  entry_verified root es i v = for_entry o (shown_verified root v.trace) (get_elem? es i)

  verified_here :
      (root : String) (i : ℕ) (w : World)
      → Yields w (λ _ v. entry_verified root w.journal.entries i v ≡ true) (verify_entry o root i w)
  unfolding verify_entry
  verified_here root i w = elim (Option-cases (get_elem? w.journal.entries i)) [
    | inl q ↦ rw (q) tt
    | inr (e, q) ↦ rw (q) (
        Yields-then w Nothing _ (when (e.new_id =ₛ "") (stopped (failing false)) w) _
          (Yields-when (e.new_id =ₛ "") (stopped (failing false)) w tt)
          (λ _ v _ _.
            Yields-then v (Saw o e.id) _ (look o e.id v) _ (Yields-look o e.id v) (λ old u _ s.
              Yields-then u (λ _ t. seen o (is_same_original o e) e.id t.trace ≡ true) _
                (when (not (is_same_original o e old)) (stopped (failing false)) u) _
                (compared (is_same_original o e) e.id old u s)
                (λ _ t _ p.
                  Yields-then t (Saw o e.new_id) _ (look o e.new_id t) _ (Yields-look o e.new_id t)
                    (λ new x g s.
                      Yields-then x
                        (λ _ y. seen o (is_same_replacement o root e) e.new_id y.trace ≡ true) _
                        (when (not (is_same_replacement o root e new)) (stopped (failing false)) x)
                        _ (compared (is_same_replacement o root e) e.new_id new x s)
                        (λ _ y k q.
                          ready_last root e y
                            (seen_Extends o (is_same_original o e) e.id x y k
                              (seen_Extends o (is_same_original o e) e.id t x g p))
                            q))))))
  ]

  Yields-verify_entry :
      (root : String) (es : List Entry) (i : ℕ) (w : World)
      → w.journal.entries ≡ es
      → Yields w (λ _ v. entry_verified root es i v ≡ true) (verify_entry o root i w)
  Yields-verify_entry root es i w same =
      subst (λ z. Yields w (λ _ v. entry_verified root z i v ≡ true) (verify_entry o root i w)) same
        (verified_here root i w)

  -- The end of the main path: it keeps the journal and what was seen.
  Yields-store_must : (c : Call) (w : World) → Yields w Nothing (store_must o c w)
  Yields-store_must c w = answered (o.answers c w.trace)
    where
      answered :
          (a : Option Failure)
          → Yields w Nothing (ruled (λ f. leaving) (a, log_event (asked c (not (is_some a))) w))
      answered none = (one_more (asked c true) w, tt)
      answered (some f) = tt

  entry_Extends :
      (root : String) (es : List Entry) (i : ℕ) (w v : World)
      → Extends w v
      → entry_verified root es i w ≡ true
      → entry_verified root es i v ≡ true
  entry_Extends root es i w v g = later (get_elem? es i)
    where
      later :
          (x : Option Entry)
          → for_entry o (shown_verified root w.trace) x ≡ true
          → for_entry o (shown_verified root v.trace) x ≡ true
      later none h = refl
      later (some e) h = shown_verified-Extends root e w v g h

  -- What the end has to show, for the entries at some positions.
  abbrev all_verified : String → List ℕ → World → Bool
  all_verified root is w = every (λ i. entry_verified root w.journal.entries i w) is

  all_Extends :
      (root : String) (is : List ℕ) (w v : World)
      → Extends w v
      → all_verified root is w ≡ true
      → all_verified root is v ≡ true
  all_Extends root [] w v g h = refl
  all_Extends root (i ∷ is) w v g h =
      let (a, b) =
        &&-true (entry_verified root w.journal.entries i w)
          (every (λ k. entry_verified root w.journal.entries k w) is) h in
      subst (λ j. (entry_verified root j.entries i v && all_verified root is v) ≡ true)
        (sym g.same_journal)
        (rw (entry_Extends root w.journal.entries i w v g a, all_Extends root is w v g b) refl)

  verified_loop :
      (root : String) (is : List ℕ) (w : World)
      → Yields w (λ _ v. all_verified root is v ≡ true) (each (verify_entry o root) is w)
  verified_loop root is w = moved _ (
      Yields-each o (verify_entry o root) w.journal (entry_verified root w.journal.entries) is w
        (entry_Extends root w.journal.entries)
        (λ i u q. Yields-verify_entry root w.journal.entries i u (ap (λ j. j.entries) q)) refl)
    where
      moved :
          (r : Result Stop (Unit {0}) × World)
          → Yields w (λ _ v. every (λ i. entry_verified root w.journal.entries i v) is ≡ true) r
          → Yields w (λ _ v. all_verified root is v ≡ true) r
      moved (ok x, v) (g, h) = (
        g,
        subst (λ j. every (λ i. entry_verified root j.entries i v) is ≡ true) (sym g.same_journal)
            h,
      )
      moved (err x, v) h = tt

  ending :
      {A : Type 0} (R : World → Type 0) (Q : A → World → Type 0) (w : World)
      (r : Result Stop A × World) (next : A → Work (Unit {0}))
      → GoesOn r
      → Yields w Q r
      → ((a : A) (v : World) → Extends w v → Q a v → WhenEnded R (next a v))
      → WhenEnded R (and_then next r)
  ending R Q w (ok a, v) next h (g, q) k = k a v g q
  ending R Q w (err (failing u), v) next h y k = tt
  ending R Q w (err leaving, v) next h y k = tt
  ending R Q w (err ended, v) next h y k = absurd h

  complete-WhenEnded :
      (root : String) (is : List ℕ) (w : World)
      → all_verified root is w ≡ true
      → WhenEnded (λ v. all_verified root is v ≡ true) (complete o "verified" w)
  unfolding complete finish_with
  complete-WhenEnded root is w h = step (retarget (final_target o w.journal) []) w _ (λ v g.
      step (save "committing" v.journal) v _ (λ u k.
        step (finish "succeeded" "verified" "") u _
          (λ x l. all_Extends root is w x (Extends-again w u x (Extends-again w v u g k) l) h)))
    where
      step :
          (c : Call) (v : World) (next : Unit {0} → Work (Unit {0}))
          → ((u : World) → Extends v u → WhenEnded (λ x. all_verified root is x ≡ true) (next tt u))
          → WhenEnded (λ x. all_verified root is x ≡ true) (and_then next (store_must o c v))
      step c v next k =
          ending (λ x. all_verified root is x ≡ true) Nothing v (store_must o c v) next
            (store_must-GoesOn o c v) (Yields-store_must c v) (λ _ u g _. k u g)

  mutate-WhenEnded :
      (w : World)
      → WhenEnded
          (λ v. all_verified (root_of w.journal) (positions 0 w.journal.entries) v ≡ true)
          (mutate o w)
  unfolding mutate
  mutate-WhenEnded w =
      let root = root_of w.journal in
      let is = positions 0 w.journal.entries in
      let R = λ (v : World). all_verified root is v ≡ true in
      then-WhenEnded R (save_stage o "replacing" _) _ (store_must-GoesOn o _ _) (λ _ v.
        then-WhenEnded R (each (retain o) (backwards w.journal.order) v) _
          (each-GoesOn (retain o) (backwards w.journal.order) v (retain-GoesOn o))
          (λ _ u.
            then-WhenEnded R (each (replace o root) w.journal.order u) _
              (each-GoesOn (replace o root) w.journal.order u (replace-GoesOn o root))
              (λ _ t.
                then-WhenEnded R (save_stage o "verifying" t) _ (store_must-GoesOn o _ t) (λ _ x.
                  ending R (λ _ y. all_verified root is y ≡ true) x
                    (each (verify_entry o root) is x) _
                    (each-GoesOn (verify_entry o root) is x (verify_entry-GoesOn o root))
                    (verified_loop root is x) (λ _ y _ q. complete-WhenEnded root is y q)))))

at_end :
    {A : Type 0} (R : World → Type 0) (r : Result Stop A × World)
    → WhenEnded R r
    → r.0 ≡ err ended
    → R r.1
at_end R (ok a, w) h e = absurd (cc e)
at_end R (err (failing u), w) h e = absurd (cc e)
at_end R (err leaving, w) h e = absurd (cc e)
at_end R (err ended, w) h e = h

-- Whatever Docker, the store and the clock answer: when the part of execute that replaces containers
-- ends in an accepted FinishJob, then for every entry of the journal Docker has shown
-- the original under its backup name, stopped, with its image and settings; the replacement with its
-- name, the wanted image and the settings of creation; and the replacement in a state that `ready`
-- accepts.
pub verified_was_shown :
    (o : Engine) (w : World)
    → (mutate o w).0 ≡ err ended
    → every
        (λ i.
          for_entry o
            (shown_verified o (root_of w.journal) (mutate o w).1.trace)
            (get_elem? (mutate o w).1.journal.entries i))
        (positions 0 w.journal.entries)
      ≡ true
verified_was_shown o w e = at_end _ (mutate o w) (mutate-WhenEnded o w) e
