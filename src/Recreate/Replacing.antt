-- ===== src/Recreate/Replacing.antt =====
-- recreate/worker.go: stopping the originals and starting the replacements keeps the state sound.
use nox_yard.Recreate.Steps.{retain}
use nox_yard.Prelude.{
  ◌=ₛ◌, &&-true, is_some, get_elem?, exists, every, ℕ, zero, suc, String, ◌≡◌, refl, sym, subst,
  Bool, true, ◌&&◌, ◌||◌, not, Option, none, some, List, [], ◌∷◌, arith, eq_refl,
}
use nox_yard.Recreate.{
  Entry, Failure, save, stop, rename, disconnect, Event, asked, Engine, World, leaving, ◌>=>◌, when,
  log_event, ruled, must, entry_at, set_at, save_stage, each,
}
use nox_yard.Recreate.Trace.{is_journaled, is_known, IsSound, Grew, log-Grew, log-safe, log-IsSound}
use nox_yard.Recreate.Keeping.{
  Meets, Always, Meets-then, Meets-when, plain-Fits, mutating-Fits, Meets-must, Meets-store_must,
  Meets-each, Found, Meets-entry_at,
}

pub every-set_at :
    (p : Entry → Bool) (i : ℕ) (f : Entry → Entry) (es : List Entry)
    → every p es ≡ true
    → ((e : Entry) → get_elem? es i ≡ some e → p e ≡ true → p (f e) ≡ true)
    → every p (set_at i f es) ≡ true
every-set_at p i f [] h k = refl
every-set_at p zero f (e ∷ es) h k =
    let (a, b) = &&-true (p e) (every p es) h in rw (k e refl a, b) refl
every-set_at p (suc i) f (e ∷ es) h k =
    let (a, b) = &&-true (p e) (every p es) h in rw (a, every-set_at p i f es b k) refl

some_same : (x e : Entry) → some x ≡ some e → x ≡ e
some_same x e h = cc

exists-set_at :
    (p : Entry → Bool) (i : ℕ) (f : Entry → Entry) (es : List Entry) (e : Entry)
    → get_elem? es i ≡ some e
    → p (f e) ≡ true
    → exists p (set_at i f es) ≡ true
exists-set_at p i f [] e h k = cc
exists-set_at p zero f (x ∷ es) e h k =
    subst (λ y. (p (f y) || exists p es) ≡ true) (sym (some_same x e h)) (rw (k) refl)
exists-set_at p (suc i) f (x ∷ es) e h k = rw (exists-set_at p i f es e h k) (ground arith)

-- An entry of a sound state is known.
pub entry_known :
    (t : List Event) (es : List Entry) (i : ℕ) (e : Entry)
    → every (is_known t) es ≡ true
    → get_elem? es i ≡ some e
    → is_known t e ≡ true
entry_known t [] i e h q = cc
entry_known t (x ∷ es) zero e h q =
    subst (λ y. is_known t y ≡ true) (some_same x e q)
      (&&-true (is_known t x) (every (is_known t) es) h).0
entry_known t (x ∷ es) (suc i) e h q =
    entry_known t es i e (&&-true (is_known t x) (every (is_known t) es) h).1 q

abbrev touch : Entry → Entry
touch x = record x { touched = true }

abbrev Journaled : String → {A : Type 0} → A → World → Type 0
Journaled id a w = is_journaled id w.trace ≡ true

module _ (o : Engine) where
  pub Meets-save_stage :
      (stage : String) (w : World) → IsSound w → Meets w Always (save_stage o stage w)
  Meets-save_stage stage w h =
      Meets-store_must o (save stage w.journal) w (plain-Fits _ w refl refl refl) h

  -- The touched entry is recorded before anything is done to its container.
  abbrev touched_world : ℕ → World → World
  touched_world i w = record w {
    journal = record w.journal { entries = set_at i touch w.journal.entries };
  }

  touched_journaled :
      (i : ℕ) (e : Entry) (w : World)
      → get_elem? w.journal.entries i ≡ some e
      → is_journaled e.id (asked (save "replacing" (touched_world i w).journal) true ∷ w.trace)
        ≡ true
  unfolding is_journaled
  touched_journaled i e w q =
      rw
        (exists-set_at (λ x. x.touched && x.id =ₛ e.id) i touch w.journal.entries e q
          (eq_refl e.id))
        refl

  touched_known :
      (i : ℕ) (e : Entry) (w : World)
      → IsSound w
      → get_elem? w.journal.entries i ≡ some e
      → let v = touched_world i w in
        every (is_known (asked (save "replacing" v.journal) true ∷ w.trace)) v.journal.entries
        ≡ true
  touched_known i e w h q =
      every-set_at (is_known _) i touch w.journal.entries
        (log-IsSound (asked (save "replacing" (touched_world i w).journal) true) w h refl refl
          (ground arith)).known
        (λ x k l. ground (arith, touched_journaled i x w k))

  save_touched :
      (i : ℕ) (e : Entry) (w : World)
      → IsSound w
      → get_elem? w.journal.entries i ≡ some e
      → Meets w (Journaled e.id) (save_stage o "replacing" (touched_world i w))
  save_touched i e w h q =
      answered (o.answers (save "replacing" (touched_world i w).journal) w.trace)
    where
      saved : Event
      saved = asked (save "replacing" (touched_world i w).journal) true

      saved_touched : IsSound (log_event saved (touched_world i w))
      saved_touched =
          let k = log-IsSound saved w h refl refl (ground arith) in
          record {
            safe = k.safe;
            unfinished = k.unfinished;
            known = touched_known i e w h q;
            clean = k.clean;
          }

      saved_grew : Grew w (log_event saved (touched_world i w))
      saved_grew =
          let g = log-Grew saved w in
          record {
            still_new = g.still_new;
            still_journaled = g.still_journaled;
            still_mutated = g.still_mutated;
          }

      answered :
          (a : Option Failure)
          → Meets w (Journaled e.id) (
              ruled
                (λ f. leaving)
                (
                  a,
                  log_event
                      (asked (save "replacing" (touched_world i w).journal) (not (is_some a)))
                      (touched_world i w),
                ))
      answered none = (saved_touched, saved_grew, touched_journaled i e w q)
      answered (some f) = log-safe _ w h refl

  -- What holds while the original's container is being changed.
  pub record Keeping (id : String) (w : World) : Type 0 where
    pub in_journal : is_journaled id w.trace ≡ true
    pub may_change : w.journal.mutated ≡ true

  pub Keeping-later : (id : String) (u v : World) → Grew u v → Keeping id u → Keeping id v
  Keeping-later id u v g k = record {
    in_journal = g.still_journaled id k.in_journal;
    may_change = g.still_mutated k.may_change;
  }

  keep_networks :
      (id : String) (names : List String) (w : World)
      → IsSound w
      → Keeping id w
      → Meets w Always
          (each (λ name. when (not (name =ₛ "none")) (must o (disconnect name id))) names w)
  keep_networks id names w h k =
      Meets-each (Keeping id) (λ name. when (not (name =ₛ "none")) (must o (disconnect name id)))
        names w (Keeping-later id)
        (λ name v i l. Meets-when (not (name =ₛ "none")) (must o (disconnect name id)) v i (λ _.
          Meets-must o (disconnect name id) v
            (mutating-Fits (disconnect name id) v l.in_journal refl l.may_change) i))
        h k

  pub Meets-retain :
      (i : ℕ) (w : World) → IsSound w → w.journal.mutated ≡ true → Meets w Always (retain o i w)
  unfolding retain
  Meets-retain i w h m =
      Meets-then w (Found i) Always (entry_at i w) _ (Meets-entry_at i w h) (λ e v j g f.
        Meets-then v (Journaled e.id) Always (save_stage o "replacing" (touched_world i v)) _
          (save_touched i e v j f)
          (λ _ u k l n.
            after_save e u k
              (record { in_journal = n; may_change = l.still_mutated (g.still_mutated m) })))
    where
      after_save :
          (e : Entry) (u : World)
          → IsSound u
          → Keeping e.id u
          → Meets u Always (
              (when e.running (must o (stop e.id)) >=> λ _. must o (rename e.id e.backup) >=> λ _.
              each (λ name. when (not (name =ₛ "none")) (must o (disconnect name e.id))) e.networks)
                u)
      after_save e u k n =
          Meets-then u Always Always (when e.running (must o (stop e.id)) u) _
            (Meets-when e.running (must o (stop e.id)) u k (λ _.
              Meets-must o (stop e.id) u
                (mutating-Fits (stop e.id) u n.in_journal refl n.may_change) k))
            (λ _ v j g _.
              let n1 = Keeping-later e.id u v g n in
              Meets-then v Always Always (must o (rename e.id e.backup) v) _
                (Meets-must o (rename e.id e.backup) v
                  (mutating-Fits (rename e.id e.backup) v n1.in_journal refl n1.may_change) j)
                (λ _ x i g2 _. keep_networks e.id e.networks x i (Keeping-later e.id v x g2 n1)))
