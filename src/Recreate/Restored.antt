-- ===== src/Recreate/Restored.antt =====
-- recreate/worker.go: what the two loops of a rollback have done for an entry.
use nox_yard.Prelude.{
  ◌=ₛ◌, Option-cases, &&-true, is_some, get_elem?, ℕ, String, ◌≡◌, refl, sym, ap, ◌∙◌, inl, inr,
  Bool, true, false, ◌&&◌, ◌||◌, not, Option, none, some, List, [], ◌∷◌, ◌++◌, arith, eq_refl,
}
use nox_yard.Recreate.{
  Entry, Journal, Failure, not_found, timed_out, refused, remove, Event, asked, Engine, World, when,
  log_event, request, entry_at,
}
use nox_yard.Recreate.Steps.{forgiven, remove_candidate, restore_touched, restore}
use nox_yard.Recreate.Seeing.{
  Extends, Extends-same, Yields, Yields-then, one_more, seen, seen_Extends, is_ready_now,
}
use nox_yard.Recreate.Shown.{is_as_before, shown_restored, Yields-restore_touched}

module _ (o : Engine) where
  -- What the rollback must have done for the entry at a position.
  abbrev pub for_entry : (Entry → Bool) → Option Entry → Bool
  for_entry p none = true
  for_entry p (some e) = p e

  abbrev pub original_restored : List Entry → List Event → ℕ → Bool
  original_restored es t i = for_entry (λ e. not e.touched || shown_restored o t e) (get_elem? es i)

  abbrev pub is_gone : Option Failure → Bool
  is_gone none = true
  is_gone (some not_found) = true
  is_gone (some timed_out) = false
  is_gone (some refused) = false

  abbrev pub removes : String → Event → List Event → Bool
  removes id (asked (remove x) b) t = x =ₛ id && is_gone (o.answers (remove id) t)
  removes id e t = false

  -- Whether a removal was accepted, or found no container.
  unfoldable pub removed : String → List Event → Bool
  removed id [] = false
  removed id (e ∷ t) = removes id e t || removed id t

  abbrev pub candidate_removed : List Entry → List Event → ℕ → Bool
  candidate_removed es t i = for_entry (λ e. e.new_id =ₛ "" || removed e.new_id t) (get_elem? es i)

  removed_longer :
      (id : String) (es t : List Event) → removed id t ≡ true → removed id (es ++ t) ≡ true
  unfolding removed
  removed_longer id [] t h = h
  removed_longer id (e ∷ es) t h = rw (removed_longer id es t h) (ground arith)

  removed-Extends :
      (id : String) (w v : World)
      → Extends w v
      → removed id w.trace ≡ true
      → removed id v.trace ≡ true
  removed-Extends id w v g h = rw (g.longer) (removed_longer id g.added w.trace h)

  for_entry_both :
      (p q : Entry → Bool) (x : Option Entry)
      → ((e : Entry) → p e ≡ true → q e ≡ true)
      → for_entry p x ≡ true
      → for_entry q x ≡ true
  for_entry_both p q none k h = refl
  for_entry_both p q (some e) k h = k e h

  or_later : (a b c : Bool) → (b ≡ true → c ≡ true) → (a || b) ≡ true → (a || c) ≡ true
  or_later true b c k h = refl
  or_later false b c k h = k h

  pub restored_Extends :
      (es : List Entry) (i : ℕ) (w v : World)
      → Extends w v
      → original_restored es w.trace i ≡ true
      → original_restored es v.trace i ≡ true
  restored_Extends es i w v g = for_entry_both _ _ (get_elem? es i) (λ e.
      or_later (not e.touched) (shown_restored o w.trace e) (shown_restored o v.trace e) (λ h.
        let (a, b) =
          &&-true (seen o (is_ready_now o e) e.id w.trace) (seen o (is_as_before o e) e.id w.trace)
            h in
        rw
          (
            seen_Extends o (is_ready_now o e) e.id w v g a,
            seen_Extends o (is_as_before o e) e.id w v g b,
          )
          refl))

  pub gone_Extends :
      (es : List Entry) (i : ℕ) (w v : World)
      → Extends w v
      → candidate_removed es w.trace i ≡ true
      → candidate_removed es v.trace i ≡ true
  gone_Extends es i w v g = for_entry_both _ _ (get_elem? es i) (λ e.
      or_later (e.new_id =ₛ "") (removed e.new_id w.trace) (removed e.new_id v.trace)
        (removed-Extends e.new_id w v g))

  Yields-entry_at :
      (i : ℕ) (w : World)
      → Yields w (λ e v. (get_elem? w.journal.entries i ≡ some e) × (v ≡ w)) (entry_at i w)
  Yields-entry_at i w = elim (Option-cases (get_elem? w.journal.entries i)) [
    | inl q ↦ rw (q) tt
    | inr (e, q) ↦ rw (q) (Extends-same w, (refl, refl))
  ]

  pub Yields-restore :
      (j : Journal) (i : ℕ) (u : World)
      → u.journal ≡ j
      → Yields u (λ _ v. original_restored j.entries v.trace i ≡ true) (restore o i u)
  unfolding restore
  Yields-restore j i u q =
      Yields-then u (λ e v. (get_elem? u.journal.entries i ≡ some e) × (v ≡ u)) _ (entry_at i u) _
        (Yields-entry_at i u)
        (λ e v g (f, same). at_entry e v (ap (λ x. get_elem? x.entries i) (sym q) ∙ f))
    where
      at_entry :
          (e : Entry) (v : World)
          → get_elem? j.entries i ≡ some e
          → Yields v
              (λ _ x. original_restored j.entries x.trace i ≡ true)
              (when e.touched (restore_touched o e) v)
      at_entry e v f = rw (f) (touched_or_not e.touched (Yields-restore_touched o e v))
        where
          touched_or_not :
              (b : Bool)
              → Yields v (λ _ x. shown_restored o x.trace e ≡ true) (restore_touched o e v)
              → Yields v
                  (λ _ x. (not b || shown_restored o x.trace e) ≡ true)
                  (when b (restore_touched o e) v)
          touched_or_not true h = h
          touched_or_not false h = (Extends-same v, refl)

  forgiven_removes :
      (id : String) (w : World)
      → Yields w (λ _ v. removed id v.trace ≡ true) (forgiven o (request (remove id) o w))
  unfolding removed
  forgiven_removes id w = answered (o.answers (remove id) w.trace) refl
    where
      answered :
          (a : Option Failure)
          → o.answers (remove id) w.trace ≡ a
          → Yields w
              (λ _ v. removed id v.trace ≡ true)
              (forgiven o (a, log_event (asked (remove id) (not (is_some a))) w))
      answered none q = (one_more (asked (remove id) true) w, rw (eq_refl id, q) refl)
      answered (some not_found) q = (one_more (asked (remove id) false) w, rw (eq_refl id, q) refl)
      answered (some timed_out) q = tt
      answered (some refused) q = tt

  pub Yields-remove_candidate :
      (j : Journal) (i : ℕ) (u : World)
      → u.journal ≡ j
      → Yields u (λ _ v. candidate_removed j.entries v.trace i ≡ true) (remove_candidate o i u)
  unfolding remove_candidate
  Yields-remove_candidate j i u q =
      Yields-then u (λ e v. (get_elem? u.journal.entries i ≡ some e) × (v ≡ u)) _ (entry_at i u) _
        (Yields-entry_at i u)
        (λ e v g (f, same). at_entry e v (ap (λ x. get_elem? x.entries i) (sym q) ∙ f))
    where
      at_entry :
          (e : Entry) (v : World)
          → get_elem? j.entries i ≡ some e
          → Yields v
              (λ _ x. candidate_removed j.entries x.trace i ≡ true)
              (when (not (e.new_id =ₛ "")) (λ w. forgiven o (request (remove e.new_id) o w)) v)
      at_entry e v f = rw (f) (new_or_not (e.new_id =ₛ "") (forgiven_removes e.new_id v))
        where
          new_or_not :
              (b : Bool)
              → Yields v
                  (λ _ x. removed e.new_id x.trace ≡ true)
                  (forgiven o (request (remove e.new_id) o v))
              → Yields v
                  (λ _ x. (b || removed e.new_id x.trace) ≡ true)
                  (when (not b) (λ w. forgiven o (request (remove e.new_id) o w)) v)
          new_or_not true h = (Extends-same v, refl)
          new_or_not false h = h
