-- ===== src/Recreate/Shown.antt =====
-- recreate/worker.go: what Docker has shown of an original that was restored.
use nox_yard.Prelude.{
  ◌=ₛ◌, every, ◌++ₛ◌, trim_prefix, Result, err, ok, String, ◌≡◌, refl, ◌∙◌, Bool, true, false, ◌&&◌,
  not, List, [], ◌∷◌,
}
use nox_yard.Recreate.{
  Entry, Journal, start, rename, connect, Event, Inspection, Engine, World, Stop, failing, Work,
  ◌>=>◌, stopped, when, must, each,
}
use nox_yard.Recreate.Steps.{is_text_in, look, ready, restore_name, restore_touched}
use nox_yard.Recreate.Seeing.{
  Extends, Extends-same, Yields, Nothing, Yields-then, Yields-when, Yields-must, seen, seen_Extends,
  Saw, Yields-look, is_ready_now, Yields-ready,
}

module _ (o : Engine) where
  pub Yields-each :
      {A : Type 0} (f : A → Work (Unit {0})) (j : Journal) (R : A → World → Bool) (xs : List A)
      (w : World)
      → ((a : A) (u v : World) → Extends u v → R a u ≡ true → R a v ≡ true)
      → ((a : A) (u : World) → u.journal ≡ j → Yields u (λ _ v. R a v ≡ true) (f a u))
      → w.journal ≡ j
      → Yields w (λ _ v. every (λ a. R a v) xs ≡ true) (each f xs w)
  Yields-each f j R [] w g k q = (Extends-same w, refl)
  Yields-each f j R (a ∷ rest) w g k q =
      Yields-then w (λ _ v. R a v ≡ true) _ (f a w) (λ _. each f rest) (k a w q)
        (λ _ v i p.
          Yields-after (each f rest v) p (Yields-each f j R rest v g k (i.same_journal ∙ q)))
    where
      Yields-after :
          {v : World} (r : Result Stop (Unit {0}) × World)
          → R a v ≡ true
          → Yields v (λ _ u. every (λ b. R b u) rest ≡ true) r
          → Yields v (λ _ u. every (λ b. R b u) (a ∷ rest) ≡ true) r
      Yields-after {v} (ok x, u) q (i, p) = (i, rw (g a v u i q, p) refl)
      Yields-after {v} (err x, u) q h = tt

  Yields-any :
      (w : World) (f : String → Work (Unit {0})) (xs : List String)
      → ((a : String) (u : World) → Yields u Nothing (f a u))
      → Yields w Nothing (each f xs w)
  Yields-any w f [] k = (Extends-same w, tt)
  Yields-any w f (a ∷ rest) k =
      Yields-then w Nothing Nothing (f a w) (λ _. each f rest) (k a w)
        (λ _ v i q. Yields-any v f rest k)

  abbrev pub is_as_before : Entry → Inspection → Bool
  is_as_before e a = a.image =ₛ e.image && o.is_restored a.settings e.settings

  -- Docker showed the original ready, and with its image and settings.
  abbrev pub shown_restored : List Event → Entry → Bool
  shown_restored t e = seen o (is_ready_now o e) e.id t && seen o (is_as_before e) e.id t

  last_look :
      (e : Entry) (w : World)
      → Yields w
          (λ _ v. seen o (is_as_before e) e.id v.trace ≡ true)
          ((look o e.id >=> λ a. when (not (is_as_before e a)) (stopped (failing false))) w)
  last_look e w =
      Yields-then w (Saw o e.id) _ (look o e.id w) _ (Yields-look o e.id w)
        (λ a v g s. looked a v s (is_as_before e a) refl)
    where
      looked :
          (a : Inspection) (v : World)
          → Saw o e.id a v
          → (b : Bool) → is_as_before e a ≡ b
          → Yields v
              (λ _ u. seen o (is_as_before e) e.id u.trace ≡ true)
              (when (not b) (stopped (failing false)) v)
      looked a v s true q = (Extends-same v, s (is_as_before e) q)
      looked a v s false q = tt

  restored_last :
      (e : Entry) (w : World)
      → Yields w
          (λ _ v. shown_restored v.trace e ≡ true)
          ((ready o o.polls e e.id >=> λ _.
              look o e.id >=> λ a. when (not (is_as_before e a)) (stopped (failing false)))
            w)
  restored_last e w =
      Yields-then w (λ _ v. seen o (is_ready_now o e) e.id v.trace ≡ true) _
        (ready o o.polls e e.id w) _ (Yields-ready o o.polls e e.id w)
        (λ _ v g s. both_seen v s _ (last_look e v))
    where
      both_seen :
          (v : World)
          → seen o (is_ready_now o e) e.id v.trace ≡ true
          → (r : Result Stop (Unit {0}) × World)
          → Yields v (λ _ u. seen o (is_as_before e) e.id u.trace ≡ true) r
          → Yields v (λ _ u. shown_restored u.trace e ≡ true) r
      both_seen v s (ok x, u) (i, q) =
          (i, rw (seen_Extends o (is_ready_now o e) e.id v u i s, q) refl)
      both_seen v s (err x, u) h = tt

  pub Yields-restore_touched :
      (e : Entry) (w : World)
      → Yields w (λ _ v. shown_restored v.trace e ≡ true) (restore_touched o e w)
  unfolding restore_touched restore_name
  Yields-restore_touched e w =
      Yields-then w (Saw o e.id) _ (look o e.id w) _ (Yields-look o e.id w) (λ i v _ _.
        Yields-then v Nothing _ (restore_name o e i v) _ (renamed i v) (λ _ u _ _.
          Yields-then u Nothing _
            (each (λ name. when (not (is_text_in name i.networks)) (must o (connect name e.id)))
              e.networks u)
            _
            (Yields-any u
              (λ name. when (not (is_text_in name i.networks)) (must o (connect name e.id)))
              e.networks
              (λ name x.
                Yields-when (not (is_text_in name i.networks)) (must o (connect name e.id)) x
                  (Yields-must o (connect name e.id) x)))
            (λ _ x _ _.
              Yields-then x Nothing _ (when (e.running && not i.running) (must o (start e.id)) x) _
                (Yields-when (e.running && not i.running) (must o (start e.id)) x
                  (Yields-must o (start e.id) x))
                (λ _ y _ _.
                  Yields-then y Nothing _
                    (when (not e.running && i.running) (stopped (failing false)) y) _
                    (Yields-when (not e.running && i.running) (stopped (failing false)) y tt)
                    (λ _ z _ _. restored_last e z)))))
    where
      renamed : (i : Inspection) (v : World) → Yields v Nothing (restore_name o e i v)
      renamed i v =
          unfold restore_name in
          Yields-when (not (i.name =ₛ e.name)) _ v (
            Yields-then v Nothing Nothing
              (when (not (i.name =ₛ ("/" ++ₛ e.backup))) (stopped (failing false)) v) _
              (Yields-when (not (i.name =ₛ ("/" ++ₛ e.backup))) (stopped (failing false)) v tt)
              (λ _ u _ _. Yields-must o (rename e.id (trim_prefix e.name "/")) u))
