-- ===== src/Recreate/Trace.antt =====
-- recreate/worker.go: what a trace of the worker may hold, and the state that keeps it so.
use nox_yard.Prelude.{
  ◌=ₛ◌, exists, every, String, ◌≡◌, refl, Bool, true, false, ◌&&◌, ◌||◌, not, List, [], ◌∷◌, arith,
}
use nox_yard.Recreate.{
  Entry, Call, save, retarget, finish, pull, inspect_image, inspect, create, save_candidate,
  schedule_enabled, take_snapshot, stop, start, remove, rename, disconnect, connect, Event, asked,
  created, World, log_event,
}

-- Whether an accepted save recorded an original as touched, and whether a container was created here.
abbrev pub records : String → Event → Bool
records id (asked (save stage j) true) = exists (λ e. e.touched && e.id =ₛ id) j.entries
records id e = false

abbrev pub makes : String → Event → Bool
makes id (created x) = x =ₛ id
makes id (asked c b) = false

unfoldable pub is_journaled : String → List Event → Bool
is_journaled id t = exists (records id) t

unfoldable pub is_new : String → List Event → Bool
is_new id t = exists (makes id) t

-- Calls that change containers.
abbrev pub is_mutation : Call → Bool
is_mutation (save s j) = false
is_mutation (retarget s ks) = false
is_mutation (finish s x r) = false
is_mutation (pull r p) = false
is_mutation (inspect_image r) = false
is_mutation (inspect id) = false
is_mutation (create id root) = true
is_mutation save_candidate = false
is_mutation schedule_enabled = false
is_mutation take_snapshot = false
is_mutation (stop id) = true
is_mutation (start id) = true
is_mutation (remove id) = true
is_mutation (rename id n) = true
is_mutation (disconnect n id) = true
is_mutation (connect n id) = true

abbrev pub is_harmless : Event → Bool
is_harmless (asked c b) = not (is_mutation c)
is_harmless (created id) = false

abbrev pub is_finish_call : Call → Bool
is_finish_call (finish s x r) = true
is_finish_call c = false

abbrev pub is_finish : Event → Bool
is_finish (asked c b) = is_finish_call c
is_finish (created id) = false

-- What may be asked after a trace.
abbrev pub allowed : Call → List Event → Bool
allowed (stop id) t = is_journaled id t
allowed (rename id n) t = is_journaled id t
allowed (disconnect n id) t = is_journaled id t
allowed (connect n id) t = is_journaled id t
allowed (start id) t = is_new id t || is_journaled id t
allowed (remove id) t = is_new id t
allowed (finish s x r) t = not (r =ₛ "not_needed") || every is_harmless t
allowed c t = true

abbrev pub permitted : Event → List Event → Bool
permitted (asked c b) t = allowed c t
permitted (created id) t = true

unfoldable pub is_safe : List Event → Bool
is_safe [] = true
is_safe (e ∷ t) = permitted e t && (not (exists is_finish t) && is_safe t)

abbrev pub is_known : List Event → Entry → Bool
is_known t e = (not e.touched || is_journaled e.id t) && (e.new_id =ₛ "" || is_new e.new_id t)

-- The state in which the worker goes on.
pub record IsSound (w : World) : Type 0 where
  pub safe : is_safe w.trace ≡ true
  pub unfinished : exists is_finish w.trace ≡ false
  pub known : every (is_known w.trace) w.journal.entries ≡ true
  pub clean : (w.journal.mutated || every is_harmless w.trace) ≡ true

-- Nothing that a world knows is lost.
pub record Grew (v w : World) : Type 0 where
  pub still_new : (id : String) → is_new id v.trace ≡ true → is_new id w.trace ≡ true
  pub still_journaled :
      (id : String) → is_journaled id v.trace ≡ true → is_journaled id w.trace ≡ true
  pub still_mutated : v.journal.mutated ≡ true → w.journal.mutated ≡ true

pub Grew-same : (w : World) → Grew w w
Grew-same w = record { still_new = λ id h. h; still_journaled = λ id h. h; still_mutated = λ h. h }

pub Grew-again : (u v w : World) → Grew u v → Grew v w → Grew u w
Grew-again u v w g h = record {
  still_new = λ id k. h.still_new id (g.still_new id k);
  still_journaled = λ id k. h.still_journaled id (g.still_journaled id k);
  still_mutated = λ k. h.still_mutated (g.still_mutated k);
}

known_longer :
    (e : Event) (t : List Event) (es : List Entry)
    → every (is_known t) es ≡ true
    → every (is_known (e ∷ t)) es ≡ true
unfolding is_journaled is_new
known_longer e t [] h = refl
known_longer e t (x ∷ es) h = ground (arith, known_longer e t es)

-- One more event that is permitted.
pub log-Grew : (e : Event) (w : World) → Grew w (log_event e w)
unfolding is_journaled is_new
log-Grew e w = record {
  still_new = λ id h. ground arith;
  still_journaled = λ id h. ground arith;
  still_mutated = λ h. h;
}

pub log-safe :
    (e : Event) (w : World)
    → IsSound w
    → permitted e w.trace ≡ true
    → is_safe (log_event e w).trace ≡ true
unfolding is_safe
log-safe e w h p = rw (p, h.unfinished, h.safe) refl

pub log-IsSound :
    (e : Event) (w : World)
    → IsSound w
    → permitted e w.trace ≡ true
    → is_finish e ≡ false
    → (w.journal.mutated || is_harmless e) ≡ true
    → IsSound (log_event e w)
log-IsSound e w h p f m = record {
  safe = log-safe e w h p;
  unfinished = rw (f) h.unfinished;
  known = known_longer e w.trace w.journal.entries h.known;
  clean = both_clean w.journal.mutated (is_harmless e) (every is_harmless w.trace) m h.clean;
}
  where
    both_clean : (a b c : Bool) → (a || b) ≡ true → (a || c) ≡ true → (a || (b && c)) ≡ true
    both_clean a b c h k = ground arith
