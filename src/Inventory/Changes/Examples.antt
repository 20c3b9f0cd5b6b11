-- ===== src/Inventory/Changes/Examples.antt =====
-- The theorems of the notifier on a short history.
use nox_yard.Inventory.Changes.{
  merged_change, deliver, notify, subscribe, emptied, receive, operation_state, begin, end,
  ShownProject, apply_project, apply,
}
use nox_yard.Inventory.Changes.Delivery.{
  Event, notifies, subscribes, receives, begins, after, run, held, owed, summary, pending_is_union,
}
use nox_yard.Inventory.Changes.Progress.{is_live, names_of, begin_shows_first}
use nox_yard.Prelude.{◌=ₛ◌, every, ◌≡◌, refl, true, false, not, some, List, [], ◌∷◌}

abbrev history : List Event
history =
    notifies (record { inventory = false; metrics = true })
    ∷ begins "project:web" "stop"
    ∷ receives 0
    ∷ subscribes
    ∷ []

pending_is_union_example : held 0 (run history).subscribers ≡ summary (owed 0 history)
pending_is_union_example = pending_is_union 0 history

both_pending :
    held 0 (run history).subscribers ≡ some (some (record { inventory = true; metrics = true }))
unfolding held run after notify begin subscribe receive deliver merged_change emptied
both_pending = refl

begin_shows_first_example :
    let (id, begun) = begin "project:web" "start" (run history) in
    ((ps : List ShownProject) → apply (end "project:web" id begun) ps ≡ apply (run history) ps)
    × (is_live "project:web" (run history) ≡ true
        → (ps : List ShownProject) → apply begun ps ≡ apply (run history) ps)
    × ((p : ShownProject)
        → every (λ u. not ("project:web" =ₛ u)) (names_of p) ≡ true
        → apply_project begun p ≡ apply_project (run history) p)
    × (is_live "project:web" (run history) ≡ false
        → (operation_state "start" =ₛ "") ≡ false
        → (p : ShownProject) → p.id ≡ "project:web"
        → (apply_project begun p).operation ≡ operation_state "start")
begin_shows_first_example = begin_shows_first history "project:web" "start"
