-- ===== src/Inventory/Changes/Delivery.antt =====
-- inventory/changes.go: a channel holds the union of the changes that its client has not taken.
use nox_yard.Prelude.{
  ◌==◌, if◌then◌else◌, select, exists, ℕ, suc, String, ◌≡◌, refl, ap, ◌∙◌, not, Option, none, some,
  List, [], ◌∷◌, map, arith,
}
use nox_yard.Inventory.Changes.{
  Change, Subscriber, Notifier, new_notifier, merged_change, deliver, notify, subscribe,
  unsubscribe, emptied, receive, inventory_change, begin, end,
}

-- What may happen to a notifier, and the notifier after a history, whose newest event stands first.
pub data Event : Type 0 where
  notifies : Change → Event
  subscribes : Event
  unsubscribes receives : ℕ → Event
  begins : String → String → Event
  ends : String → ℕ → Event

unfoldable pub after : Event → Notifier → Notifier
unfolding notify subscribe unsubscribe receive begin end
after (notifies c) n = notify c n
after subscribes n = (subscribe n).1
after (unsubscribes k) n = unsubscribe k n
after (receives k) n = receive k n
after (begins target operation) n = (begin target operation n).1
after (ends target id) n = end target id n

unfoldable pub run : List Event → Notifier
unfolding after
run [] = new_notifier
run (e ∷ es) = after e (run es)

-- What the channel holds, if it is subscribed.
unfoldable pub held : ℕ → List Subscriber → Option (Option Change)
held k [] = none
held k (s ∷ ss) = let rest = held k ss in if s.channel == k then some s.pending else rest

-- The abstract view: the changes since the client last took one, the newest first, or no subscription.
unfoldable pub subscriptions : List Event → ℕ
subscriptions [] = 0
subscriptions (subscribes ∷ es) = suc (subscriptions es)
subscriptions (notifies c ∷ es) = subscriptions es
subscriptions (unsubscribes k ∷ es) = subscriptions es
subscriptions (receives k ∷ es) = subscriptions es
subscriptions (begins t o ∷ es) = subscriptions es
subscriptions (ends t i ∷ es) = subscriptions es

abbrev pub owe : Change → Option (List Change) → Option (List Change)
owe c none = none
owe c (some cs) = some (c ∷ cs)

abbrev pub settle : Option (List Change) → Option (List Change)
settle none = none
settle (some cs) = some []

unfoldable pub owed : ℕ → List Event → Option (List Change)
unfolding subscriptions
owed k [] = none
owed k (notifies c ∷ es) = owe c (owed k es)
owed k (subscribes ∷ es) = if subscriptions es == k then some [] else owed k es
owed k (unsubscribes j ∷ es) = if j == k then none else owed k es
owed k (receives j ∷ es) = if j == k then settle (owed k es) else owed k es
owed k (begins t o ∷ es) = owe inventory_change (owed k es)
owed k (ends t i ∷ es) = owe inventory_change (owed k es)

-- Their union: nothing for no change.
unfoldable pub union : List Change → Option Change
union [] = none
union (c ∷ cs) = some (record {
  inventory = exists (λ x. x.inventory) (c ∷ cs);
  metrics = exists (λ x. x.metrics) (c ∷ cs);
})

abbrev pub summary : Option (List Change) → Option (Option Change)
summary none = none
summary (some cs) = some (union cs)

-- A channel after each operation.
abbrev delivered : Change → Option (Option Change) → Option (Option Change)
delivered c none = none
delivered c (some p) = some (some (merged_change c p))

held-deliver :
    (k : ℕ) (c : Change) (ss : List Subscriber)
    → held k (map (deliver c) ss) ≡ delivered c (held k ss)
unfolding held deliver
held-deliver k c [] = refl
held-deliver k c (s ∷ ss) = ground (arith, held-deliver k c ss)

held-unsubscribe :
    (k j : ℕ) (ss : List Subscriber)
    → held k (select (λ s. not (s.channel == j)) ss) ≡ (if j == k then none else held k ss)
unfolding held
held-unsubscribe k j [] = ground arith
held-unsubscribe k j (s ∷ ss) = ground (arith, held-unsubscribe k j ss)

abbrev cleared : Option (Option Change) → Option (Option Change)
cleared none = none
cleared (some p) = some none

held-emptied :
    (k j : ℕ) (ss : List Subscriber)
    → held k (map (emptied j) ss) ≡ (if j == k then cleared (held k ss) else held k ss)
unfolding held emptied
held-emptied k j [] = ground arith
held-emptied k j (s ∷ ss) = ground (arith, held-emptied k j ss)

-- The same on the abstract side.
merged-union : (c : Change) (cs : List Change) → some (merged_change c (union cs)) ≡ union (c ∷ cs)
unfolding merged_change union
merged-union c [] = ground arith
merged-union c (d ∷ ds) = ground arith

summary-owe : (c : Change) (o : Option (List Change)) → delivered c (summary o) ≡ summary (owe c o)
summary-owe c none = refl
summary-owe c (some cs) = ap some (merged-union c cs)

summary-settle : (o : Option (List Change)) → cleared (summary o) ≡ summary (settle o)
unfolding union
summary-settle none = refl
summary-settle (some cs) = refl

channels-run : (es : List Event) → (run es).channels ≡ subscriptions es
unfolding run subscriptions notify begin end subscribe unsubscribe receive
channels-run [] = refl
channels-run (subscribes ∷ es) = ap suc (channels-run es)
channels-run (notifies c ∷ es) = channels-run es
channels-run (unsubscribes k ∷ es) = channels-run es
channels-run (receives k ∷ es) = channels-run es
channels-run (begins t o ∷ es) = channels-run es
channels-run (ends t i ∷ es) = channels-run es

notified :
    (k : ℕ) (c : Change) (ss : List Subscriber) (o : Option (List Change))
    → held k ss ≡ summary o
    → held k (map (deliver c) ss) ≡ summary (owe c o)
notified k c ss o h = held-deliver k c ss ∙ rw (h) (summary-owe c o)

-- After every history, what a subscriber's channel holds is the union of the changes notified since
-- its client last took one (those of begun and ended operations included), and nothing if there were
-- none; a channel that is not subscribed is gone.
pub pending_is_union : (k : ℕ) (es : List Event) → held k (run es).subscribers ≡ summary (owed k es)
unfolding run owed held notify begin end subscribe unsubscribe receive
pending_is_union k [] = refl
pending_is_union k (notifies c ∷ es) =
    notified k c (run es).subscribers (owed k es) (pending_is_union k es)
pending_is_union k (begins t o ∷ es) =
    notified k inventory_change (run es).subscribers (owed k es) (pending_is_union k es)
pending_is_union k (ends t i ∷ es) =
    notified k inventory_change (run es).subscribers (owed k es) (pending_is_union k es)
pending_is_union k (subscribes ∷ es) = subscribed (channels-run es) (pending_is_union k es)
  where
    subscribed :
        (run es).channels ≡ subscriptions es
        → held k (run es).subscribers ≡ summary (owed k es)
        → held k (run (subscribes ∷ es)).subscribers ≡ summary (owed k (subscribes ∷ es))
    subscribed e h = unfold union in ground arith
pending_is_union k (unsubscribes j ∷ es) =
    held-unsubscribe k j (run es).subscribers ∙ rw (pending_is_union k es) (ground arith)
pending_is_union k (receives j ∷ es) =
    held-emptied k j (run es).subscribers
    ∙ rw (pending_is_union k es, summary-settle (owed k es)) (ground arith)
