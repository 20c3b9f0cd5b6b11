-- ===== src/Inventory/Changes.antt =====
-- inventory/changes.go: the notifier, its subscribers' channels and the operations in progress.
pub mod Delivery
pub mod Progress
mod Examples
use nox_yard.Prelude.{
  ltb, ◌==◌, ◌=ₛ◌, if◌then◌else◌, select, ◌++ₛ◌, ℕ, suc, String, Bool, true, false, ◌&&◌, ◌||◌, not,
  Option, none, some, List, [], ◌∷◌, map,
}

pub record Change : Type 0 where
  pub inventory : Bool
  pub metrics : Bool

-- A subscriber's channel, which holds one pending change at most.
pub record Subscriber : Type 0 where
  pub channel : ℕ
  pub pending : Option Change

-- An entry of operations[target][id].
pub record Operation : Type 0 where
  pub target : String
  pub id : ℕ
  pub state : String

-- `channels` counts the channels that Subscribe has made.
pub record Notifier : Type 0 where
  pub subscribers : List Subscriber
  pub operations : List Operation
  pub sequence : ℕ
  pub channels : ℕ

-- NewNotifier
abbrev pub new_notifier : Notifier
new_notifier = record { subscribers = []; operations = []; sequence = 0; channels = 0 }

unfoldable pub merged_change : Change → Option Change → Change
merged_change c none = c
merged_change c (some prior) = record {
  inventory = c.inventory || prior.inventory;
  metrics = c.metrics || prior.metrics;
}

-- The body of Notify's loop.
unfoldable pub deliver : Change → Subscriber → Subscriber
unfolding merged_change
deliver c s = record s { pending = some (merged_change c s.pending) }

-- Notify
unfoldable pub notify : Change → Notifier → Notifier
unfolding deliver
notify c n = record n { subscribers = map (deliver c) n.subscribers }

-- Subscribe, and the function that it returns.
unfoldable pub subscribe : Notifier → ℕ × Notifier
subscribe n = (
  n.channels,
  record n {
    subscribers = record { channel = n.channels; pending = none } ∷ n.subscribers;
    channels = suc n.channels;
  },
)

unfoldable pub unsubscribe : ℕ → Notifier → Notifier
unsubscribe k n = record n { subscribers = select (λ s. not (s.channel == k)) n.subscribers }

-- A client takes what its channel holds.
unfoldable pub emptied : ℕ → Subscriber → Subscriber
emptied k s = if s.channel == k then record s { pending = none } else s

unfoldable pub receive : ℕ → Notifier → Notifier
unfolding emptied
receive k n = record n { subscribers = map (emptied k) n.subscribers }

-- OperationState
unfoldable pub operation_state : String → String
operation_state o =
    if o =ₛ "start" || o =ₛ "new" || o =ₛ "copy"
    then "starting"
    else if o =ₛ "stop"
    then "stopping"
    else if o =ₛ "restart"
    then "restarting"
    else if o =ₛ "remove"
    then "removing"
    else if o =ₛ "update" || o =ₛ "sync" || o =ₛ "recreate"
    then "updating"
    else ""

abbrev pub inventory_change : Change
inventory_change = record { inventory = true; metrics = false }

-- Begin: the new operation's id, and the notifier after it.
unfoldable pub begin : String → String → Notifier → ℕ × Notifier
unfolding operation_state notify
begin target operation n =
    let id = suc n.sequence in
    (
      id,
      notify inventory_change (record n {
        sequence = id;
        operations =
            record { target = target; id = id; state = operation_state operation } ∷ n.operations;
      }),
    )

-- The function that Begin returns.
unfoldable pub end : String → ℕ → Notifier → Notifier
unfolding notify
end target id n =
    notify inventory_change
      (record n { operations = select (λ o. not (o.target =ₛ target && o.id == id)) n.operations })

-- `state` of Apply: the least id of the target, and its state.
unfoldable pub earlier : Operation → ℕ × String → ℕ × String
earlier o (first, operation) =
    if first == 0 || ltb o.id first then (o.id, o.state) else (first, operation)

unfoldable pub first_operation : String → List Operation → ℕ × String
unfolding earlier
first_operation target [] = (0, "")
first_operation target (o ∷ os) =
    let rest = first_operation target os in if o.target =ₛ target then earlier o rest else rest

unfoldable pub shown_state : String → Notifier → String
unfolding first_operation
shown_state target n = (first_operation target n.operations).1

-- What Apply writes of a snapshot.
pub record ShownContainer : Type 0 where
  pub id : String
  pub operation : String

pub record ShownProject : Type 0 where
  pub id : String
  pub operation : String
  pub containers : List ShownContainer

unfoldable pub apply_container : Notifier → String → ShownContainer → ShownContainer
unfolding shown_state
apply_container n operation c =
    let own = shown_state ("container:" ++ₛ c.id) n in
    record c { operation = if own =ₛ "" then operation else own }

unfoldable pub first_shown : List ShownContainer → String
first_shown [] = ""
first_shown (c ∷ cs) = let rest = first_shown cs in if c.operation =ₛ "" then rest else c.operation

unfoldable pub apply_project : Notifier → ShownProject → ShownProject
unfolding shown_state apply_container first_shown
apply_project n p =
    let own = shown_state p.id n in
    let containers = map (apply_container n own) p.containers in
    record p {
      operation = if own =ₛ "" then first_shown containers else own;
      containers = containers;
    }

-- Apply
unfoldable pub apply : Notifier → List ShownProject → List ShownProject
unfolding apply_project
apply n projects = map (apply_project n) projects
