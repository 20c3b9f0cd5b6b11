-- ===== src/ComposeOrder.antt =====
-- composeorder/order.go: the order of containers by their observed dependencies.
-- A container is its position in the list; the Go maps by position are lists of positions.
mod Examples
pub mod Depth
pub mod Topology
use nox_yard.Prelude.{
  comma, colon, ◌=ₛ◌, if◌then◌else◌, length, member, split, Labels, label, Result, err, ok, ◌>>=◌,
  ℕ, zero, suc, String, Bool, ◌&&◌, ◌||◌, Option, none, some, List, [], ◌∷◌, ◌++◌,
}

pub data OrderError : Type 0 where
  cyclic unsupported out_of_fuel : OrderError

abbrev pub service_of : Labels → String
service_of ls = label "com.docker.compose.service" ls

-- services[name], the positions of the containers of a service.
unfoldable pub service_positions : String → ℕ → List Labels → List ℕ
service_positions name i [] = []
service_positions name i (l ∷ ls) =
    let rest = service_positions name (suc i) ls in if service_of l =ₛ name then i ∷ rest else rest

-- One entry of depends_on: `service:condition:restart`.
unfoldable pub is_condition : String → Bool
is_condition c =
    c =ₛ "service_started" || c =ₛ "service_healthy" || c =ₛ "service_completed_successfully"

unfoldable pub parsed : List String → Option String
unfolding is_condition
parsed (name ∷ condition ∷ restart ∷ []) =
    if is_condition condition && (restart =ₛ "true" || restart =ₛ "false") then some name else none
parsed other = none

-- The positions that an entry names; a service without a container is an error.
unfoldable pub some_positions : List ℕ → Result OrderError (List ℕ)
some_positions [] = err unsupported
some_positions (i ∷ is) = ok (i ∷ is)

unfoldable pub named_positions : List Labels → Option String → Result OrderError (List ℕ)
unfolding some_positions service_positions
named_positions ls none = err unsupported
named_positions ls (some name) = some_positions (service_positions name 0 ls)

abbrev pub Visitor : Type 0
Visitor = ℕ → List ℕ → Result OrderError (List ℕ)

unfoldable pub visit_each : Visitor → List ℕ → List ℕ → Result OrderError (List ℕ)
visit_each visit [] order = ok order
visit_each visit (d ∷ ds) order = visit d order >>= visit_each visit ds

unfoldable pub visit_values :
    Visitor → List Labels → List String → List ℕ → Result OrderError (List ℕ)
unfolding visit_each parsed named_positions
visit_values visit ls [] order = ok order
visit_values visit ls (v ∷ vs) order =
    let rest = visit_values visit ls vs in
    if v =ₛ ""
    then rest order
    else named_positions ls (parsed (split colon v)) >>= λ ds. visit_each visit ds order >>= rest

-- depends_on of a position, split at its commas.
unfoldable pub depends_on : List Labels → ℕ → List String
depends_on [] i = []
depends_on (l ∷ ls) zero = split comma (label "com.docker.compose.depends_on" l)
depends_on (l ∷ ls) (suc i) = depends_on ls i

-- `visit`, on fuel for the depth of its calls. `visiting` holds the positions that are being
-- visited, and `order` those that have been, which the code also keeps in `visited`.
unfoldable pub visit : ℕ → List Labels → List ℕ → ℕ → List ℕ → Result OrderError (List ℕ)
unfolding visit_values depends_on
visit zero ls visiting i order = err out_of_fuel
visit (suc n) ls visiting i order =
    let deeper = visit_values (visit n ls (i ∷ visiting)) ls (depends_on ls i) order in
    if member i visiting
    then err cyclic
    else if member i order
    then ok order
    else deeper >>= λ after. ok (after ++ i ∷ [])

unfoldable pub positions : ℕ → ℕ → List ℕ
positions i zero = []
positions i (suc n) = i ∷ positions (suc i) n

-- Labels
unfoldable pub order_labels : List Labels → Result OrderError (List ℕ)
unfolding visit_each visit positions
order_labels ls = visit_each (visit (suc (length ls)) ls []) (positions 0 (length ls)) []
