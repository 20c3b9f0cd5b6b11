-- ===== src/ComposeOrder/Examples.antt =====
-- The theorem on the order of two containers, of which the first depends on the second.
use nox_yard.Prelude.{Labels, err, ℕ, ◌≡◌, refl, ◌≢◌, true, List, [], ◌∷◌}
use nox_yard.ComposeOrder.{out_of_fuel, positions, order_labels}
use nox_yard.ComposeOrder.Depth.{order_labels_ends}
use nox_yard.ComposeOrder.Topology.{all_in, is_ordered, order_labels_lem}

abbrev web_and_db : List Labels
web_and_db =
    (("com.docker.compose.service", "web")
      ∷ ("com.docker.compose.depends_on", "db:service_started:true")
      ∷ [])
    ∷ (("com.docker.compose.service", "db") ∷ [])
    ∷ []

abbrev db_first : List ℕ
db_first = 1 ∷ 0 ∷ []

order_labels_lem_example :
    (is_ordered web_and_db [] db_first ≡ true) × (all_in db_first (positions 0 2) ≡ true)
unfolding order_labels
order_labels_lem_example = order_labels_lem web_and_db db_first refl

order_labels_ends_example : order_labels web_and_db ≢ err out_of_fuel
order_labels_ends_example = order_labels_ends web_and_db
