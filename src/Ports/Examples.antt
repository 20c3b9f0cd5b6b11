-- ===== src/Ports/Examples.antt =====
-- The theorems of the ports on concrete claims.
use nox_yard.Prelude.{exists, is_ok, ℕ, ◌≤◌, ◌≡◌, refl, ◌↔◌, true, false, ◌&&◌, not, [], ◌∷◌, arith}
use nox_yard.Ports.{
  v4, v6, HostPortClaim, addresses_overlap, overlapping_host_ports, Item,
  compare_service_host_ports,
}
use nox_yard.Ports.Overlap.{is_both_wildcards, overlap_iff, wildcards_depend_on_order}
use nox_yard.Ports.Preflight.{meets_others, has_rivals, preflight_decides}

abbrev any_v4 : HostPortClaim
any_v4 = record { first = 80; last = 80; address = v4 0; protocol = "tcp"; owner = "web" }

abbrev any_v6 : HostPortClaim
any_v6 = record { first = 80; last = 80; address = v6 0; protocol = "tcp"; owner = "api" }

overlap_iff_example :
    ((overlapping_host_ports any_v4 any_v6 ≡ true) ↔ (
      (any_v4.protocol ≡ any_v6.protocol)
      × ((p : ℕ) × (80 ≤ p) × (p ≤ 80) × (80 ≤ p) × (p ≤ 80))
      × (addresses_overlap (v4 0) (v6 0) ≡ true)))
    × (is_both_wildcards (v4 0) (v6 0) ≡ false
        → overlapping_host_ports any_v4 any_v6 ≡ overlapping_host_ports any_v6 any_v4)
overlap_iff_example = overlap_iff any_v4 any_v6 (omega arith) (omega arith)

wildcards_depend_on_order_example :
    (overlapping_host_ports any_v6 any_v4 ≡ true) × (overlapping_host_ports any_v4 any_v6 ≡ false)
wildcards_depend_on_order_example =
    wildcards_depend_on_order any_v4 any_v6 refl refl refl (omega arith) (omega arith)

abbrev proxy : Item
proxy = record {
  id = "c1";
  names = "/proxy" ∷ [];
  labels = ("com.docker.compose.project", "edge") ∷ [];
  state = "running";
  ports = record { public_port = 80; ip = v4 0; protocol = "tcp" } ∷ [];
}

preflight_decides_example :
    is_ok (compare_service_host_ports "web" "" (any_v4 ∷ []) (proxy ∷ [])) ≡ (
      not (has_rivals [] (any_v4 ∷ []))
      && not (exists (meets_others "web" "" (proxy ∷ [])) (any_v4 ∷ [])))
preflight_decides_example = preflight_decides "web" "" (any_v4 ∷ []) (proxy ∷ [])
