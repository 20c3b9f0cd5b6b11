-- ===== src/Ports/Preflight.antt =====
-- managed/ports.go: what the preflight accepts.
use nox_yard.Prelude.{
  inr, inl, Bool-cases, exists, Result, err, ok, ◌>>◌, is_ok, String, ◌≡◌, refl, ◌∙◌, Bool, false,
  ◌&&◌, ◌||◌, not, List, [], ◌∷◌, ◌++◌, arith,
}
use nox_yard.Ports.{
  HostPortClaim, PortError, PublishedPort, Item, is_passed_over, meets_port, check_ports,
  check_items, rivals, check_prior, check_claims, compare_service_host_ports,
}

-- A claim meets a port that a foreign, running container publishes.
unfoldable pub meets_item : String → String → HostPortClaim → Item → Bool
meets_item name service claim i =
    not (is_passed_over name service i) && exists (meets_port claim) i.ports

unfoldable pub meets_others : String → String → List Item → HostPortClaim → Bool
unfolding meets_item
meets_others name service items claim = exists (meets_item name service claim) items

-- A claim clashes with an earlier one of another service.
unfoldable pub has_rivals : List HostPortClaim → List HostPortClaim → Bool
has_rivals prior [] = false
has_rivals prior (c ∷ cs) = exists (rivals c) prior || has_rivals (prior ++ c ∷ []) cs

check_ports-decides :
    (claim : HostPortClaim) (item : Item) (ps : List PublishedPort)
    → is_ok (check_ports claim item ps) ≡ not (exists (meets_port claim) ps)
unfolding check_ports
check_ports-decides claim item [] = refl
check_ports-decides claim item (p ∷ ps) = elim (Bool-cases (meets_port claim p)) [
  | inl e ↦ rw (e) refl
  | inr e ↦ rw (e) (check_ports-decides claim item ps)
]

>>-is_ok : (a b : Result PortError (Unit {0})) → is_ok (a >> b) ≡ (is_ok a && is_ok b)
>>-is_ok (err e) b = refl
>>-is_ok (ok u) b = refl

not_or : (a b : Bool) → (not a && not b) ≡ not (a || b)
not_or a b = ground arith

check_items-decides :
    (name service : String) (claim : HostPortClaim) (is : List Item)
    → is_ok (check_items name service claim is) ≡ not (exists (meets_item name service claim) is)
unfolding check_items meets_item
check_items-decides name service claim [] = refl
check_items-decides name service claim (i ∷ is) =
    elim (Bool-cases (is_passed_over name service i)) [
      | inl e ↦ rw (e) (check_items-decides name service claim is)
      | inr e ↦ rw (e) (
          >>-is_ok (check_ports claim i i.ports) (check_items name service claim is)
          ∙ rw (check_ports-decides claim i i.ports, check_items-decides name service claim is)
              (not_or (exists (meets_port claim) i.ports)
                (exists (meets_item name service claim) is)))
    ]

check_prior-decides :
    (claim : HostPortClaim) (ps : List HostPortClaim)
    → is_ok (check_prior claim ps) ≡ not (exists (rivals claim) ps)
unfolding check_prior
check_prior-decides claim [] = refl
check_prior-decides claim (p ∷ ps) = elim (Bool-cases (rivals claim p)) [
  | inl e ↦ rw (e) refl
  | inr e ↦ rw (e) (check_prior-decides claim ps)
]

regroup : (a b c d : Bool) → (not a && (not b && (not c && not d))) ≡ (not (a || c) && not (b || d))
regroup a b c d = ground arith

check_claims-decides :
    (name service : String) (items : List Item) (prior cs : List HostPortClaim)
    → is_ok (check_claims name service items prior cs)
      ≡ (not (has_rivals prior cs) && not (exists (meets_others name service items) cs))
unfolding check_claims has_rivals meets_others
check_claims-decides name service items prior [] = refl
check_claims-decides name service items prior (c ∷ cs) =
    >>-is_ok (check_prior c prior)
      (check_items name service c items >> check_claims name service items (prior ++ c ∷ []) cs)
    ∙ rw
        (
          >>-is_ok (check_items name service c items)
              (check_claims name service items (prior ++ c ∷ []) cs),
          check_prior-decides c prior,
          check_items-decides name service c items,
          check_claims-decides name service items (prior ++ c ∷ []) cs,
        )
        (regroup (exists (rivals c) prior) (exists (meets_item name service c) items)
          (has_rivals (prior ++ c ∷ []) cs) (exists (meets_others name service items) cs))

-- compareServiceHostPorts accepts exactly the claims of which none overlaps an earlier claim of
-- another service, and none a port that a running container outside the project (or service)
-- publishes.
pub preflight_decides :
    (name service : String) (claims : List HostPortClaim) (items : List Item)
    → is_ok (compare_service_host_ports name service claims items)
      ≡ (not (has_rivals [] claims) && not (exists (meets_others name service items) claims))
preflight_decides name service claims items = check_claims-decides name service items [] claims
