-- ===== src/Ports/Overlap.antt =====
-- managed/ports.go: when two claims overlap.
use nox_yard.Prelude.{
  eq_of_test, ℕ, ◌≤◌, max, ◌≡◌, refl, ◌↔◌, Bool, true, false, ◌&&◌, not, arith, eq_iff,
}
use nox_yard.Ports.{
  Addr, no_addr, v4, v6, is_unspecified, same_addr, HostPortClaim, addresses_overlap,
  overlapping_host_ports,
}

-- The wildcard of one family against the wildcard of the other.
unfoldable pub is_both_wildcards : Addr → Addr → Bool
is_both_wildcards a b = is_unspecified a && is_unspecified b && not (same_addr a b)

addresses_overlap_symm :
    (a b : Addr) → is_both_wildcards a b ≡ false → addresses_overlap a b ≡ addresses_overlap b a
unfolding addresses_overlap is_both_wildcards
addresses_overlap_symm no_addr no_addr h = refl
addresses_overlap_symm no_addr (v4 m) h = refl
addresses_overlap_symm no_addr (v6 m) h = refl
addresses_overlap_symm (v4 n) no_addr h = refl
addresses_overlap_symm (v6 n) no_addr h = refl
addresses_overlap_symm (v4 n) (v4 m) h = ground arith
addresses_overlap_symm (v6 n) (v6 m) h = ground arith
addresses_overlap_symm (v4 n) (v6 m) h = ground arith
addresses_overlap_symm (v6 n) (v4 m) h = ground arith

-- Two claims of nonempty port ranges overlap exactly when they have one protocol, share a port and
-- their addresses overlap. The answer does not depend on the order of the claims, unless their
-- addresses are the wildcards of the two families.
pub overlap_iff :
    (a b : HostPortClaim)
    → a.first ≤ a.last
    → b.first ≤ b.last
    → ((overlapping_host_ports a b ≡ true) ↔ (
        (a.protocol ≡ b.protocol)
        × ((p : ℕ) × (a.first ≤ p) × (p ≤ a.last) × (b.first ≤ p) × (p ≤ b.last))
        × (addresses_overlap a.address b.address ≡ true)))
      × (is_both_wildcards a.address b.address ≡ false
          → overlapping_host_ports a b ≡ overlapping_host_ports b a)
unfolding overlapping_host_ports
overlap_iff a b u v = (
  (
    λ h. (
      eq_of_test a.protocol b.protocol (ground arith),
      (max a.first b.first, ground arith, ground arith, ground arith, ground arith),
      ground arith,
    ),
    λ (same, (p, c, d, e, f), clash). ground (arith, eq_iff a.protocol b.protocol),
  ),
  λ n. ground (
    arith,
    addresses_overlap_symm a.address b.address n,
    eq_iff a.protocol b.protocol,
    eq_iff b.protocol a.protocol,
  ),
)

-- For two claims of one protocol that share a port, the IPv6 wildcard first overlaps the IPv4
-- wildcard, and the IPv4 wildcard first does not overlap the IPv6 wildcard.
pub wildcards_depend_on_order :
    (a b : HostPortClaim)
    → a.address ≡ v4 0
    → b.address ≡ v6 0
    → a.protocol ≡ b.protocol
    → b.first ≤ a.last
    → a.first ≤ b.last
    → (overlapping_host_ports b a ≡ true) × (overlapping_host_ports a b ≡ false)
unfolding overlapping_host_ports addresses_overlap
wildcards_depend_on_order a b x y s l r = (
  ground (arith, eq_iff a.protocol b.protocol, eq_iff b.protocol a.protocol),
  ground (arith, eq_iff a.protocol b.protocol),
)
