-- ===== src/Ports.antt =====
-- managed/ports.go: the host ports that a project asks for, against each other and against Docker's.
-- netip.Addr is an address without zone, already unmapped; ParseAddr is an argument.
mod Examples
pub mod Overlap
pub mod Preflight
use nox_yard.Prelude.{
  Labels, max, label, ltb, leb, ◌==◌, ◌=ₛ◌, if◌then◌else◌, ◌++ₛ◌, trim_prefix, split, Result, err,
  ok, ◌>>=◌, ◌>>◌, ℕ, zero, ◌+◌, ◌-◌, ◌*◌, String, Bool, true, false, ◌&&◌, ◌||◌, not, Option, none,
  some, List, [], ◌∷◌, ◌++◌,
}
use Prim.Native.Char.{code}
use nox_yard.Store.Keys.{text_le}

-- The zero Addr, an IPv4 and an IPv6 address by its number.
pub data Addr : Type 0 where
  no_addr : Addr
  v4 v6 : ℕ → Addr

abbrev pub is_valid_addr : Addr → Bool
is_valid_addr no_addr = false
is_valid_addr (v4 n) = true
is_valid_addr (v6 n) = true

abbrev pub is_unspecified : Addr → Bool
is_unspecified no_addr = false
is_unspecified (v4 n) = n == 0
is_unspecified (v6 n) = n == 0

abbrev pub is_v4 : Addr → Bool
is_v4 no_addr = false
is_v4 (v4 n) = true
is_v4 (v6 n) = false

abbrev pub is_v6 : Addr → Bool
is_v6 no_addr = false
is_v6 (v4 n) = false
is_v6 (v6 n) = true

abbrev pub same_addr : Addr → Addr → Bool
same_addr no_addr no_addr = true
same_addr (v4 n) (v4 m) = n == m
same_addr (v6 n) (v6 m) = n == m
same_addr no_addr (v4 m) = false
same_addr no_addr (v6 m) = false
same_addr (v4 n) no_addr = false
same_addr (v4 n) (v6 m) = false
same_addr (v6 n) no_addr = false
same_addr (v6 n) (v4 m) = false

pub record HostPortClaim : Type 0 where
  pub first : ℕ
  pub last : ℕ
  pub address : Addr
  pub protocol : String
  pub owner : String

-- `==` on Booleans.
abbrev pub same_bool : Bool → Bool → Bool
same_bool true b = b
same_bool false b = not b

-- The addresses of overlappingHostPorts, in the order of its tests.
unfoldable pub addresses_overlap : Addr → Addr → Bool
addresses_overlap a b =
    if not (is_valid_addr a) || not (is_valid_addr b) || same_addr a b
    then true
    else if is_unspecified a
    then is_v6 a || same_bool (is_v4 a) (is_v4 b)
    else if is_unspecified b
    then is_v6 b || same_bool (is_v4 b) (is_v4 a)
    else false

-- overlappingHostPorts
unfoldable pub overlapping_host_ports : HostPortClaim → HostPortClaim → Bool
unfolding addresses_overlap
overlapping_host_ports a b =
    if not (a.protocol =ₛ b.protocol) || ltb b.last a.first || ltb a.last b.first
    then false
    else addresses_overlap a.address b.address

pub record ServicePort : Type 0 where
  pub published : String
  pub host_ip : String
  pub protocol : String

pub data PortError : Type 0 where
  invalid_port invalid_address : String → PortError
  overlap : ℕ → String → String → String → PortError
  already_published : ℕ → String → String → String → PortError

-- strconv.Atoi on what is not negative; a negative number fails the test that follows, as an error does.
unfoldable pub digits : ℕ → String → Option ℕ
digits n String.[] = some n
digits n (String.◌∷◌ c s) =
    let rest = digits (n * 10 + (code c - 48)) s in
    if leb 48 (code c) && leb (code c) 57 then rest else none

unfoldable pub unsigned : String → Option ℕ
unfolding digits
unsigned String.[] = none
unsigned (String.◌∷◌ c s) = digits 0 (String.◌∷◌ c s)

unfoldable pub atoi : String → Option ℕ
unfolding unsigned
atoi s = unsigned (trim_prefix s "+")

-- strings.Cut at "-": what is before, and what is after if there is one.
unfoldable pub cut : String → String × Option String
cut s = elim (split 45 s) [
  | [] ↦ (s, none)
  | w ∷ [] ↦ (w, none)
  | w ∷ v ∷ vs ↦ (w, some (joined_by v vs))
]
  where
    joined_by : String → List String → String
    joined_by v [] = v
    joined_by v (w ∷ ws) = v ++ₛ "-" ++ₛ joined_by w ws

unfoldable pub last_port : Option ℕ → Option String → Option ℕ
unfolding atoi
last_port first none = first
last_port first (some text) = atoi text

unfoldable pub valid_range : Option ℕ → Option ℕ → Option (ℕ × ℕ)
valid_range none last = none
valid_range (some a) none = none
valid_range (some a) (some b) = if ltb a 1 || ltb b a || ltb 65535 b then none else some (a, b)

unfoldable pub published_range : String → Option (ℕ × ℕ)
unfolding cut atoi last_port valid_range
published_range s =
    let (before, after) = cut s in valid_range (atoi before) (last_port (atoi before) after)

unfoldable pub claim_address : (String → Option Addr) → String → Option Addr
claim_address parse_addr s = if s =ₛ "" then some no_addr else parse_addr s

unfoldable pub claim_of :
    String → ServicePort → ℕ × ℕ → Option Addr → Result PortError (List HostPortClaim)
claim_of service p (a, b) none = if a == b then err (invalid_address service) else ok []
claim_of service p (a, b) (some address) =
    if a == b
    then ok (
        record {
          first = a;
          last = b;
          address = address;
          protocol = if p.protocol =ₛ "" then "tcp" else p.protocol;
          owner = service;
        }
        ∷ [])
    else ok []

unfoldable pub ranged_claim :
    (String → Option Addr)
    → String
    → ServicePort
    → Option (ℕ × ℕ)
    → Result PortError (List HostPortClaim)
unfolding claim_of claim_address
ranged_claim parse_addr service p none = err (invalid_port service)
ranged_claim parse_addr service p (some range) =
    claim_of service p range (claim_address parse_addr p.host_ip)

-- The claim of one port: none for an ephemeral port or a range.
unfoldable pub port_claim :
    (String → Option Addr) → String → ServicePort → Result PortError (List HostPortClaim)
unfolding published_range ranged_claim
port_claim parse_addr service p =
    if p.published =ₛ "" || p.published =ₛ "0"
    then ok []
    else ranged_claim parse_addr service p (published_range p.published)

unfoldable pub port_claims :
    (String → Option Addr) → String → List ServicePort → Result PortError (List HostPortClaim)
unfolding port_claim
port_claims parse_addr service [] = ok []
port_claims parse_addr service (p ∷ ps) = do
  claim ← port_claim parse_addr service p
  rest ← port_claims parse_addr service ps
  ok (claim ++ rest)

unfoldable pub service_claims :
    (String → Option Addr)
    → List (String × List ServicePort)
    → Result PortError (List HostPortClaim)
unfolding port_claims
service_claims parse_addr [] = ok []
service_claims parse_addr ((service, ports) ∷ rest) = do
  claims ← port_claims parse_addr service ports
  others ← service_claims parse_addr rest
  ok (claims ++ others)

-- sort.Slice by owner and first port.
unfoldable pub claim_before : HostPortClaim → HostPortClaim → Bool
unfolding text_le
claim_before a b = if a.owner =ₛ b.owner then ltb a.first b.first else text_le a.owner b.owner

unfoldable pub insert_claim : HostPortClaim → List HostPortClaim → List HostPortClaim
unfolding claim_before
insert_claim c [] = c ∷ []
insert_claim c (d ∷ ds) =
    let rest = insert_claim c ds in if claim_before d c then d ∷ rest else c ∷ d ∷ ds

unfoldable pub sort_claims : List HostPortClaim → List HostPortClaim
unfolding insert_claim
sort_claims [] = []
sort_claims (c ∷ cs) = insert_claim c (sort_claims cs)

-- desiredHostPorts, on the services that expectedServices names, in any order.
unfoldable pub desired_host_ports :
    (String → Option Addr)
    → List (String × List ServicePort)
    → Result PortError (List HostPortClaim)
unfolding service_claims sort_claims
desired_host_ports parse_addr services = do
  claims ← service_claims parse_addr services
  ok (sort_claims claims)

-- A port of a container as ContainerList shows it.
pub record PublishedPort : Type 0 where
  pub public_port : ℕ
  pub ip : Addr
  pub protocol : String

pub record Item : Type 0 where
  pub id : String
  pub names : List String
  pub labels : Labels
  pub state : String
  pub ports : List PublishedPort

-- The container's own project (or service), or one that is not running, is passed over.
unfoldable pub is_passed_over : String → String → Item → Bool
is_passed_over name service item =
    label "com.docker.compose.project" item.labels =ₛ name
      && (service =ₛ "" || label "com.docker.compose.service" item.labels =ₛ service)
    || not (item.state =ₛ "running")
      && not (item.state =ₛ "paused")
      && not (item.state =ₛ "restarting")

unfoldable pub least_name : String → List String → String
unfolding text_le
least_name best [] = best
least_name best (n ∷ ns) = least_name (if text_le best n then best else n) ns

-- The first of the sorted names, without its slash.
unfoldable pub owner_name : Item → String
unfolding least_name
owner_name item = elim item.names [ [] ↦ item.id | n ∷ ns ↦ trim_prefix (least_name n ns) "/" ]

unfoldable pub actual_claim : PublishedPort → HostPortClaim
actual_claim p = record {
  first = p.public_port;
  last = p.public_port;
  address = p.ip;
  protocol = p.protocol;
  owner = "";
}

unfoldable pub meets_port : HostPortClaim → PublishedPort → Bool
unfolding overlapping_host_ports actual_claim
meets_port claim p = not (p.public_port == 0) && overlapping_host_ports claim (actual_claim p)

-- The three loops, each ending at the first clash.
unfoldable pub check_ports : HostPortClaim → Item → List PublishedPort → Result PortError (Unit {0})
unfolding meets_port owner_name
check_ports claim item [] = ok tt
check_ports claim item (p ∷ ps) =
    let rest = check_ports claim item ps in
    if meets_port claim p
    then err (already_published p.public_port claim.protocol claim.owner (owner_name item))
    else rest

unfoldable pub check_items :
    String → String → HostPortClaim → List Item → Result PortError (Unit {0})
unfolding is_passed_over check_ports
check_items name service claim [] = ok tt
check_items name service claim (i ∷ is) =
    let rest = check_items name service claim is in
    if is_passed_over name service i then rest else check_ports claim i i.ports >> rest

unfoldable pub rivals : HostPortClaim → HostPortClaim → Bool
unfolding overlapping_host_ports
rivals claim prior = not (prior.owner =ₛ claim.owner) && overlapping_host_ports prior claim

unfoldable pub check_prior : HostPortClaim → List HostPortClaim → Result PortError (Unit {0})
unfolding rivals
check_prior claim [] = ok tt
check_prior claim (p ∷ ps) =
    let rest = check_prior claim ps in
    if rivals claim p
    then err (overlap (max p.first claim.first) claim.protocol p.owner claim.owner)
    else rest

unfoldable pub check_claims :
    String
    → String
    → List Item
    → List HostPortClaim
    → List HostPortClaim
    → Result PortError (Unit {0})
unfolding check_prior check_items
check_claims name service items prior [] = ok tt
check_claims name service items prior (c ∷ cs) = do
  check_prior c prior
  check_items name service c items
  check_claims name service items (prior ++ c ∷ []) cs

-- compareServiceHostPorts, and compareHostPorts for a whole project.
abbrev pub compare_service_host_ports :
    String → String → List HostPortClaim → List Item → Result PortError (Unit {0})
compare_service_host_ports name service claims items = check_claims name service items [] claims

abbrev pub compare_host_ports :
    String → List HostPortClaim → List Item → Result PortError (Unit {0})
compare_host_ports name claims items = compare_service_host_ports name "" claims items
