-- ===== src/Net/Priority.antt =====
-- crates/oxutrm-net/src/candidates.rs: in what order addresses are tried, and which are of no use.
use oxutrm.Base.{
  ℕ, ◌*◌, ◌/◌, ◌^◌, ◌<◌, ◌≡◌, refl, Bool, true, false, ◌||◌, if◌then◌else◌, ◌==◌, ltb, arith,
  bit_and,
}
use Prim.Native.Nat.{bit_or}
use oxutrm.Proto.Addr.{Ip, ipv4, ipv6, is_ipv6}
use oxutrm.Proto.Rungs.{CandidateKind, host, port_mapped, server_reflexive, peer_reflexive}

abbrev pub pref_host_v6 : ℕ
pref_host_v6 = 126

abbrev pub pref_host_v4 : ℕ
pref_host_v4 = 110

abbrev pub pref_port_mapped : ℕ
pref_port_mapped = 100

abbrev pub pref_server_reflexive : ℕ
pref_server_reflexive = 90

abbrev pub pref_peer_reflexive : ℕ
pref_peer_reflexive = 80

unfoldable pub type_pref : CandidateKind → Bool → ℕ
type_pref host wide = if wide then pref_host_v6 else pref_host_v4
type_pref port_mapped wide = pref_port_mapped
type_pref server_reflexive wide = pref_server_reflexive
type_pref peer_reflexive wide = pref_peer_reflexive

unfoldable pub local_pref : Bool → ℕ
local_pref wide = if wide then 65535 else 32768

unfoldable pub ice_priority : CandidateKind → Ip → ℕ
unfolding type_pref local_pref
ice_priority kind address =
    bit_or
      (bit_or (type_pref kind (is_ipv6 address) * 2 ^ 24) (local_pref (is_ipv6 address) * 2 ^ 8))
      255

-- 169.254.0.0/16 and fe80::/10.
unfoldable pub is_link_local : Ip → Bool
is_link_local (ipv4 address) = address / 2 ^ 16 == 0xa9fe
is_link_local (ipv6 address) = bit_and (address / 2 ^ 112) 0xffc0 == 0xfe80

unfoldable pub is_never_useful : Ip → Bool
is_never_useful (ipv4 address) = address == 0 || address == 0xffff_ffff || address / 2 ^ 28 == 0xe
is_never_useful (ipv6 address) = address == 0 || address / 2 ^ 120 == 0xff

-- The design's ranking: a kind before the next, a host's IPv6 address before its IPv4 one, and IPv6
-- before IPv4 within every other kind.
unfoldable pub rank : CandidateKind → Bool → ℕ
rank host true = 7
rank host false = 6
rank port_mapped true = 5
rank port_mapped false = 4
rank server_reflexive true = 3
rank server_reflexive false = 2
rank peer_reflexive true = 1
rank peer_reflexive false = 0

-- The eight priorities, by rank.
weight : ℕ → ℕ
weight r =
    if r == 7
    then 2130706431
    else if r == 6
    then 1853882623
    else if r == 5
    then 1694498815
    else if r == 4
    then 1686110463
    else if r == 3
    then 1526726655
    else if r == 2
    then 1518338303
    else if r == 1
    then 1358954495
    else 1350566143

weight_order :
    (r q : ℕ)
    → r < 8
    → q < 8
    → (ltb (weight r) (weight q) ≡ ltb r q) × (0 < weight r) × (weight r < 2 ^ 31)
unfolding weight
weight_order r q h k = ground arith

rank-lt : (k : CandidateKind) (wide : Bool) → rank k wide < 8
unfolding rank
rank-lt host true = omega arith
rank-lt host false = omega arith
rank-lt port_mapped true = omega arith
rank-lt port_mapped false = omega arith
rank-lt server_reflexive true = omega arith
rank-lt server_reflexive false = omega arith
rank-lt peer_reflexive true = omega arith
rank-lt peer_reflexive false = omega arith

ice_priority-weight : (k : CandidateKind) (a : Ip) → ice_priority k a ≡ weight (rank k (is_ipv6 a))
unfolding ice_priority weight rank is_ipv6
ice_priority-weight host (ipv4 a) = refl
ice_priority-weight host (ipv6 a) = refl
ice_priority-weight port_mapped (ipv4 a) = refl
ice_priority-weight port_mapped (ipv6 a) = refl
ice_priority-weight server_reflexive (ipv4 a) = refl
ice_priority-weight server_reflexive (ipv6 a) = refl
ice_priority-weight peer_reflexive (ipv4 a) = refl
ice_priority-weight peer_reflexive (ipv6 a) = refl

-- The priorities of two candidates stand in the order of the ranking, exactly: a kind of candidate
-- before the next whatever the family, IPv6 before IPv4 within a kind, and equal only if both agree.
-- A priority fits an unsigned word of 31 bits, and is never the 0 of an unknown pair.
pub ice_priority-rank :
    (k m : CandidateKind) (a b : Ip)
    → (ltb (ice_priority k a) (ice_priority m b) ≡ ltb (rank k (is_ipv6 a)) (rank m (is_ipv6 b)))
      × (0 < ice_priority k a)
      × (ice_priority k a < 2 ^ 31)
ice_priority-rank k m a b =
    rw (ice_priority-weight k a, ice_priority-weight m b)
      (weight_order (rank k (is_ipv6 a)) (rank m (is_ipv6 b)) (rank-lt k (is_ipv6 a))
        (rank-lt m (is_ipv6 b)))
