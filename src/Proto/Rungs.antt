-- ===== src/Proto/Rungs.antt =====
-- crates/oxutrm-proto/src/types.rs: candidates, address families and the rungs of the ladder.
use oxutrm.Base.{ℕ, Option, none, some, List, [], ◌∷◌, if◌then◌else◌}
use oxutrm.Proto.Addr.{SocketAddr, v4, v6, is_mapped}

pub data CandidateKind : Type 0 where
  host port_mapped server_reflexive peer_reflexive : CandidateKind

pub data NatType : Type 0 where
  unnatted endpoint_independent address_dependent symmetric unknown : NatType

pub data Family : Type 0 where
  ipv4 ipv6 : Family

pub record FamilyNat : Type 0 where
  pub v4 : NatType
  pub v6 : NatType

unfoldable pub get : FamilyNat → Family → NatType
get nat ipv4 = nat.v4
get nat ipv6 = nat.v6

abbrev pub both : List Family
both = ipv6 ∷ ipv4 ∷ []

unfoldable pub family_of : SocketAddr → Family
family_of (v4 address port) = ipv4
family_of (v6 address port flowinfo scope) = if is_mapped address then ipv4 else ipv6

pub data Rung : Type 0 where
  direct mapped punched birthday : Family → Rung
  ssh_tunnel : Rung

abbrev pub all : List Rung
all =
    direct ipv6
    ∷ direct ipv4
    ∷ mapped ipv6
    ∷ mapped ipv4
    ∷ punched ipv6
    ∷ punched ipv4
    ∷ birthday ipv6
    ∷ birthday ipv4
    ∷ ssh_tunnel
    ∷ []

unfoldable pub family : Rung → Option Family
family (direct f) = some f
family (mapped f) = some f
family (punched f) = some f
family (birthday f) = some f
family ssh_tunnel = none

unfoldable pub method_number : Rung → ℕ
method_number (direct f) = 0
method_number (mapped f) = 1
method_number (punched f) = 2
method_number (birthday f) = 3
method_number ssh_tunnel = 4

unfoldable pub of_candidate : CandidateKind → SocketAddr → Rung
of_candidate port_mapped remote = mapped (family_of remote)
of_candidate host remote = direct (family_of remote)
of_candidate server_reflexive remote = punched (family_of remote)
of_candidate peer_reflexive remote = punched (family_of remote)

pub record Candidate : Type 0 where
  pub addr : SocketAddr
  pub kind : CandidateKind
  pub priority : ℕ
