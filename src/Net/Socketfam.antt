-- ===== src/Net/Socketfam.antt =====
-- crates/oxutrm-net/src/socketfam.rs: keeping mapped addresses straight.
use oxutrm.Base.{ℕ, ◌^◌, ◌<◌, ◌≡◌, refl, if◌then◌else◌, ◌||◌, arith, Bool-cases, inl, inr}
use oxutrm.Proto.Addr.{Ip, ipv4, ipv6, SocketAddr, ip, is_ipv6, v4, v6, is_mapped, mapped, unmapped}

unfoldable pub to_socket_family : SocketAddr → SocketAddr → SocketAddr
to_socket_family (v6 l lp lf ls) (v4 address port) = v6 (mapped address) port 0 0
to_socket_family (v6 l lp lf ls) (v6 address port flowinfo scope) = v6 address port flowinfo scope
to_socket_family (v4 l lp) peer = peer

unfoldable pub unmap : SocketAddr → SocketAddr
unmap (v6 address port flowinfo scope) =
    if is_mapped address then v4 (unmapped address) port else v6 address port flowinfo scope
unmap (v4 address port) = v4 address port

unfoldable pub unmap_ip : Ip → Ip
unmap_ip (ipv6 address) = if is_mapped address then ipv4 (unmapped address) else ipv6 address
unmap_ip (ipv4 address) = ipv4 address

-- An IPv4 address has 32 bits.
abbrev pub IsAddress : SocketAddr → Type 0
IsAddress (v4 address port) = address < 2 ^ 32
IsAddress (v6 address port flowinfo scope) = address < 2 ^ 128

unmap-unmap : (a p f s : ℕ) → unmap (unmap (v6 a p f s)) ≡ unmap (v6 a p f s)
unfolding unmap
unmap-unmap a p f s = elim (Bool-cases (is_mapped a)) [
  | inl e ↦ rw e refl
  | inr e ↦ rw e (rw e refl)
]

-- For an address of the right width: what a datagram is sent to is of the socket's own family, mapped if
-- need be, unless the socket is IPv4 and the peer IPv6, which no form reaches; it reads back, at any
-- socket, as the address that the agent means; and reading it again changes nothing.
pub unmap-to_socket_family :
    (local peer : SocketAddr)
    → IsAddress peer
    → (is_ipv6 (ip (to_socket_family local peer)) ≡ (is_ipv6 (ip local) || is_ipv6 (ip peer)))
      × (unmap (to_socket_family local peer) ≡ unmap peer)
      × (unmap (unmap peer) ≡ unmap peer)
unfolding unmap to_socket_family is_ipv6 ip
unmap-to_socket_family (v4 l lp) (v4 a p) h = (refl, refl, refl)
unmap-to_socket_family (v6 l lp lf ls) (v4 a p) h = (refl, ground arith, refl)
unmap-to_socket_family (v4 l lp) (v6 a p f s) h = (refl, refl, unmap-unmap a p f s)
unmap-to_socket_family (v6 l lp lf ls) (v6 a p f s) h = (refl, refl, unmap-unmap a p f s)
