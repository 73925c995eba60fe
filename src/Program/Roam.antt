-- ===== src/Program/Roam.antt =====
-- src/roam.rs: whether this machine's route to its peer has moved.
use mathlib.Core.Logic.{◌↔◌}
use oxutrm.Base.{
  ℕ, ◌^◌, ◌<◌, ◌≡◌, ◌≢◌, refl, sym, ap, subst, ◌∙◌, Bool, true, false, not, inl, inr, Option, none,
  some, ◌==◌, if◌then◌else◌, Bool-cases, arith,
}
use oxutrm.Proto.Addr.{Ip, ipv4, ipv6, mapped}
use oxutrm.Net.Socketfam.{unmap_ip}

unfoldable pub is_unspecified : Ip → Bool
is_unspecified (ipv4 address) = address == 0
is_unspecified (ipv6 address) = address == 0

unfoldable pub same_ip : Ip → Ip → Bool
same_ip (ipv4 a) (ipv4 b) = a == b
same_ip (ipv4 a) (ipv6 b) = false
same_ip (ipv6 a) (ipv4 b) = false
same_ip (ipv6 a) (ipv6 b) = a == b

pub record RouteWatch : Type 0 where
  pub baseline : Option Ip

-- `filter(|ip| !ip.is_unspecified())`.
abbrev pub specified : Ip → Option Ip
specified address = if is_unspecified address then none else some address

unfoldable pub new : Option Ip → RouteWatch
unfolding is_unspecified unmap_ip
new none = record { baseline = none }
new (some address) = record { baseline = specified (unmap_ip address) }

abbrev pub differs : Option Ip → Ip → Bool
differs none seen = false
differs (some base) seen = not (same_ip base seen)

unfoldable pub moved : Ip → RouteWatch → Bool
unfolding is_unspecified same_ip unmap_ip
moved seen w = if is_unspecified (unmap_ip seen) then false else differs w.baseline (unmap_ip seen)

unfoldable pub settle : Ip → RouteWatch → RouteWatch
unfolding is_unspecified unmap_ip
settle seen w =
    if is_unspecified (unmap_ip seen) then w else record { baseline = some (unmap_ip seen) }

same_ip_refl : (a : Ip) → same_ip a a ≡ true
unfolding same_ip
same_ip_refl (ipv4 a) = ground arith
same_ip_refl (ipv6 a) = ground arith

same_ip→eq : (a b : Ip) → same_ip a b ≡ true → a ≡ b
unfolding same_ip
same_ip→eq (ipv4 a) (ipv4 b) h = ground arith
same_ip→eq (ipv4 a) (ipv6 b) h = absurd (cc)
same_ip→eq (ipv6 a) (ipv4 b) h = absurd (cc)
same_ip→eq (ipv6 a) (ipv6 b) h = ground arith

moved_cases :
    (base seen : Ip)
    → is_unspecified seen ≡ false
    → (base ≡ seen → not (same_ip base seen) ≡ false)
      × (base ≢ seen → not (same_ip base seen) ≡ true)
moved_cases base seen h = (
  (λ e. ap not (subst (λ b. same_ip b seen ≡ true) (sym e) (same_ip_refl seen))),
  (λ apart. elim (Bool-cases (same_ip base seen)) [
    | inl e ↦ absurd (apart (same_ip→eq base seen e))
    | inr e ↦ ap not e
  ]),
)

differs_iff :
    (base seen : Ip)
    → ((if is_unspecified seen then false else not (same_ip base seen)) ≡ true)
      ↔ ((is_unspecified seen ≡ false) × (base ≢ seen))
differs_iff base seen = (
  (λ t. elim (Bool-cases (is_unspecified seen)) [
    | inl u ↦ absurd (let clash : false ≡ true = (rw u at t) in cc)
    | inr u ↦
        let t' : not (same_ip base seen) ≡ true = (rw u at t) in
        (u, (λ e. let f = (moved_cases base seen u).0 e in cc (sym t' ∙ f)))
  ]),
  (λ (u, apart). rw u ((moved_cases base seen u).1 apart)),
)

wildcard_kept :
    (wild : Ip) (w : RouteWatch) → is_unspecified (unmap_ip wild) ≡ true → settle wild w ≡ w
unfolding settle
wildcard_kept wild w h = rw h refl

unmapped_plain : (address : ℕ) → address < 2 ^ 32 → unmap_ip (ipv6 (mapped address)) ≡ ipv4 address
unfolding unmap_ip
unmapped_plain address h = ground arith

-- From any watch, once a probe's address is adopted that is not the wildcard: another probe asks for a
-- rebind exactly if it names an address, not the wildcard, and another one than was adopted, with
-- mapped addresses made plain. The address that was adopted does not ask again; an IPv4 address asks
-- in its mapped form as in its plain one; and a later wildcard, of either family, is not adopted.
pub moved-settle :
    (adopted seen : Ip) (w : RouteWatch) (address : ℕ)
    → is_unspecified (unmap_ip adopted) ≡ false
    → address < 2 ^ 32
    → ((moved seen (settle adopted w) ≡ true)
        ↔ ((is_unspecified (unmap_ip seen) ≡ false) × (unmap_ip adopted ≢ unmap_ip seen)))
      × (moved adopted (settle adopted w) ≡ false)
      × (moved (ipv6 (mapped address)) (settle adopted w) ≡ moved (ipv4 address) (settle adopted w))
      × (settle (ipv4 0) (settle adopted w) ≡ settle adopted w)
      × (settle (ipv6 0) (settle adopted w) ≡ settle adopted w)
unfolding moved settle
moved-settle adopted seen w address h bound = rw h (
  differs_iff (unmap_ip adopted) (unmap_ip seen),
  (moved_cases (unmap_ip adopted) (unmap_ip adopted) h).0 refl,
  ap (λ v. if is_unspecified v then false else not (same_ip (unmap_ip adopted) v))
      (unmapped_plain address bound),
  wildcard_kept (ipv4 0) _ refl,
  wildcard_kept (ipv6 0) _ refl,
)
