-- ===== src/Examples/Signing.antt =====
-- A codec of three messages, for one end's checks.
use mathlib.Core.Logic.{◌↔◌}
use oxutrm.Base.{
  ℕ, ◌≡◌, refl, sym, ap, subst, ◌∙◌, Bool, true, false, ◌&&◌, List, [], ◌∷◌, ◌++◌, Option, none,
  some, inl, inr, if◌then◌else◌, Bool-cases, replicate, length, arith,
}
use oxutrm.Proto.Frame.{Bytes}
use oxutrm.Proto.Addr.{SocketAddr, v4, v6, agrees, agrees→eq, same, same→eq}
use oxutrm.Net.Socketfam.{unmap}
use oxutrm.Net.Demux.{is_stun, IsStun, is_stun_iff, byte}
use oxutrm.Net.Stun.{
  controlling, inbound, outbound, IceCredentials, Direction, client_to_host, host_to_client, derive,
  derive_one, CheckKind, MessageClass, Attribute, name, xor_mapped, integrity, Message, Codec,
  build_check_request, build_check_response, build_nomination, parse_check, username, cred,
}
use oxutrm.Net.Ice.{new, on_datagram}
use oxutrm.Net.Ice.Strangers.{stun_messages, own_request, datagram_ignored}
use oxutrm.Net.Stun.Documented.{Documented, Unforged, Independent, carried, on_wire, peer}
use oxutrm.Net.Stun.Signed.{signed_round_trip, reflected_refused}

-- A header with no attributes: only the type differs.
abbrev header : ℕ → ℕ → Bytes
header hi lo = hi ∷ lo ∷ 0 ∷ 0 ∷ 0x21 ∷ 0x12 ∷ 0xa4 ∷ 0x42 ∷ replicate 12 7

-- With a flow label and a scope, and as an attribute carries it.
abbrev seen : SocketAddr
seen = v6 1 2 3 4

abbrev seen_carried : SocketAddr
seen_carried = v6 1 2 0 0

-- HKDF, of another output for either info.
abbrev expand : Bytes → Direction → Bytes
expand psk client_to_host = replicate 43 1
expand psk host_to_client = replicate 43 2

abbrev key : Bytes
key = replicate 35 1

abbrev creds : IceCredentials
creds = derive expand []

abbrev user : Bytes
user = replicate 8 2 ++ b':' ∷ replicate 8 1

abbrev made : MessageClass → Attribute Bytes → Message Bytes
made class a = record {
  class = class;
  is_binding = true;
  transaction = 7 ∷ [];
  attributes = a ∷ integrity key ∷ [];
}

abbrev same_attribute : Attribute Bytes → Attribute Bytes → Bool
same_attribute (name n) (name m) = agrees n m
same_attribute (xor_mapped a) (xor_mapped b) = same a b
same_attribute (integrity k) (integrity l) = agrees k l
same_attribute (name n) (xor_mapped b) = false
same_attribute (name n) (integrity l) = false
same_attribute (xor_mapped a) (name m) = false
same_attribute (xor_mapped a) (integrity l) = false
same_attribute (integrity k) (name m) = false
same_attribute (integrity k) (xor_mapped b) = false

same_attribute→eq : (a b : Attribute Bytes) → same_attribute a b ≡ true → a ≡ b
same_attribute→eq (name n) (name m) h = ap (λ (x : Bytes). name x) (agrees→eq n m h)
same_attribute→eq (xor_mapped a) (xor_mapped b) h = ap (λ x. xor_mapped x) (same→eq a b h)
same_attribute→eq (integrity k) (integrity l) h = ap (λ (x : Bytes). integrity x) (agrees→eq k l h)
same_attribute→eq (name n) (xor_mapped b) h = absurd (cc)
same_attribute→eq (name n) (integrity l) h = absurd (cc)
same_attribute→eq (xor_mapped a) (name m) h = absurd (cc)
same_attribute→eq (xor_mapped a) (integrity l) h = absurd (cc)
same_attribute→eq (integrity k) (name m) h = absurd (cc)
same_attribute→eq (integrity k) (xor_mapped b) h = absurd (cc)

abbrev same_attributes : List (Attribute Bytes) → List (Attribute Bytes) → Bool
same_attributes [] [] = true
same_attributes [] (b ∷ bs) = false
same_attributes (a ∷ as') [] = false
same_attributes (a ∷ as') (b ∷ bs) = same_attribute a b && same_attributes as' bs

same_attributes→eq : (xs ys : List (Attribute Bytes)) → same_attributes xs ys ≡ true → xs ≡ ys
same_attributes→eq [] [] h = refl
same_attributes→eq [] (b ∷ bs) h = absurd (cc)
same_attributes→eq (a ∷ xs) [] h = absurd (cc)
same_attributes→eq (a ∷ xs) (b ∷ bs) h =
    ground (arith, same_attribute→eq a b, same_attributes→eq xs bs)

abbrev is_made : Message Bytes → Attribute Bytes → Bool
is_made msg a =
    msg.is_binding
    && agrees msg.transaction (7 ∷ [])
    && same_attributes msg.attributes (a ∷ integrity key ∷ [])

made_eq :
    (msg : Message Bytes) (class : MessageClass) (a : Attribute Bytes)
    → msg.class ≡ class
    → is_made msg a ≡ true
    → msg ≡ made class a
made_eq msg class a k h = ground (
  arith,
  agrees→eq msg.transaction (7 ∷ []),
  same_attributes→eq msg.attributes (a ∷ integrity key ∷ []),
)

abbrev encode_as : MessageClass → Message Bytes → Option Bytes
encode_as MessageClass.request msg = if is_made msg (name user) then some (header 0 1) else none
encode_as MessageClass.indication msg = if is_made msg (name user) then some (header 0 17) else none
encode_as MessageClass.success_response msg =
    if is_made msg (xor_mapped seen_carried) then some (header 1 1) else none
encode_as MessageClass.error_response msg = none

abbrev read : Bytes → Option (Message Bytes)
read datagram =
    if agrees datagram (header 0 1)
    then some (made MessageClass.request (name user))
    else if agrees datagram (header 0 17)
    then some (made MessageClass.indication (name user))
    else if agrees datagram (header 1 1)
    then some (made MessageClass.success_response (xor_mapped seen_carried))
    else none

abbrev codec : Codec
codec = record {
  Mac = Bytes;
  encode = λ msg. encode_as msg.class (on_wire msg);
  decode = read;
  new_name = λ n. some n;
  sign = λ msg secret. some secret;
  check = λ msg mac secret. agrees mac secret;
}

agrees_refl : (xs : Bytes) → agrees xs xs ≡ true
unfolding agrees
agrees_refl [] = refl
agrees_refl (x ∷ xs) = ground (arith, agrees_refl xs)

from_made :
    (class : MessageClass) (a : Attribute Bytes) (frame : Bytes) (msg : Message Bytes) (b : Bytes)
    → is_stun frame ≡ true
    → read frame ≡ some (made class a)
    → msg.class ≡ class
    → (if is_made msg a then some frame else none) ≡ some b
    → (is_stun b ≡ true) × (read b ≡ some msg)
from_made class a frame msg b shape back k h = elim (Bool-cases (is_made msg a)) [
  | inl e ↦
      let sent : ◌≡◌ {A = Option Bytes} (some frame) (some b) = (rw e at h) in
      let is : frame ≡ b = cc in
      let whole : made class a ≡ msg = sym (made_eq msg class a k e) in
      (
        subst (λ (r : Bytes). is_stun r ≡ true) is shape,
        subst (λ (r : Bytes). read r ≡ some msg) is
            (back ∙ ap (λ (m : Message Bytes). let o : Option (Message Bytes) = some m in o) whole),
      )
  | inr e ↦ absurd (let clash : ◌≡◌ {A = Option Bytes} none (some b) = (rw e at h) in cc)
]

reads_back :
    (class : MessageClass) (msg : Message Bytes) (b : Bytes)
    → msg.class ≡ class
    → encode_as class msg ≡ some b
    → (is_stun b ≡ true) × (read b ≡ some msg)
unfolding is_stun agrees byte
reads_back MessageClass.request msg b k h =
    from_made MessageClass.request (name user) (header 0 1) msg b refl refl k h
reads_back MessageClass.indication msg b k h =
    from_made MessageClass.indication (name user) (header 0 17) msg b refl refl k h
reads_back MessageClass.success_response msg b k h =
    from_made MessageClass.success_response (xor_mapped seen_carried) (header 1 1) msg b refl refl k
      h
reads_back MessageClass.error_response msg b k h = absurd (cc)

as_documented : Documented codec
unfolding carried
as_documented = record {
  encoded = λ msg b h. (reads_back msg.class (on_wire msg) b refl h).0;
  decoded = λ msg b h. (reads_back msg.class (on_wire msg) b refl h).1;
  signed = λ msg secret mac h.
      let is : ◌≡◌ {A = Option Bytes} (some secret) (some mac) = h in
      let k : secret ≡ mac = cc in
      subst (λ (r : Bytes). agrees mac r ≡ true) (sym k) (agrees_refl mac);
}

unforged : Unforged codec
unforged msg secret other mac h alike apart = elim (Bool-cases (agrees mac other)) [
  | inl e ↦
      let is : ◌≡◌ {A = Option Bytes} (some secret) (some mac) = h in
      let k : secret ≡ mac = cc in absurd (apart (sym (k ∙ agrees→eq mac other e)))
  | inr e ↦ e
]

expand-length : (info : Direction) → length (expand [] info) ≡ 43
expand-length client_to_host = refl
expand-length host_to_client = refl

independent : Independent expand []
independent = record { sized = expand-length; apart = λ e. cc }

signed_round_trip_example :
    (parse_check codec creds (inbound (peer controlling)) (header 0 1)
      ≡ some record { kind = CheckKind.request; tid = 7 ∷ []; reflexive = none })
    × (parse_check codec creds (inbound (peer controlling)) (header 0 17)
        ≡ some record { kind = CheckKind.nomination; tid = 7 ∷ []; reflexive = none })
    × (parse_check codec creds (outbound controlling) (header 1 1)
        ≡ some record {
          kind = CheckKind.success_response;
          tid = 7 ∷ [];
          reflexive = some (unmap (carried seen));
        })
unfolding build_check_request build_check_response build_nomination agrees inbound outbound username
    cred derive carried derive_one
signed_round_trip_example =
    signed_round_trip codec as_documented creds controlling (7 ∷ []) seen (header 0 1) (header 0 17)
      (header 1 1) refl refl refl

reflected_refused_example :
    (parse_check codec creds (inbound controlling) (header 0 1) ≡ none)
    × (parse_check codec creds (inbound controlling) (header 0 17) ≡ none)
unfolding build_check_request build_nomination agrees inbound outbound username cred derive
    derive_one
reflected_refused_example =
    reflected_refused codec as_documented unforged expand [] independent controlling (7 ∷ [])
      (header 0 1) (header 0 17) refl refl

-- Its own request, come back.
datagram_ignored_example :
    on_datagram (stun_messages codec creds) seen 40 (v4 1 2) (header 0 1) (new controlling 3000)
    ≡ (new controlling 3000, none, [])
unfolding build_check_request agrees outbound username cred derive new derive_one
datagram_ignored_example =
    datagram_ignored codec as_documented unforged expand [] independent seen 40 (v4 1 2)
      (new controlling 3000) (header 0 1) (own_request (7 ∷ []) refl)

is_stun_iff_example : (is_stun (header 0 1) ≡ true) ↔ IsStun (header 0 1)
is_stun_iff_example = is_stun_iff (header 0 1) (ground arith)
