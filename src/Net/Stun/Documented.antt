-- ===== src/Net/Stun/Documented.antt =====
-- What stunmsg.rs relies on: the STUN codec, the HMAC and the key derivation, as they are documented.
use oxutrm.Base.{◌≡◌, ◌≢◌, sym, true, false, some, length, drop, map, length-drop, arith}
use oxutrm.Proto.Frame.{Bytes}
use oxutrm.Proto.Addr.{SocketAddr, v4, v6}
use oxutrm.Net.Demux.{is_stun}
use oxutrm.Net.Stun.{
  IceRole, controlling, controlled, Direction, client_to_host, host_to_client, derive, derive_one,
  cred, Attribute, outbound, inbound, password, integrity, name, xor_mapped, Message, Codec,
  add_attribute,
}

abbrev pub peer : IceRole → IceRole
peer controlling = controlled
peer controlled = controlling

-- What an attribute carries of an address: XOR-MAPPED-ADDRESS has the address and the port, and no
-- field for an IPv6 address's flow label and scope.
unfoldable pub carried : SocketAddr → SocketAddr
carried (v4 address port) = v4 address port
carried (v6 address port flowinfo scope) = v6 address port 0 0

module _ {Mac : Type 0} where
  abbrev pub carried_attribute : Attribute Mac → Attribute Mac
  carried_attribute (name n) = name n
  carried_attribute (xor_mapped a) = xor_mapped (carried a)
  carried_attribute (integrity mac) = integrity mac

  -- The message that the other end decodes.
  abbrev pub on_wire : Message Mac → Message Mac
  on_wire msg = record msg { attributes = map carried_attribute msg.attributes }

-- What is documented of the codec and the HMAC: encoding makes a STUN message that decodes to what it
-- was made of, as far as its attributes carry that; a signature holds under the password that made
-- it.
pub record Documented (stun : Codec) : Type 0 where
  pub encoded : (msg : Message stun.Mac) (b : Bytes) → stun.encode msg ≡ some b → is_stun b ≡ true
  pub decoded :
      (msg : Message stun.Mac) (b : Bytes)
      → stun.encode msg ≡ some b
      → stun.decode b ≡ some (on_wire msg)
  pub signed :
      (msg : Message stun.Mac) (key : Bytes) (mac : stun.Mac)
      → stun.sign msg key ≡ some mac
      → stun.check (on_wire (add_attribute (integrity mac) msg)) mac key ≡ true

-- A signature holds under no other password of the same length.
abbrev pub Unforged : Codec → Type 0
Unforged stun =
    (msg : Message stun.Mac) (key other : Bytes) (mac : stun.Mac)
    → stun.sign msg key ≡ some mac
    → length other ≡ length key
    → other ≢ key
    → stun.check (on_wire (add_attribute (integrity mac) msg)) mac other ≡ false

-- HKDF and base64, for one key: 43 characters for either info, and not the same password.
pub record Independent (expand : Bytes → Direction → Bytes) (psk : Bytes) : Type 0 where
  pub sized : (info : Direction) → length (expand psk info) ≡ 43
  pub apart : drop 8 (expand psk client_to_host) ≢ drop 8 (expand psk host_to_client)

-- What an end signs with and what it expects of its peer are two passwords.
pub derive-apart :
    (expand : Bytes → Direction → Bytes) (psk : Bytes) (independent : Independent expand psk)
    (me : IceRole)
    → (length (password (derive expand psk) (inbound me))
        ≡ length (password (derive expand psk) (outbound me)))
      × (password (derive expand psk) (inbound me) ≢ password (derive expand psk) (outbound me))
unfolding derive derive_one cred inbound outbound
derive-apart expand psk independent controlling = (
  omega (
    arith,
    length-drop 8 (expand psk client_to_host),
    length-drop 8 (expand psk host_to_client),
    independent.sized client_to_host,
    independent.sized host_to_client,
  ),
  (λ e. independent.apart (sym e)),
)
derive-apart expand psk independent controlled = (
  omega (
    arith,
    length-drop 8 (expand psk client_to_host),
    length-drop 8 (expand psk host_to_client),
    independent.sized client_to_host,
    independent.sized host_to_client,
  ),
  independent.apart,
)
