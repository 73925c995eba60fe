-- ===== src/Net/Stun.antt =====
-- crates/oxutrm-net/src/stunmsg.rs: authenticated STUN messages. The codec, the HMAC and the key
-- derivation are of other crates, and parameters here.
pub mod Documented
pub mod Signed
use oxutrm.Base.{
  ℕ, ◌≡◌, Bool, true, false, List, [], ◌∷◌, ◌++◌, Option, none, some, take, drop, if◌then◌else◌,
}
use oxutrm.Proto.Frame.{Bytes}
use oxutrm.Proto.Addr.{SocketAddr}
use oxutrm.Net.Demux.{is_stun}
use oxutrm.Net.Socketfam.{unmap}

pub data IceRole : Type 0 where
  controlling controlled : IceRole

pub data Direction : Type 0 where
  client_to_host host_to_client : Direction

pub record Credential : Type 0 where
  pub ufrag : Bytes
  pub password : Bytes

pub record IceCredentials : Type 0 where
  pub c2h : Credential
  pub h2c : Credential

-- The texts "oxutrm ice c2h" and "oxutrm ice h2c" are what the direction stands for: `expand` is
-- HKDF over them and the key, in base64.
unfoldable pub derive_one : (Bytes → Direction → Bytes) → Bytes → Direction → Credential
derive_one expand psk info =
    let s = expand psk info in record { ufrag = take 8 s; password = drop 8 s }

unfoldable pub derive : (Bytes → Direction → Bytes) → Bytes → IceCredentials
derive expand psk = record {
  c2h = derive_one expand psk client_to_host;
  h2c = derive_one expand psk host_to_client;
}

unfoldable pub outbound : IceRole → Direction
outbound controlling = client_to_host
outbound controlled = host_to_client

unfoldable pub inbound : IceRole → Direction
inbound controlling = host_to_client
inbound controlled = client_to_host

unfoldable pub cred : IceCredentials → Direction → Credential
cred c client_to_host = c.c2h
cred c host_to_client = c.h2c

abbrev pub password : IceCredentials → Direction → Bytes
password c d = (cred c d).password

unfoldable pub username : IceCredentials → Direction → Bytes
username c client_to_host = c.h2c.ufrag ++ b':' ∷ c.c2h.ufrag
username c host_to_client = c.c2h.ufrag ++ b':' ∷ c.h2c.ufrag

pub data CheckKind : Type 0 where
  request success_response nomination : CheckKind

abbrev pub Tid : Type 0
Tid = Bytes

pub record Check : Type 0 where
  pub kind : CheckKind
  pub tid : Tid
  pub reflexive : Option SocketAddr

-- A message as the codec has it.
pub data MessageClass : Type 0 where
  request indication success_response error_response : MessageClass

pub data Attribute (Mac : Type 0) : Type 0 where
  name : Bytes → Attribute Mac
  xor_mapped : SocketAddr → Attribute Mac
  integrity : Mac → Attribute Mac

pub record Message (Mac : Type 0) : Type 0 where
  pub class : MessageClass
  pub is_binding : Bool
  pub transaction : Tid
  pub attributes : List (Attribute Mac)

-- stun_codec: encoding, decoding, and signing a message with a password. `check` is given the whole
-- decoded message, whose signature covers what stands before it.
pub record Codec : Type 1 where
  pub Mac : Type 0
  pub encode : Message Mac → Option Bytes
  pub decode : Bytes → Option (Message Mac)
  pub new_name : Bytes → Option Bytes
  pub sign : Message Mac → Bytes → Option Mac
  pub check : Message Mac → Mac → Bytes → Bool

module _ {Mac : Type 0} where
  unfoldable pub integrity_of : List (Attribute Mac) → Option Mac
  integrity_of [] = none
  integrity_of (name n ∷ rest) = integrity_of rest
  integrity_of (xor_mapped a ∷ rest) = integrity_of rest
  integrity_of (integrity mac ∷ rest) = some mac

  unfoldable pub xor_mapped_of : List (Attribute Mac) → Option SocketAddr
  xor_mapped_of [] = none
  xor_mapped_of (name n ∷ rest) = xor_mapped_of rest
  xor_mapped_of (xor_mapped a ∷ rest) = some a
  xor_mapped_of (integrity mac ∷ rest) = xor_mapped_of rest

  unfoldable pub add_attribute : Attribute Mac → Message Mac → Message Mac
  add_attribute a msg = record msg { attributes = msg.attributes ++ a ∷ [] }

  unfoldable pub new : MessageClass → Tid → Message Mac
  new class tid = record { class = class; is_binding = true; transaction = tid; attributes = [] }

infixl 5 ◌>>=◌
abbrev pub ◌>>=◌ {ℓ κ} : {A : Type ℓ} {B : Type κ} → Option A → (A → Option B) → Option B
none >>= step = none
some x >>= step = step x

unfoldable pub kind_of : MessageClass → Option CheckKind
kind_of MessageClass.request = some CheckKind.request
kind_of MessageClass.success_response = some CheckKind.success_response
kind_of indication = some nomination
kind_of error_response = none

module _ (stun : Codec) (c : IceCredentials) (d : Direction) where
  open stun use {Mac, encode, decode, new_name, sign, check}

  unfoldable pub finish : Message Mac → Option Bytes
  unfolding add_attribute
  finish msg = do mac ← sign msg (password c d); encode (add_attribute (integrity mac) msg)

  unfoldable pub build_check_request : Tid → Option Bytes
  unfolding finish new
  build_check_request tid = do
    n ← new_name (username c d)
    finish (add_attribute (name n) (new MessageClass.request tid))

  unfoldable pub build_check_response : Tid → SocketAddr → Option Bytes
  unfolding finish new
  build_check_response tid reflexive =
      finish (add_attribute (xor_mapped reflexive) (new MessageClass.success_response tid))

  unfoldable pub build_nomination : Tid → Option Bytes
  unfolding finish new
  build_nomination tid = do
    n ← new_name (username c d)
    finish (add_attribute (name n) (new indication tid))

  -- What is made of a decoded message.
  unfoldable pub verify : Message Mac → Option Check
  unfolding integrity_of xor_mapped_of kind_of
  verify msg =
      if msg.is_binding
      then (do
        mac ← integrity_of msg.attributes
        if check msg mac (password c d)
            then (do
              kind ← kind_of msg.class
              some record {
                kind = kind;
                tid = msg.transaction;
                reflexive = xor_mapped_of msg.attributes >>= λ a. some (unmap a);
              })
            else none)
      else none

  unfoldable pub parse_check : Bytes → Option Check
  unfolding verify
  parse_check datagram = if is_stun datagram then decode datagram >>= verify else none
