-- ===== src/Net/Ice/Strangers.antt =====
-- Which datagrams an agent does not heed, with the messages of stunmsg.rs.
use oxutrm.Base.{ℕ, ◌≡◌, refl, sym, ap, inl, inr, false, [], Option, none, some, Bool-cases}
use oxutrm.Proto.Frame.{Bytes}
use oxutrm.Proto.Addr.{SocketAddr}
use oxutrm.Net.Demux.{is_stun}
use oxutrm.Net.Stun.{
  controlling, Direction, IceCredentials, derive, password, inbound, outbound, Check, Tid, Message,
  Codec, integrity_of, verify, parse_check, build_check_request, build_check_response,
  build_nomination,
}
use oxutrm.Net.Stun.Documented.{peer, Documented, Unforged, Independent, derive-apart}
use oxutrm.Net.Stun.Signed.{
  outbound-peer, inbound-peer, request_read, nomination_read, response_read, request_refused,
  nomination_refused, response_refused,
}
use oxutrm.Net.Ice.Tables.{asked}
use oxutrm.Net.Ice.{
  Messages, IceAgent, on_datagram, on_checks, on_peer, on_own, on_asked, on_nomination,
}

-- What an agent with these credentials builds and reads.
abbrev pub stun_messages : Codec → IceCredentials → Messages
stun_messages stun c = record {
  request = build_check_request stun c;
  response = build_check_response stun c;
  nomination = build_nomination stun c;
  parse = parse_check stun c;
}

-- A datagram that neither end signed.
pub data Forged (stun : Codec) (c : IceCredentials) (datagram : Bytes) : Type 0 where
  not_stun : is_stun datagram ≡ false → Forged stun c datagram
  unreadable : stun.decode datagram ≡ none → Forged stun c datagram
  unsigned :
      (msg : Message stun.Mac)
      → stun.decode datagram ≡ some msg
      → integrity_of msg.attributes ≡ none
      → Forged stun c datagram
  signed_otherwise :
      (msg : Message stun.Mac) (mac : stun.Mac)
      → stun.decode datagram ≡ some msg
      → integrity_of msg.attributes ≡ some mac
      → ((d : Direction) → stun.check msg mac (password c d) ≡ false)
      → Forged stun c datagram

-- A datagram that an agent has no business with: a forgery; a copy of what it builds itself, a request,
-- a nomination or a response; the peer's response to a request that is not out, or no longer; and the
-- peer's nomination, at the controlling end.
pub data Stranger (stun : Codec) (c : IceCredentials) (a : IceAgent) (datagram : Bytes)
    : Type 0 where
  forged : Forged stun c datagram → Stranger stun c a datagram
  own_request :
      (tid : Tid)
      → build_check_request stun c (outbound a.role) tid ≡ some datagram
      → Stranger stun c a datagram
  own_nomination :
      (tid : Tid)
      → build_nomination stun c (outbound a.role) tid ≡ some datagram
      → Stranger stun c a datagram
  own_response :
      (tid : Tid) (seen : SocketAddr)
      → build_check_response stun c (inbound a.role) tid seen ≡ some datagram
      → Stranger stun c a datagram
  unasked_response :
      (tid : Tid) (seen : SocketAddr)
      → build_check_response stun c (inbound (peer a.role)) tid seen ≡ some datagram
      → asked tid a.outstanding ≡ none
      → Stranger stun c a datagram
  nomination_upwards :
      (tid : Tid)
      → a.role ≡ controlling
      → build_nomination stun c (outbound (peer a.role)) tid ≡ some datagram
      → Stranger stun c a datagram

module _ (stun : Codec) (c : IceCredentials) (datagram : Bytes) where
  undecoded_unread :
      (d : Direction) → stun.decode datagram ≡ none → parse_check stun c d datagram ≡ none
  unfolding parse_check
  undecoded_unread d e = elim (Bool-cases (is_stun datagram)) [
    | inl k ↦ rw k (rw e refl)
    | inr k ↦ rw k refl
  ]

  rejected_unread :
      (d : Direction) (msg : Message stun.Mac)
      → stun.decode datagram ≡ some msg
      → verify stun c d msg ≡ none
      → parse_check stun c d datagram ≡ none
  unfolding parse_check
  rejected_unread d msg e no_check = elim (Bool-cases (is_stun datagram)) [
    | inl k ↦ rw k (rw e no_check)
    | inr k ↦ rw k refl
  ]

  unsigned_rejected :
      (d : Direction) (msg : Message stun.Mac)
      → integrity_of msg.attributes ≡ none
      → verify stun c d msg ≡ none
  unfolding verify
  unsigned_rejected d msg e = elim (Bool-cases msg.is_binding) [
    | inl k ↦ rw k (rw e refl)
    | inr k ↦ rw k refl
  ]

  mis_signed_rejected :
      (d : Direction) (msg : Message stun.Mac) (mac : stun.Mac)
      → integrity_of msg.attributes ≡ some mac
      → stun.check msg mac (password c d) ≡ false
      → verify stun c d msg ≡ none
  unfolding verify
  mis_signed_rejected d msg mac e fails =
      rw e (rw fails (elim (Bool-cases msg.is_binding) [ inl k ↦ rw k refl | inr k ↦ rw k refl ]))

  -- A forgery verifies in neither direction.
  Forged-unread : (d : Direction) → Forged stun c datagram → parse_check stun c d datagram ≡ none
  unfolding parse_check
  Forged-unread d (not_stun e) = rw e refl
  Forged-unread d (unreadable e) = undecoded_unread d e
  Forged-unread d (unsigned msg e absent) = rejected_unread d msg e (unsigned_rejected d msg absent)
  Forged-unread d (signed_otherwise msg mac e present fails) =
      rejected_unread d msg e (mis_signed_rejected d msg mac present (fails d))

module _ (stun : Codec) (c : IceCredentials) (local : SocketAddr) (now : ℕ) (from : SocketAddr)
    (a : IceAgent) (datagram : Bytes) where
  -- By what the datagram reads as in the peer's direction, and in this end's own.
  by_readings :
      (theirs own : Option Check)
      → parse_check stun c (inbound a.role) datagram ≡ theirs
      → parse_check stun c (outbound a.role) datagram ≡ own
      → on_checks (stun_messages stun c) local theirs own now from a ≡ (a, none, [])
      → on_datagram (stun_messages stun c) local now from datagram a ≡ (a, none, [])
  unfolding on_datagram
  by_readings theirs own e f h = rw e (rw f h)

-- For a codec, an HMAC and a key as documented, any agent, whatever it knows, and any source of the
-- datagram: a forgery, a copy of its own request, nomination or response, a response of the peer's to
-- no request that is out, and the peer's nomination at the controlling end change nothing, report
-- nothing and cause nothing to be sent.
pub datagram_ignored :
    (stun : Codec) (documented : Documented stun) (unforged : Unforged stun)
    (expand : Bytes → Direction → Bytes) (psk : Bytes) (independent : Independent expand psk)
    (local : SocketAddr) (now : ℕ) (from : SocketAddr) (a : IceAgent) (datagram : Bytes)
    → Stranger stun (derive expand psk) a datagram
    → on_datagram (stun_messages stun (derive expand psk)) local now from datagram a ≡ (a, none, [])
unfolding on_checks on_peer on_own on_asked on_nomination
datagram_ignored stun documented unforged expand psk independent local now from a datagram
      stranger =
    let c = derive expand psk in
    let (alike, apart) = derive-apart expand psk independent a.role in
    let reads = by_readings stun c local now from a datagram in
    elim stranger [
      | forged f ↦
          reads none none (Forged-unread stun c datagram (inbound a.role) f)
            (Forged-unread stun c datagram (outbound a.role) f) refl
      | own_request tid h ↦
          reads none _
            (request_refused stun documented unforged c (outbound a.role) (inbound a.role) alike
              apart tid datagram h)
            (request_read stun documented c (outbound a.role) tid datagram h) refl
      | own_nomination tid h ↦
          reads none _
            (nomination_refused stun documented unforged c (outbound a.role) (inbound a.role) alike
              apart tid datagram h)
            (nomination_read stun documented c (outbound a.role) tid datagram h) refl
      | own_response tid seen h ↦
          reads _ _ (response_read stun documented c (inbound a.role) tid seen datagram h) refl refl
      | unasked_response tid seen h e ↦
          let h' = (rw (sym (outbound-peer a.role)) at h) in
          reads none _
            (response_refused stun documented unforged c (outbound a.role) (inbound a.role) alike
              apart tid seen datagram h')
            (response_read stun documented c (outbound a.role) tid seen datagram h') (rw e refl)
      | nomination_upwards tid is h ↦
          reads _ _
            (nomination_read stun documented c (inbound a.role) tid datagram
              (rw (inbound-peer a.role) at h))
            refl (ap (λ r. on_nomination (stun_messages stun c) local r from a) is)
    ]
