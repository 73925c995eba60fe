-- ===== src/Net/Stun/Signed.antt =====
-- What one end signs the other verifies, and no end takes its own request for the peer's.
use oxutrm.Base.{◌≡◌, ◌≢◌, refl, sym, true, false, Option, none, some, length}
use oxutrm.Proto.Frame.{Bytes}
use oxutrm.Proto.Addr.{SocketAddr}
use oxutrm.Net.Demux.{is_stun}
use oxutrm.Net.Socketfam.{unmap}
use oxutrm.Net.Stun.Documented.{
  peer, carried, on_wire, Documented, Unforged, Independent, derive-apart,
}
use oxutrm.Net.Stun.{
  IceRole, controlling, controlled, Direction, derive, IceCredentials, outbound, inbound, password,
  username, CheckKind, Tid, MessageClass, integrity, name, xor_mapped, Message, Codec,
  add_attribute, new, finish, build_check_request, build_check_response, build_nomination, verify,
  parse_check, ◌>>=◌,
}

>>=-some :
    {A B : Type 0} (m : Option A) (f : A → Option B) {b : B}
    → (m >>= f) ≡ some b
    → (a : A) × (m ≡ some a) × (f a ≡ some b)
>>=-some none f h = absurd (cc)
>>=-some (some a) f h = (a, refl, h)

module _ (stun : Codec) (documented : Documented stun) (c : IceCredentials) (d : Direction) where
  -- A finished message, as it arrives.
  finished :
      (msg : Message stun.Mac) (b : Bytes)
      → finish stun c d msg ≡ some b
      → (mac : stun.Mac) × (stun.sign msg (password c d) ≡ some mac)
        × (is_stun b ≡ true)
        × (stun.decode b ≡ some (on_wire (add_attribute (integrity mac) msg)))
  unfolding finish
  finished msg b h =
      let (mac, by, sent) = >>=-some (stun.sign msg (password c d)) _ h in
      let whole = add_attribute (integrity mac) msg in
      (mac, by, documented.encoded whole b sent, documented.decoded whole b sent)

  -- The check that a finished message is read as.
  read_signed :
      (msg : Message stun.Mac) (b : Bytes) (kind : CheckKind) (seen : Option SocketAddr)
      → finish stun c d msg ≡ some b
      → ((mac : stun.Mac)
          → stun.check (on_wire (add_attribute (integrity mac) msg)) mac (password c d) ≡ true
          → verify stun c d (on_wire (add_attribute (integrity mac) msg))
            ≡ some record { kind = kind; tid = msg.transaction; reflexive = seen })
      → parse_check stun c d b
        ≡ some record { kind = kind; tid = msg.transaction; reflexive = seen }
  unfolding parse_check
  read_signed msg b kind seen h verified =
      let (mac, by, shape, arrived) = finished msg b h in
      rw shape (rw arrived (verified mac (documented.signed msg (password c d) mac by)))

  pub request_read :
      (tid : Tid) (b : Bytes)
      → build_check_request stun c d tid ≡ some b
      → parse_check stun c d b
        ≡ some record { kind = CheckKind.request; tid = tid; reflexive = none }
  unfolding build_check_request new verify add_attribute
  request_read tid b h =
      let (n, named, done) = >>=-some (stun.new_name (username c d)) _ h in
      read_signed (add_attribute (name n) (new MessageClass.request tid)) b CheckKind.request none
        done (λ mac holds. rw holds refl)

  pub nomination_read :
      (tid : Tid) (b : Bytes)
      → build_nomination stun c d tid ≡ some b
      → parse_check stun c d b
        ≡ some record { kind = CheckKind.nomination; tid = tid; reflexive = none }
  unfolding build_nomination new verify add_attribute
  nomination_read tid b h =
      let (n, named, done) = >>=-some (stun.new_name (username c d)) _ h in
      read_signed (add_attribute (name n) (new MessageClass.indication tid)) b CheckKind.nomination
        none done (λ mac holds. rw holds refl)

  pub response_read :
      (tid : Tid) (seen : SocketAddr) (b : Bytes)
      → build_check_response stun c d tid seen ≡ some b
      → parse_check stun c d b
        ≡ some record {
          kind = CheckKind.success_response;
          tid = tid;
          reflexive = some (unmap (carried seen));
        }
  unfolding build_check_response new verify add_attribute
  response_read tid seen b h =
      read_signed (add_attribute (xor_mapped seen) (new MessageClass.success_response tid)) b
        CheckKind.success_response (some (unmap (carried seen))) h (λ mac holds. rw holds refl)

pub outbound-peer : (me : IceRole) → outbound me ≡ inbound (peer me)
unfolding outbound inbound
outbound-peer controlling = refl
outbound-peer controlled = refl

pub inbound-peer : (me : IceRole) → outbound (peer me) ≡ inbound me
unfolding outbound inbound
inbound-peer controlling = refl
inbound-peer controlled = refl

-- For a codec and an HMAC as documented, and either role: a request and a nomination that this end
-- signs, as it signs its own, are read by the other end as what they are, under the direction that it
-- expects of its peer; and the other end's response to a request, signed in the direction of that
-- request, is read here with the address that it saw, as far as the attribute carries it and with
-- mapped addresses made plain. The transaction is kept throughout.
pub signed_round_trip :
    (stun : Codec) (documented : Documented stun) (c : IceCredentials) (me : IceRole) (tid : Tid)
    (seen : SocketAddr) (asked told answered : Bytes)
    → build_check_request stun c (outbound me) tid ≡ some asked
    → build_nomination stun c (outbound me) tid ≡ some told
    → build_check_response stun c (inbound (peer me)) tid seen ≡ some answered
    → (parse_check stun c (inbound (peer me)) asked
        ≡ some record { kind = CheckKind.request; tid = tid; reflexive = none })
      × (parse_check stun c (inbound (peer me)) told
          ≡ some record { kind = CheckKind.nomination; tid = tid; reflexive = none })
      × (parse_check stun c (outbound me) answered
          ≡ some record {
            kind = CheckKind.success_response;
            tid = tid;
            reflexive = some (unmap (carried seen));
          })
signed_round_trip stun documented c me tid seen asked told answered h k l =
    rw (sym (outbound-peer me)) (
      request_read stun documented c (outbound me) tid asked h,
      nomination_read stun documented c (outbound me) tid told k,
      response_read stun documented c (outbound me) tid seen answered (rw (outbound-peer me) l),
    )

module _ (stun : Codec) (documented : Documented stun) (unforged : Unforged stun)
    (c : IceCredentials) (d other : Direction)
    (alike : length (password c other) ≡ length (password c d))
    (apart : password c other ≢ password c d) where
  refused :
      (msg : Message stun.Mac) (b : Bytes)
      → finish stun c d msg ≡ some b
      → ((mac : stun.Mac)
          → stun.check (on_wire (add_attribute (integrity mac) msg)) mac (password c other) ≡ false
          → verify stun c other (on_wire (add_attribute (integrity mac) msg)) ≡ none)
      → parse_check stun c other b ≡ none
  unfolding parse_check
  refused msg b h rejected =
      let (mac, by, shape, arrived) = finished stun documented c d msg b h in
      rw shape (
        rw arrived
          (rejected mac (unforged msg (password c d) (password c other) mac by alike apart)))

  pub request_refused :
      (tid : Tid) (b : Bytes)
      → build_check_request stun c d tid ≡ some b
      → parse_check stun c other b ≡ none
  unfolding build_check_request new verify add_attribute
  request_refused tid b h =
      let (n, named, done) = >>=-some (stun.new_name (username c d)) _ h in
      refused (add_attribute (name n) (new MessageClass.request tid)) b done
        (λ mac fails. rw fails refl)

  pub nomination_refused :
      (tid : Tid) (b : Bytes)
      → build_nomination stun c d tid ≡ some b
      → parse_check stun c other b ≡ none
  unfolding build_nomination new verify add_attribute
  nomination_refused tid b h =
      let (n, named, done) = >>=-some (stun.new_name (username c d)) _ h in
      refused (add_attribute (name n) (new MessageClass.indication tid)) b done
        (λ mac fails. rw fails refl)

  pub response_refused :
      (tid : Tid) (seen : SocketAddr) (b : Bytes)
      → build_check_response stun c d tid seen ≡ some b
      → parse_check stun c other b ≡ none
  unfolding build_check_response new verify add_attribute
  response_refused tid seen b h =
      refused (add_attribute (xor_mapped seen) (new MessageClass.success_response tid)) b h
        (λ mac fails. rw fails refl)

-- For a codec and an HMAC as documented, a signature that holds under no other password of its length,
-- and a key from which the two infos derive different passwords of 35 characters: a copy of this end's
-- own request or nomination that comes back to it does not verify as the peer's, in either role.
pub reflected_refused :
    (stun : Codec) (documented : Documented stun) (unforged : Unforged stun)
    (expand : Bytes → Direction → Bytes) (psk : Bytes) (independent : Independent expand psk)
    (me : IceRole) (tid : Tid) (asked told : Bytes)
    → build_check_request stun (derive expand psk) (outbound me) tid ≡ some asked
    → build_nomination stun (derive expand psk) (outbound me) tid ≡ some told
    → (parse_check stun (derive expand psk) (inbound me) asked ≡ none)
      × (parse_check stun (derive expand psk) (inbound me) told ≡ none)
reflected_refused stun documented unforged expand psk independent me tid asked told h k =
    let c = derive expand psk in
    let (alike, apart) = derive-apart expand psk independent me in
    (
      request_refused stun documented unforged c (outbound me) (inbound me) alike apart tid asked h,
      nomination_refused stun documented unforged c (outbound me) (inbound me) alike apart tid told
          k,
    )
