-- ===== src/Proto/Frame.antt =====
-- crates/oxutrm-proto/src/frame.rs: one datagram. The byte format is postcard's, a parameter.
use oxutrm.Base.{
  ℕ, ◌≡◌, refl, List, [], ◌∷◌, ◌++◌, Option, none, some, Result, ok, err, length, arith, append-nil,
}

abbrev pub Bytes : Type 0
Bytes = List ℕ

abbrev pub flag_zstd : ℕ
flag_zstd = 0x01

pub record Frame : Type 0 where
  pub my_state : ℕ  -- u64
  pub from_state : ℕ  -- u64
  pub ack_state : ℕ  -- u64
  pub flags : ℕ  -- u8
  pub payload : Bytes

-- `ProtoError::Malformed`, with the three texts that this file writes.
pub data FrameError : Type 0 where
  encoding_frame decoding_frame : FrameError
  trailing_bytes : ℕ → FrameError

-- `postcard::to_stdvec` and `postcard::take_from_bytes` at `Frame`.
pub record FrameFormat : Type 0 where
  pub to_stdvec : Frame → Option Bytes
  pub take_from_bytes : Bytes → Option (Frame × Bytes)

-- A frame that was written is read back, and what follows it is handed on.
pub record FrameFormatLaws (c : FrameFormat) : Type 0 where
  pub take-write :
      (f : Frame) (bytes rest : Bytes)
      → c.to_stdvec f ≡ some bytes
      → c.take_from_bytes (bytes ++ rest) ≡ some (f, rest)

module _ (c : FrameFormat) where
  unfoldable pub encode : Frame → Result FrameError Bytes
  encode f = elim (c.to_stdvec f) [ none ↦ err encoding_frame | some bytes ↦ ok bytes ]

  abbrev whole : Frame → Bytes → Result FrameError Frame
  whole f [] = ok f
  whole f (b ∷ rest) = err (trailing_bytes (length (b ∷ rest)))

  unfoldable pub decode : Bytes → Result FrameError Frame
  decode bytes = elim (c.take_from_bytes bytes) [
    | none ↦ err decoding_frame
    | some (f, rest) ↦ whole f rest
  ]

  encode-ok : (f : Frame) (bytes : Bytes) → encode f ≡ ok bytes → c.to_stdvec f ≡ some bytes
  unfolding encode
  encode-ok f bytes h = ground arith

  -- For a frame that postcard can write, and a postcard that reads back what it wrote: the datagram
  -- decodes to the frame if nothing follows it, and with bytes after it the whole datagram is refused by
  -- an error that counts them.
  pub decode-encode :
      FrameFormatLaws c
      → (f : Frame) (bytes : Bytes) → encode f ≡ ok bytes
      → (decode bytes ≡ ok f)
        × ((b : ℕ) (rest : Bytes)
            → decode (bytes ++ b ∷ rest) ≡ err (trailing_bytes (length (b ∷ rest))))
  unfolding decode
  decode-encode laws f bytes h = (alone, followed)
    where
      read : (rest : Bytes) → c.take_from_bytes (bytes ++ rest) ≡ some (f, rest)
      read rest = laws.take-write f bytes rest (encode-ok f bytes h)

      alone : decode bytes ≡ ok f
      alone = let e = rw append-nil at (read []) in rw (e, decode) refl

      followed :
          (b : ℕ) (rest : Bytes)
          → decode (bytes ++ b ∷ rest) ≡ err (trailing_bytes (length (b ∷ rest)))
      followed b rest = rw (read (b ∷ rest), decode) refl
