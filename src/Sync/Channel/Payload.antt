-- ===== src/Sync/Channel/Payload.antt =====
-- The payload of a frame: compressed when that shrinks it, and refused above the limit.
use oxutrm.Base.{
  ℕ, ◌≤◌, ◌+◌, ◌≡◌, refl, sym, ap, ◌∙◌, ◌⊎◌, inl, inr, ok, err, length, ltb, arith, Bool-cases,
  take_all, length-take, ltb→lt, ◌<◌, dec_le,
}
use oxutrm.Proto.Types.{decode, expands_beyond}
use oxutrm.Proto.Frame.{Bytes, Frame, flag_zstd}
use oxutrm.Sync.Channel.{Codec, CodecLaws, pack, payload_bytes, decompress, max_decompressed}

module _ {D : Type 0} (c : Codec D) (laws : CodecLaws c) where
  open laws use {zstd_read-compress}

  decompress-compress :
      (raw : Bytes) → length raw ≤ max_decompressed → decompress c (c.compress raw) ≡ ok raw
  unfolding decompress
  decompress-compress raw h =
      rw (zstd_read-compress raw (max_decompressed + 1), decompress)
        (rw (take_all (max_decompressed + 1) raw (omega arith)) (ground arith))

  decompress-compress_long :
      (raw : Bytes)
      → max_decompressed < length raw
      → decompress c (c.compress raw) ≡ err (decode expands_beyond)
  unfolding decompress
  decompress-compress_long raw h =
      rw (zstd_read-compress raw (max_decompressed + 1), decompress)
        (ground (arith, length-take (max_decompressed + 1) raw (omega arith)))

  -- `pack` either leaves the bytes alone or shortens them and says so.
  pack_cases :
      (raw : Bytes)
      → (pack c raw ≡ (raw, 0))
        ⊎ ((pack c raw ≡ (c.compress raw, flag_zstd)) × (length (c.compress raw) < length raw))
  unfolding pack
  pack_cases raw = elim (Bool-cases (ltb (length (c.compress raw)) (length raw))) [
    | inl e ↦ inr (rw e refl, ltb→lt _ _ e)
    | inr e ↦ inl (rw e refl)
  ]

  module _ (f : Frame) (raw : Bytes) (packed : (f.payload, f.flags) ≡ pack c raw) where
    plain_read : pack c raw ≡ (raw, 0) → payload_bytes c f ≡ ok raw
    unfolding payload_bytes
    plain_read e =
        let g : f.flags ≡ 0 = ap (λ (t : Bytes × ℕ). t.1) (packed ∙ e) in
        let p : f.payload ≡ raw = ap (λ (t : Bytes × ℕ). t.0) (packed ∙ e) in rw (g, p) refl

    zstd_payload :
        pack c raw ≡ (c.compress raw, flag_zstd) → payload_bytes c f ≡ decompress c (c.compress raw)
    unfolding payload_bytes
    zstd_payload e =
        let g : f.flags ≡ flag_zstd = ap (λ (t : Bytes × ℕ). t.1) (packed ∙ e) in
        let p : f.payload ≡ c.compress raw = ap (λ (t : Bytes × ℕ). t.0) (packed ∙ e) in
        rw (g, p) refl

    -- A frame that carries the packed form of at most 64 MiB is read back as what was packed, whether or
    -- not it was compressed, and its payload is never longer than that. The condition: zstd round-trips.
    pub payload_bytes-pack :
        length raw ≤ max_decompressed
        → (payload_bytes c f ≡ ok raw) × (length f.payload ≤ length raw)
    payload_bytes-pack h = elim (pack_cases raw) [
      | inl e ↦ (plain_read e, omega (arith, ap (λ (t : Bytes × ℕ). length t.0) (packed ∙ e)))
      | inr (e, l) ↦ (
        zstd_payload e ∙ decompress-compress raw h,
        omega (arith, ap (λ (t : Bytes × ℕ). length t.0) (packed ∙ e)),
      )
    ]

    -- Whatever the size, the receiver reads what was packed or refuses the frame.
    pub payload_bytes-pack_only : {out : Bytes} → payload_bytes c f ≡ ok out → out ≡ raw
    payload_bytes-pack_only h = elim (pack_cases raw) [
      | inl e ↦ let same = sym h ∙ plain_read e in cc
      | inr (e, _) ↦ elim (dec_le (length raw) max_decompressed) [
        | yes fits ↦ let same = sym h ∙ zstd_payload e ∙ decompress-compress raw fits in cc
        | no long ↦
            let same = sym h ∙ zstd_payload e ∙ decompress-compress_long raw (omega arith) in cc
      ]
    ]
