-- ===== src/Crypto/Channel/Sealing.antt =====
-- sealFrame and openFrame of src/crypto/secure-channel.ts.
use consensus_node.Base.{
  length-append, >>=-eq-ok, map_err, ℕ, ◌+◌, ◌-◌, ◌≤◌, ◌≡◌, refl, ap, sym, ◌∙◌, true, List, ◌++◌,
  some, length, ok, arith, includes, nat_eq,
}
use consensus_node.Base.Int.{ℤ}
use consensus_node.Base.Bytes.{AreBytes}
use consensus_node.Base.Slices.{
  subarray, length-subarray, subarray_here, subarray_ends, subarray_suffix,
}
use mathlib.Core.Path.{ap₂}
use consensus_node.Tunnel.Frames.{
  FrameParts, validate_parts, fits_u64, frame_version, valid_types, max_u32, encode_frame,
  decode_frame, frame_aad,
}
use consensus_node.Tunnel.Frames.Aad.{frame_aad_total}
use consensus_node.Tunnel.Frames.RoundTrip.{
  encode_frame_total, version-decode_frame, decode-encode_frame, encode-decode_frame,
}
use consensus_node.Crypto.Primitives.{Aead}
use consensus_node.Crypto.Channel.{
  frame_error, Detached, Opened, encrypt_detached, decrypt_detached, seal_frame, open_frame, aad_of,
}

-- The ciphertext and the tag of a sealed text.
abbrev detach : List ℕ → Detached
detach sealed = record {
  ciphertext = subarray sealed 0 (length sealed - 16);
  tag = subarray sealed (length sealed - 16) (length sealed);
}

module _ (aead : Aead) (key nonce plaintext aad : List ℕ) where
  encrypt_detached_eq :
      length key ≡ 32
      → length nonce ≡ 12
      → encrypt_detached aead key nonce plaintext aad
        ≡ ok (detach (aead.encrypt key nonce aad plaintext))
  unfolding encrypt_detached
  encrypt_detached_eq hk hn = ground (arith, aead.length-encrypt key nonce aad plaintext)

  size_sealed : length (detach (aead.encrypt key nonce aad plaintext)).ciphertext ≡ length plaintext
  size_sealed = omega (
    arith,
    aead.length-encrypt key nonce aad plaintext,
    length-subarray (aead.encrypt key nonce aad plaintext) 0
        (length (aead.encrypt key nonce aad plaintext) - 16) (omega arith),
  )

  size_tag : length (detach (aead.encrypt key nonce aad plaintext)).tag ≡ 16
  size_tag = omega (
    arith,
    aead.length-encrypt key nonce aad plaintext,
    length-subarray (aead.encrypt key nonce aad plaintext)
        (length (aead.encrypt key nonce aad plaintext) - 16)
        (length (aead.encrypt key nonce aad plaintext)) (omega arith),
  )

  rejoin :
      (detach (aead.encrypt key nonce aad plaintext)).ciphertext
        ++ (detach (aead.encrypt key nonce aad plaintext)).tag
      ≡ aead.encrypt key nonce aad plaintext
  rejoin = sym (
      subarray_ends 16 (aead.encrypt key nonce aad plaintext)
        (omega (arith, aead.length-encrypt key nonce aad plaintext)))

  decrypt_detach :
      (d : Detached)
      → length key ≡ 32
      → length nonce ≡ 12
      → d ≡ detach (aead.encrypt key nonce aad plaintext)
      → decrypt_detached aead key nonce d.ciphertext d.tag aad ≡ ok plaintext
  unfolding decrypt_detached
  decrypt_detach d hk hn e =
      rw e (ground (arith, rejoin, size_tag, aead.decrypt-encrypt key nonce aad plaintext))

pub record Sealable (key : List ℕ) (type : ℕ) (sequence : ℤ) (plaintext nonce : List ℕ)
    : Type 0 where
  pub key_size : length key ≡ 32
  pub nonce_size : length nonce ≡ 12
  pub valid : includes type valid_types ≡ true
  pub u64 : fits_u64 sequence ≡ true
  pub u32 : length plaintext ≤ max_u32

module _ (aead : Aead) (key : List ℕ) (type : ℕ) (sequence : ℤ) (plaintext nonce : List ℕ) where
  -- The frame that is sealed, given its additional data.
  abbrev sealed_frame : List ℕ → FrameParts
  sealed_frame aad = record {
    version = frame_version;
    type = type;
    sequence = sequence;
    nonce = nonce;
    ciphertext = (detach (aead.encrypt key nonce aad plaintext)).ciphertext;
    tag = (detach (aead.encrypt key nonce aad plaintext)).tag;
  }

  validate_sealed :
      (aad : List ℕ)
      → Sealable key type sequence plaintext nonce
      → validate_parts (sealed_frame aad) ≡ ok tt
  unfolding validate_parts
  validate_sealed aad s =
      ground
        (arith, size_tag aead key nonce plaintext aad, size_sealed aead key nonce plaintext aad)

  seal_frame_eq :
      (aad raw : List ℕ)
      → Sealable key type sequence plaintext nonce
      → frame_aad (record {
        version = frame_version;
        type = type;
        sequence = sequence;
        ciphertext_length = length plaintext;
      })
        ≡ ok aad
      → encode_frame (sealed_frame aad) ≡ ok raw
      → seal_frame aead key type sequence plaintext nonce ≡ ok raw
  unfolding seal_frame
  seal_frame_eq aad raw s ha hr =
      ground (arith, encrypt_detached_eq aead key nonce plaintext aad s.key_size s.nonce_size)

  open_sealed :
      (aad raw : List ℕ)
      → Sealable key type sequence plaintext nonce
      → frame_aad (record {
        version = frame_version;
        type = type;
        sequence = sequence;
        ciphertext_length = length plaintext;
      })
        ≡ ok aad
      → encode_frame (sealed_frame aad) ≡ ok raw
      → open_frame aead key raw ≡ ok (record { frame = sealed_frame aad; plaintext = plaintext })
  unfolding open_frame
  open_sealed aad raw s ha hr = ground (
    arith,
    decode-encode_frame (sealed_frame aad) raw hr,
    size_sealed aead key nonce plaintext aad,
    decrypt_detach aead key nonce plaintext aad (detach (aead.encrypt key nonce aad plaintext))
        s.key_size s.nonce_size refl,
  )

  -- Under a 32-byte key and a 12-byte nonce, a plaintext of at most 2^32 - 1 bytes with a valid frame
  -- type and a 64-bit sequence number is always sealed, and opening the sealed bytes under the same
  -- key gives back the plaintext, in a frame with that type, sequence number and nonce.
  pub open-seal_frame :
      Sealable key type sequence plaintext nonce
      → (raw : List ℕ) × (frame : FrameParts) × (seal_frame aead key type sequence plaintext nonce
          ≡ ok raw)
        × (open_frame aead key raw ≡ ok (record { frame = frame; plaintext = plaintext }))
        × (frame.type ≡ type)
        × (frame.sequence ≡ sequence)
        × (frame.nonce ≡ nonce)
  open-seal_frame s =
      let (aad, ha) =
        frame_aad_total
          (record {
            version = frame_version;
            type = type;
            sequence = sequence;
            ciphertext_length = length plaintext;
          })
          refl s.valid s.u64 s.u32 in
      let (raw, hr) = encode_frame_total (sealed_frame aad) (validate_sealed aad s) in
      (
        raw,
        sealed_frame aad,
        seal_frame_eq aad raw s ha hr,
        open_sealed aad raw s ha hr,
        refl,
        refl,
        refl,
      )

detach-append :
    (c t : List ℕ) → length t ≡ 16 → detach (c ++ t) ≡ record { ciphertext = c; tag = t }
detach-append c t h = cc (
  ap (subarray (c ++ t) 0) before ∙ subarray_here (length c) c t refl,
  ap₂ (subarray (c ++ t)) before (length-append c t ∙ ap (λ n. length c + n) h)
      ∙ subarray_suffix 16 c t h,
)
  where
    before : length (c ++ t) - 16 ≡ length c
    before = omega (arith, length-append c t)

module _ (aead : Aead) (key raw : List ℕ) (o : Opened) where
  record Opens (aad : List ℕ) : Type 0 where
    decoded : decode_frame raw ≡ ok o.frame
    additional : frame_aad (aad_of o.frame) ≡ ok aad
    key_size : length key ≡ 32
    nonce_size : length o.frame.nonce ≡ 12
    tag_size : length o.frame.tag ≡ 16
    text : aead.decrypt key o.frame.nonce aad (o.frame.ciphertext ++ o.frame.tag) ≡ some o.plaintext

  open_frame_inv : open_frame aead key raw ≡ ok o → (aad : List ℕ) × Opens aad
  unfolding open_frame decrypt_detached
  open_frame_inv h =
      let (frame, hd, h1) = >>=-eq-ok (map_err frame_error (decode_frame raw)) _ h in
      let (aad, ha, h2) = >>=-eq-ok (map_err frame_error (frame_aad (aad_of frame))) _ h1 in
      (aad, ground arith)

  seal_opened :
      (aad : List ℕ)
      → AreBytes raw
      → Opens aad
      → seal_frame aead key o.frame.type o.frame.sequence o.plaintext o.frame.nonce ≡ ok raw
  unfolding seal_frame
  seal_opened aad b e = ground (
    arith,
    encode-decode_frame raw o.frame b e.decoded,
    version-decode_frame raw o.frame e.decoded,
    encrypt_detached_eq aead key o.frame.nonce o.plaintext aad e.key_size e.nonce_size,
    aead.decrypt_only key o.frame.nonce aad (o.frame.ciphertext ++ o.frame.tag) o.plaintext e.text,
    aead.length-encrypt key o.frame.nonce aad o.plaintext,
    length-append o.frame.ciphertext o.frame.tag,
    detach-append o.frame.ciphertext o.frame.tag e.tag_size,
  )

  -- The only bytes that open under a key are those that sealing under it makes: a buffer that opens
  -- is the sealed form of its plaintext, under the frame's own type, sequence number and nonce.
  pub seal-open_frame :
      AreBytes raw
      → open_frame aead key raw ≡ ok o
      → seal_frame aead key o.frame.type o.frame.sequence o.plaintext o.frame.nonce ≡ ok raw
  seal-open_frame b h = let (aad, e) = open_frame_inv h in seal_opened aad b e
