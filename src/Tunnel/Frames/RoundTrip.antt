-- ===== src/Tunnel/Frames/RoundTrip.antt =====
-- encodeFrame and decodeFrame of src/tunnel/frames.ts are inverse to one another.
use consensus_node.Base.{
  ℕ, ◌+◌, ◌≤◌, ◌≡◌, refl, ap, ◌∙◌, List, [], ◌∷◌, arith, length, includes, nat_eq, true, ok,
}
use consensus_node.Base.Int.{pos, pos_part}
use consensus_node.Base.Bytes.{
  write_be, read_be, read_be_one, read_be_one_inv, AreBytes, length-write_be, read_be-write_be,
  read_field-lt, rewrite_field,
}
use consensus_node.Base.Slices.{subarray, length-subarray}
use consensus_node.Tunnel.Frames.{
  validate_parts, FrameParts, valid_types, max_u64, max_u32, valid_type_byte, decode_frame,
  encode_frame, frame_version,
}
use consensus_node.Tunnel.Frames.Layout.{
  frame_bytes, split_frame, version_bytes, type_bytes, sequence_bytes, nonce_bytes, length_bytes,
  ciphertext_bytes, tag_bytes, length-frame_bytes,
}

-- The frame that the bytes `raw` hold when the header announces `k` bytes of ciphertext.
abbrev parsed : List ℕ → ℕ → ℕ → FrameParts
parsed raw t k = record {
  version = frame_version;
  type = t;
  sequence = pos (read_be (subarray raw 2 10));
  nonce = subarray raw 10 22;
  ciphertext = subarray raw 26 (26 + k);
  tag = subarray raw (26 + k) (26 + k + 16);
}

record Fits (raw : List ℕ) (t k : ℕ) : Type 0 where
  version : read_be (subarray raw 0 1) ≡ frame_version
  type : read_be (subarray raw 1 2) ≡ t
  valid : includes t valid_types ≡ true
  announced : read_be (subarray raw 22 26) ≡ k
  size : length raw ≡ 26 + k + 16

decode_frame-Fits : (raw : List ℕ) (t k : ℕ) → Fits raw t k → decode_frame raw ≡ ok (parsed raw t k)
unfolding decode_frame
decode_frame-Fits raw t k h = ground arith

decode_frame_inv :
    (raw : List ℕ) (p : FrameParts)
    → decode_frame raw ≡ ok p
    → let t = read_be (subarray raw 1 2) in
      let k = read_be (subarray raw 22 26) in Fits raw t k × (p ≡ parsed raw t k)
unfolding decode_frame
decode_frame_inv raw p h = ground arith

record Encodes (p : FrameParts) (n : ℕ) (raw : List ℕ) : Type 0 where
  version : p.version ≡ frame_version
  valid : includes p.type valid_types ≡ true
  sequence : p.sequence ≡ pos n
  u64 : n ≤ max_u64
  nonce : length p.nonce ≡ 12
  tag : length p.tag ≡ 16
  u32 : length p.ciphertext ≤ max_u32
  bytes :
      raw
      ≡ frame_bytes frame_version p.type
          (write_be 8 n)
          p.nonce
          (write_be 4 (length p.ciphertext))
          p.ciphertext
          p.tag

encode_frame_inv :
    (p : FrameParts) (raw : List ℕ) → encode_frame p ≡ ok raw → Encodes p (pos_part p.sequence) raw
unfolding encode_frame
encode_frame_inv p raw h = ground arith

encode_frame_fits :
    (p : FrameParts) (n : ℕ) (raw : List ℕ) → Encodes p n raw → encode_frame p ≡ ok raw
unfolding encode_frame
encode_frame_fits p n raw e = ground (arith, valid_type_byte p.type)

module _ (t : ℕ) (s n l c g : List ℕ) (hs : length s ≡ 8) (hn : length n ≡ 12) (hl : length l ≡ 4)
    (hg : length g ≡ 16) where
  Fits-frame_bytes :
      includes t valid_types ≡ true
      → read_be l ≡ length c
      → Fits (frame_bytes frame_version t s n l c g) t (length c)
  Fits-frame_bytes hv hk = record {
    version = ap read_be (version_bytes frame_version t s n l c g hs hn hl hg) ∙ read_be_one 1;
    type = ap read_be (type_bytes frame_version t s n l c g hs hn hl hg) ∙ read_be_one t;
    valid = hv;
    announced = ap read_be (length_bytes frame_version t s n l c g hs hn hl hg) ∙ hk;
    size = omega (arith, length-frame_bytes frame_version t s n l c g hs hn hl hg);
  }

  parsed-frame_bytes : parsed (frame_bytes frame_version t s n l c g) t (length c) ≡ record {
    version = frame_version;
    type = t;
    sequence = pos (read_be s);
    nonce = n;
    ciphertext = c;
    tag = g;
  }
  parsed-frame_bytes = cc (
    sequence_bytes frame_version t s n l c g hs hn hl hg,
    nonce_bytes frame_version t s n l c g hs hn hl hg,
    ciphertext_bytes frame_version t s n l c g hs hn hl hg (length c) refl,
    tag_bytes frame_version t s n l c g hs hn hl hg (length c) refl,
  )

decode-frame_bytes :
    (p : FrameParts) (n : ℕ) (raw : List ℕ) → Encodes p n raw → decode_frame raw ≡ ok p
decode-frame_bytes p n raw e = rw e.bytes (
    decode_frame-Fits _ p.type (length p.ciphertext) (
      Fits-frame_bytes p.type (write_be 8 n) p.nonce (write_be 4 (length p.ciphertext)) p.ciphertext
        p.tag (length-write_be 8 n) e.nonce (length-write_be 4 _) e.tag e.valid
        (read_be-write_be 4 _ (omega (arith, e.u32))))
    ∙ ap ok (
        parsed-frame_bytes p.type (write_be 8 n) p.nonce (write_be 4 (length p.ciphertext))
          p.ciphertext p.tag (length-write_be 8 n) e.nonce (length-write_be 4 _) e.tag
        ∙ cc (read_be-write_be 8 n (omega (arith, e.u64)), e.sequence, e.version)))

-- Every frame that `encodeFrame` produces is decoded to exactly the parts that it was made from:
-- the version, the type, the sequence number, the nonce, the ciphertext and the tag.
pub decode-encode_frame :
    (p : FrameParts) (raw : List ℕ) → encode_frame p ≡ ok raw → decode_frame raw ≡ ok p
decode-encode_frame p raw h =
    decode-frame_bytes p (pos_part p.sequence) raw (encode_frame_inv p raw h)

Fits-Encodes :
    (raw : List ℕ) (t k : ℕ)
    → AreBytes raw
    → Fits raw t k
    → Encodes (parsed raw t k) (read_be (subarray raw 2 10)) raw
Fits-Encodes raw t k b f = record {
  version = refl;
  valid = f.valid;
  sequence = refl;
  u64 = omega (arith, read_field-lt 8 2 10 raw b (omega (arith, f.size)) refl);
  nonce = length-subarray raw 10 22 (omega (arith, f.size));
  tag = omega (arith, length-subarray raw (26 + k) (26 + k + 16) (omega (arith, f.size)));
  u32 = omega (arith, size, f.announced, read_field-lt 4 22 26 raw b (omega (arith, f.size)) refl);
  bytes =
      split_frame raw frame_version t k f.size (one_byte 0 1 f.version refl (omega arith))
        (one_byte 1 2 f.type refl (omega arith))
      ∙ cc (
        rewrite_field 8 2 10 raw b (omega (arith, f.size)) refl,
        rewrite_field 4 22 26 raw b (omega (arith, f.size)) refl,
        f.announced,
        size,
      );
}
  where
    size : length (subarray raw 26 (26 + k)) ≡ k
    size = omega (arith, length-subarray raw 26 (26 + k) (omega (arith, f.size)))

    one_byte :
        (i j : ℕ) {v : ℕ}
        → read_be (subarray raw i j) ≡ v
        → j ≡ i + 1
        → j ≤ 2
        → subarray raw i j ≡ v ∷ []
    one_byte i j e w h =
        read_be_one_inv (subarray raw i j) _
          (omega (arith, length-subarray raw i j (omega (arith, f.size)))) e

-- No two byte sequences decode to the same frame: a buffer of bytes that `decodeFrame` accepts is
-- what `encodeFrame` makes of the parts that were read from it.
pub encode-decode_frame :
    (raw : List ℕ) (p : FrameParts)
    → AreBytes raw
    → decode_frame raw ≡ ok p
    → encode_frame p ≡ ok raw
encode-decode_frame raw p b h =
    let (f, e) = decode_frame_inv raw p h in
    rw e (encode_frame_fits _ _ raw (Fits-Encodes raw _ _ b f))

-- Validation is the only way to fail: parts that `validateParts` lets through are encoded.
pub encode_frame_total :
    (p : FrameParts) {u : Unit {0}}
    → validate_parts p ≡ ok u
    → (raw : List ℕ) × (encode_frame p ≡ ok raw)
unfolding encode_frame
encode_frame_total p h = (
  frame_bytes frame_version p.type (write_be 8 (pos_part p.sequence)) p.nonce
      (write_be 4 (length p.ciphertext)) p.ciphertext p.tag,
  ground (arith, valid_type_byte p.type),
)

pub version-decode_frame :
    (raw : List ℕ) (p : FrameParts) → decode_frame raw ≡ ok p → p.version ≡ frame_version
unfolding decode_frame
version-decode_frame raw p h = ground arith
