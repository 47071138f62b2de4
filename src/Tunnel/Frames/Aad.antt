-- ===== src/Tunnel/Frames/Aad.antt =====
-- frameAad and peekFrameSequence of src/tunnel/frames.ts: what the additional data determines, and
-- what the peek sees.
use consensus_node.Base.{
  includes, true, ℕ, ◌≤◌, ◌≡◌, ap, sym, ◌∙◌, List, ◌∷◌, ◌++◌, arith, nat_eq, ok, get_or, take, drop,
  take_prefix, drop_prefix,
}
use consensus_node.Base.Int.{pos, pos_part}
use consensus_node.Base.Bytes.{write_be, read_be, length-write_be, read_be-write_be}
use consensus_node.Tunnel.Frames.{
  FrameParts, valid_types, valid_type_byte, frame_version, fits_u64, AadParts, max_u64, max_u32,
  frame_aad, decode_frame, peek_frame_sequence,
}

record AadOf (a : AadParts) (n : ℕ) (aad : List ℕ) : Type 0 where
  sequence : a.sequence ≡ pos n
  u64 : n ≤ max_u64
  u32 : a.ciphertext_length ≤ max_u32
  bytes : aad ≡ a.version ∷ a.type ∷ (write_be 8 n ++ write_be 4 a.ciphertext_length)

frame_aad_inv :
    (a : AadParts) (aad : List ℕ) → frame_aad a ≡ ok aad → AadOf a (pos_part a.sequence) aad
unfolding frame_aad
frame_aad_inv a aad h = ground arith

-- The header that additional data stands for.
aad_parts : List ℕ → AadParts
aad_parts aad = record {
  version = get_or aad 0 0;
  type = get_or aad 1 0;
  sequence = pos (read_be (take 8 (drop 2 aad)));
  ciphertext_length = read_be (drop 8 (drop 2 aad));
}

aad_parts-AadOf : (a : AadParts) (n : ℕ) (aad : List ℕ) → AadOf a n aad → a ≡ aad_parts aad
unfolding aad_parts
aad_parts-AadOf a n aad e = rw e.bytes (
    cc (
      e.sequence,
      ap read_be
            (take_prefix 8 (write_be 8 n) (write_be 4 a.ciphertext_length) (length-write_be 8 n))
          ∙ read_be-write_be 8 n (omega (arith, e.u64)),
      ap read_be
            (drop_prefix 8 (write_be 8 n) (write_be 4 a.ciphertext_length) (length-write_be 8 n))
          ∙ read_be-write_be 4 a.ciphertext_length (omega (arith, e.u32)),
    ))

-- Two headers with the same additional data are equal: their versions, types, sequence numbers and
-- ciphertext lengths agree, so a tag that covers the data covers every field of the header but the
-- nonce.
pub frame_aad-injective :
    (a b : AadParts) (aad : List ℕ) → frame_aad a ≡ ok aad → frame_aad b ≡ ok aad → a ≡ b
frame_aad-injective a b aad h k =
    aad_parts-AadOf a _ aad (frame_aad_inv a aad h)
    ∙ sym (aad_parts-AadOf b _ aad (frame_aad_inv b aad k))

-- The sequence number that is peeked before a frame is opened is the one that the frame decodes to.
pub peek-decode_frame :
    (raw : List ℕ) (p : FrameParts)
    → decode_frame raw ≡ ok p
    → peek_frame_sequence raw ≡ ok p.sequence
unfolding decode_frame peek_frame_sequence
peek-decode_frame raw p h = ground arith

pub frame_aad_total :
    (a : AadParts)
    → a.version ≡ frame_version
    → includes a.type valid_types ≡ true
    → fits_u64 a.sequence ≡ true
    → a.ciphertext_length ≤ max_u32
    → (aad : List ℕ) × (frame_aad a ≡ ok aad)
unfolding frame_aad
frame_aad_total a hv ht hs hl = (
  a.version ∷ a.type ∷ (write_be 8 (pos_part a.sequence) ++ write_be 4 a.ciphertext_length),
  ground (arith, valid_type_byte a.type),
)
