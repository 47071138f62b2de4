-- ===== src/Tunnel/Frames.antt =====
-- src/tunnel/frames.ts: the binary layout of a tunnel frame. A `Buffer` is a list of bytes, a
-- `RangeError` is a `FrameError`, and the bigint `sequence` is an integer.
mod Layout
pub mod RoundTrip
pub mod Aad
use consensus_node.Base.{
  ◌≡◌, true, arith, ◌<◌, ℕ, suc, ◌+◌, ◌-◌, ◌^◌, Bool, false, not, List, [], ◌∷◌, ◌++◌, ltb, leb,
  ◌==◌, nat_eq, length, includes, Result, ok, err, ◌>>=◌, ◌>>◌, guard, if◌then◌else◌,
}
use consensus_node.Tunnel.FrameType
use consensus_node.Base.Int.{ℤ, pos, negsuc}
use consensus_node.Base.Bytes.{write_be, read_be}
use consensus_node.Base.Slices.{subarray}

abbrev pub frame_version : ℕ
frame_version = 0x01

abbrev pub header_size : ℕ
header_size = 26

abbrev pub nonce_size : ℕ
nonce_size = 12

abbrev pub tag_size : ℕ
tag_size = 16

abbrev pub max_u64 : ℕ
max_u64 = 2 ^ 64 - 1

abbrev pub max_u32 : ℕ
max_u32 = 0xffff_ffff

abbrev pub valid_types : List ℕ
valid_types =
    FrameType.handshake ∷ FrameType.data_frame ∷ FrameType.ping ∷ FrameType.pong ∷ FrameType.close
    ∷ FrameType.error ∷ []

pub record FrameParts : Type 0 where
  pub version : ℕ
  pub type : ℕ
  pub sequence : ℤ
  pub nonce : List ℕ
  pub ciphertext : List ℕ
  pub tag : List ℕ

-- What `frameAad` takes.
pub record AadParts : Type 0 where
  pub version : ℕ
  pub type : ℕ
  pub sequence : ℤ
  pub ciphertext_length : ℕ

pub data FrameError : Type 0 where
  too_short : ℕ → FrameError
  unsupported_version : ℕ → FrameError
  unknown_type : ℕ → FrameError
  invalid_length : ℕ → ℕ → FrameError
  sequence_not_u64 nonce_length tag_length ciphertext_too_large length_not_u32 : FrameError
  write_out_of_range : FrameError

-- parts.sequence < 0n || parts.sequence > MAX_U64, negated
abbrev pub fits_u64 : ℤ → Bool
fits_u64 (pos n) = leb n max_u64
fits_u64 (negsuc n) = false

-- The `Buffer` writes throw where the value does not fit.
abbrev pub write_u8 : ℕ → Result FrameError (List ℕ)
write_u8 n = if leb n 255 then ok (n ∷ []) else err write_out_of_range

abbrev pub write_u32 : ℕ → Result FrameError (List ℕ)
write_u32 n = if leb n max_u32 then ok (write_be 4 n) else err write_out_of_range

abbrev pub write_u64 : ℤ → Result FrameError (List ℕ)
write_u64 (pos n) = if leb n max_u64 then ok (write_be 8 n) else err write_out_of_range
write_u64 (negsuc n) = err write_out_of_range

unfoldable pub validate_parts : FrameParts → Result FrameError (Unit {0})
validate_parts parts = do
  guard (parts.version == frame_version) (unsupported_version parts.version)
  guard (includes parts.type valid_types) (unknown_type parts.type)
  guard (fits_u64 parts.sequence) sequence_not_u64
  guard (length parts.nonce == nonce_size) nonce_length
  guard (length parts.tag == tag_size) tag_length
  guard (leb (length parts.ciphertext) max_u32) ciphertext_too_large

unfoldable pub encode_frame : FrameParts → Result FrameError (List ℕ)
unfolding validate_parts
encode_frame parts = do
  validate_parts parts
  version ← write_u8 parts.version
  type ← write_u8 parts.type
  sequence ← write_u64 parts.sequence
  len ← write_u32 (length parts.ciphertext)
  ok (version ++ (type ++ (sequence ++ (parts.nonce ++ (len ++ (parts.ciphertext ++ parts.tag))))))

unfoldable pub decode_frame : List ℕ → Result FrameError FrameParts
decode_frame raw = do
  guard (not (ltb (length raw) (header_size + tag_size))) (too_short (length raw))
  let version = read_be (subarray raw 0 1)
  guard (version == frame_version) (unsupported_version version)
  let type = read_be (subarray raw 1 2)
  guard (includes type valid_types) (unknown_type type)
  let ciphertext_length = read_be (subarray raw 22 26)
  let expected_length = header_size + ciphertext_length + tag_size
  guard (length raw == expected_length) (invalid_length expected_length (length raw))
  let ciphertext_end = header_size + ciphertext_length
  ok (record {
    version = frame_version;
    type = type;
    sequence = pos (read_be (subarray raw 2 10));
    nonce = subarray raw 10 22;
    ciphertext = subarray raw header_size ciphertext_end;
    tag = subarray raw ciphertext_end (ciphertext_end + tag_size);
  })

unfoldable pub frame_aad : AadParts → Result FrameError (List ℕ)
frame_aad parts = do
  guard (fits_u64 parts.sequence) sequence_not_u64
  guard (includes parts.type valid_types) (unknown_type parts.type)
  guard (leb parts.ciphertext_length max_u32) length_not_u32
  version ← write_u8 parts.version
  type ← write_u8 parts.type
  sequence ← write_u64 parts.sequence
  len ← write_u32 parts.ciphertext_length
  ok (version ++ (type ++ (sequence ++ len)))

unfoldable pub peek_frame_sequence : List ℕ → Result FrameError ℤ
peek_frame_sequence raw = do
  guard (not (ltb (length raw) (header_size + tag_size))) (too_short (length raw))
  ok (pos (read_be (subarray raw 2 10)))

-- The type byte is one of the six; each fits a byte.
pub valid_type_byte : (t : ℕ) → includes t valid_types ≡ true → t < 256
valid_type_byte t h = ground arith
