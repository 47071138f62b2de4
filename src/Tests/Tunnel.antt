-- ===== src/Tests/Tunnel.antt =====
-- src/tunnel/frames.ts and src/crypto/secure-channel.ts on concrete frames, keys and nonces.
use consensus_node.Base.{ℕ, ◌≡◌, refl, List, [], ◌∷◌, ◌++◌, none, ok, err, arith, text_beq}
use consensus_node.Base.Int.{pos}
use consensus_node.Base.Bytes.{AreBytes, write_be, read_be}
use consensus_node.Base.Slices.{subarray}
use consensus_node.Tunnel.Frames.{
  FrameParts, AadParts, validate_parts, encode_frame, decode_frame, frame_aad, too_short,
}
use consensus_node.Tunnel.Frames.RoundTrip.{decode-encode_frame}
use consensus_node.Crypto.Channel.{
  client, server, Opened, seal_frame, open_frame, decrypt_detached, derive_secure_session,
  session_of,
}
use consensus_node.Crypto.Channel.Sealing.{open-seal_frame, Sealable}
use consensus_node.Crypto.Channel.Session.{opposite_result, derive_secure_session_agrees}
use consensus_node.Tests.Instances.{aead, kdf, fill, zeros16, open_zeros, derive}

abbrev nonce : List ℕ
nonce = 1 ∷ 2 ∷ 3 ∷ 4 ∷ 5 ∷ 6 ∷ 7 ∷ 8 ∷ 9 ∷ 10 ∷ 11 ∷ 12 ∷ []

abbrev zeros : List ℕ
zeros = 0 ∷ 0 ∷ 0 ∷ 0 ∷ 0 ∷ 0 ∷ 0 ∷ 0 ∷ 0 ∷ 0 ∷ 0 ∷ 0 ∷ 0 ∷ 0 ∷ 0 ∷ 0 ∷ []

abbrev sample : FrameParts
sample = record {
  version = 1;
  type = 0x10;
  sequence = pos 258;
  nonce = nonce;
  ciphertext = 65 ∷ 66 ∷ [];
  tag = zeros;
}

abbrev sample_bytes : List ℕ
sample_bytes =
    (1 ∷ 0x10 ∷ 0 ∷ 0 ∷ 0 ∷ 0 ∷ 0 ∷ 0 ∷ 1 ∷ 2 ∷ [])
    ++ (nonce ++ ((0 ∷ 0 ∷ 0 ∷ 2 ∷ 65 ∷ 66 ∷ []) ++ zeros))

encode_sample : encode_frame sample ≡ ok sample_bytes
unfolding encode_frame validate_parts write_be
encode_sample = refl

decode_short : decode_frame (1 ∷ 2 ∷ []) ≡ err (too_short 2)
unfolding decode_frame
decode_short = refl

validate_sample : validate_parts sample ≡ ok tt
unfolding validate_parts
validate_sample = refl

decode-encode_frame_example : decode_frame sample_bytes ≡ ok sample
decode-encode_frame_example = decode-encode_frame sample sample_bytes encode_sample

bytes_sample : AreBytes sample_bytes
bytes_sample = ground arith

abbrev sample_aad : AadParts
sample_aad = record { version = 1; type = 0x10; sequence = pos 258; ciphertext_length = 2 }

aad_of_sample :
    frame_aad sample_aad ≡ ok (1 ∷ 0x10 ∷ 0 ∷ 0 ∷ 0 ∷ 0 ∷ 0 ∷ 0 ∷ 1 ∷ 2 ∷ 0 ∷ 0 ∷ 0 ∷ 2 ∷ [])
unfolding frame_aad write_be
aad_of_sample = refl

abbrev key : List ℕ
key = fill 32 7

Sealable-sample : Sealable key 0x10 (pos 258) (65 ∷ 66 ∷ []) nonce
unfolding fill
Sealable-sample = record {
  key_size = refl;
  nonce_size = refl;
  valid = refl;
  u64 = refl;
  u32 = omega arith;
}

open-seal_frame_example :
    (raw : List ℕ) × (frame : FrameParts) × (seal_frame aead key 0x10 (pos 258) (65 ∷ 66 ∷ []) nonce
      ≡ ok raw)
    × (open_frame aead key raw ≡ ok (record { frame = frame; plaintext = 65 ∷ 66 ∷ [] }))
    × (frame.type ≡ 0x10)
    × (frame.sequence ≡ pos 258)
    × (frame.nonce ≡ nonce)
open-seal_frame_example =
    open-seal_frame aead key 0x10 (pos 258) (65 ∷ 66 ∷ []) nonce Sealable-sample

abbrev opened : Opened
opened = record { frame = sample; plaintext = 65 ∷ 66 ∷ [] }

open_sample : open_frame aead key sample_bytes ≡ ok opened
unfolding open_frame decode_frame frame_aad write_be read_be subarray decrypt_detached fill zeros16
    open_zeros text_beq
open_sample = refl

derive_secure_session_agrees_example :
    derive_secure_session kdf server 5 (3 ∷ []) (fill 16 1) (fill 16 2) none
    ≡ opposite_result (derive_secure_session kdf client 3 (5 ∷ []) (fill 16 1) (fill 16 2) none)
derive_secure_session_agrees_example =
    derive_secure_session_agrees kdf 3 5 (fill 16 1) (fill 16 2) none

derive_client :
    derive_secure_session kdf client 3 (5 ∷ []) (fill 16 1) (fill 16 2) none
    ≡ ok (session_of kdf client (15 ∷ []) (kdf.sha256 (fill 16 1 ++ (fill 16 2 ++ []))))
unfolding derive_secure_session derive fill
derive_client = refl
