-- ===== src/Crypto/Channel.antt =====
-- src/crypto/secure-channel.ts: sealed frames and the keys of a session. A nonce that the code draws
-- at random is an argument, and what the crypto libraries do is a parameter.
pub mod Sealing
pub mod Session
pub mod Derived
use consensus_node.Base.{
  ℕ, ◌-◌, ◌≡◌, Text, codes, utf8, hex, not, ltb, ◌==◌, nat_eq, List, [], ◌++◌, Option, none, some,
  length, Result, ok, err, ◌>>=◌, ◌>>◌, guard, map_err, or_throw,
}
use consensus_node.Base.Int.{ℤ}
use mathlib.Core.Option
use consensus_node.Base.Slices.{subarray}
use consensus_node.Tunnel.Frames.{
  FrameParts, AadParts, FrameError, frame_version, encode_frame, decode_frame, frame_aad,
}
use consensus_node.Crypto.Primitives.{Aead, Kdf}

pub data TunnelRole : Type 0 where
  client server : TunnelRole

pub record SecureSession : Type 0 where
  pub session_id : Text
  pub send_key : List ℕ
  pub receive_key : List ℕ

pub data ChannelError : Type 0 where
  frame_error : FrameError → ChannelError
  key_length nonce_length tag_length output_too_short : ChannelError
  authentication_failed : ChannelError
  client_nonce_too_short server_nonce_too_short derive_failed : ChannelError

abbrev pub key_bytes : ℕ
key_bytes = 32

abbrev pub nonce_bytes : ℕ
nonce_bytes = 12

abbrev pub tag_bytes : ℕ
tag_bytes = 16

pub record Detached : Type 0 where
  pub ciphertext : List ℕ
  pub tag : List ℕ

pub record Opened : Type 0 where
  pub frame : FrameParts
  pub plaintext : List ℕ

abbrev pub aad_of : FrameParts → AadParts
aad_of frame = record {
  version = frame.version;
  type = frame.type;
  sequence = frame.sequence;
  ciphertext_length = length frame.ciphertext;
}

module _ (aead : Aead) where
  unfoldable pub encrypt_detached : List ℕ → List ℕ → List ℕ → List ℕ → Result ChannelError Detached
  encrypt_detached key nonce plaintext aad = do
    guard (length key == key_bytes) key_length
    guard (length nonce == nonce_bytes) nonce_length
    let sealed = aead.encrypt key nonce aad plaintext
    guard (not (ltb (length sealed) tag_bytes)) output_too_short
    ok (record {
      ciphertext = subarray sealed 0 (length sealed - tag_bytes);
      tag = subarray sealed (length sealed - tag_bytes) (length sealed);
    })

  unfoldable pub decrypt_detached :
      List ℕ → List ℕ → List ℕ → List ℕ → List ℕ → Result ChannelError (List ℕ)
  decrypt_detached key nonce ciphertext tag aad = do
    guard (length key == key_bytes) key_length
    guard (length nonce == nonce_bytes) nonce_length
    guard (length tag == tag_bytes) tag_length
    or_throw (aead.decrypt key nonce aad (ciphertext ++ tag)) authentication_failed

  -- The argument `nonce` is `crypto.randomBytes(NONCE_BYTES)`
  unfoldable pub seal_frame : List ℕ → ℕ → ℤ → List ℕ → List ℕ → Result ChannelError (List ℕ)
  seal_frame key type sequence plaintext nonce = do
    aad ← map_err frame_error (
        frame_aad (record {
          version = frame_version;
          type = type;
          sequence = sequence;
          ciphertext_length = length plaintext;
        }))
    sealed ← encrypt_detached key nonce plaintext aad
    map_err frame_error (
        encode_frame (record {
          version = frame_version;
          type = type;
          sequence = sequence;
          nonce = nonce;
          ciphertext = sealed.ciphertext;
          tag = sealed.tag;
        }))

  unfoldable pub open_frame : List ℕ → List ℕ → Result ChannelError Opened
  open_frame key raw = do
    frame ← map_err frame_error (decode_frame raw)
    aad ← map_err frame_error (frame_aad (aad_of frame))
    plaintext ← decrypt_detached key frame.nonce frame.ciphertext frame.tag aad
    ok (record { frame = frame; plaintext = plaintext })

-- `${CHANNEL_INFO}:client-to-server` and so on
abbrev pub client_to_server_info : Text
client_to_server_info = codes "consensus-node-tunnel-v1:client-to-server"

abbrev pub server_to_client_info : Text
server_to_client_info = codes "consensus-node-tunnel-v1:server-to-client"

abbrev pub session_id_info : Text
session_id_info = codes "consensus-node-tunnel-v1:session-id"

module _ (kdf : Kdf) where
  unfoldable pub session_of : TunnelRole → List ℕ → List ℕ → SecureSession
  session_of role shared_secret salt =
      let client_to_server = kdf.hkdf shared_secret salt (utf8 client_to_server_info) key_bytes in
      let server_to_client = kdf.hkdf shared_secret salt (utf8 server_to_client_info) key_bytes in
      let session_id = hex (kdf.hkdf shared_secret salt (utf8 session_id_info) 16) in
      elim role [
        | client ↦ record {
          session_id = session_id;
          send_key = client_to_server;
          receive_key = server_to_client;
        }
        | server ↦ record {
          session_id = session_id;
          send_key = server_to_client;
          receive_key = client_to_server;
        }
      ]

  unfoldable pub derive_secure_session :
      TunnelRole
      → ℕ
      → List ℕ
      → List ℕ
      → List ℕ
      → Option (List ℕ)
      → Result ChannelError SecureSession
  derive_secure_session role private_key peer_public_key client_nonce server_nonce transcript = do
    guard (not (ltb (length client_nonce) 16)) client_nonce_too_short
    guard (not (ltb (length server_nonce) 16)) server_nonce_too_short
    shared_secret ← or_throw (kdf.derive private_key peer_public_key) derive_failed
    let salt = kdf.sha256 (client_nonce ++ (server_nonce ++ Option.get_or transcript []))
    ok (session_of role shared_secret salt)
