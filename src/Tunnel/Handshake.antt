-- ===== src/Tunnel/Handshake.antt =====
-- src/tunnel/handshake.ts: a node and the orchestrator agree on the session of a tunnel. Messages are
-- JSON values. Key pairs, nonces and the clock, which the code makes on the way, are arguments; a
-- private key stands for its key pair.
pub mod Read
pub mod Accepted
pub mod Agreed
use consensus_node.Base.{
  ℕ, Text, codes, text_eq, Bool, true, false, ◌||◌, List, [], ◌∷◌, Option, none, some, ◌==◌,
  if◌then◌else◌, Result, ok, err, ◌>>=◌, ◌>>◌, guard, map_err, or_throw, or_else,
}
use mathlib.Core.Option
use consensus_node.Base.Int.{ℤ, pos}
use consensus_node.Base.Json.{
  Json, num, str, obj, Fields, end, field, JsonCodec, as_text, as_number, lookup,
}
use consensus_node.Crypto.Primitives.{Kdf, Signatures, Base64, Pem}
use consensus_node.Crypto.Channel.{
  ChannelError, SecureSession, client, server, derive_secure_session,
}
use consensus_node.Tunnel.Messages.{opt_text}
use consensus_node.Tunnel.Checks.{
  text_is, number_is, non_empty, object_fields, bytes_of, append_field, signature_key,
  signing_payload,
}

abbrev pub handshake_protocol : Text
handshake_protocol = codes "consensus-node-tunnel"

abbrev pub handshake_version : ℕ
handshake_version = 1

abbrev pub init_type : Text
init_type = codes "handshake_init"

abbrev pub accept_type : Text
accept_type = codes "handshake_accept"

abbrev pub reject_type : Text
reject_type = codes "handshake_reject"

pub data HandshakeError : Type 0 where
  not_an_object unknown_type wrong_type unsupported_protocol unsupported_version : HandshakeError
  timestamp_invalid unsupported_mode not_a_text nothing_decoded invalid_json : HandshakeError
  invalid_key signature_failed signature_required session_id_mismatch : HandshakeError
  channel_error : ChannelError → HandshakeError

pub record ClientHandshake : Type 0 where
  pub private_key : ℕ
  pub client_nonce : List ℕ
  pub message : Json

pub record ServerHandshake : Type 0 where
  pub private_key : ℕ
  pub server_nonce : List ℕ
  pub message : Json
  pub session : SecureSession

-- The private key of an identity, and its public key as PEM
pub record NodeIdentity : Type 0 where
  pub private_key : ℕ
  pub public_key_pem : Text

pub record ClientInput : Type 0 where
  pub mode : Text
  pub identity : NodeIdentity
  pub node_id : Option Text
  pub candidate_id : Option Text
  pub release_version : Option Text

-- `Object.values(TUNNEL_MODE).includes(mode)`
abbrev pub is_mode : Option Json → Bool
is_mode value = text_is value (codes "eval") || text_is value (codes "control")

-- A field that is known to be a text.
abbrev pub text_of : Option Json → Text
text_of v = or_else (as_text v) []

abbrev pub fields_of : Json → Fields
fields_of (obj fs) = fs
fields_of _ = end

unfoldable pub assert_base : Json → Text → Result HandshakeError Fields
assert_base value type = do
  message ← object_fields not_an_object value
  guard (text_is (lookup (codes "type") message) type) wrong_type
  guard (text_is (lookup (codes "protocol") message) handshake_protocol) unsupported_protocol
  guard (number_is (lookup (codes "version") message) handshake_version) unsupported_version
  timestamp ← or_throw (as_number (lookup (codes "timestamp") message)) timestamp_invalid
  ok message

-- `if (message.signature !== undefined) assertString(message.signature)`
abbrev pub signature_sound : Option Json → Bool
signature_sound none = true
signature_sound value = non_empty value

unfoldable pub init_fields : ClientInput → ℤ → Text → Text → Fields
init_fields input now public_key nonce = field (codes "type") (str init_type) (
    field (codes "protocol") (str handshake_protocol) (
      field (codes "version") (num (pos handshake_version)) (
        field (codes "mode") (str input.mode) (
          field (codes "timestamp") (num now) (
            field (codes "client_public_key") (str public_key) (
              field (codes "client_nonce") (str nonce) (
                field (codes "node_public_key_pem") (str input.identity.public_key_pem) (
                  opt_text (codes "node_id") input.node_id (
                    opt_text (codes "candidate_id") input.candidate_id
                      (opt_text (codes "release_version") input.release_version end))))))))))

unfoldable pub accept_fields : ℤ → Text → Text → Text → Fields
accept_fields now public_key nonce session_id = field (codes "type") (str accept_type) (
    field (codes "protocol") (str handshake_protocol) (
      field (codes "version") (num (pos handshake_version)) (
        field (codes "timestamp") (num now) (
          field (codes "server_public_key") (str public_key) (
            field (codes "server_nonce") (str nonce)
              (field (codes "session_id") (str session_id) end))))))

unfoldable pub create_handshake_reject : Text → Text → ℤ → Json
create_handshake_reject code message now = obj (
    field (codes "type") (str reject_type) (
      field (codes "protocol") (str handshake_protocol) (
        field (codes "version") (num (pos handshake_version)) (
          field (codes "timestamp") (num now)
            (field (codes "code") (str code) (field (codes "message") (str message) end))))))

unfoldable pub assert_handshake_reject : Json → Result HandshakeError Fields
assert_handshake_reject value = do
  message ← assert_base value reject_type
  guard (non_empty (lookup (codes "code") message)) not_a_text
  guard (non_empty (lookup (codes "message") message)) not_a_text
  ok message

module _ (base64 : Base64) where
  unfoldable pub decode_base64 : Option Json → Result HandshakeError (List ℕ)
  decode_base64 value = bytes_of base64.decode not_a_text nothing_decoded value

  unfoldable pub assert_handshake_init : Json → Result HandshakeError Fields
  assert_handshake_init value = do
    message ← assert_base value init_type
    guard (is_mode (lookup (codes "mode") message)) unsupported_mode
    guard (non_empty (lookup (codes "client_public_key") message)) not_a_text
    guard (non_empty (lookup (codes "client_nonce") message)) not_a_text
    guard (non_empty (lookup (codes "node_public_key_pem") message)) not_a_text
    guard (non_empty (lookup signature_key message)) not_a_text
    public_key ← decode_base64 (lookup (codes "client_public_key") message)
    nonce ← decode_base64 (lookup (codes "client_nonce") message)
    ok message

  unfoldable pub assert_handshake_accept : Json → Result HandshakeError Fields
  assert_handshake_accept value = do
    message ← assert_base value accept_type
    guard (non_empty (lookup (codes "server_public_key") message)) not_a_text
    guard (non_empty (lookup (codes "server_nonce") message)) not_a_text
    guard (non_empty (lookup (codes "session_id") message)) not_a_text
    public_key ← decode_base64 (lookup (codes "server_public_key") message)
    nonce ← decode_base64 (lookup (codes "server_nonce") message)
    guard (signature_sound (lookup signature_key message)) not_a_text
    ok message

  -- The message by its type
  unfoldable pub assert_handshake_message : Json → Result HandshakeError Fields
  assert_handshake_message value = do
    message ← object_fields not_an_object value
    let type = lookup (codes "type") message
    if text_is type init_type
        then assert_handshake_init value
        else if text_is type accept_type
        then assert_handshake_accept value
        else if text_is type reject_type
        then assert_handshake_reject value
        else err unknown_type

  module _ (json : JsonCodec) where
    unfoldable pub encode_handshake_message : Json → List ℕ
    encode_handshake_message message = json.stringify message

    unfoldable pub decode_handshake_message : List ℕ → Result HandshakeError Json
    decode_handshake_message payload = do
      parsed ← or_throw (json.parse payload) invalid_json
      message ← assert_handshake_message parsed
      ok parsed

    module _ (kdf : Kdf) (signatures : Signatures) (pem : Pem) where
      -- `signUtf8` and `verifyUtf8`
      abbrev pub sign_fields : ℕ → Fields → Text
      sign_fields key fs = base64.encode (signatures.sign key (signing_payload json fs))

      unfoldable pub verify_fields : Text → Fields → Text → Result HandshakeError Bool
      verify_fields key_pem fs signature = do
        key ← or_throw (pem.read key_pem) invalid_key
        ok (signatures.verify key (signing_payload json fs) (base64.decode signature))

      abbrev pub signed : ℕ → Fields → Fields
      signed key fs = append_field fs signature_key (str (sign_fields key fs))

      -- The time, the drawn key and the drawn nonce.
      unfoldable pub create_client_handshake :
          ClientInput → ℤ → ℕ → List ℕ → Result HandshakeError ClientHandshake
      create_client_handshake input now private_key nonce = do
        guard (is_mode (some (str input.mode))) unsupported_mode
        let unsigned =
            init_fields input now (base64.encode (kdf.public_key private_key)) (base64.encode nonce)
        ok (record {
          private_key = private_key;
          client_nonce = nonce;
          message = obj (signed input.identity.private_key unsigned);
        })

      unfoldable pub verify_client_handshake : Json → Result HandshakeError Bool
      verify_client_handshake value = do
        message ← assert_handshake_init value
        verify_fields (text_of (lookup (codes "node_public_key_pem") message)) message
            (text_of (lookup signature_key message))

      unfoldable pub handshake_transcript_hash : Json → Result HandshakeError (List ℕ)
      handshake_transcript_hash init = do
        message ← assert_handshake_init init
        ok (kdf.sha256 (signing_payload json message))

      -- `serverSigningKeyPem ? signUtf8(…) : undefined`
      abbrev pub signed_if : Option ℕ → Fields → Fields
      signed_if none fs = fs
      signed_if (some key) fs = signed key fs

      -- The key that signs, the time, the drawn key and the drawn nonce.
      unfoldable pub accept_client_handshake :
          Json → Option ℕ → ℤ → ℕ → List ℕ → Result HandshakeError ServerHandshake
      accept_client_handshake init signing_key now private_key server_nonce = do
        verified ← verify_client_handshake init
        guard verified signature_failed
        let message = fields_of init
        peer ← decode_base64 (lookup (codes "client_public_key") message)
        client_nonce ← decode_base64 (lookup (codes "client_nonce") message)
        transcript ← handshake_transcript_hash init
        session ← map_err channel_error (
            derive_secure_session kdf server private_key peer client_nonce server_nonce
              (some transcript))
        let unsigned =
            accept_fields now (base64.encode (kdf.public_key private_key))
              (base64.encode server_nonce) session.session_id
        ok (record {
          private_key = private_key;
          server_nonce = server_nonce;
          message = obj (signed_if signing_key unsigned);
          session = session;
        })

      -- The signature of the server, where its key is pinned.
      unfoldable pub check_pinned : Option Text → Fields → Result HandshakeError (Unit {0})
      check_pinned none message = ok tt
      check_pinned (some key_pem) message = do
        signature ← or_throw (as_text (lookup signature_key message)) signature_required
        verified ← verify_fields key_pem message signature
        guard verified signature_failed

      -- A pinned key that is empty is no pinned key.
      abbrev pub pinned : Option Text → Option Text
      pinned none = none
      pinned (some key_pem) = if key_pem == [] then none else some key_pem

      unfoldable pub derive_client_session_from_accept :
          ClientHandshake → Json → Option Text → Result HandshakeError SecureSession
      derive_client_session_from_accept ours accept server_key_pem = do
        message ← assert_handshake_accept accept
        checked ← check_pinned (pinned server_key_pem) message
        peer ← decode_base64 (lookup (codes "server_public_key") message)
        server_nonce ← decode_base64 (lookup (codes "server_nonce") message)
        transcript ← handshake_transcript_hash ours.message
        session ← map_err channel_error (
            derive_secure_session kdf client ours.private_key peer ours.client_nonce server_nonce
              (some transcript))
        guard (text_is (lookup (codes "session_id") message) session.session_id) session_id_mismatch
        ok session
