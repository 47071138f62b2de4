-- ===== src/Tunnel/DataHandshake.antt =====
-- src/tunnel/data-handshake.ts: a client and a node agree on a session, and the node proves its
-- identity for this very session. Messages are JSON values. Key pairs, nonces and the clock, which the
-- code makes on the way, are arguments; a private key stands for its key pair.
pub mod Agreed
pub mod Bound
use consensus_node.Base.{
  ℕ, Text, codes, text_eq, List, [], Option, none, some, ◌==◌, Result, ok, err, ◌>>=◌, ◌>>◌, guard,
  map_err, or_throw, or_else,
}
use consensus_node.Base.Int.{ℤ, pos}
use consensus_node.Base.Json.{
  Json, null, num, str, obj, Fields, end, field, JsonCodec, as_text, as_number, lookup,
}
use consensus_node.Crypto.Primitives.{Kdf, Signatures, Base64}
use consensus_node.Crypto.Channel.{
  ChannelError, SecureSession, client, server, derive_secure_session,
}
use consensus_node.Tunnel.Checks.{
  text_is, number_is, non_empty, is_object, object_fields, bytes_of, canonical_json,
}
use consensus_node.Tunnel.ResponderAuth.{
  ResponderError, VerifyProofOptions, create_challenge, sign_challenge, verify_proof,
}

abbrev pub data_handshake_protocol : Text
data_handshake_protocol = codes "consensus-data-plane"

abbrev pub data_handshake_version : ℕ
data_handshake_version = 1

abbrev pub init_type : Text
init_type = codes "data_init"

abbrev pub accept_type : Text
accept_type = codes "data_accept"

pub data HandshakeError : Type 0 where
  not_an_object wrong_type unsupported_protocol unsupported_version node_id_missing : HandshakeError
  not_a_text nothing_decoded timestamp_invalid session_id_missing proof_missing : HandshakeError
  other_node session_id_mismatch : HandshakeError
  channel_error : ChannelError → HandshakeError
  responder_error : ResponderError → HandshakeError

pub record ClientDataHandshake : Type 0 where
  pub private_key : ℕ
  pub client_nonce : List ℕ
  pub message : Json

pub record NodeDataHandshake : Type 0 where
  pub message : Json
  pub session : SecureSession

-- The public keys and the nonces as base64
pub record BindingInput : Type 0 where
  pub node_id : Text
  pub client_public_key : Text
  pub client_nonce : Text
  pub node_public_key : Text
  pub node_nonce : Text

unfoldable pub assert_base : Json → Text → Result HandshakeError Fields
assert_base value type = do
  message ← object_fields not_an_object value
  guard (text_is (lookup (codes "type") message) type) wrong_type
  guard (text_is (lookup (codes "protocol") message) data_handshake_protocol) unsupported_protocol
  guard (number_is (lookup (codes "version") message) data_handshake_version) unsupported_version
  ok message

-- A field that is known to be a text.
abbrev pub text_of : Option Json → Text
text_of v = or_else (as_text v) []

-- `createChallenge({ now: accept.proof.timestamp })`, whose check refuses what is no number
abbrev pub timestamp_of : ℤ → Option Json → Result HandshakeError ℤ
timestamp_of clock none = ok clock
timestamp_of clock (some null) = ok clock
timestamp_of clock (some (num n)) = ok n
timestamp_of clock (some _) = err timestamp_invalid

-- The fields of `accept.proof`
abbrev pub proof_of : Option Json → Fields
proof_of (some (obj fs)) = fs
proof_of _ = end

unfoldable pub init_fields : Text → Text → Text → ℤ → Fields
init_fields node_id public_key nonce now = field (codes "type") (str init_type) (
    field (codes "protocol") (str data_handshake_protocol) (
      field (codes "version") (num (pos data_handshake_version)) (
        field (codes "node_id") (str node_id) (
          field (codes "client_public_key") (str public_key)
            (field (codes "client_nonce") (str nonce) (field (codes "timestamp") (num now) end))))))

unfoldable pub accept_fields : Text → Text → Json → Fields
accept_fields public_key session_id proof = field (codes "type") (str accept_type) (
    field (codes "protocol") (str data_handshake_protocol) (
      field (codes "version") (num (pos data_handshake_version)) (
        field (codes "node_public_key") (str public_key)
          (field (codes "session_id") (str session_id) (field (codes "proof") proof end)))))

module _ (base64 : Base64) where
  unfoldable pub decode_base64 : Option Json → Result HandshakeError (List ℕ)
  decode_base64 value = bytes_of base64.decode not_a_text nothing_decoded value

  unfoldable pub assert_data_init : Json → Result HandshakeError Fields
  assert_data_init value = do
    message ← assert_base value init_type
    guard (non_empty (lookup (codes "node_id") message)) node_id_missing
    public_key ← decode_base64 (lookup (codes "client_public_key") message)
    nonce ← decode_base64 (lookup (codes "client_nonce") message)
    timestamp ← or_throw (as_number (lookup (codes "timestamp") message)) timestamp_invalid
    ok message

  unfoldable pub assert_data_accept : Json → Result HandshakeError Fields
  assert_data_accept value = do
    message ← assert_base value accept_type
    public_key ← decode_base64 (lookup (codes "node_public_key") message)
    guard (non_empty (lookup (codes "session_id") message)) session_id_missing
    guard (is_object (lookup (codes "proof") message)) proof_missing
    ok message

  -- The arguments are the drawn key, the drawn nonce and the time.
  unfoldable pub create_data_init : Kdf → Text → ℤ → ℕ → List ℕ → ClientDataHandshake
  create_data_init kdf node_id now private_key nonce = record {
    private_key = private_key;
    client_nonce = nonce;
    message = obj (
        init_fields node_id (base64.encode (kdf.public_key private_key)) (base64.encode nonce) now);
  }

  module _ (kdf : Kdf) (json : JsonCodec) where
    unfoldable pub channel_binding : BindingInput → List ℕ
    channel_binding input = kdf.sha256 (
        canonical_json json (
          obj (
            field (codes "protocol") (str data_handshake_protocol) (
              field (codes "version") (num (pos data_handshake_version)) (
                field (codes "node_id") (str input.node_id) (
                  field (codes "client_public_key") (str input.client_public_key) (
                    field (codes "client_nonce") (str input.client_nonce) (
                      field (codes "node_public_key") (str input.node_public_key)
                        (field (codes "node_nonce") (str input.node_nonce) end)))))))))

    -- The binding as the client computes it: from what it sent, the accept message and the proof.
    unfoldable pub client_binding : ClientDataHandshake → Fields → Fields → Text → List ℕ
    client_binding ours message proof node_id =
        let asked = proof_of (some ours.message) in
        channel_binding (record {
          node_id = node_id;
          client_public_key = text_of (lookup (codes "client_public_key") asked);
          client_nonce = text_of (lookup (codes "client_nonce") asked);
          node_public_key = text_of (lookup (codes "node_public_key") message);
          node_nonce = text_of (lookup (codes "node_nonce") proof);
        })

    unfoldable pub proof_options :
        Text → ℕ → Option ℤ → List ℕ → Fields → ℤ → List ℕ → VerifyProofOptions
    proof_options node_id key now client_nonce proof asked_at transcript = record {
      proof = obj proof;
      challenge = create_challenge base64 node_id asked_at client_nonce (some transcript);
      expected_node_id = node_id;
      expected_node_public_key = key;
      now = now;
      clock_tolerance_sec = none;
      max_age_sec = none;
    }

    module _ (signatures : Signatures) where
      -- The identity's key, the node's id, the time, the drawn key and the drawn nonce.
      unfoldable pub accept_data_init :
          Json → ℕ → Text → ℤ → ℕ → List ℕ → Result HandshakeError NodeDataHandshake
      accept_data_init init identity_key node_id now private_key node_nonce = do
        message ← assert_data_init init
        guard (text_is (lookup (codes "node_id") message) node_id) other_node
        let node_public_key = base64.encode (kdf.public_key private_key)
        let transcript = channel_binding (record {
          node_id = node_id;
          client_public_key = text_of (lookup (codes "client_public_key") message);
          client_nonce = text_of (lookup (codes "client_nonce") message);
          node_public_key = node_public_key;
          node_nonce = base64.encode node_nonce;
        })
        peer ← decode_base64 (lookup (codes "client_public_key") message)
        client_nonce ← decode_base64 (lookup (codes "client_nonce") message)
        session ← map_err channel_error (
            derive_secure_session kdf server private_key peer client_nonce node_nonce
              (some transcript))
        proof ← map_err responder_error (
            sign_challenge base64 signatures json
              (create_challenge base64 node_id now client_nonce (some transcript)) identity_key
              node_id now node_nonce)
        ok (record {
          message = obj (accept_fields node_public_key session.session_id proof);
          session = session;
        })

      -- The client's handshake, the accept message, what is expected, and the time.
      unfoldable pub derive_client_data_session :
          ClientDataHandshake → Json → Text → ℕ → Option ℤ → ℤ → Result HandshakeError SecureSession
      derive_client_data_session ours accept expected_node_id expected_key now clock = do
        message ← assert_data_accept accept
        let proof = proof_of (lookup (codes "proof") message)
        let transcript = client_binding ours message proof expected_node_id
        asked_at ← timestamp_of clock (lookup (codes "timestamp") proof)
        proven ← map_err responder_error (
            verify_proof base64 signatures json clock (
              proof_options expected_node_id expected_key now ours.client_nonce proof asked_at
                transcript))
        peer ← decode_base64 (lookup (codes "node_public_key") message)
        server_nonce ← decode_base64 (lookup (codes "node_nonce") proof)
        session ← map_err channel_error (
            derive_secure_session kdf client ours.private_key peer ours.client_nonce server_nonce
              (some transcript))
        guard (text_is (lookup (codes "session_id") message) session.session_id) session_id_mismatch
        ok session
