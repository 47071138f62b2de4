-- ===== src/Tests/TunnelHandshake.antt =====
-- src/tunnel/handshake.ts on concrete keys and nonces.
use consensus_node.Base.{
  ℕ, ◌≡◌, ◌≤◌, length, refl, true, List, [], ◌∷◌, none, some, ok, codes, Text, text_beq, arith,
}
use consensus_node.Base.Int.{pos}
use consensus_node.Base.Json.{Fields, str, as_text, lookup}
use consensus_node.Crypto.Channel.{client, server, derive_secure_session}
use consensus_node.Crypto.Channel.Session.{opposite}
use consensus_node.Tunnel.Checks.{text_is, signature_key, signing_payload}
use consensus_node.Tunnel.Handshake.{
  ClientHandshake, ServerHandshake, is_mode, text_of, fields_of, decode_base64,
  assert_handshake_init, assert_handshake_accept, handshake_transcript_hash,
  create_client_handshake, accept_client_handshake, derive_client_session_from_accept,
}
use consensus_node.Tunnel.Handshake.Agreed.{input, derive-accept-create_client_handshake}
use consensus_node.Tunnel.Handshake.Accepted.{
  accept_client_handshake_signed, derive_client_session_pinned,
}
use consensus_node.Tests.Instances.{
  signatures, base64, kdf, pem, fill, length-fill, derive, cons_not_empty,
}
use consensus_node.Tests.StackJson.{json_codec}

abbrev client_nonce : List ℕ
client_nonce = fill 16 1

abbrev server_nonce : List ℕ
server_nonce = fill 16 2

long_client : 16 ≤ length client_nonce
long_client = omega (arith, length-fill 16 1)

long_server : 16 ≤ length server_nonce
long_server = omega (arith, length-fill 16 2)

is_control : is_mode (some (str (codes "control"))) ≡ true
unfolding text_beq
is_control = refl

shared : derive 3 (5 ∷ []) ≡ some (15 ∷ [])
unfolding derive
shared = refl

derive-accept-create_client_handshake_example :
    let ours_input =
      input base64 json_codec kdf signatures pem
        (codes "control")
        7
        none
        none
        none
        (pos 10)
        (pos 11)
        3
        5
        client_nonce
        server_nonce
        (15 ∷ [])
        (some 9) in
    (ours : ClientHandshake) × (theirs : ServerHandshake) × (create_client_handshake base64
        json_codec kdf signatures pem ours_input
        (pos 10)
        3
        client_nonce
      ≡ ok ours)
    × (accept_client_handshake base64 json_codec kdf signatures pem ours.message
          (some 9)
          (pos 11)
          5
          server_nonce
        ≡ ok theirs)
    × (derive_client_session_from_accept base64 json_codec kdf signatures pem ours theirs.message
          (some (9 ∷ []))
        ≡ ok (opposite theirs.session))
derive-accept-create_client_handshake_example =
    derive-accept-create_client_handshake base64 json_codec kdf signatures pem (codes "control") 7
      none none none (pos 10) (pos 11) 3 5 client_nonce server_nonce (15 ∷ []) (some 9) is_control
      long_client long_server shared

handshake :
    let ours_input =
      input base64 json_codec kdf signatures pem
        (codes "control")
        7
        none
        none
        none
        (pos 10)
        (pos 11)
        3
        5
        client_nonce
        server_nonce
        (15 ∷ [])
        (some 9) in
    (ours : ClientHandshake) × (theirs : ServerHandshake) × (create_client_handshake base64
        json_codec kdf signatures pem ours_input
        (pos 10)
        3
        client_nonce
      ≡ ok ours)
    × (accept_client_handshake base64 json_codec kdf signatures pem ours.message
          (some 9)
          (pos 11)
          5
          server_nonce
        ≡ ok theirs)
    × (derive_client_session_from_accept base64 json_codec kdf signatures pem ours theirs.message
          (some (9 ∷ []))
        ≡ ok (opposite theirs.session))
handshake =
    derive-accept-create_client_handshake base64 json_codec kdf signatures pem (codes "control") 7
      none none none (pos 10) (pos 11) 3 5 client_nonce server_nonce (15 ∷ []) (some 9) is_control
      long_client long_server shared

abbrev ours : ClientHandshake
ours = handshake.0

abbrev theirs : ServerHandshake
theirs = handshake.1

accept_client_handshake_signed_example :
    (message : Fields) × (key : ℕ) × (peer : List ℕ) × (nonce : List ℕ) × (assert_handshake_init
        base64 ours.message
      ≡ ok message)
    × (pem.read (text_of (lookup (codes "node_public_key_pem") message)) ≡ some key)
    × (signatures.verify key
          (signing_payload json_codec message)
          (base64.decode (text_of (lookup signature_key message)))
        ≡ true)
    × (decode_base64 base64 (lookup (codes "client_public_key") (fields_of ours.message)) ≡ ok peer)
    × (decode_base64 base64 (lookup (codes "client_nonce") (fields_of ours.message)) ≡ ok nonce)
    × (derive_secure_session kdf server 5 peer nonce server_nonce
          (some (kdf.sha256 (signing_payload json_codec message)))
        ≡ ok theirs.session)
accept_client_handshake_signed_example =
    accept_client_handshake_signed base64 json_codec kdf signatures pem ours.message (some 9)
      (pos 11) 5 server_nonce theirs handshake.3

derive_client_session_pinned_example :
    (message : Fields) × (key : ℕ) × (signature : Text) × (peer : List ℕ) × (nonce : List ℕ)
    × (transcript : List ℕ) × (assert_handshake_accept base64 theirs.message ≡ ok message)
    × (pem.read (9 ∷ []) ≡ some key)
    × (as_text (lookup signature_key message) ≡ some signature)
    × (signatures.verify key (signing_payload json_codec message) (base64.decode signature) ≡ true)
    × (decode_base64 base64 (lookup (codes "server_public_key") message) ≡ ok peer)
    × (decode_base64 base64 (lookup (codes "server_nonce") message) ≡ ok nonce)
    × (handshake_transcript_hash base64 json_codec kdf signatures pem ours.message ≡ ok transcript)
    × (derive_secure_session kdf client ours.private_key peer ours.client_nonce nonce
          (some transcript)
        ≡ ok (opposite theirs.session))
    × (text_is (lookup (codes "session_id") message) theirs.session.session_id ≡ true)
derive_client_session_pinned_example =
    derive_client_session_pinned base64 json_codec kdf signatures pem ours theirs.message (9 ∷ [])
      (opposite theirs.session) (cons_not_empty _ _) handshake.4
