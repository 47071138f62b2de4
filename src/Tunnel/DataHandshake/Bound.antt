-- ===== src/Tunnel/DataHandshake/Bound.antt =====
-- What a client of src/tunnel/data-handshake.ts knows of a session that it derives.
use consensus_node.Base.{
  ℕ, Text, codes, List, Option, some, ok, ◌≡◌, refl, sym, ap, ◌∙◌, true, arith, >>=-eq-ok, map_err,
  map_err-eq-ok, subst,
}
use consensus_node.Base.Int.{ℤ, pos}
use consensus_node.Base.Json.{Json, num, str, obj, Fields, end, field, JsonCodec, lookup}
use consensus_node.Crypto.Primitives.{Kdf, Signatures, Base64}
use consensus_node.Crypto.Channel.{SecureSession, client, derive_secure_session}
use consensus_node.Tunnel.Checks.{signature_key, canonical_json}
use consensus_node.Tunnel.ResponderAuth.{
  VerifyProofOptions, assert_base, assert_challenge, assert_proof, create_challenge, verify_proof,
}
use consensus_node.Tunnel.ResponderAuth.Proven.{created, create_challenge-eq, created-IsMessage}
use consensus_node.Tunnel.ResponderAuth.Trusted.{Covers, IsTrusted, verify_proof-IsTrusted}
use consensus_node.Tunnel.DataHandshake.{
  channel_error, responder_error, ClientDataHandshake, timestamp_of, proof_of, decode_base64,
  assert_data_accept, derive_client_data_session, client_binding, channel_binding, text_of,
  proof_options,
}

module _ (base64 : Base64) where
  assert_base_same : (fs c : Fields) → assert_base base64 (obj fs) ≡ ok c → fs ≡ c
  unfolding assert_base
  assert_base_same fs c h = ground arith

  assert_challenge_same : (fs c : Fields) → assert_challenge base64 (obj fs) ≡ ok c → fs ≡ c
  unfolding assert_challenge
  assert_challenge_same fs c h =
      let (m, based, rest) = >>=-eq-ok (assert_base base64 (obj fs)) _ h in
      assert_base_same fs m based ∙ ground arith

  assert_proof_same : (fs c : Fields) → assert_proof base64 (obj fs) ≡ ok c → fs ≡ c
  unfolding assert_proof
  assert_proof_same fs c h =
      let (m, based, rest) = >>=-eq-ok (assert_base base64 (obj fs)) _ h in
      assert_base_same fs m based ∙ ground arith

  created_bound :
      (node_id : Text) (at : ℤ) (nonce binding : List ℕ) (challenge : Fields)
      → assert_challenge base64 (create_challenge base64 node_id at nonce (some binding))
        ≡ ok challenge
      → lookup (codes "channel_binding") challenge ≡ some (str (base64.encode binding))
  created_bound node_id at nonce binding challenge h =
      let e = assert_challenge_same (created base64 node_id at nonce (some binding)) challenge (
        ap (assert_challenge base64)
          (sym (create_challenge-eq base64 node_id at nonce (some binding)))
        ∙ h) in
      ap (lookup (codes "channel_binding")) (sym e)
      ∙ (created-IsMessage base64 node_id at nonce (some binding)).says_binding

  module _ (kdf : Kdf) (json : JsonCodec) (signatures : Signatures) where
    -- What the exchange is bound to: the node's id, both public keys and both nonces, as the client
    -- has them in its own message, the accept message and the proof.
    pub record IsBound (ours : ClientDataHandshake) (node_id : Text) (key : ℕ) (accept : Json)
        (session : SecureSession) : Type 0 where
      pub message : Fields
      pub own : Fields
      pub signature : Text
      pub peer : List ℕ
      pub server_nonce : List ℕ
      pub accepted : assert_data_accept base64 accept ≡ ok message
      pub own_message : own ≡ proof_of (some ours.message)
      pub proof : Fields
      pub proof_in : proof ≡ proof_of (lookup (codes "proof") message)
      pub binding : List ℕ
      pub binding_is :
          binding
          ≡ kdf.sha256 (
              canonical_json json (
                obj (
                  field (codes "protocol") (str (codes "consensus-data-plane")) (
                    field (codes "version") (num (pos 1)) (
                      field (codes "node_id") (str node_id) (
                        field
                          (codes "client_public_key")
                          (str (text_of (lookup (codes "client_public_key") own)))
                          (field
                            (codes "client_nonce")
                            (str (text_of (lookup (codes "client_nonce") own)))
                            (field
                              (codes "node_public_key")
                              (str (text_of (lookup (codes "node_public_key") message)))
                              (field
                                (codes "node_nonce")
                                (str (text_of (lookup (codes "node_nonce") proof)))
                                end)))))))))
      pub names_node : lookup (codes "node_id") proof ≡ some (str node_id)
      pub bound : lookup (codes "channel_binding") proof ≡ some (str (base64.encode binding))
      pub has_signature : lookup signature_key proof ≡ some (str signature)
      pub signed : Fields
      pub covers : Covers signed proof
      pub is_signed :
          signatures.verify key (json.stringify (obj signed)) (base64.decode signature) ≡ true
      pub has_key : decode_base64 base64 (lookup (codes "node_public_key") message) ≡ ok peer
      pub has_nonce : decode_base64 base64 (lookup (codes "node_nonce") proof) ≡ ok server_nonce
      pub derived :
          derive_secure_session kdf client ours.private_key peer ours.client_nonce server_nonce
            (some binding)
          ≡ ok session

    client_binding_lem :
        (ours : ClientDataHandshake) (message proof : Fields) (node_id : Text)
        → client_binding base64 kdf json ours message proof node_id
          ≡ kdf.sha256 (
              canonical_json json (
                obj (
                  field (codes "protocol") (str (codes "consensus-data-plane")) (
                    field (codes "version") (num (pos 1)) (
                      field (codes "node_id") (str node_id) (
                        field
                          (codes "client_public_key")
                          (str (
                            text_of
                              (lookup (codes "client_public_key") (proof_of (some ours.message)))))
                          (field
                            (codes "client_nonce")
                            (str (
                              text_of
                                (lookup (codes "client_nonce") (proof_of (some ours.message)))))
                            (field
                              (codes "node_public_key")
                              (str (text_of (lookup (codes "node_public_key") message)))
                              (field
                                (codes "node_nonce")
                                (str (text_of (lookup (codes "node_nonce") proof)))
                                end)))))))))
    unfolding client_binding channel_binding
    client_binding_lem ours message proof node_id = refl

    -- A session that a client derives is the node's own: the accept message carries a proof that is
    -- signed under the expected key, with all its fields but the signature and one called __proto__,
    -- and that names the node and is bound to this very exchange. The binding is the hash of the
    -- protocol, its version, the node's id, and both public keys and both nonces: those of the client
    -- from its own message, the node's key from the accept message, the node's nonce from the proof.
    -- The session is derived from the client's private key, the node's key, both nonces and that hash.
    pub derive_client_data_session-IsBound :
        (ours : ClientDataHandshake) (accept : Json) (node_id : Text) (key : ℕ) (now : Option ℤ)
        (clock : ℤ) (session : SecureSession)
        → derive_client_data_session base64 kdf json signatures ours accept node_id key now clock
          ≡ ok session
        → IsBound ours node_id key accept session
    unfolding derive_client_data_session proof_options
    derive_client_data_session-IsBound ours accept node_id key now clock session h =
        let (message, accepted, h1) = >>=-eq-ok (assert_data_accept base64 accept) _ h in
        let proof : Fields = proof_of (lookup (codes "proof") message) in
        let binding : List ℕ = client_binding base64 kdf json ours message proof node_id in
        let (at, dated, h2) =
          >>=-eq-ok (timestamp_of clock (lookup (codes "timestamp") proof)) _ h1 in
        let opts : VerifyProofOptions =
          proof_options base64 kdf json node_id key now ours.client_nonce proof at binding in
        let (proven, verified, h3) =
          >>=-eq-ok (map_err responder_error (verify_proof base64 signatures json clock opts)) _
            h2 in
        let (peer, keyed, h4) =
          >>=-eq-ok (decode_base64 base64 (lookup (codes "node_public_key") message)) _ h3 in
        let (server_nonce, nonced, h5) =
          >>=-eq-ok (decode_base64 base64 (lookup (codes "node_nonce") proof)) _ h4 in
        let (derived, session_h, h6) =
          >>=-eq-ok
            (map_err channel_error (
              derive_secure_session kdf client ours.private_key peer ours.client_nonce server_nonce
                (some binding)))
            _ h5 in
        let (challenge, asked, proved, trusted) =
          verify_proof-IsTrusted base64 signatures json clock opts proven
            (map_err-eq-ok responder_error _ verified) in
        let same : proof ≡ proven = assert_proof_same proof proven proved in
        let own =
          subst (IsTrusted base64 signatures json clock opts challenge) (sym same) trusted in
        record {
          message = message;
          own = proof_of (some ours.message);
          signature = own.signature;
          peer = peer;
          server_nonce = server_nonce;
          accepted = accepted;
          own_message = refl;
          proof = proof;
          proof_in = refl;
          binding = binding;
          binding_is = client_binding_lem ours message proof node_id;
          names_node = own.names_node;
          bound =
              own.echoes_binding
              ∙ created_bound node_id at ours.client_nonce binding challenge asked;
          has_signature = own.has_signature;
          signed = own.signed;
          covers = own.covers;
          is_signed = own.is_signed;
          has_key = keyed;
          has_nonce = nonced;
          derived = map_err-eq-ok channel_error _ session_h ∙ ap ok (ground arith);
        }
