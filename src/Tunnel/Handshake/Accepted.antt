-- ===== src/Tunnel/Handshake/Accepted.antt =====
-- What the ends of a handshake of src/tunnel/handshake.ts know of the session that they derive.
use consensus_node.Base.{
  ℕ, Text, codes, text_eq, List, [], Option, some, ok, ◌≡◌, ◌≢◌, refl, sym, ap, ◌∙◌, true, arith,
  >>=-eq-ok, guard, guard-eq-ok, map_err, map_err-eq-ok, or_throw, or_throw-eq-ok, ok-injective,
  ◌>>=◌, ==_ne,
}
use consensus_node.Base.Int.{ℤ}
use consensus_node.Base.Json.{Json, Fields, JsonCodec, as_text, lookup}
use consensus_node.Crypto.Primitives.{Kdf, Signatures, Base64, Pem}
use consensus_node.Crypto.Channel.{SecureSession, client, server, derive_secure_session}
use consensus_node.Tunnel.Checks.{text_is, signature_key, signing_payload}
use consensus_node.Tunnel.Handshake.{
  ClientHandshake, ServerHandshake, decode_base64, assert_handshake_init, assert_handshake_accept,
  verify_fields, verify_client_handshake, handshake_transcript_hash, fields_of, text_of,
  check_pinned, pinned, accept_client_handshake, derive_client_session_from_accept, channel_error,
  signature_failed, signature_required, session_id_mismatch, invalid_key,
}

module _ (base64 : Base64) (json : JsonCodec) (kdf : Kdf) (signatures : Signatures)
    (pem : Pem) where
  verified_fields :
      (key_pem : Text) (fs : Fields) (signature : Text)
      → verify_fields base64 json kdf signatures pem key_pem fs signature ≡ ok true
      → (key : ℕ) × (pem.read key_pem ≡ some key)
        × (signatures.verify key (signing_payload json fs) (base64.decode signature) ≡ true)
  unfolding verify_fields
  verified_fields key_pem fs signature h =
      let (key, found, rest) = >>=-eq-ok (or_throw (pem.read key_pem) invalid_key) _ h in
      (key, or_throw-eq-ok _ _ found, ground arith)

  -- A server accepts a handshake only if it is signed under the key that it names: the message passes
  -- the checks, its signature verifies under its own public key, and the session is derived from the
  -- client's key and nonce and from the hash of what was signed.
  pub accept_client_handshake_signed :
      (init : Json) (signing_key : Option ℕ) (now : ℤ) (private_key : ℕ) (server_nonce : List ℕ)
      (answer : ServerHandshake)
      → accept_client_handshake base64 json kdf signatures pem init signing_key now private_key
          server_nonce
        ≡ ok answer
      → (message : Fields) × (key : ℕ) × (peer : List ℕ) × (client_nonce : List ℕ)
        × (assert_handshake_init base64 init ≡ ok message)
        × (pem.read (text_of (lookup (codes "node_public_key_pem") message)) ≡ some key)
        × (signatures.verify key
              (signing_payload json message)
              (base64.decode (text_of (lookup signature_key message)))
            ≡ true)
        × (decode_base64 base64 (lookup (codes "client_public_key") (fields_of init)) ≡ ok peer)
        × (decode_base64 base64 (lookup (codes "client_nonce") (fields_of init)) ≡ ok client_nonce)
        × (derive_secure_session kdf server private_key peer client_nonce server_nonce
              (some (kdf.sha256 (signing_payload json message)))
            ≡ ok answer.session)
  unfolding accept_client_handshake verify_client_handshake handshake_transcript_hash
  accept_client_handshake_signed init signing_key now private_key server_nonce answer h =
      let (good, verified, h1) =
        >>=-eq-ok (verify_client_handshake base64 json kdf signatures pem init) _ h in
      let (_, is_good, h2) = >>=-eq-ok (guard good signature_failed) _ h1 in
      let (message, asserted, checked) = >>=-eq-ok (assert_handshake_init base64 init) _ verified in
      let (key, found, signed) =
        verified_fields (text_of (lookup (codes "node_public_key_pem") message)) message
          (text_of (lookup signature_key message))
          (checked ∙ ap ok (guard-eq-ok good signature_failed is_good)) in
      let (peer, keyed, h3) =
        >>=-eq-ok (decode_base64 base64 (lookup (codes "client_public_key") (fields_of init))) _
          h2 in
      let (nonce, nonced, h4) =
        >>=-eq-ok (decode_base64 base64 (lookup (codes "client_nonce") (fields_of init))) _ h3 in
      let (transcript, hashed, h5) =
        >>=-eq-ok (handshake_transcript_hash base64 json kdf signatures pem init) _ h4 in
      let same : transcript ≡ kdf.sha256 (signing_payload json message) =
        ok-injective
          (sym hashed ∙ ap (λ r. r >>= (λ m. ok (kdf.sha256 (signing_payload json m)))) asserted) in
      let (session, derived, h6) =
        >>=-eq-ok
          (map_err channel_error (
            derive_secure_session kdf server private_key peer nonce server_nonce (some transcript)))
          _ h5 in
      (
        message,
        key,
        peer,
        nonce,
        asserted,
        found,
        signed,
        keyed,
        nonced,
        ap (λ t. derive_secure_session kdf server private_key peer nonce server_nonce (some t))
              (sym same)
            ∙ (map_err-eq-ok channel_error _ derived ∙ ap (λ a. ok a.session) (ok-injective h6)),
      )

  -- A client that has pinned a server's key derives a session only from what this key has signed: the
  -- message passes the checks, its signature verifies under the pinned key, and the session, whose id
  -- the message names, is derived from the client's own key and nonce, the server's, and the hash of
  -- the client's own message.
  pub derive_client_session_pinned :
      (ours : ClientHandshake) (accept : Json) (server_key_pem : Text) (session : SecureSession)
      → server_key_pem ≢ []
      → derive_client_session_from_accept base64 json kdf signatures pem ours accept
          (some server_key_pem)
        ≡ ok session
      → (message : Fields) × (key : ℕ) × (signature : Text) × (peer : List ℕ) × (server_nonce : List
          ℕ)
        × (transcript : List ℕ) × (assert_handshake_accept base64 accept ≡ ok message)
        × (pem.read server_key_pem ≡ some key)
        × (as_text (lookup signature_key message) ≡ some signature)
        × (signatures.verify key (signing_payload json message) (base64.decode signature) ≡ true)
        × (decode_base64 base64 (lookup (codes "server_public_key") message) ≡ ok peer)
        × (decode_base64 base64 (lookup (codes "server_nonce") message) ≡ ok server_nonce)
        × (handshake_transcript_hash base64 json kdf signatures pem ours.message ≡ ok transcript)
        × (derive_secure_session kdf client ours.private_key peer ours.client_nonce server_nonce
              (some transcript)
            ≡ ok session)
        × (text_is (lookup (codes "session_id") message) session.session_id ≡ true)
  unfolding derive_client_session_from_accept check_pinned
  derive_client_session_pinned ours accept server_key_pem session set h =
      let (message, asserted, h1) = >>=-eq-ok (assert_handshake_accept base64 accept) _ h in
      let (_, pinned_ok, h2) =
        >>=-eq-ok
          (check_pinned base64 json kdf signatures pem
            (pinned base64 json kdf signatures pem (some server_key_pem)) message)
          _ h1 in
      let kept : pinned base64 json kdf signatures pem (some server_key_pem) ≡ some server_key_pem =
        rw (==_ne server_key_pem [] set) refl in
      let pin =
        ap (λ p. check_pinned base64 json kdf signatures pem p message) (sym kept) ∙ pinned_ok in
      let (signature, has, pin1) =
        >>=-eq-ok (or_throw (as_text (lookup signature_key message)) signature_required) _ pin in
      let (good, verified, pin2) =
        >>=-eq-ok (verify_fields base64 json kdf signatures pem server_key_pem message signature) _
          pin1 in
      let (key, found, signed) =
        verified_fields server_key_pem message signature
          (verified ∙ ap ok (guard-eq-ok good signature_failed pin2)) in
      let (peer, keyed, h3) =
        >>=-eq-ok (decode_base64 base64 (lookup (codes "server_public_key") message)) _ h2 in
      let (nonce, nonced, h4) =
        >>=-eq-ok (decode_base64 base64 (lookup (codes "server_nonce") message)) _ h3 in
      let (transcript, hashed, h5) =
        >>=-eq-ok (handshake_transcript_hash base64 json kdf signatures pem ours.message) _ h4 in
      let (derived, session_h, h6) =
        >>=-eq-ok
          (map_err channel_error (
            derive_secure_session kdf client ours.private_key peer ours.client_nonce nonce
              (some transcript)))
          _ h5 in
      let (_, named, h7) =
        >>=-eq-ok
          (guard (text_is (lookup (codes "session_id") message) derived.session_id)
            session_id_mismatch)
          _ h6 in
      let own : derived ≡ session = ok-injective h7 in
      (
        message,
        key,
        signature,
        peer,
        nonce,
        transcript,
        asserted,
        found,
        or_throw-eq-ok _ _ has,
        signed,
        keyed,
        nonced,
        hashed,
        map_err-eq-ok channel_error _ session_h ∙ ap ok own,
        ap (λ s. text_is (lookup (codes "session_id") message) s.session_id) (sym own)
            ∙ guard-eq-ok _ _ named,
      )
