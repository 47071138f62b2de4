-- ===== src/Crypto/Channel/Session.antt =====
-- deriveSecureSession of src/crypto/secure-channel.ts: the two ends agree.
use consensus_node.Base.{ℕ, ◌≡◌, List, Option, length, Result, ok, err, arith}
use consensus_node.Crypto.Primitives.{Kdf}
use consensus_node.Crypto.Channel.{
  TunnelRole, client, server, SecureSession, ChannelError, derive_secure_session, session_of,
}

-- The same session at the other end.
abbrev pub opposite : SecureSession → SecureSession
opposite s = record {
  session_id = s.session_id;
  send_key = s.receive_key;
  receive_key = s.send_key;
}

abbrev pub opposite_result : Result ChannelError SecureSession → Result ChannelError SecureSession
opposite_result (ok s) = ok (opposite s)
opposite_result (err e) = err e

module _ (kdf : Kdf) where
  -- Two ends that hold each other's public key and the same nonces and transcript derive the same
  -- session with the two keys exchanged, so that each sends under the key that the other receives
  -- with; and where one end fails, the other fails with the same error.
  pub derive_secure_session_agrees :
      (a b : ℕ) (client_nonce server_nonce : List ℕ) (transcript : Option (List ℕ))
      → derive_secure_session kdf server b (kdf.public_key a) client_nonce server_nonce transcript
        ≡ opposite_result (
            derive_secure_session kdf client a
              (kdf.public_key b)
              client_nonce
              server_nonce
              transcript)
  unfolding derive_secure_session session_of
  derive_secure_session_agrees a b cn sn tr = ground (arith, kdf.agree a b)

  session_of_keys :
      (role : TunnelRole) (secret salt : List ℕ)
      → (length (session_of kdf role secret salt).send_key ≡ 32)
        × (length (session_of kdf role secret salt).receive_key ≡ 32)
  unfolding session_of
  session_of_keys client secret salt = (kdf.length-hkdf _ _ _ 32, kdf.length-hkdf _ _ _ 32)
  session_of_keys server secret salt = (kdf.length-hkdf _ _ _ 32, kdf.length-hkdf _ _ _ 32)

  -- The keys of a session are what the sealed frames need: 32 bytes each.
  pub derive_secure_session_keys :
      (role : TunnelRole) (a : ℕ) (peer client_nonce server_nonce : List ℕ)
      (transcript : Option (List ℕ)) (s : SecureSession)
      → derive_secure_session kdf role a peer client_nonce server_nonce transcript ≡ ok s
      → (length s.send_key ≡ 32) × (length s.receive_key ≡ 32)
  unfolding derive_secure_session
  derive_secure_session_keys role a peer cn sn tr s h = grind (arith, session_of_keys)
