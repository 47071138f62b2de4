-- ===== src/Crypto/Channel/Derived.antt =====
-- deriveSecureSession of src/crypto/secure-channel.ts where it does not fail.
use consensus_node.Base.{ℕ, hex, List, [], ◌∷◌, ◌++◌, some, length, ok, ◌≡◌, ◌≢◌, ◌≤◌, refl, arith}
use consensus_node.Crypto.Primitives.{Kdf}
use consensus_node.Crypto.Channel.{TunnelRole, client, server, derive_secure_session, session_of}
use consensus_node.Crypto.Channel.Session.{opposite}

hex_not_empty : (b : List ℕ) → length b ≡ 16 → hex b ≢ []
unfolding hex
hex_not_empty [] h e = omega arith
hex_not_empty (x ∷ b) h e = cc

pub not_empty : (b : List ℕ) → 16 ≤ length b → b ≢ []
not_empty [] h e = omega arith
not_empty (x ∷ b) h e = cc

module _ (kdf : Kdf) where
  pub session_id_not_empty :
      (role : TunnelRole) (secret salt : List ℕ) → (session_of kdf role secret salt).session_id ≢ []
  unfolding session_of
  session_id_not_empty client secret salt = hex_not_empty _ (kdf.length-hkdf secret salt _ 16)
  session_id_not_empty server secret salt = hex_not_empty _ (kdf.length-hkdf secret salt _ 16)

  pub derived :
      (role : TunnelRole) (key : ℕ) (peer cn sn transcript secret : List ℕ)
      → 16 ≤ length cn
      → 16 ≤ length sn
      → kdf.derive key peer ≡ some secret
      → derive_secure_session kdf role key peer cn sn (some transcript)
        ≡ ok (session_of kdf role secret (kdf.sha256 (cn ++ (sn ++ transcript))))
  unfolding derive_secure_session
  derived role key peer cn sn transcript secret long long' h = ground arith

  -- The server's session is the client's, seen from the other end.
  pub session_of-server :
      (secret salt : List ℕ)
      → session_of kdf client secret salt ≡ opposite (session_of kdf server secret salt)
  unfolding session_of
  session_of-server secret salt = refl
