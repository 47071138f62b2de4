-- ===== src/Crypto/Primitives.antt =====
-- What the program calls of @noble/ciphers, node:crypto and WebCrypto, as parameters: the
-- operations, and the documented behaviour that the code relies on.
use consensus_node.Base.{
  ℕ, ◌+◌, ◌≡◌, ◌≢◌, List, [], Option, some, Bool, true, false, length, Text, includes, nat_eq,
}

-- chacha20poly1305(key, nonce, aad): `encrypt` returns the ciphertext with its 16-byte tag behind
-- it, and `decrypt` fails unless the tag is the one of that plaintext under the same key, nonce and
-- additional data.
pub record Aead : Type 0 where
  pub encrypt : List ℕ → List ℕ → List ℕ → List ℕ → List ℕ
  pub decrypt : List ℕ → List ℕ → List ℕ → List ℕ → Option (List ℕ)
  pub length-encrypt : (k n a p : List ℕ) → length (encrypt k n a p) ≡ length p + 16
  pub decrypt-encrypt : (k n a p : List ℕ) → decrypt k n a (encrypt k n a p) ≡ some p
  pub decrypt_only : (k n a c p : List ℕ) → decrypt k n a c ≡ some p → c ≡ encrypt k n a p

-- ECDH over P-256, HKDF and SHA-256. A private key stands for its key pair; `derive` fails on a
-- peer key that is no point of the curve.
pub record Kdf : Type 0 where
  pub public_key : ℕ → List ℕ
  pub derive : ℕ → List ℕ → Option (List ℕ)
  pub sha256 : List ℕ → List ℕ
  pub hkdf : List ℕ → List ℕ → List ℕ → ℕ → List ℕ
  pub public_key_not_empty : (a : ℕ) → public_key a ≢ []
  pub agree : (a b : ℕ) → derive a (public_key b) ≡ derive b (public_key a)
  pub length-sha256 : (b : List ℕ) → length (sha256 b) ≡ 32
  pub length-hkdf : (secret salt info : List ℕ) (n : ℕ) → length (hkdf secret salt info n) ≡ n

-- Ed25519 through crypto.sign and crypto.verify.
pub record Signatures : Type 0 where
  pub public_of : ℕ → ℕ
  pub sign : ℕ → List ℕ → List ℕ
  pub verify : ℕ → List ℕ → List ℕ → Bool
  pub length-sign : (secret : ℕ) (message : List ℕ) → length (sign secret message) ≡ 64
  pub verify-sign :
      (secret : ℕ) (message : List ℕ)
      → verify (public_of secret) message (sign secret message) ≡ true

-- `toString("base64url")` and `Buffer.from(text, "base64url")`.
pub record Base64Url : Type 0 where
  pub encode : List ℕ → Text
  pub decode : Text → List ℕ
  pub decode-encode : (b : List ℕ) → decode (encode b) ≡ b
  pub encode_no_dot : (b : List ℕ) → includes 0x2e (encode b) ≡ false

-- `toString("base64")` and `Buffer.from(text, "base64")`.
pub record Base64 : Type 0 where
  pub encode : List ℕ → Text
  pub decode : Text → List ℕ
  pub decode-encode : (b : List ℕ) → decode (encode b) ≡ b
  pub decode_empty : decode [] ≡ []

-- Public keys as PEM texts; a text that is no key is not read.
pub record Pem : Type 0 where
  pub write : ℕ → Text
  pub read : Text → Option ℕ
  pub read-write : (key : ℕ) → read (write key) ≡ some key
  pub write_not_empty : (key : ℕ) → write key ≢ []
