-- ===== src/Tunnel/Handshake/Read.antt =====
-- The messages of src/tunnel/handshake.ts as the other end reads them.
use consensus_node.Base.{
  ℕ, Text, codes, text_eq, text_beq, List, [], Option, none, some, ok, ◌≡◌, ◌≢◌, refl, ==_ne, true,
}
use mathlib.Core.Option
use consensus_node.Base.Int.{ℤ}
use consensus_node.Base.Json.{str, obj, Fields, lookup}
use consensus_node.Crypto.Primitives.{Base64}
use consensus_node.Tunnel.Checks.{remove_field, append_field, signature_key}
use consensus_node.Tunnel.Checks.Encoded.{bytes_of-encode, encode_not_empty}
use consensus_node.Tunnel.Handshake.{
  ClientInput, init_type, accept_type, is_mode, not_a_text, nothing_decoded, assert_base,
  init_fields, accept_fields, signature_sound, decode_base64, assert_handshake_init,
  assert_handshake_accept,
}

-- What a server reads in an init message, whatever optional fields it has.
pub init_read :
    (mode : Text) (key : ℕ) (pem_text : Text) (node_id candidate_id release : Option Text) (now : ℤ)
    (public_key nonce signature : Text)
    → let fs =
        init_fields
          (record {
            mode = mode;
            identity = record { private_key = key; public_key_pem = pem_text };
            node_id = node_id;
            candidate_id = candidate_id;
            release_version = release;
          })
          now
          public_key
          nonce in
      let m = append_field fs signature_key (str signature) in
      (assert_base (obj m) init_type ≡ ok m)
      × (lookup (codes "mode") m ≡ some (str mode))
      × (lookup (codes "client_public_key") m ≡ some (str public_key))
      × (lookup (codes "client_nonce") m ≡ some (str nonce))
      × (lookup (codes "node_public_key_pem") m ≡ some (str pem_text))
      × (lookup signature_key m ≡ some (str signature))
      × (remove_field signature_key m ≡ remove_field signature_key fs)
unfolding assert_base init_fields lookup text_beq append_field remove_field
init_read mode key pem_text none none none now public_key nonce signature =
    (refl, refl, refl, refl, refl, refl, refl)
init_read mode key pem_text none none (some r) now public_key nonce signature =
    (refl, refl, refl, refl, refl, refl, refl)
init_read mode key pem_text none (some c) none now public_key nonce signature =
    (refl, refl, refl, refl, refl, refl, refl)
init_read mode key pem_text none (some c) (some r) now public_key nonce signature =
    (refl, refl, refl, refl, refl, refl, refl)
init_read mode key pem_text (some n) none none now public_key nonce signature =
    (refl, refl, refl, refl, refl, refl, refl)
init_read mode key pem_text (some n) none (some r) now public_key nonce signature =
    (refl, refl, refl, refl, refl, refl, refl)
init_read mode key pem_text (some n) (some c) none now public_key nonce signature =
    (refl, refl, refl, refl, refl, refl, refl)
init_read mode key pem_text (some n) (some c) (some r) now public_key nonce signature =
    (refl, refl, refl, refl, refl, refl, refl)

-- The accept message, signed or not
abbrev pub with_signature : Option Text → Fields → Fields
with_signature none fs = fs
with_signature (some signature) fs = append_field fs signature_key (str signature)

pub accept_read :
    (now : ℤ) (public_key nonce session_id : Text) (signature : Option Text)
    → let fs = accept_fields now public_key nonce session_id in
      let m = with_signature signature fs in
      (assert_base (obj m) accept_type ≡ ok m)
      × (lookup (codes "server_public_key") m ≡ some (str public_key))
      × (lookup (codes "server_nonce") m ≡ some (str nonce))
      × (lookup (codes "session_id") m ≡ some (str session_id))
      × (lookup signature_key m ≡ Option.map str signature)
      × (remove_field signature_key m ≡ remove_field signature_key fs)
unfolding assert_base accept_fields lookup text_beq append_field remove_field
accept_read now public_key nonce session_id none = (refl, refl, refl, refl, refl, refl)
accept_read now public_key nonce session_id (some signature) = (refl, refl, refl, refl, refl, refl)

module _ (base64 : Base64) where
  pub decode-encode_base64 :
      (b : List ℕ) → b ≢ [] → decode_base64 base64 (some (str (base64.encode b))) ≡ ok b
  unfolding decode_base64
  decode-encode_base64 b h = bytes_of-encode base64 not_a_text nothing_decoded b h

  pub init_asserted :
      (input : ClientInput) (now : ℤ) (key nonce : List ℕ) (signature : Text)
      → is_mode (some (str input.mode)) ≡ true
      → key ≢ []
      → nonce ≢ []
      → input.identity.public_key_pem ≢ []
      → signature ≢ []
      → let m =
          append_field
            (init_fields input now (base64.encode key) (base64.encode nonce))
            signature_key
            (str signature) in
        assert_handshake_init base64 (obj m) ≡ ok m
  unfolding assert_handshake_init
  init_asserted input now key nonce signature moded keyed fresh named signed =
      let (base, mode, k, n, p, s, r) =
        init_read input.mode input.identity.private_key input.identity.public_key_pem input.node_id
          input.candidate_id input.release_version now (base64.encode key) (base64.encode nonce)
          signature in
      rw
        (
          base,
          mode,
          k,
          n,
          p,
          s,
          moded,
          ==_ne (base64.encode key) [] (encode_not_empty base64 key keyed),
          ==_ne (base64.encode nonce) [] (encode_not_empty base64 nonce fresh),
          ==_ne input.identity.public_key_pem [] named,
          ==_ne signature [] signed,
          decode-encode_base64 key keyed,
          decode-encode_base64 nonce fresh,
        )
        refl

  -- A signature that is there is not empty.
  abbrev pub IsSigned : Option Text → Type 0
  IsSigned none = Unit
  IsSigned (some signature) = signature ≢ []

  signature_sound-map : (o : Option Text) → IsSigned o → signature_sound (Option.map str o) ≡ true
  signature_sound-map none h = refl
  signature_sound-map (some s) h = rw (==_ne s [] h) refl

  pub accept_asserted :
      (now : ℤ) (key nonce : List ℕ) (session_id : Text) (signature : Option Text)
      → key ≢ []
      → nonce ≢ []
      → session_id ≢ []
      → IsSigned signature
      → let m =
          with_signature signature
            (accept_fields now (base64.encode key) (base64.encode nonce) session_id) in
        assert_handshake_accept base64 (obj m) ≡ ok m
  unfolding assert_handshake_accept
  accept_asserted now key nonce session_id signature keyed fresh named signed =
      let (base, k, n, i, s, r) =
        accept_read now (base64.encode key) (base64.encode nonce) session_id signature in
      rw
        (
          base,
          k,
          n,
          i,
          s,
          ==_ne (base64.encode key) [] (encode_not_empty base64 key keyed),
          ==_ne (base64.encode nonce) [] (encode_not_empty base64 nonce fresh),
          ==_ne session_id [] named,
          decode-encode_base64 key keyed,
          decode-encode_base64 nonce fresh,
          signature_sound-map signature signed,
        )
        refl
