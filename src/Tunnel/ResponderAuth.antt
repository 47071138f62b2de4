-- ===== src/Tunnel/ResponderAuth.antt =====
-- src/tunnel/responder-auth.ts: a node proves its identity to a client. A challenge and a proof are
-- JSON values, since what is signed is the JSON of a proof. The clock and what the code draws at
-- random are arguments; a key in PEM form is a number.
pub mod Proven
pub mod Trusted
use consensus_node.Base.{
  ℕ, Text, codes, text_eq, List, Option, none, some, Result, ok, err, ◌>>=◌, ◌>>◌, guard, or_throw,
  or_else, if◌then◌else◌,
}
use mathlib.Core.Option
use consensus_node.Base.Int.{ℤ, pos, ◌+ℤ◌, ◌-ℤ◌, leb_ℤ}
use consensus_node.Base.Json.{
  Json, num, str, obj, Fields, end, field, JsonCodec, as_text, as_number, lookup,
}
use consensus_node.Crypto.Primitives.{Signatures, Base64}
use consensus_node.Tunnel.Messages.{opt, opt_text}
use consensus_node.Tunnel.Checks.{
  text_is, number_is, same_text, non_empty, object_fields, bytes_of, append_field, signature_key,
  signing_payload,
}

abbrev pub responder_auth_protocol : Text
responder_auth_protocol = codes "consensus-node-responder-auth"

abbrev pub responder_auth_version : ℕ
responder_auth_version = 1

abbrev pub default_clock_tolerance_sec : ℤ
default_clock_tolerance_sec = pos 5

abbrev pub default_max_age_sec : ℤ
default_max_age_sec = pos 30

pub data ResponderError : Type 0 where
  not_an_object unsupported_protocol unsupported_version node_id_missing timestamp_invalid :
      ResponderError
  not_a_text nothing_decoded signature_missing other_node : ResponderError
  node_id_mismatch challenge_node_id_mismatch client_nonce_mismatch : ResponderError
  channel_binding_mismatch issued_in_the_future proof_expired signature_failed : ResponderError

pub record VerifyProofOptions : Type 0 where
  pub proof : Json
  pub challenge : Json
  pub expected_node_id : Text
  pub expected_node_public_key : ℕ
  pub now : Option ℤ
  pub clock_tolerance_sec : Option ℤ
  pub max_age_sec : Option ℤ

module _ (base64 : Base64) where
  unfoldable pub decode_base64 : Option Json → Result ResponderError (List ℕ)
  decode_base64 value = bytes_of base64.decode not_a_text nothing_decoded value

  -- `if (message.channel_binding !== undefined) decodeBase64(…)`
  abbrev pub check_binding : Option Json → Result ResponderError (Unit {0})
  check_binding none = ok tt
  check_binding (some v) = do bytes ← decode_base64 (some v); ok tt

  unfoldable pub assert_base : Json → Result ResponderError Fields
  assert_base value = do
    message ← object_fields not_an_object value
    guard (text_is (lookup (codes "protocol") message) responder_auth_protocol) unsupported_protocol
    guard (number_is (lookup (codes "version") message) responder_auth_version) unsupported_version
    guard (non_empty (lookup (codes "node_id") message)) node_id_missing
    timestamp ← or_throw (as_number (lookup (codes "timestamp") message)) timestamp_invalid
    check_binding (lookup (codes "channel_binding") message)
    ok message

  unfoldable pub assert_challenge : Json → Result ResponderError Fields
  assert_challenge value = do
    message ← assert_base value
    client_nonce ← decode_base64 (lookup (codes "client_nonce") message)
    ok message

  unfoldable pub assert_proof : Json → Result ResponderError Fields
  assert_proof value = do
    message ← assert_base value
    client_nonce ← decode_base64 (lookup (codes "client_nonce") message)
    node_nonce ← decode_base64 (lookup (codes "node_nonce") message)
    guard (non_empty (lookup signature_key message)) signature_missing
    ok message

  -- The nonce and the binding as bytes; what is undefined is omitted.
  unfoldable pub create_challenge : Text → ℤ → List ℕ → Option (List ℕ) → Json
  create_challenge node_id timestamp nonce channel_binding = obj (
      field (codes "protocol") (str responder_auth_protocol) (
        field (codes "version") (num (pos responder_auth_version)) (
          field (codes "node_id") (str node_id) (
            field (codes "client_nonce") (str (base64.encode nonce)) (
              field (codes "timestamp") (num timestamp) (
                opt_text (codes "channel_binding") (Option.map base64.encode channel_binding)
                  end))))))

  -- `unsigned` of signChallenge; the echoed fields are those of the challenge.
  unfoldable pub unsigned_proof : Text → Option Json → List ℕ → ℤ → Option Json → Fields
  unsigned_proof node_id client_nonce node_nonce timestamp channel_binding =
      field (codes "protocol") (str responder_auth_protocol) (
        field (codes "version") (num (pos responder_auth_version)) (
          field (codes "node_id") (str node_id) (
            opt (codes "client_nonce") client_nonce (
              field (codes "node_nonce") (str (base64.encode node_nonce)) (
                field (codes "timestamp") (num timestamp)
                  (opt (codes "channel_binding") channel_binding end))))))

  module _ (signatures : Signatures) (json : JsonCodec) where
    unfoldable pub signed_proof : ℕ → Fields → Json
    signed_proof private_key unsigned = obj (
        append_field unsigned signature_key
          (str (base64.encode (signatures.sign private_key (signing_payload json unsigned)))))

    unfoldable pub sign_challenge : Json → ℕ → Text → ℤ → List ℕ → Result ResponderError Json
    sign_challenge challenge private_key node_id now node_nonce = do
      message ← assert_challenge challenge
      guard (text_is (lookup (codes "node_id") message) node_id) other_node
      ok (
          signed_proof private_key (
            unsigned_proof node_id (lookup (codes "client_nonce") message) node_nonce now
              (lookup (codes "channel_binding") message)))

    -- verifyProof behind the two assertions
    unfoldable pub check_proof :
        ℤ → VerifyProofOptions → Fields → Fields → Result ResponderError Fields
    check_proof clock opts challenge p = do
      guard (text_is (lookup (codes "node_id") p) opts.expected_node_id) node_id_mismatch
      guard (text_is (lookup (codes "node_id") challenge) opts.expected_node_id)
          challenge_node_id_mismatch
      guard (same_text (lookup (codes "client_nonce") p) (lookup (codes "client_nonce") challenge))
          client_nonce_mismatch
      guard
          (same_text (lookup (codes "channel_binding") p)
            (lookup (codes "channel_binding") challenge))
          channel_binding_mismatch
      let now = or_else opts.now clock
      let skew = or_else opts.clock_tolerance_sec default_clock_tolerance_sec
      let max_age = or_else opts.max_age_sec default_max_age_sec
      timestamp ← or_throw (as_number (lookup (codes "timestamp") p)) timestamp_invalid
      guard (leb_ℤ timestamp (now +ℤ skew)) issued_in_the_future
      guard (leb_ℤ ((now -ℤ max_age) -ℤ skew) timestamp) proof_expired
      signature ← or_throw (as_text (lookup signature_key p)) signature_missing
      guard
          (signatures.verify opts.expected_node_public_key (signing_payload json p)
            (base64.decode signature))
          signature_failed
      ok p

    unfoldable pub verify_proof : ℤ → VerifyProofOptions → Result ResponderError Fields
    verify_proof clock opts = do
      challenge ← assert_challenge opts.challenge
      p ← assert_proof opts.proof
      check_proof clock opts challenge p
