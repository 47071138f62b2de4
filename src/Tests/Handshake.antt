-- ===== src/Tests/Handshake.antt =====
-- src/tunnel/responder-auth.ts and src/tunnel/data-handshake.ts on concrete keys and nonces.
use consensus_node.Base.{
  ℕ, ◌≡◌, ◌≢◌, ◌≤◌, length, refl, List, [], ◌∷◌, Option, none, some, ok, codes, Text, arith,
}
use consensus_node.Base.Int.{pos, ◌+ℤ◌, ◌-ℤ◌}
use consensus_node.Base.Json.{Json, obj, Fields}
use consensus_node.Crypto.Channel.Session.{opposite}
use consensus_node.Tunnel.ResponderAuth.{
  VerifyProofOptions, default_clock_tolerance_sec, default_max_age_sec, assert_challenge,
  assert_proof, create_challenge, verify_proof,
}
use consensus_node.Tunnel.ResponderAuth.Proven.{IsFresh, proof, verify-sign_challenge}
use consensus_node.Tunnel.ResponderAuth.Trusted.{IsTrusted, verify_proof-IsTrusted}
use consensus_node.Tunnel.DataHandshake.{
  ClientDataHandshake, NodeDataHandshake, create_data_init, accept_data_init,
  derive_client_data_session,
}
use consensus_node.Tunnel.DataHandshake.Agreed.{derive-accept-create_data_init}
use consensus_node.Tunnel.DataHandshake.Bound.{IsBound, derive_client_data_session-IsBound}
use consensus_node.Tests.Instances.{
  signatures, base64, kdf, fill, length-fill, derive, cons_not_empty,
}
use consensus_node.Tests.StackJson.{json_codec}

abbrev node : Text
node = codes "node-1"

IsFresh-at : IsFresh (pos 1000) (pos 1010) default_clock_tolerance_sec default_max_age_sec
unfolding ◌+ℤ◌ ◌-ℤ◌
IsFresh-at = record { not_early = omega arith; not_old = omega arith }

abbrev challenge : Json
challenge = create_challenge base64 node (pos 1000) (1 ∷ 2 ∷ []) none

abbrev proven : Fields
proven = proof base64 signatures json_codec node 7 (1 ∷ 2 ∷ []) (3 ∷ []) (pos 1000) (pos 1000) none

abbrev options : VerifyProofOptions
options = record {
  proof = obj proven;
  challenge = challenge;
  expected_node_id = node;
  expected_node_public_key = 7;
  now = some (pos 1010);
  clock_tolerance_sec = none;
  max_age_sec = none;
}

no_binding : ◌≢◌ {A = Option (List ℕ)} none (some [])
no_binding e = cc

verified : verify_proof base64 signatures json_codec (pos 0) options ≡ ok proven
verified =
    (verify-sign_challenge base64 signatures json_codec node 7 (1 ∷ 2 ∷ []) (3 ∷ []) (pos 1000)
      (pos 1000) none (pos 0) (some (pos 1010)) none none (cons_not_empty _ _) (cons_not_empty _ _)
      (cons_not_empty _ _) no_binding IsFresh-at).1

verify_proof-IsTrusted_example :
    (c : Fields) × (assert_challenge base64 challenge ≡ ok c)
    × (assert_proof base64 (obj proven) ≡ ok proven)
    × IsTrusted base64 signatures json_codec (pos 0) options c proven
verify_proof-IsTrusted_example =
    verify_proof-IsTrusted base64 signatures json_codec (pos 0) options proven verified

abbrev ours : ClientDataHandshake
ours = create_data_init base64 kdf node (pos 1000) 3 (fill 16 1)

long : (x : ℕ) → 16 ≤ length (fill 16 x)
long x = omega (arith, length-fill 16 x)

shared : kdf.derive 3 (kdf.public_key 5) ≡ some (15 ∷ [])
unfolding derive
shared = refl

derive-accept-create_data_init_example :
    (answer : NodeDataHandshake) × (accept_data_init base64 kdf json_codec signatures ours.message 7
        node
        (pos 1000)
        5
        (fill 16 2)
      ≡ ok answer)
    × (derive_client_data_session base64 kdf json_codec signatures ours answer.message node 7
          (some (pos 1010))
          (pos 0)
        ≡ ok (opposite answer.session))
derive-accept-create_data_init_example =
    derive-accept-create_data_init kdf base64 json_codec signatures node 7 3 5 (fill 16 1)
      (fill 16 2) (15 ∷ []) (pos 1000) (cons_not_empty _ _) (long 1) (long 2) shared (pos 0)
      (some (pos 1010)) IsFresh-at

handshake :
    (answer : NodeDataHandshake) × (accept_data_init base64 kdf json_codec signatures ours.message 7
        node
        (pos 1000)
        5
        (fill 16 2)
      ≡ ok answer)
    × (derive_client_data_session base64 kdf json_codec signatures ours answer.message node 7
          (some (pos 1010))
          (pos 0)
        ≡ ok (opposite answer.session))
handshake =
    derive-accept-create_data_init kdf base64 json_codec signatures node 7 3 5 (fill 16 1)
      (fill 16 2) (15 ∷ []) (pos 1000) (cons_not_empty _ _) (long 1) (long 2) shared (pos 0)
      (some (pos 1010)) IsFresh-at

abbrev answered : NodeDataHandshake
answered = handshake.0

derive_client_data_session-IsBound_example :
    IsBound base64 kdf json_codec signatures ours node 7 answered.message
      (opposite answered.session)
derive_client_data_session-IsBound_example =
    derive_client_data_session-IsBound base64 kdf json_codec signatures ours answered.message node 7
      (some (pos 1010)) (pos 0) (opposite answered.session) handshake.2
