-- ===== src/Tunnel/ResponderAuth/Proven.antt =====
-- A proof that src/tunnel/responder-auth.ts makes is one that it accepts.
use mathlib.Core.Option
use consensus_node.Base.{
  ℕ, Text, codes, text_eq, text_beq, true, List, [], Option, none, some, nat_eq, length, ok, ◌≡◌,
  ◌≢◌, refl, ap, arith, ==_refl, ==_ne, or_else,
}
use consensus_node.Base.Int.{ℤ, pos, ◌+ℤ◌, ◌-ℤ◌, ◌≤ℤ◌, le→leb_ℤ}
use consensus_node.Base.Json.{num, str, obj, Fields, end, field, JsonCodec, lookup, IsPlain, IsSafe}
use consensus_node.Crypto.Primitives.{Signatures, Base64}
use consensus_node.Tunnel.Messages.{opt_text}
use consensus_node.Tunnel.Checks.{
  append_field, remove_field, signature_key, signing_payload, same_text,
}
use consensus_node.Tunnel.Checks.Encoded.{encode_not_empty, bytes_of-encode}
use consensus_node.Tunnel.ResponderAuth.{
  responder_auth_protocol, responder_auth_version, default_clock_tolerance_sec, default_max_age_sec,
  decode_base64, not_a_text, nothing_decoded, check_binding, assert_base, assert_challenge,
  assert_proof, create_challenge, unsigned_proof, signed_proof, sign_challenge, check_proof,
  verify_proof,
}

-- What the checks of a message ask of it.
pub record IsMessage (node_id : Text) (timestamp : ℤ) (binding : Option Text) (fs : Fields)
    : Type 0 where
  pub says_protocol : lookup (codes "protocol") fs ≡ some (str responder_auth_protocol)
  pub says_version : lookup (codes "version") fs ≡ some (num (pos responder_auth_version))
  pub says_node_id : lookup (codes "node_id") fs ≡ some (str node_id)
  pub says_timestamp : lookup (codes "timestamp") fs ≡ some (num timestamp)
  pub says_binding : lookup (codes "channel_binding") fs ≡ Option.map str binding

-- When a proof of `issued` is fresh at the time `now`.
pub record IsFresh (issued now skew max_age : ℤ) : Type 0 where
  pub not_early : issued ≤ℤ (now +ℤ skew)
  pub not_old : ((now -ℤ max_age) -ℤ skew) ≤ℤ issued

module _ (base64 : Base64) where
  pub decode-encode_base64 :
      (b : List ℕ) → b ≢ [] → decode_base64 base64 (some (str (base64.encode b))) ≡ ok b
  unfolding decode_base64
  decode-encode_base64 b h = bytes_of-encode base64 not_a_text nothing_decoded b h

  check_binding-some :
      (b : List ℕ) → b ≢ [] → check_binding base64 (some (str (base64.encode b))) ≡ ok tt
  check_binding-some b h = rw (decode-encode_base64 b h) refl

  binding_checked :
      (binding : Option (List ℕ))
      → binding ≢ some []
      → check_binding base64 (Option.map str (Option.map base64.encode binding)) ≡ ok tt
  binding_checked none h = refl
  binding_checked (some b) h = check_binding-some b (λ e. h (ap some e))

  assert_base_intro :
      (node_id : Text) (timestamp : ℤ) (binding : Option (List ℕ)) (fs : Fields)
      → IsMessage node_id timestamp (Option.map base64.encode binding) fs
      → node_id ≢ []
      → binding ≢ some []
      → assert_base base64 (obj fs) ≡ ok fs
  unfolding assert_base text_beq
  assert_base_intro node_id timestamp binding fs m named bound =
      rw
        (
          m.says_protocol,
          m.says_version,
          m.says_node_id,
          m.says_timestamp,
          m.says_binding,
          ==_ne node_id [] named,
          binding_checked binding bound,
        )
        refl

  pub created : Text → ℤ → List ℕ → Option (List ℕ) → Fields
  created node_id timestamp nonce binding = field (codes "protocol") (str responder_auth_protocol) (
      field (codes "version") (num (pos responder_auth_version)) (
        field (codes "node_id") (str node_id) (
          field (codes "client_nonce") (str (base64.encode nonce)) (
            field (codes "timestamp") (num timestamp)
              (opt_text (codes "channel_binding") (Option.map base64.encode binding) end)))))

  pub create_challenge-eq :
      (node_id : Text) (timestamp : ℤ) (nonce : List ℕ) (binding : Option (List ℕ))
      → create_challenge base64 node_id timestamp nonce binding
        ≡ obj (created node_id timestamp nonce binding)
  unfolding created create_challenge
  create_challenge-eq node_id timestamp nonce binding = refl

  pub created-IsMessage :
      (node_id : Text) (timestamp : ℤ) (nonce : List ℕ) (binding : Option (List ℕ))
      → IsMessage node_id timestamp
          (Option.map base64.encode binding)
          (created node_id timestamp nonce binding)
  unfolding created lookup text_beq
  created-IsMessage node_id timestamp nonce none = record {
    says_protocol = refl;
    says_version = refl;
    says_node_id = refl;
    says_timestamp = refl;
    says_binding = refl;
  }
  created-IsMessage node_id timestamp nonce (some b) = record {
    says_protocol = refl;
    says_version = refl;
    says_node_id = refl;
    says_timestamp = refl;
    says_binding = refl;
  }

  pub created_nonce :
      (node_id : Text) (timestamp : ℤ) (nonce : List ℕ) (binding : Option (List ℕ))
      → lookup (codes "client_nonce") (created node_id timestamp nonce binding)
        ≡ some (str (base64.encode nonce))
  unfolding created lookup text_beq
  created_nonce node_id timestamp nonce binding = refl

  pub assert_challenge-create_challenge :
      (node_id : Text) (timestamp : ℤ) (nonce : List ℕ) (binding : Option (List ℕ))
      → node_id ≢ []
      → nonce ≢ []
      → binding ≢ some []
      → assert_challenge base64 (create_challenge base64 node_id timestamp nonce binding)
        ≡ ok (created node_id timestamp nonce binding)
  unfolding assert_challenge
  assert_challenge-create_challenge node_id timestamp nonce binding named fresh bound =
      rw
        (
          create_challenge-eq node_id timestamp nonce binding,
          assert_base_intro node_id timestamp binding (created node_id timestamp nonce binding)
              (created-IsMessage node_id timestamp nonce binding) named bound,
          created_nonce node_id timestamp nonce binding,
          decode-encode_base64 nonce fresh,
        )
        refl

  pub signed_fields : Text → List ℕ → List ℕ → ℤ → Option (List ℕ) → Text → Fields
  signed_fields node_id client_nonce node_nonce issued binding signature =
      append_field
        (unsigned_proof base64 node_id (some (str (base64.encode client_nonce))) node_nonce issued
          (Option.map str (Option.map base64.encode binding)))
        signature_key (str signature)

  pub signed_fields-IsMessage :
      (node_id : Text) (cn nn : List ℕ) (issued : ℤ) (binding : Option (List ℕ)) (sig : Text)
      → IsMessage node_id issued
          (Option.map base64.encode binding)
          (signed_fields node_id cn nn issued binding sig)
  unfolding signed_fields unsigned_proof lookup text_beq append_field
  signed_fields-IsMessage node_id cn nn issued none sig = record {
    says_protocol = refl;
    says_version = refl;
    says_node_id = refl;
    says_timestamp = refl;
    says_binding = refl;
  }
  signed_fields-IsMessage node_id cn nn issued (some b) sig = record {
    says_protocol = refl;
    says_version = refl;
    says_node_id = refl;
    says_timestamp = refl;
    says_binding = refl;
  }

  pub signed_fields-nonces :
      (node_id : Text) (cn nn : List ℕ) (issued : ℤ) (binding : Option (List ℕ)) (sig : Text)
      → let fs = signed_fields node_id cn nn issued binding sig in
        (lookup (codes "client_nonce") fs ≡ some (str (base64.encode cn)))
        × (lookup (codes "node_nonce") fs ≡ some (str (base64.encode nn)))
        × (lookup signature_key fs ≡ some (str sig))
  unfolding signed_fields unsigned_proof lookup text_beq append_field
  signed_fields-nonces node_id cn nn issued none sig = (refl, refl, refl)
  signed_fields-nonces node_id cn nn issued (some b) sig = (refl, refl, refl)

  -- A proof of a time that JSON can write is read as it was written.
  pub signed_fields-IsPlain :
      (node_id : Text) (cn nn : List ℕ) (issued : ℤ) (binding : Option (List ℕ)) (sig : Text)
      → IsSafe issued
      → IsPlain (obj (signed_fields node_id cn nn issued binding sig))
  unfolding signed_fields unsigned_proof lookup text_beq append_field
  signed_fields-IsPlain node_id cn nn issued none sig safe = (
    refl,
    tt,
    (
      refl,
      (omega arith, omega arith),
      (refl, tt, (refl, tt, (refl, tt, (refl, safe, (refl, tt, tt))))),
    ),
  )
  signed_fields-IsPlain node_id cn nn issued (some b) sig safe = (
    refl,
    tt,
    (
      refl,
      (omega arith, omega arith),
      (refl, tt, (refl, tt, (refl, tt, (refl, safe, (refl, tt, (refl, tt, tt)))))),
    ),
  )

  -- What is signed is the proof without its signature.
  signed_fields-payload :
      (json : JsonCodec) (node_id : Text) (cn nn : List ℕ) (issued : ℤ) (binding : Option (List ℕ))
      (sig : Text)
      → signing_payload json (signed_fields node_id cn nn issued binding sig)
        ≡ signing_payload json (
            unsigned_proof base64 node_id
              (some (str (base64.encode cn)))
              nn
              issued
              (Option.map str (Option.map base64.encode binding)))
  unfolding signing_payload remove_field signed_fields unsigned_proof text_beq append_field
  signed_fields-payload json node_id cn nn issued none sig = refl
  signed_fields-payload json node_id cn nn issued (some b) sig = refl

  same_binding :
      (binding : Option (List ℕ))
      → same_text
          (Option.map str (Option.map base64.encode binding))
          (Option.map str (Option.map base64.encode binding))
        ≡ true
  same_binding none = refl
  same_binding (some b) = ==_refl (base64.encode b)

  module _ (signatures : Signatures) (json : JsonCodec) (node_id : Text) (private_key : ℕ)
      (client_nonce node_nonce : List ℕ) (sent issued : ℤ) (binding : Option (List ℕ)) where
    pub unsigned : Fields
    unsigned =
        unsigned_proof base64 node_id (some (str (base64.encode client_nonce))) node_nonce issued
          (Option.map str (Option.map base64.encode binding))

    pub signature : Text
    signature = base64.encode (signatures.sign private_key (signing_payload json unsigned))

    -- The fields of the proof
    pub proof : Fields
    unfolding unsigned signature
    proof = signed_fields node_id client_nonce node_nonce issued binding signature

    pub proof-IsPlain : IsSafe issued → IsPlain (obj proof)
    unfolding proof
    proof-IsPlain safe =
        signed_fields-IsPlain node_id client_nonce node_nonce issued binding signature safe

    sign_challenge-create_challenge :
        node_id ≢ []
        → client_nonce ≢ []
        → binding ≢ some []
        → sign_challenge base64 signatures json
            (create_challenge base64 node_id sent client_nonce binding)
            private_key
            node_id
            issued
            node_nonce
          ≡ ok (obj proof)
    unfolding sign_challenge signed_proof proof signed_fields
    sign_challenge-create_challenge named fresh bound =
        rw
          (
            assert_challenge-create_challenge node_id sent client_nonce binding named fresh bound,
            (created-IsMessage node_id sent client_nonce binding).says_node_id,
            created_nonce node_id sent client_nonce binding,
            (created-IsMessage node_id sent client_nonce binding).says_binding,
            ==_refl node_id,
          )
          refl

    pub proof-IsMessage : IsMessage node_id issued (Option.map base64.encode binding) proof
    unfolding proof
    proof-IsMessage =
        signed_fields-IsMessage node_id client_nonce node_nonce issued binding signature

    pub proof-nonces :
        (lookup (codes "client_nonce") proof ≡ some (str (base64.encode client_nonce)))
        × (lookup (codes "node_nonce") proof ≡ some (str (base64.encode node_nonce)))
        × (lookup signature_key proof ≡ some (str signature))
    unfolding proof
    proof-nonces = signed_fields-nonces node_id client_nonce node_nonce issued binding signature

    proof_asserted :
        node_id ≢ []
        → client_nonce ≢ []
        → node_nonce ≢ []
        → binding ≢ some []
        → signature ≢ []
        → assert_proof base64 (obj proof) ≡ ok proof
    unfolding assert_proof
    proof_asserted named fresh fresh' bound signed =
        let (c, n, sig) = proof-nonces in
        rw
          (
            assert_base_intro node_id issued binding _ proof-IsMessage named bound,
            c,
            n,
            sig,
            decode-encode_base64 client_nonce fresh,
            decode-encode_base64 node_nonce fresh',
            ==_ne signature [] signed,
          )
          refl

    signature_not_empty : signature ≢ []
    unfolding signature
    signature_not_empty =
        encode_not_empty base64 _ (λ e. absurd (no_signature (signing_payload json unsigned) e))
      where
        no_signature : (m : List ℕ) → signatures.sign private_key m ≡ [] → ⊥
        no_signature m e = omega (arith, signatures.length-sign private_key m, ap (length {0}) e)

    signature_verifies :
        signatures.verify
          (signatures.public_of private_key)
          (signing_payload json proof)
          (base64.decode signature)
        ≡ true
    unfolding proof signature
    signature_verifies =
        rw
          (
            signed_fields-payload json node_id client_nonce node_nonce issued binding
                (base64.encode (signatures.sign private_key (signing_payload json unsigned))),
            base64.decode-encode (signatures.sign private_key (signing_payload json unsigned)),
          )
          (signatures.verify-sign private_key (signing_payload json unsigned))

    -- A node that answers a challenge proves itself: the challenge is signed, and the proof is
    -- accepted under the node's public key for that node and challenge, at every time at which it
    -- is fresh. The node's id, both nonces and the binding, if there is one, are not empty.
    pub verify-sign_challenge :
        (clock : ℤ) (now skew max_age : Option ℤ)
        → node_id ≢ []
        → client_nonce ≢ []
        → node_nonce ≢ []
        → binding ≢ some []
        → IsFresh issued
            (or_else now clock)
            (or_else skew default_clock_tolerance_sec)
            (or_else max_age default_max_age_sec)
        → let challenge = create_challenge base64 node_id sent client_nonce binding in
          (sign_challenge base64 signatures json challenge private_key node_id issued node_nonce
            ≡ ok (obj proof))
          × (verify_proof base64 signatures json clock (record {
            proof = obj proof;
            challenge = challenge;
            expected_node_id = node_id;
            expected_node_public_key = signatures.public_of private_key;
            now = now;
            clock_tolerance_sec = skew;
            max_age_sec = max_age;
          })
              ≡ ok proof)
    unfolding verify_proof check_proof
    verify-sign_challenge clock now skew max_age named fresh fresh' bound recent =
        let (c, n, sig) = proof-nonces in
        let m = proof-IsMessage in
        let asked = created-IsMessage node_id sent client_nonce binding in
        (
          sign_challenge-create_challenge named fresh bound,
          rw
              (
                assert_challenge-create_challenge node_id sent client_nonce binding named fresh
                    bound,
                proof_asserted named fresh fresh' bound signature_not_empty,
                m.says_node_id,
                asked.says_node_id,
                c,
                m.says_binding,
                m.says_timestamp,
                sig,
                created_nonce node_id sent client_nonce binding,
                asked.says_binding,
                ==_refl node_id,
                ==_refl (base64.encode client_nonce),
                same_binding binding,
                le→leb_ℤ _ _ recent.not_early,
                le→leb_ℤ _ _ recent.not_old,
                signature_verifies,
              )
              refl,
        )
