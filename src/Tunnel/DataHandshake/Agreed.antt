-- ===== src/Tunnel/DataHandshake/Agreed.antt =====
-- The two ends of a handshake of src/tunnel/data-handshake.ts agree.
use consensus_node.Base.{
  ℕ, Text, codes, text_eq, text_beq, List, [], ◌++◌, Option, none, some, nat_eq, length, ok, ◌≡◌,
  ◌≢◌, ◌≤◌, refl, sym, ap, ◌∙◌, arith, ==_refl, ==_ne, or_else,
}
use consensus_node.Base.Int.{ℤ}
use consensus_node.Base.Json.{Json, num, str, obj, Fields, JsonCodec, lookup, IsPlain, IsSafe}
use consensus_node.Crypto.Primitives.{Kdf, Signatures, Base64}
use consensus_node.Crypto.Channel.{SecureSession, client, server, session_of}
use consensus_node.Crypto.Channel.Session.{opposite}
use consensus_node.Crypto.Channel.Derived.{
  not_empty, session_id_not_empty, derived, session_of-server,
}
use consensus_node.Tunnel.Checks.Encoded.{bytes_of-encode}
use consensus_node.Tunnel.ResponderAuth.{
  create_challenge, sign_challenge, verify_proof, default_clock_tolerance_sec, default_max_age_sec,
}
use consensus_node.Tunnel.ResponderAuth.Proven.{
  IsFresh, proof, proof-IsMessage, proof-nonces, proof-IsPlain, verify-sign_challenge,
}
use consensus_node.Tunnel.DataHandshake.{
  not_a_text, nothing_decoded, ClientDataHandshake, NodeDataHandshake, assert_base, decode_base64,
  assert_data_init, assert_data_accept, create_data_init, init_fields, accept_fields, init_type,
  accept_type, channel_binding, accept_data_init, derive_client_data_session, client_binding,
  proof_options,
}

module _ (base64 : Base64) where
  decode-encode_base64 :
      (b : List ℕ) → b ≢ [] → decode_base64 base64 (some (str (base64.encode b))) ≡ ok b
  unfolding decode_base64
  decode-encode_base64 b h = bytes_of-encode base64 not_a_text nothing_decoded b h

  module _ (node_id public_key nonce : Text) (now : ℤ) where
    -- What the node reads in an init message.
    init_read :
        let fs = init_fields node_id public_key nonce now in
        (assert_base (obj fs) init_type ≡ ok fs)
        × (lookup (codes "node_id") fs ≡ some (str node_id))
        × (lookup (codes "client_public_key") fs ≡ some (str public_key))
        × (lookup (codes "client_nonce") fs ≡ some (str nonce))
        × (lookup (codes "timestamp") fs ≡ some (num now))
    unfolding assert_base init_fields lookup text_beq
    init_read = (refl, refl, refl, refl, refl)

  module _ (public_key session_id : Text) (proven : Json) where
    -- What the client reads in an accept message.
    accept_read :
        let fs = accept_fields public_key session_id proven in
        (assert_base (obj fs) accept_type ≡ ok fs)
        × (lookup (codes "node_public_key") fs ≡ some (str public_key))
        × (lookup (codes "session_id") fs ≡ some (str session_id))
        × (lookup (codes "proof") fs ≡ some proven)
    unfolding assert_base accept_fields lookup text_beq
    accept_read = (refl, refl, refl, refl)

  init_asserted :
      (node_id : Text) (key nonce : List ℕ) (now : ℤ)
      → node_id ≢ []
      → key ≢ []
      → nonce ≢ []
      → let fs = init_fields node_id (base64.encode key) (base64.encode nonce) now in
        assert_data_init base64 (obj fs) ≡ ok fs
  unfolding assert_data_init
  init_asserted node_id key nonce now named keyed fresh =
      let (base, n, k, c, t) = init_read node_id (base64.encode key) (base64.encode nonce) now in
      rw
        (
          base,
          n,
          k,
          c,
          t,
          ==_ne node_id [] named,
          decode-encode_base64 key keyed,
          decode-encode_base64 nonce fresh,
        )
        refl

  accept_asserted :
      (key : List ℕ) (session_id : Text) (proven : Fields)
      → key ≢ []
      → session_id ≢ []
      → let fs = accept_fields (base64.encode key) session_id (obj proven) in
        assert_data_accept base64 (obj fs) ≡ ok fs
  unfolding assert_data_accept
  accept_asserted key session_id proven keyed named =
      let (base, k, s, p) = accept_read (base64.encode key) session_id (obj proven) in
      rw (base, k, s, p, ==_ne session_id [] named, decode-encode_base64 key keyed) refl

module _ (kdf : Kdf) where
  module _ (base64 : Base64) (json : JsonCodec) (signatures : Signatures) (node_id : Text)
      (identity_key a b : ℕ) (cn nn secret : List ℕ) (issued : ℤ) where
    abbrev public_text : ℕ → Text
    public_text key = base64.encode (kdf.public_key key)

    -- The transcript that both ends hash.
    pub transcript : List ℕ
    transcript = channel_binding base64 kdf json (record {
      node_id = node_id;
      client_public_key = public_text a;
      client_nonce = base64.encode cn;
      node_public_key = public_text b;
      node_nonce = base64.encode nn;
    })

    transcript_bound : ◌≢◌ {A = Option (List ℕ)} (some transcript) (some [])
    unfolding transcript channel_binding
    transcript_bound e =
        let n : length transcript ≡ 32 = kdf.length-sha256 _ in
        let z : length transcript ≡ 0 =
          ap (λ (o : Option (List ℕ)). elim o [ none ↦ 0 | some t ↦ length t ]) e in
        absurd (omega arith)

    pub asked : ClientDataHandshake
    asked = create_data_init base64 kdf node_id issued a cn

    pub session : SecureSession
    unfolding transcript
    session = session_of kdf server secret (kdf.sha256 (cn ++ (nn ++ transcript)))

    -- The proof that the node signs for this transcript.
    pub proven : Fields
    unfolding transcript
    proven = proof base64 signatures json node_id identity_key cn nn issued issued (some transcript)

    pub accepted : Fields
    unfolding session proven
    accepted = accept_fields (public_text b) session.session_id (obj proven)

    accepted-IsPlain : IsSafe issued → IsPlain (obj accepted)
    unfolding accepted accept_fields lookup text_beq proven
    accepted-IsPlain safe = (
      refl,
      tt,
      (
        refl,
        tt,
        (
          refl,
          (omega arith, omega arith),
          (
            refl,
            tt,
            (
              refl,
              tt,
              (
                refl,
                proof-IsPlain base64 signatures json node_id identity_key cn nn issued issued
                    (some transcript) safe,
                tt,
              ),
            ),
          ),
        ),
      ),
    )

    module _ (named : node_id ≢ []) (long : 16 ≤ length cn) (long' : 16 ≤ length nn)
        (agreed : kdf.derive a (kdf.public_key b) ≡ some secret) where
      proved :
          (clock : ℤ) (now : Option ℤ)
          → IsFresh issued (or_else now clock) default_clock_tolerance_sec default_max_age_sec
          → let challenge = create_challenge base64 node_id issued cn (some transcript) in
            (sign_challenge base64 signatures json challenge identity_key node_id issued nn
              ≡ ok (obj proven))
            × (verify_proof base64 signatures json clock (record {
              proof = obj proven;
              challenge = challenge;
              expected_node_id = node_id;
              expected_node_public_key = signatures.public_of identity_key;
              now = now;
              clock_tolerance_sec = none;
              max_age_sec = none;
            })
                ≡ ok proven)
      unfolding proven
      proved clock now fresh =
          verify-sign_challenge base64 signatures json node_id identity_key cn nn issued issued
            (some transcript) clock now none none named (not_empty cn long) (not_empty nn long')
            transcript_bound fresh

      accept-create_data_init :
          (clock : ℤ) (now : Option ℤ)
          → IsFresh issued (or_else now clock) default_clock_tolerance_sec default_max_age_sec
          → accept_data_init base64 kdf json signatures asked.message identity_key node_id issued b
              nn
            ≡ ok (record { message = obj accepted; session = session })
      unfolding accept_data_init asked create_data_init session accepted transcript
      accept-create_data_init clock now fresh =
          let (base, n, k, c, t) =
            init_read base64 node_id (public_text a) (base64.encode cn) issued in
          rw
            (
              init_asserted base64 node_id (kdf.public_key a) cn issued named
                  (kdf.public_key_not_empty a) (not_empty cn long),
              n,
              k,
              c,
              ==_refl node_id,
              decode-encode_base64 base64 (kdf.public_key a) (kdf.public_key_not_empty a),
              decode-encode_base64 base64 cn (not_empty cn long),
            )
            (rw
              (
                derived kdf server b (kdf.public_key a) cn nn transcript secret long long'
                    (sym (kdf.agree a b) ∙ agreed),
                (proved clock now fresh).0,
              )
              refl)

      proven_read :
          (lookup (codes "node_nonce") proven ≡ some (str (base64.encode nn)))
          × (lookup (codes "timestamp") proven ≡ some (num issued))
      unfolding proven
      proven_read =
          let (_, n, _) =
            proof-nonces base64 signatures json node_id identity_key cn nn issued issued
              (some transcript) in
          (
            n,
            (proof-IsMessage base64 signatures json node_id identity_key cn nn issued issued
                (some transcript)).says_timestamp,
          )

      derive-accept_data_init :
          (clock : ℤ) (now : Option ℤ)
          → IsFresh issued (or_else now clock) default_clock_tolerance_sec default_max_age_sec
          → derive_client_data_session base64 kdf json signatures asked
              (obj accepted)
              node_id
              (signatures.public_of identity_key)
              now
              clock
            ≡ ok (opposite session)
      unfolding derive_client_data_session client_binding proof_options asked create_data_init
          session accepted transcript
      derive-accept_data_init clock now fresh =
          let (base, k, s, p) =
            accept_read base64 (public_text b)
              (session_of kdf server secret (kdf.sha256 (cn ++ (nn ++ transcript)))).session_id
              (obj proven) in
          let (_, _, k', c', _) =
            init_read base64 node_id (public_text a) (base64.encode cn) issued in
          let (n, t) = proven_read in
          rw
            (
              accept_asserted base64 (kdf.public_key b)
                  (session_of kdf server secret (kdf.sha256 (cn ++ (nn ++ transcript)))).session_id
                  proven (kdf.public_key_not_empty b) (session_id_not_empty kdf server secret _),
              p,
              k',
              c',
              k,
              n,
              t,
            )
            (rw
              (
                (proved clock now fresh).1,
                decode-encode_base64 base64 (kdf.public_key b) (kdf.public_key_not_empty b),
                decode-encode_base64 base64 nn (not_empty nn long'),
                derived kdf client a (kdf.public_key b) cn nn transcript secret long long' agreed,
                s,
                session_of-server kdf secret (kdf.sha256 (cn ++ (nn ++ transcript))),
                ==_refl
                    (session_of kdf server secret
                      (kdf.sha256 (cn ++ (nn ++ transcript)))).session_id,
              )
              refl)

      -- A handshake succeeds and its ends agree: a node that receives the client's message accepts
      -- it, and the client, with the node's answer and the public key of the node's identity, derives
      -- the node's session seen from the other end, at every time at which the node's proof is fresh.
      -- The node's id is not empty, both nonces have sixteen bytes or more, and the drawn keys have a
      -- shared secret.
      pub derive-accept-create_data_init :
          (clock : ℤ) (now : Option ℤ)
          → IsFresh issued (or_else now clock) default_clock_tolerance_sec default_max_age_sec
          → (answer : NodeDataHandshake) × (accept_data_init base64 kdf json signatures
                (create_data_init base64 kdf node_id issued a cn).message
                identity_key
                node_id
                issued
                b
                nn
              ≡ ok answer)
            × (derive_client_data_session base64 kdf json signatures
                  (create_data_init base64 kdf node_id issued a cn)
                  answer.message
                  node_id
                  (signatures.public_of identity_key)
                  now
                  clock
                ≡ ok (opposite answer.session))
      unfolding asked
      derive-accept-create_data_init clock now fresh = (
        record { message = obj accepted; session = session },
        accept-create_data_init clock now fresh,
        derive-accept_data_init clock now fresh,
      )

      -- The same, and the node's answer is read as it was written, as is the time of the handshake.
      pub handshake-IsPlain :
          (clock : ℤ) (now : Option ℤ)
          → IsFresh issued (or_else now clock) default_clock_tolerance_sec default_max_age_sec
          → IsSafe issued
          → (answer : NodeDataHandshake) × (accept_data_init base64 kdf json signatures
                (create_data_init base64 kdf node_id issued a cn).message
                identity_key
                node_id
                issued
                b
                nn
              ≡ ok answer)
            × (derive_client_data_session base64 kdf json signatures
                  (create_data_init base64 kdf node_id issued a cn)
                  answer.message
                  node_id
                  (signatures.public_of identity_key)
                  now
                  clock
                ≡ ok (opposite answer.session))
            × IsPlain answer.message
      unfolding asked
      handshake-IsPlain clock now fresh safe = (
        record { message = obj accepted; session = session },
        accept-create_data_init clock now fresh,
        derive-accept_data_init clock now fresh,
        accepted-IsPlain safe,
      )
