-- ===== src/Tunnel/Handshake/Agreed.antt =====
-- The two ends of a handshake of src/tunnel/handshake.ts agree.
use consensus_node.Base.{
  ℕ, Text, codes, text_eq, List, [], ◌++◌, Option, none, some, ==_refl, ==_ne, length, ok, ◌≡◌, ◌≢◌,
  ◌≤◌, refl, sym, ap, ◌∙◌, true, arith,
}
use mathlib.Core.Option
use consensus_node.Base.Int.{ℤ}
use consensus_node.Base.Json.{str, obj, Fields, JsonCodec, lookup}
use consensus_node.Crypto.Primitives.{Kdf, Signatures, Base64, Pem}
use consensus_node.Crypto.Channel.{SecureSession, client, server, session_of}
use consensus_node.Crypto.Channel.Session.{opposite}
use consensus_node.Crypto.Channel.Derived.{
  not_empty, session_id_not_empty, derived, session_of-server,
}
use consensus_node.Tunnel.Checks.{remove_field, signature_key, signing_payload, canonical_json}
use consensus_node.Tunnel.Checks.Encoded.{encode_not_empty}
use consensus_node.Tunnel.Handshake.{
  ClientInput, ClientHandshake, ServerHandshake, is_mode, init_fields, accept_fields, sign_fields,
  signed, signed_if, verify_fields, assert_handshake_init, create_client_handshake,
  verify_client_handshake, handshake_transcript_hash, accept_client_handshake, check_pinned, pinned,
  derive_client_session_from_accept,
}
use consensus_node.Tunnel.Handshake.Read.{
  init_read, with_signature, accept_read, decode-encode_base64, init_asserted, IsSigned,
  accept_asserted,
}

module _ (base64 : Base64) (json : JsonCodec) (kdf : Kdf) (signatures : Signatures)
    (pem : Pem) where
  payload_same :
      (m fs : Fields)
      → remove_field signature_key m ≡ remove_field signature_key fs
      → signing_payload json m ≡ signing_payload json fs
  unfolding signing_payload
  payload_same m fs h = ap (λ f. canonical_json json (obj f)) h

  verify-sign_fields :
      (key : ℕ) (m fs : Fields)
      → remove_field signature_key m ≡ remove_field signature_key fs
      → verify_fields base64 json kdf signatures pem
          (pem.write (signatures.public_of key))
          m
          (sign_fields base64 json kdf signatures pem key fs)
        ≡ ok true
  unfolding verify_fields
  verify-sign_fields key m fs same =
      rw
        (
          pem.read-write (signatures.public_of key),
          base64.decode-encode (signatures.sign key (signing_payload json fs)),
          payload_same m fs same,
          signatures.verify-sign key (signing_payload json fs),
        )
        refl

  signature_not_empty :
      (key : ℕ) (fs : Fields) → sign_fields base64 json kdf signatures pem key fs ≢ []
  signature_not_empty key fs =
      encode_not_empty base64 (signatures.sign key (signing_payload json fs)) (
        not_empty (signatures.sign key (signing_payload json fs))
          (omega (arith, signatures.length-sign key (signing_payload json fs))))

  -- The server's signature, and the key that a client pins for it.
  abbrev signature_of : Option ℕ → Fields → Option Text
  signature_of signing fs =
      Option.map (λ key. sign_fields base64 json kdf signatures pem key fs) signing

  abbrev pub pem_of : Option ℕ → Option Text
  pem_of signing = Option.map (λ key. pem.write (signatures.public_of key)) signing

  signed_if-with_signature :
      (signing : Option ℕ) (fs : Fields)
      → signed_if base64 json kdf signatures pem signing fs
        ≡ with_signature (signature_of signing fs) fs
  signed_if-with_signature none fs = refl
  signed_if-with_signature (some key) fs = refl

  signature_of-IsSigned :
      (signing : Option ℕ) (fs : Fields) → IsSigned base64 (signature_of signing fs)
  signature_of-IsSigned none fs = tt
  signature_of-IsSigned (some key) fs = signature_not_empty key fs

  pinned_checked :
      (signing : Option ℕ) (now : ℤ) (public_key nonce session_id : Text)
      → let fs = accept_fields now public_key nonce session_id in
        check_pinned base64 json kdf signatures pem
          (pinned base64 json kdf signatures pem (pem_of signing))
          (with_signature (signature_of signing fs) fs)
        ≡ ok tt
  unfolding check_pinned
  pinned_checked none now public_key nonce session_id = refl
  pinned_checked (some key) now public_key nonce session_id =
      let fs = accept_fields now public_key nonce session_id in
      let sig = sign_fields base64 json kdf signatures pem key fs in
      let (base, k, n, i, s, r) = accept_read now public_key nonce session_id (some sig) in
      rw
        (
          ==_ne (pem.write (signatures.public_of key)) []
              (pem.write_not_empty (signatures.public_of key)),
          s,
          verify-sign_fields key (with_signature (some sig) fs) fs r,
        )
        refl

  module _ (mode : Text) (identity_key : ℕ) (node_id candidate_id release : Option Text)
      (issued answered : ℤ) (a b : ℕ) (cn nn secret : List ℕ) (signing : Option ℕ) where
    abbrev pub input : ClientInput
    input = record {
      mode = mode;
      identity = record {
        private_key = identity_key;
        public_key_pem = pem.write (signatures.public_of identity_key);
      };
      node_id = node_id;
      candidate_id = candidate_id;
      release_version = release;
    }

    unsigned : Fields
    unsigned = init_fields input issued (base64.encode (kdf.public_key a)) (base64.encode cn)

    asked : Fields
    unfolding unsigned
    asked = signed base64 json kdf signatures pem identity_key unsigned

    transcript : List ℕ
    transcript = kdf.sha256 (signing_payload json asked)

    session : SecureSession
    session = session_of kdf server secret (kdf.sha256 (cn ++ (nn ++ transcript)))

    answer : Fields
    answer =
        accept_fields answered (base64.encode (kdf.public_key b)) (base64.encode nn)
          session.session_id

    module _ (moded : is_mode (some (str mode)) ≡ true) (long : 16 ≤ length cn)
        (long' : 16 ≤ length nn) (agreed : kdf.derive a (kdf.public_key b) ≡ some secret) where
      asserted : assert_handshake_init base64 (obj asked) ≡ ok asked
      unfolding asked unsigned
      asserted =
          init_asserted base64 input issued (kdf.public_key a) cn
            (sign_fields base64 json kdf signatures pem identity_key unsigned) moded
            (kdf.public_key_not_empty a) (not_empty cn long)
            (pem.write_not_empty (signatures.public_of identity_key))
            (signature_not_empty identity_key unsigned)

      asked_read :
          (lookup (codes "client_public_key") asked ≡ some (str (base64.encode (kdf.public_key a))))
          × (lookup (codes "client_nonce") asked ≡ some (str (base64.encode cn)))
          × (lookup (codes "node_public_key_pem") asked
              ≡ some (str (pem.write (signatures.public_of identity_key))))
          × (lookup signature_key asked
              ≡ some (str (sign_fields base64 json kdf signatures pem identity_key unsigned)))
          × (remove_field signature_key asked ≡ remove_field signature_key unsigned)
      unfolding asked unsigned
      asked_read =
          let (base, m, k, n, p, s, r) =
            init_read mode identity_key (pem.write (signatures.public_of identity_key)) node_id
              candidate_id release issued (base64.encode (kdf.public_key a)) (base64.encode cn)
              (sign_fields base64 json kdf signatures pem identity_key unsigned) in
          (k, n, p, s, r)

      verified : verify_client_handshake base64 json kdf signatures pem (obj asked) ≡ ok true
      unfolding verify_client_handshake
      verified =
          let (k, n, p, s, r) = asked_read in
          rw (asserted, p, s, verify-sign_fields identity_key asked unsigned r) refl

      hashed : handshake_transcript_hash base64 json kdf signatures pem (obj asked) ≡ ok transcript
      unfolding handshake_transcript_hash transcript
      hashed = rw asserted refl

      created :
          create_client_handshake base64 json kdf signatures pem input issued a cn
          ≡ ok (record { private_key = a; client_nonce = cn; message = obj asked })
      unfolding create_client_handshake asked unsigned
      created = rw moded refl

      accepted :
          accept_client_handshake base64 json kdf signatures pem (obj asked) signing answered b nn
          ≡ ok (record {
            private_key = b;
            server_nonce = nn;
            message = obj (with_signature (signature_of signing answer) answer);
            session = session;
          })
      unfolding accept_client_handshake session answer
      accepted =
          let (k, n, p, s, r) = asked_read in
          rw
            (
              verified,
              k,
              n,
              hashed,
              decode-encode_base64 base64 (kdf.public_key a) (kdf.public_key_not_empty a),
              decode-encode_base64 base64 cn (not_empty cn long),
            )
            (rw
              (
                derived kdf server b (kdf.public_key a) cn nn transcript secret long long'
                    (sym (kdf.agree a b) ∙ agreed),
                signed_if-with_signature signing _,
              )
              refl)

      derived_session :
          derive_client_session_from_accept base64 json kdf signatures pem
            (record { private_key = a; client_nonce = cn; message = obj asked })
            (obj (with_signature (signature_of signing answer) answer))
            (pem_of signing)
          ≡ ok (opposite session)
      unfolding derive_client_session_from_accept session answer
      derived_session =
          let id =
            (session_of kdf server secret (kdf.sha256 (cn ++ (nn ++ transcript)))).session_id in
          let pk = base64.encode (kdf.public_key b) in
          let fs = accept_fields answered pk (base64.encode nn) id in
          let (base, k, n, i, s, r) =
            accept_read answered pk (base64.encode nn) id (signature_of signing fs) in
          rw
            (
              accept_asserted base64 answered (kdf.public_key b) nn id (signature_of signing fs)
                  (kdf.public_key_not_empty b) (not_empty nn long')
                  (session_id_not_empty kdf server secret _) (signature_of-IsSigned signing fs),
              pinned_checked signing answered pk (base64.encode nn) id,
              k,
              n,
            )
            (rw
              (
                decode-encode_base64 base64 (kdf.public_key b) (kdf.public_key_not_empty b),
                decode-encode_base64 base64 nn (not_empty nn long'),
                hashed,
                derived kdf client a (kdf.public_key b) cn nn transcript secret long long' agreed,
                i,
                session_of-server kdf secret (kdf.sha256 (cn ++ (nn ++ transcript))),
                ==_refl id,
              )
              refl)

      -- A handshake succeeds and its ends agree: the client's message is created, a server accepts it,
      -- and from the server's answer the client derives the server's session seen from the other end,
      -- with the server's key pinned if the server signs, and none pinned if it does not. The mode is
      -- one of the two, both nonces have sixteen bytes or more, and the drawn keys have a shared
      -- secret.
      pub derive-accept-create_client_handshake :
          (ours : ClientHandshake) × (theirs : ServerHandshake) × (create_client_handshake base64
              json kdf signatures pem input issued a cn
            ≡ ok ours)
          × (accept_client_handshake base64 json kdf signatures pem ours.message signing answered b
                nn
              ≡ ok theirs)
          × (derive_client_session_from_accept base64 json kdf signatures pem ours theirs.message
                (pem_of signing)
              ≡ ok (opposite theirs.session))
      derive-accept-create_client_handshake = (
        record { private_key = a; client_nonce = cn; message = obj asked },
        record {
          private_key = b;
          server_nonce = nn;
          message = obj (with_signature (signature_of signing answer) answer);
          session = session;
        },
        created,
        accepted,
        derived_session,
      )
