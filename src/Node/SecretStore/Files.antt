-- ===== src/Node/SecretStore/Files.antt =====
-- The files of src/node/secret-store.ts: what was written is read, also by the next process, and a file
-- from before the encryption is sealed when it is read.
use consensus_node.Base.{
  ℕ, Text, text_eq, text_beq, nat_eq, utf8, Bool, true, false, List, Option, none, some, ==_ne,
  includes, if◌then◌else◌, ok, err, ◌≡◌, ◌≢◌, refl, sym, ap, ◌∙◌, subst, arith,
}
use consensus_node.Base.Map
use consensus_node.Base.Json.{JsonCodec, lookup}
use consensus_node.Crypto.Primitives.{Aead, Base64}
use consensus_node.Node.SecretStore.{
  SecretEnvelope, SecretError, FileState, World, Outcome, write_file, adapters,
  get_or_create_data_key, reset_data_key_cache, secret_envelope, envelope_json, sealed, seal_secret,
  decrypted, open_secret, stored, write_secret_file, read, migrated, read_content, read_state,
  read_secret_file, unreadable, content,
}
use consensus_node.Node.SecretStore.Key.{Agrees, data_key_again}
use consensus_node.Base.Map.{get-set_off}

module _ (base64 : Base64) (to_text : List ℕ → Text) (key_path : Text) (aead : Aead)
    (json : JsonCodec) where
  read_envelope :
      (e : SecretEnvelope)
      → secret_envelope (json.parse (json.stringify (envelope_json e))) ≡ some e
  unfolding secret_envelope lookup text_beq
  read_envelope e =
      rw
        (json.parse-stringify (envelope_json e)
          (refl, (omega arith, omega arith), (refl, tt, (refl, tt, (refl, tt, tt)))))
        refl

  open_sealed :
      (slot plaintext : Text) (key nonce : List ℕ)
      → to_text (utf8 plaintext) ≡ plaintext
      → decrypted base64 to_text key_path aead json (
          aead.decrypt key
            (base64.decode (base64.encode nonce))
            (utf8 slot)
            (base64.decode (base64.encode (aead.encrypt key nonce (utf8 slot) (utf8 plaintext)))))
        ≡ ok plaintext
  open_sealed slot plaintext key nonce plain =
      rw
        (
          base64.decode-encode nonce,
          base64.decode-encode (aead.encrypt key nonce (utf8 slot) (utf8 plaintext)),
          aead.decrypt-encrypt key nonce (utf8 slot) (utf8 plaintext),
          plain,
        )
        refl

  -- A file that was written holds what was written, and nothing else has changed.
  written :
      (file : Text) (bytes : List ℕ) (v w' : World)
      → write_file file bytes v ≡ (ok tt, w')
      → w' ≡ record v { files = Map.set file (content bytes) v.files }
  unfolding write_file
  written file bytes v w' h = by_case (includes file v.locked) h
    where
      by_case :
          (b : Bool)
          → ◌≡◌ {A = Outcome (Unit {0})}
              (if b
                then (err SecretError.write_failed, v)
                else (ok tt, record v { files = Map.set file (content bytes) v.files }))
              (ok tt, w')
          → w' ≡ record v { files = Map.set file (content bytes) v.files }
      by_case true e = cc
      by_case false e = sym (ap (λ p. p.1) e)

  elsewhere :
      (file : Text) (bytes : List ℕ) (v : World)
      → file ≢ key_path
      → Agrees key_path (record v { files = Map.set file (content bytes) v.files }) v
  elsewhere file bytes v apart = record {
    same_env = refl;
    same_platform = refl;
    same_file = get-set_off file key_path _ v.files (==_ne file key_path apart);
  }

  -- What the writing of a secret leaves for the next process.
  read-written :
      (slot file plaintext : Text) (key nonce fresh' nonce' : List ℕ) (v w' : World)
      → to_text (utf8 plaintext) ≡ plaintext
      → write_file file
          (json.stringify (
            envelope_json (record {
              nonce = base64.encode nonce;
              ct = base64.encode (aead.encrypt key nonce (utf8 slot) (utf8 plaintext));
            })))
          v
        ≡ (ok tt, w')
      → get_or_create_data_key (adapters base64 to_text key_path) fresh' (reset_data_key_cache w')
        ≡ (ok key, w')
      → read_secret_file base64 to_text key_path aead json slot file fresh' nonce'
          (reset_data_key_cache w')
        ≡ (ok (some plaintext), w')
  unfolding read_secret_file read_content open_secret reset_data_key_cache
  read-written slot file plaintext key nonce fresh' nonce' v w' plain put again =
      let e : SecretEnvelope = record {
        nonce = base64.encode nonce;
        ct = base64.encode (aead.encrypt key nonce (utf8 slot) (utf8 plaintext));
      } in
      let bytes = json.stringify (envelope_json e) in
      let found : Map.get file w'.files ≡ some (content bytes) =
        ap (λ w. Map.get file w.files) (written file bytes v w' put)
        ∙ Map.get-set_same file (content bytes) v.files in
      rw (found, read_envelope e, again, open_sealed slot plaintext key nonce plain) refl

  sealed-again :
      (slot file plaintext : Text) (nonce : List ℕ) (w w' : World) (o : Outcome (List ℕ))
      → w.cached_key ≡ none
      → to_text (utf8 plaintext) ≡ plaintext
      → file ≢ key_path
      → (fresh : List ℕ) → get_or_create_data_key (adapters base64 to_text key_path) fresh w ≡ o
      → stored base64 to_text key_path aead json file
          (sealed base64 to_text key_path aead json slot plaintext nonce o)
        ≡ (ok tt, w')
      → (fresh' nonce' : List ℕ)
      → read_secret_file base64 to_text key_path aead json slot file fresh' nonce'
          (reset_data_key_cache w')
        ≡ (ok (some plaintext), w')
  sealed-again slot file plaintext nonce w w' (err e, v) empty plain apart fresh o h fresh' nonce' =
      cc
  sealed-again slot file plaintext nonce w w' (ok key, v) empty plain apart fresh o h fresh'
        nonce' =
      let (cached, again) = data_key_again base64 to_text key_path fresh key w v empty o in
      let same = written file _ v w' h in
      read-written slot file plaintext key nonce fresh' nonce' v w' plain h (
        again fresh' w' (subst (λ x. Agrees key_path x v) (sym same) (elsewhere file _ v apart))
          (ap (λ x. x.cached_key) same ∙ cached))

  -- A secret that was written is read by the next process, under the same slot, and reading it leaves
  -- the disk as it is. The file is not that of the data key, the text is well formed.
  pub read-write_secret_file :
      (slot file plaintext : Text) (fresh nonce : List ℕ) (w w' : World)
      → w.cached_key ≡ none
      → to_text (utf8 plaintext) ≡ plaintext
      → file ≢ key_path
      → write_secret_file base64 to_text key_path aead json slot file plaintext fresh nonce w
        ≡ (ok tt, w')
      → (fresh' nonce' : List ℕ)
      → read_secret_file base64 to_text key_path aead json slot file fresh' nonce'
          (reset_data_key_cache w')
        ≡ (ok (some plaintext), w')
  unfolding write_secret_file seal_secret
  read-write_secret_file slot file plaintext fresh nonce w w' empty plain apart h =
      sealed-again slot file plaintext nonce w w' _ empty plain apart fresh refl h

  migrated-ok :
      (raw s : Text) (o : Outcome (Unit {0})) (w' : World)
      → migrated base64 to_text key_path aead json raw o ≡ (ok (some s), w')
      → (raw ≡ s) × (o ≡ (ok tt, w'))
  migrated-ok raw s (ok tt, v) w' h = (cc, cc)
  migrated-ok raw s (err e, v) w' h = (cc, cc)

  -- The file holds the secret under a key that the process has, for the slot, and is an envelope.
  pub record IsSealed (slot file plaintext : Text) (nonce : List ℕ) (w : World) : Type 0 where
    pub key : List ℕ
    pub envelope : SecretEnvelope
    pub has_key : w.cached_key ≡ some key
    pub nonce_of : envelope.nonce ≡ base64.encode nonce
    pub ct_of : envelope.ct ≡ base64.encode (aead.encrypt key nonce (utf8 slot) (utf8 plaintext))
    pub bytes : List ℕ
    pub on_disk : Map.get file w.files ≡ some (content bytes)
    pub is_envelope : secret_envelope (json.parse bytes) ≡ some envelope

  stored-IsSealed :
      (slot file plaintext : Text) (fresh nonce : List ℕ) (w w' : World) (o : Outcome (List ℕ))
      → w.cached_key ≡ none
      → get_or_create_data_key (adapters base64 to_text key_path) fresh w ≡ o
      → stored base64 to_text key_path aead json file
          (sealed base64 to_text key_path aead json slot plaintext nonce o)
        ≡ (ok tt, w')
      → IsSealed slot file plaintext nonce w'
  stored-IsSealed slot file plaintext fresh nonce w w' (err e, v) empty o h = cc
  stored-IsSealed slot file plaintext fresh nonce w w' (ok key, v) empty o h =
      let (cached, again) = data_key_again base64 to_text key_path fresh key w v empty o in
      let same = written file _ v w' h in
      let e : SecretEnvelope = record {
        nonce = base64.encode nonce;
        ct = base64.encode (aead.encrypt key nonce (utf8 slot) (utf8 plaintext));
      } in
      let bytes = json.stringify (envelope_json e) in
      record {
        key = key;
        envelope = e;
        has_key = ap (λ x. x.cached_key) same ∙ cached;
        nonce_of = refl;
        ct_of = refl;
        bytes = bytes;
        on_disk =
            ap (λ x. Map.get file x.files) same ∙ Map.get-set_same file (content bytes) v.files;
        is_envelope = read_envelope e;
      }

  write_secret_file-IsSealed :
      (slot file plaintext : Text) (fresh nonce : List ℕ) (w w' : World)
      → w.cached_key ≡ none
      → write_secret_file base64 to_text key_path aead json slot file plaintext fresh nonce w
        ≡ (ok tt, w')
      → IsSealed slot file plaintext nonce w'
  unfolding write_secret_file seal_secret
  write_secret_file-IsSealed slot file plaintext fresh nonce w w' empty h =
      stored-IsSealed slot file plaintext fresh nonce w w' _ empty refl h

  -- A file from before the encryption is read as the text that it holds. By then it is sealed: the file
  -- is an envelope, whose text is the secret encrypted with the nonce for the slot, under the key of the
  -- process. The next process reads the same secret and changes nothing. The text is well formed, the
  -- file is not that of the data key, and no key was cached.
  pub read_secret_file_migrates :
      (slot file s : Text) (bytes fresh nonce : List ℕ) (w w' : World)
      → w.cached_key ≡ none
      → Map.get file w.files ≡ some (content bytes)
      → secret_envelope (json.parse bytes) ≡ none
      → to_text (utf8 s) ≡ s
      → file ≢ key_path
      → read_secret_file base64 to_text key_path aead json slot file fresh nonce w
        ≡ (ok (some s), w')
      → (to_text bytes ≡ s)
        × IsSealed slot file s nonce w'
        × ((fresh' nonce' : List ℕ)
            → read_secret_file base64 to_text key_path aead json slot file fresh' nonce'
                (reset_data_key_cache w')
              ≡ (ok (some s), w'))
  unfolding read_secret_file read_content
  read_secret_file_migrates slot file s bytes fresh nonce w w' empty at legacy plain apart h =
      let raw = to_text bytes in
      let wrote : migrated base64 to_text key_path aead json raw
            (write_secret_file base64 to_text key_path aead json slot file raw fresh nonce w)
          ≡ (ok (some s), w') =
        sym (
          ap (λ o. read_state base64 to_text key_path aead json slot file o fresh nonce w) at
          ∙ ap (λ e. read_content base64 to_text key_path aead json slot file bytes e fresh nonce w)
              legacy)
        ∙ h in
      let (same, put) = migrated-ok raw s _ w' wrote in
      let sealing =
        ap (λ t. write_secret_file base64 to_text key_path aead json slot file t fresh nonce w)
          (sym same)
        ∙ put in
      (
        same,
        write_secret_file-IsSealed slot file s fresh nonce w w' empty sealing,
        read-write_secret_file slot file s fresh nonce w w' empty plain apart sealing,
      )

  read_not_none :
      (o : Outcome Text) (w' : World) → read base64 to_text key_path aead json o ≡ (ok none, w') → ⊥
  read_not_none (ok t, v) w' h = cc
  read_not_none (err e, v) w' h = cc

  migrated_not_none :
      (raw : Text) (o : Outcome (Unit {0})) (w' : World)
      → migrated base64 to_text key_path aead json raw o ≡ (ok none, w')
      → ⊥
  migrated_not_none raw (ok tt, v) w' h = cc
  migrated_not_none raw (err e, v) w' h = cc

  content_not_none :
      (slot file : Text) (bytes fresh nonce : List ℕ) (e : Option SecretEnvelope) (w w' : World)
      → read_content base64 to_text key_path aead json slot file bytes e fresh nonce w
        ≡ (ok none, w')
      → ⊥
  unfolding read_content
  content_not_none slot file bytes fresh nonce (some e) w w' h = read_not_none _ w' h
  content_not_none slot file bytes fresh nonce none w w' h =
      migrated_not_none (to_text bytes) _ w' h

  state-none :
      (slot file : Text) (fresh nonce : List ℕ) (o : Option FileState) (w w' : World)
      → read_state base64 to_text key_path aead json slot file o fresh nonce w ≡ (ok none, w')
      → o ≡ none
  state-none slot file fresh nonce none w w' h = refl
  state-none slot file fresh nonce (some unreadable) w w' h = cc
  state-none slot file fresh nonce (some (content bytes)) w w' h =
      absurd (content_not_none slot file bytes fresh nonce _ w w' h)

  pub read_secret_file_absent :
      (slot file : Text) (fresh nonce : List ℕ) (w w' : World)
      → read_secret_file base64 to_text key_path aead json slot file fresh nonce w ≡ (ok none, w')
      → Map.get file w.files ≡ none
  unfolding read_secret_file
  read_secret_file_absent slot file fresh nonce w w' h =
      state-none slot file fresh nonce (Map.get file w.files) w w' h
