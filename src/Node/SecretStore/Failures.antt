-- ===== src/Node/SecretStore/Failures.antt =====
-- When `readSecretFile` of src/node/secret-store.ts gives no secret, and when it is an error.
use consensus_node.Base.{
  ℕ, Text, text_eq, utf8, List, Option, none, some, ok, err, ◌≡◌, refl, ap, ◌∙◌, subst,
}
use mathlib.Core.Logic.{◌↔◌}
use consensus_node.Base.Map
use consensus_node.Base.Json.{JsonCodec}
use consensus_node.Crypto.Primitives.{Aead, Base64}
use consensus_node.Node.SecretStore.{
  SecretEnvelope, SecretError, FileState, World, Outcome, adapters, get_or_create_data_key,
  secret_envelope, decrypted, opened, open_secret, write_secret_file, read, migrated, read_content,
  read_state, read_secret_file, unreadable, content,
}
use consensus_node.Node.SecretStore.Files.{read_secret_file_absent}

module _ (base64 : Base64) (to_text : List ℕ → Text) (key_path : Text) (aead : Aead)
    (json : JsonCodec) where
  -- Why a secret is not given: its file cannot be read, the key cannot be had, the envelope does not
  -- open under the key for the slot, or a file from before the encryption cannot be sealed.
  pub data Failure (slot file : Text) (fresh nonce : List ℕ) (w : World)
      : Option FileState → SecretError → World → Type 0 where
    no_file : Failure slot file fresh nonce w (some unreadable) SecretError.secret_unreadable w
    no_key :
        {bytes : List ℕ} {e : SecretEnvelope} {err' : SecretError} {v : World}
        → secret_envelope (json.parse bytes) ≡ some e
        → get_or_create_data_key (adapters base64 to_text key_path) fresh w ≡ (err err', v)
        → Failure slot file fresh nonce w (some (content bytes)) err' v
    not_opened :
        {bytes : List ℕ} {e : SecretEnvelope} {key : List ℕ} {v : World}
        → secret_envelope (json.parse bytes) ≡ some e
        → get_or_create_data_key (adapters base64 to_text key_path) fresh w ≡ (ok key, v)
        → aead.decrypt key (base64.decode e.nonce) (utf8 slot) (base64.decode e.ct) ≡ none
        → Failure slot file fresh nonce w (some (content bytes)) SecretError.open_failed v
    not_sealed :
        {bytes : List ℕ} {err' : SecretError} {v : World}
        → secret_envelope (json.parse bytes) ≡ none
        → write_secret_file base64 to_text key_path aead json slot file
            (to_text bytes)
            fresh
            nonce
            w
          ≡ (err err', v)
        → Failure slot file fresh nonce w (some (content bytes)) err' v

  Failure-read_state :
      (slot file : Text) (fresh nonce : List ℕ) (w v : World) (f : Option FileState)
      (e : SecretError)
      → Failure slot file fresh nonce w f e v
      → read_state base64 to_text key_path aead json slot file f fresh nonce w ≡ (err e, v)
  unfolding read_content open_secret
  Failure-read_state slot file fresh nonce w v _ _ no_file = refl
  Failure-read_state slot file fresh nonce w v _ _ (no_key envelope key) = rw (envelope, key) refl
  Failure-read_state slot file fresh nonce w v _ _ (not_opened envelope key shut) =
      rw (envelope, key, shut) refl
  Failure-read_state slot file fresh nonce w v _ _ (not_sealed legacy wrote) =
      rw (legacy, wrote) refl

  key-Failure :
      (slot file : Text) (bytes fresh nonce : List ℕ) (w v x : World) (s : SecretEnvelope)
      (e : SecretError) (k : List ℕ) (p : Option (List ℕ))
      → secret_envelope (json.parse bytes) ≡ some s
      → get_or_create_data_key (adapters base64 to_text key_path) fresh w ≡ (ok k, x)
      → aead.decrypt k (base64.decode s.nonce) (utf8 slot) (base64.decode s.ct) ≡ p
      → read base64 to_text key_path aead json (decrypted base64 to_text key_path aead json p, x)
        ≡ (err e, v)
      → Failure slot file fresh nonce w (some (content bytes)) e v
  key-Failure slot file bytes fresh nonce w v x s e k none envelope key shut h =
      let why : SecretError.open_failed ≡ e = cc in
      let same : x ≡ v = cc in
      subst (λ e'. Failure slot file fresh nonce w (some (content bytes)) e' v) why
        (not_opened envelope (key ∙ ap (λ y. (ok k, y)) same) shut)
  key-Failure slot file bytes fresh nonce w v x s e k (some p) envelope key shut h = cc

  opened-Failure :
      (slot file : Text) (bytes fresh nonce : List ℕ) (w v : World) (s : SecretEnvelope)
      (e : SecretError) (o : Outcome (List ℕ))
      → secret_envelope (json.parse bytes) ≡ some s
      → get_or_create_data_key (adapters base64 to_text key_path) fresh w ≡ o
      → read base64 to_text key_path aead json (opened base64 to_text key_path aead json slot s o)
        ≡ (err e, v)
      → Failure slot file fresh nonce w (some (content bytes)) e v
  opened-Failure slot file bytes fresh nonce w v s e (err e', x) envelope key h =
      let same : e' ≡ e = cc in
      let at : x ≡ v = cc in
      no_key envelope (key ∙ (ap (λ y. (err y, x)) same ∙ ap (λ y. (err e, y)) at))
  opened-Failure slot file bytes fresh nonce w v s e (ok k, x) envelope key h =
      key-Failure slot file bytes fresh nonce w v x s e k _ envelope key refl h

  sealed-Failure :
      (slot file : Text) (bytes fresh nonce : List ℕ) (w v : World) (e : SecretError)
      (o : Outcome (Unit {0}))
      → secret_envelope (json.parse bytes) ≡ none
      → write_secret_file base64 to_text key_path aead json slot file (to_text bytes) fresh nonce w
        ≡ o
      → migrated base64 to_text key_path aead json (to_text bytes) o ≡ (err e, v)
      → Failure slot file fresh nonce w (some (content bytes)) e v
  sealed-Failure slot file bytes fresh nonce w v e (ok tt, x) legacy wrote h = cc
  sealed-Failure slot file bytes fresh nonce w v e (err e', x) legacy wrote h =
      let same : e' ≡ e = cc in
      let at : x ≡ v = cc in
      not_sealed legacy (wrote ∙ (ap (λ y. (err y, x)) same ∙ ap (λ y. (err e, y)) at))

  content-Failure :
      (slot file : Text) (bytes fresh nonce : List ℕ) (w v : World) (e : SecretError)
      (s : Option SecretEnvelope)
      → secret_envelope (json.parse bytes) ≡ s
      → read_content base64 to_text key_path aead json slot file bytes s fresh nonce w ≡ (err e, v)
      → Failure slot file fresh nonce w (some (content bytes)) e v
  unfolding read_content open_secret
  content-Failure slot file bytes fresh nonce w v e (some s) at h =
      opened-Failure slot file bytes fresh nonce w v s e _ at refl h
  content-Failure slot file bytes fresh nonce w v e none at h =
      sealed-Failure slot file bytes fresh nonce w v e _ at refl h

  read_state-Failure :
      (slot file : Text) (fresh nonce : List ℕ) (w v : World) (e : SecretError)
      (f : Option FileState)
      → read_state base64 to_text key_path aead json slot file f fresh nonce w ≡ (err e, v)
      → Failure slot file fresh nonce w f e v
  read_state-Failure slot file fresh nonce w v e none h = cc
  read_state-Failure slot file fresh nonce w v e (some unreadable) h =
      let why : SecretError.secret_unreadable ≡ e = cc in
      let same : w ≡ v = cc in
      subst (λ e'. Failure slot file fresh nonce w (some unreadable) e' v) why
        (subst (Failure slot file fresh nonce w (some unreadable) SecretError.secret_unreadable)
          same no_file)
  read_state-Failure slot file fresh nonce w v e (some (content bytes)) h =
      content-Failure slot file bytes fresh nonce w v e _ refl h

  absent-read_secret_file :
      (slot file : Text) (fresh nonce : List ℕ) (w : World)
      → Map.get file w.files ≡ none
      → read_secret_file base64 to_text key_path aead json slot file fresh nonce w ≡ (ok none, w)
  unfolding read_secret_file
  absent-read_secret_file slot file fresh nonce w h = rw h refl

  -- No secret is what is read of a file that is absent, and of no other; and an error is read exactly
  -- when the file cannot be read, or the data key cannot be had, or the envelope in the file does not
  -- open under that key for the slot, or the text of a file that is no envelope cannot be sealed. So a
  -- file that is there and cannot be read or opened is an error.
  pub read_secret_file-none :
      (slot file : Text) (fresh nonce : List ℕ) (w : World)
      → (((w' : World) × (read_secret_file base64 to_text key_path aead json slot file fresh nonce w
              ≡ (ok none, w')))
          ↔ (Map.get file w.files ≡ none))
        × ((e : SecretError) (v : World)
            → (read_secret_file base64 to_text key_path aead json slot file fresh nonce w
                ≡ (err e, v))
              ↔ Failure slot file fresh nonce w (Map.get file w.files) e v)
  unfolding read_secret_file
  read_secret_file-none slot file fresh nonce w = (
    (
      λ (w', h).
          read_secret_file_absent base64 to_text key_path aead json slot file fresh nonce w w' h,
      λ h. (w, absent-read_secret_file slot file fresh nonce w h),
    ),
    λ e v. (
      read_state-Failure slot file fresh nonce w v e (Map.get file w.files),
      Failure-read_state slot file fresh nonce w v (Map.get file w.files) e,
    ),
  )
