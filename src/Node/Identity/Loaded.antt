-- ===== src/Node/Identity/Loaded.antt =====
-- When src/crypto/identity.ts keeps the identity of a node, and when it replaces it.
use consensus_node.Base.{
  ℕ, Text, text_eq, utf8, Bool, Bool-cases, inl, inr, true, false, ◌&&◌, List, [], Option, none,
  some, ==_ne, if◌then◌else◌, ok, err, ◌≡◌, ◌≢◌, refl, sym, ap, ◌∙◌,
}
use consensus_node.Base.Map
use consensus_node.Base.Json.{JsonCodec}
use consensus_node.Crypto.Primitives.{Aead, Base64}
use consensus_node.Node.SecretStore.{FileState, World, Outcome, write_file, read_secret_file}
use consensus_node.Node.SecretStore.Files.{read_secret_file_absent}
use consensus_node.Node.Identity.{
  IdentityPems, Drawn, slot_node_key, public_written, private_written, create_identity, loaded,
  load_or_create_identity,
}

none-some {ℓ} : {A : Type ℓ} (a : A) → ◌≡◌ {A = Option A} none (some a) → ⊥
none-some a e = cc

has_found :
    (path : Text) (f : FileState) (files : List (Text × FileState))
    → Map.get path files ≡ some f
    → Map.has path files ≡ true
has_found path f files at = elim (Bool-cases (Map.has path files)) [
  | inl there ↦ there
  | inr lost ↦ absurd (none-some f (sym (Map.get-eq-none path files lost) ∙ at))
]

and_false : (a : Bool) {b : Bool} → b ≡ false → (a && b) ≡ false
and_false true h = h
and_false false h = refl

module _ (base64 : Base64) (to_text : List ℕ → Text) (key_path : Text) (aead : Aead)
    (json : JsonCodec) (private_path public_path : Text) where
  loaded_either :
      (pair pair' : IdentityPems) (fresh nonce : List ℕ) (o : Outcome (Option Text))
      → ((w : World) → o ≢ (ok none, w))
      → ((w : World) → o ≢ (ok (some []), w))
      → loaded base64 to_text key_path aead json private_path public_path
          (record { pair = pair; fresh = fresh; nonce = nonce })
          o
        ≡ loaded base64 to_text key_path aead json private_path public_path
            (record { pair = pair'; fresh = fresh; nonce = nonce })
            o
  unfolding loaded
  loaded_either pair pair' fresh nonce (ok (some s), w) there filled =
      rw (==_ne s [] (λ e. filled w (ap (λ t. (ok (some t), w)) e))) refl
  loaded_either pair pair' fresh nonce (ok none, w) there filled = absurd (there w refl)
  loaded_either pair pair' fresh nonce (err e, w) there filled = refl

  -- An identity whose two files are there is never replaced by a new one: what is loaded, the error
  -- included, and what is left on the disk do not depend on the key pair that would be generated. The
  -- secret that is read is not empty.
  pub load_or_create_identity_keeps :
      (pair pair' : IdentityPems) (fresh nonce : List ℕ) (w : World) (f : FileState)
      → Map.get private_path w.files ≡ some f
      → Map.has public_path w.files ≡ true
      → ((w' : World)
          → read_secret_file base64 to_text key_path aead json slot_node_key private_path fresh
              nonce w
            ≢ (ok (some []), w'))
      → load_or_create_identity base64 to_text key_path aead json private_path public_path
          (record { pair = pair; fresh = fresh; nonce = nonce })
          w
        ≡ load_or_create_identity base64 to_text key_path aead json private_path public_path
            (record { pair = pair'; fresh = fresh; nonce = nonce })
            w
  unfolding load_or_create_identity
  load_or_create_identity_keeps pair pair' fresh nonce w f at there filled =
      rw (has_found private_path f w.files at, there)
        (loaded_either pair pair' fresh nonce
          (read_secret_file base64 to_text key_path aead json slot_node_key private_path fresh nonce
            w)
          (λ w' h. none-some f (
            sym (
              read_secret_file_absent base64 to_text key_path aead json slot_node_key private_path
                fresh nonce w w' h)
            ∙ at))
          filled)

  public_written-pair :
      (pair identity : IdentityPems) (o : Outcome (Unit {0})) (w' : World)
      → public_written base64 to_text key_path aead json private_path public_path pair o
        ≡ (ok identity, w')
      → identity ≡ pair
  public_written-pair pair identity (ok done, w) w' h = cc
  public_written-pair pair identity (err e, w) w' h = cc

  private_written-pair :
      (pair identity : IdentityPems) (o : Outcome (Unit {0})) (w' : World)
      → private_written base64 to_text key_path aead json private_path public_path pair o
        ≡ (ok identity, w')
      → identity ≡ pair
  private_written-pair pair identity (ok done, w) w' h =
      public_written-pair pair identity (write_file public_path (utf8 pair.public_key_pem) w) w' h
  private_written-pair pair identity (err e, w) w' h = cc

  -- A node that has lost the file of its public key gets a new identity, although its private key is
  -- there: whatever is loaded is the generated key pair.
  pub load_or_create_identity_replaces :
      (drawn : Drawn) (w w' : World) (identity : IdentityPems)
      → Map.has public_path w.files ≡ false
      → load_or_create_identity base64 to_text key_path aead json private_path public_path drawn w
        ≡ (ok identity, w')
      → identity ≡ drawn.pair
  unfolding load_or_create_identity create_identity
  load_or_create_identity_replaces drawn w w' identity lost h =
      private_written-pair drawn.pair identity _ w' (
        sym (
          ap
            (λ b.
              if b
              then loaded base64 to_text key_path aead json private_path public_path drawn (
                  read_secret_file base64 to_text key_path aead json slot_node_key private_path
                    drawn.fresh drawn.nonce w)
              else create_identity base64 to_text key_path aead json private_path public_path drawn
                  w)
            (and_false (Map.has private_path w.files) lost))
        ∙ h)
