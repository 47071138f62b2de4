-- ===== src/Node/Identity.antt =====
-- loadOrCreateIdentity of src/crypto/identity.ts, over the secrets of src/node/secret-store.ts. The key
-- pair that it would generate is an argument.
pub mod Loaded
use consensus_node.Base.{
  ℕ, Text, codes, text_eq, utf8, Bool, true, false, ◌&&◌, List, [], Option, none, some, ◌==◌,
  if◌then◌else◌, Result, ok, err,
}
use consensus_node.Base.Map
use consensus_node.Base.Json.{JsonCodec}
use consensus_node.Crypto.Primitives.{Aead, Base64}
use consensus_node.Node.SecretStore.{
  SecretError, secret_unreadable, FileState, unreadable, content, World, Outcome, write_file,
  write_secret_file, read_secret_file,
}

abbrev pub slot_node_key : Text
slot_node_key = codes "node.key"

pub record IdentityPems : Type 0 where
  pub private_key_pem : Text
  pub public_key_pem : Text

-- What the process draws if it needs to: a key pair, a data key and a nonce.
pub record Drawn : Type 0 where
  pub pair : IdentityPems
  pub fresh : List ℕ
  pub nonce : List ℕ

module _ (base64 : Base64) (to_text : List ℕ → Text) (key_path : Text) (aead : Aead)
    (json : JsonCodec) (private_path public_path : Text) where
  -- Both paths are there. `exists` also says no of a path that it may not look at; here it may.
  abbrev pub both_exist : World → Bool
  both_exist w = Map.has private_path w.files && Map.has public_path w.files

  abbrev pub public_written : IdentityPems → Outcome (Unit {0}) → Outcome IdentityPems
  public_written pair (ok done, w) = (ok pair, w)
  public_written pair (err e, w) = (err e, w)

  abbrev pub private_written : IdentityPems → Outcome (Unit {0}) → Outcome IdentityPems
  private_written pair (ok done, w) =
      public_written pair (write_file public_path (utf8 pair.public_key_pem) w)
  private_written pair (err e, w) = (err e, w)

  unfoldable pub create_identity : Drawn → World → Outcome IdentityPems
  create_identity drawn w = private_written drawn.pair (
      write_secret_file base64 to_text key_path aead json slot_node_key private_path
        drawn.pair.private_key_pem drawn.fresh drawn.nonce w)

  -- `fs.readFile(p.publicKeyPem, "utf8")`
  abbrev pub with_public : Text → Option FileState → World → Outcome IdentityPems
  with_public private_key_pem (some (content bytes)) w =
      (ok (record { private_key_pem = private_key_pem; public_key_pem = to_text bytes }), w)
  with_public private_key_pem (some unreadable) w = (err secret_unreadable, w)
  with_public private_key_pem none w = (err secret_unreadable, w)

  unfoldable pub loaded : Drawn → Outcome (Option Text) → Outcome IdentityPems
  loaded drawn (ok (some private_key_pem), w) =
      if private_key_pem == []
      then create_identity drawn w
      else with_public private_key_pem (Map.get public_path w.files) w
  loaded drawn (ok none, w) = create_identity drawn w
  loaded drawn (err e, w) = (err e, w)

  unfoldable pub load_or_create_identity : Drawn → World → Outcome IdentityPems
  load_or_create_identity drawn w =
      if both_exist w
      then loaded drawn (
          read_secret_file base64 to_text key_path aead json slot_node_key private_path drawn.fresh
            drawn.nonce w)
      else create_identity drawn w
