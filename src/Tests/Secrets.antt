-- ===== src/Tests/Secrets.antt =====
-- src/node/secret-store.ts on a concrete disk.
use consensus_node.Base.{
  ℕ, Text, codes, text_eq, text_beq, nat_eq, utf8, true, false, List, [], ◌∷◌, none, some, ok, err,
  ◌≡◌, ◌≢◌, refl,
}
use consensus_node.Base.Case.{trim}
use consensus_node.Base.Map
use consensus_node.Node.SecretStore.{
  FileState, SecretError, unreadable, content, World, adapters, get_or_create_data_key,
  reset_data_key_cache, select_adapter, data_key_from, write_file, seal_secret, write_secret_file,
  read_secret_file, read_content, secret_envelope,
}
use consensus_node.Node.Identity.{
  IdentityPems, Drawn, slot_node_key, create_identity, load_or_create_identity,
}
use consensus_node.Node.Identity.Loaded.{
  load_or_create_identity_keeps, load_or_create_identity_replaces,
}
use consensus_node.Node.SecretStore.Key.{get_or_create_data_key-reset}
use consensus_node.Node.SecretStore.Kept.{get_or_create_data_key-files}
use consensus_node.Node.SecretStore.Files.{
  read-write_secret_file, read_secret_file_migrates, IsSealed,
}
use mathlib.Core.Logic.{◌↔◌}
use consensus_node.Node.SecretStore.Failures.{Failure, read_secret_file-none}
use consensus_node.Tests.Instances.{aead, base64, fill}
use consensus_node.Tests.StackJson
use consensus_node.Tests.StackJson.{json_codec, write, result, step}

abbrev key_path : Text
key_path = codes "k"

abbrev secret_path : Text
secret_path = codes "s1"

abbrev to_text : List ℕ → Text
to_text bytes = bytes

abbrev fresh : List ℕ
fresh = fill 32 5

abbrev disk : List (Text × FileState) → World
disk files = record {
  files = files;
  locked = [];
  env_key = none;
  has_key_files = true;
  cached_key = none;
}

abbrev key_file : FileState
key_file = content (fill 32 52)

abbrev with_key : World
with_key = record {
  files = (key_path, key_file) ∷ [];
  locked = [];
  env_key = none;
  has_key_files = true;
  cached_key = some fresh;
}

minted :
    get_or_create_data_key (adapters base64 to_text key_path) fresh (disk []) ≡ (ok fresh, with_key)
unfolding get_or_create_data_key select_adapter data_key_from write_file fill utf8 trim Map.get
    Map.set text_beq
minted = refl

get_or_create_data_key-reset_example :
    get_or_create_data_key
      (adapters base64 to_text key_path)
      (fill 32 9)
      (reset_data_key_cache with_key)
    ≡ (ok fresh, with_key)
get_or_create_data_key-reset_example =
    get_or_create_data_key-reset base64 to_text key_path fresh fresh (disk []) with_key refl minted
      (fill 32 9)

abbrev locked_out : World
locked_out = disk ((key_path, unreadable) ∷ [])

at_key : Map.get key_path locked_out.files ≡ some unreadable
unfolding Map.get text_beq
at_key = refl

get_or_create_data_key-files_example :
    (get_or_create_data_key (adapters base64 to_text key_path) fresh locked_out).1.files
    ≡ (key_path, unreadable) ∷ []
get_or_create_data_key-files_example =
    get_or_create_data_key-files base64 to_text key_path fresh unreadable locked_out at_key

secret_apart : secret_path ≢ key_path
secret_apart e = cc

abbrev after : World
after =
    (write_secret_file base64 to_text key_path aead json_codec (codes "node.key") secret_path
      (codes "x") fresh (fill 12 1) (disk [])).1

was_written :
    write_secret_file base64 to_text key_path aead json_codec
      (codes "node.key")
      secret_path
      (codes "x")
      fresh
      (fill 12 1)
      (disk [])
    ≡ (ok tt, after)
unfolding write_secret_file seal_secret get_or_create_data_key select_adapter data_key_from
    write_file fill utf8 trim Map.get Map.set text_beq
was_written = refl

read-write_secret_file_example :
    read_secret_file base64 to_text key_path aead json_codec
      (codes "node.key")
      secret_path
      []
      []
      (reset_data_key_cache after)
    ≡ (ok (some (codes "x")), after)
unfolding utf8
read-write_secret_file_example =
    read-write_secret_file base64 to_text key_path aead json_codec (codes "node.key") secret_path
      (codes "x") fresh (fill 12 1) (disk []) after refl refl secret_apart was_written [] []

abbrev legacy : World
legacy = disk ((secret_path, content (codes "PEM")) ∷ [])

at_legacy : Map.get secret_path legacy.files ≡ some (content (codes "PEM"))
unfolding Map.get text_beq
at_legacy = refl

not_envelope : secret_envelope (json_codec.parse (codes "PEM")) ≡ none
unfolding secret_envelope StackJson.read StackJson.run step result
not_envelope = refl

abbrev migrated_world : World
migrated_world =
    (read_secret_file base64 to_text key_path aead json_codec (codes "node.key") secret_path fresh
      (fill 12 1) legacy).1

was_migrated :
    read_secret_file base64 to_text key_path aead json_codec
      (codes "node.key")
      secret_path
      fresh
      (fill 12 1)
      legacy
    ≡ (ok (some (codes "PEM")), migrated_world)
unfolding read_secret_file read_content secret_envelope StackJson.read StackJson.run step result
    write_secret_file seal_secret get_or_create_data_key select_adapter data_key_from write_file
    fill utf8 trim Map.get Map.set text_beq
was_migrated = refl

read_secret_file_migrates_example :
    (codes "PEM" ≡ codes "PEM")
    × IsSealed base64 to_text key_path aead json_codec
        (codes "node.key")
        secret_path
        (codes "PEM")
        (fill 12 1)
        migrated_world
    × ((fresh' nonce' : List ℕ)
        → read_secret_file base64 to_text key_path aead json_codec
            (codes "node.key")
            secret_path
            fresh'
            nonce'
            (reset_data_key_cache migrated_world)
          ≡ (ok (some (codes "PEM")), migrated_world))
unfolding utf8
read_secret_file_migrates_example =
    read_secret_file_migrates base64 to_text key_path aead json_codec (codes "node.key") secret_path
      (codes "PEM") (codes "PEM") fresh (fill 12 1) legacy migrated_world refl at_legacy
      not_envelope refl secret_apart was_migrated

abbrev unreadable_secret : World
unreadable_secret = disk ((secret_path, unreadable) ∷ [])

read_secret_file-none_example :
    (((w' : World) × (read_secret_file base64 to_text key_path aead json_codec
            (codes "node.key")
            secret_path
            fresh
            []
            unreadable_secret
          ≡ (ok none, w')))
      ↔ (Map.get secret_path unreadable_secret.files ≡ none))
    × ((e : SecretError) (v : World)
        → (read_secret_file base64 to_text key_path aead json_codec
              (codes "node.key")
              secret_path
              fresh
              []
              unreadable_secret
            ≡ (err e, v))
          ↔ Failure base64 to_text key_path aead json_codec
              (codes "node.key")
              secret_path
              fresh
              []
              unreadable_secret
              (Map.get secret_path unreadable_secret.files)
              e
              v)
read_secret_file-none_example =
    read_secret_file-none base64 to_text key_path aead json_codec (codes "node.key") secret_path
      fresh [] unreadable_secret

abbrev pair : Text → IdentityPems
pair private_key_pem = record { private_key_pem = private_key_pem; public_key_pem = codes "pub" }

abbrev kept_disk : World
kept_disk = disk ((codes "p", unreadable) ∷ (codes "q", content (codes "pub")) ∷ [])

kept_private : Map.get (codes "p") kept_disk.files ≡ some unreadable
unfolding Map.get text_beq
kept_private = refl

kept_public : Map.has (codes "q") kept_disk.files ≡ true
unfolding Map.has text_beq
kept_public = refl

kept_filled :
    (w' : World)
    → read_secret_file base64 to_text key_path aead json_codec slot_node_key
        (codes "p")
        fresh
        []
        kept_disk
      ≢ (ok (some []), w')
unfolding read_secret_file Map.get text_beq
kept_filled w' h = cc

load_or_create_identity_keeps_example :
    load_or_create_identity base64 to_text key_path aead json_codec
      (codes "p")
      (codes "q")
      (record { pair = pair (codes "new"); fresh = fresh; nonce = [] })
      kept_disk
    ≡ load_or_create_identity base64 to_text key_path aead json_codec
        (codes "p")
        (codes "q")
        (record { pair = pair (codes "other"); fresh = fresh; nonce = [] })
        kept_disk
load_or_create_identity_keeps_example =
    load_or_create_identity_keeps base64 to_text key_path aead json_codec (codes "p") (codes "q")
      (pair (codes "new")) (pair (codes "other")) fresh [] kept_disk unreadable kept_private
      kept_public kept_filled

abbrev lost_public : World
lost_public = disk ((codes "p", content (codes "PEM")) ∷ [])

abbrev drawn : Drawn
drawn = record { pair = pair (codes "new"); fresh = fresh; nonce = fill 12 1 }

abbrev replaced : World
replaced =
    (load_or_create_identity base64 to_text key_path aead json_codec (codes "p") (codes "q") drawn
      lost_public).1

no_public : Map.has (codes "q") lost_public.files ≡ false
unfolding Map.has text_beq
no_public = refl

was_replaced :
    load_or_create_identity base64 to_text key_path aead json_codec
      (codes "p")
      (codes "q")
      drawn
      lost_public
    ≡ (ok (pair (codes "new")), replaced)
unfolding load_or_create_identity create_identity write_secret_file seal_secret
    get_or_create_data_key select_adapter data_key_from write_file fill utf8 trim Map.get Map.set
    Map.has text_beq
was_replaced = refl

load_or_create_identity_replaces_example : pair (codes "new") ≡ pair (codes "new")
load_or_create_identity_replaces_example =
    load_or_create_identity_replaces base64 to_text key_path aead json_codec (codes "p") (codes "q")
      drawn lost_public replaced (pair (codes "new")) no_public was_replaced
