-- ===== src/Node/SecretStore.antt =====
-- src/node/secret-store.ts: the data key in its keystore, and the secrets that are sealed under it. The
-- state is the disk, the environment and the cached key; random bytes are arguments, `to_text` is
-- `toString("utf8")` of a Buffer. A file is written at once: the rename replaces it as a whole.
pub mod Key
pub mod Kept
pub mod Files
pub mod Failures
use consensus_node.Base.{
  ℕ, Text, codes, text_eq, nat_eq, utf8, Bool, true, false, ◌&&◌, List, [], ◌∷◌, Option, none, some,
  ◌==◌, length, includes, if◌then◌else◌, Result, ok, err,
}
use consensus_node.Base.Int.{pos}
use consensus_node.Base.Case.{trim}
use consensus_node.Base.Map
use consensus_node.Base.Json.{Json, num, str, obj, Fields, field, end, JsonCodec, as_text, lookup}
use consensus_node.Crypto.Primitives.{Aead, Base64}
use consensus_node.Tunnel.Checks.{text_is, number_is}

abbrev pub dek_bytes : ℕ
dek_bytes = 32

abbrev pub envelope_version : ℕ
envelope_version = 1

abbrev pub algorithm : Text
algorithm = codes "chacha20-poly1305"

pub record SecretEnvelope : Type 0 where
  pub nonce : Text
  pub ct : Text

pub data SecretError : Type 0 where
  env_key_size key_unreadable key_malformed no_adapter not_retained : SecretError
  secret_unreadable open_failed write_failed : SecretError

-- A file that is not in the list is absent.
pub data FileState : Type 0 where
  unreadable : FileState
  content : List ℕ → FileState

-- `locked` are the paths where a write fails; `has_key_files` tells darwin and linux from the others.
pub record World : Type 0 where
  pub files : List (Text × FileState)
  pub locked : List Text
  pub env_key : Option Text
  pub has_key_files : Bool
  pub cached_key : Option (List ℕ)

abbrev pub Outcome {ℓ} : Type ℓ → Type ℓ
Outcome A = Result SecretError A × World

pub record KeystoreAdapter : Type 0 where
  pub name : Text
  pub available : World → Bool
  pub get : World → Result SecretError (Option (List ℕ))
  pub set : List ℕ → World → Outcome (Unit {0})

unfoldable pub write_file : Text → List ℕ → World → Outcome (Unit {0})
write_file path bytes w =
    if includes path w.locked
    then (err write_failed, w)
    else (ok tt, record w { files = Map.set path (content bytes) w.files })

-- A key of the wrong size is refused.
abbrev pub checked_key : SecretError → List ℕ → Result SecretError (Option (List ℕ))
checked_key wrong key = if length key == dek_bytes then ok (some key) else err wrong

-- `Array.find(adapter => adapter.available())`
unfoldable pub select_adapter : List KeystoreAdapter → World → Option KeystoreAdapter
select_adapter [] w = none
select_adapter (adapter ∷ rest) w =
    if adapter.available w then some adapter else select_adapter rest w

abbrev pub cache : List ℕ → World → World
cache key w = record w { cached_key = some key }

-- The key that was set is read back.
abbrev pub retained : List ℕ → Result SecretError (Option (List ℕ)) → World → Outcome (List ℕ)
retained key (ok (some stored)) w =
    if stored == key then (ok key, cache key w) else (err not_retained, w)
retained key (ok none) w = (err not_retained, w)
retained key (err e) w = (err e, w)

abbrev pub minted : KeystoreAdapter → List ℕ → Outcome (Unit {0}) → Outcome (List ℕ)
minted adapter key (ok done, w) = retained key (adapter.get w) w
minted adapter key (err e, w) = (err e, w)

unfoldable pub data_key_from :
    KeystoreAdapter → List ℕ → Result SecretError (Option (List ℕ)) → World → Outcome (List ℕ)
data_key_from adapter fresh (ok (some existing)) w = (ok existing, cache existing w)
data_key_from adapter fresh (ok none) w = minted adapter fresh (adapter.set fresh w)
data_key_from adapter fresh (err e) w = (err e, w)

abbrev pub data_key_in : Option KeystoreAdapter → List ℕ → World → Outcome (List ℕ)
data_key_in none fresh w = (err no_adapter, w)
data_key_in (some adapter) fresh w = data_key_from adapter fresh (adapter.get w) w

abbrev pub data_key : List KeystoreAdapter → List ℕ → Option (List ℕ) → World → Outcome (List ℕ)
data_key adapters fresh (some key) w = (ok key, w)
data_key adapters fresh none w = data_key_in (select_adapter adapters w) fresh w

-- getOrCreateDataKey over the adapters
unfoldable pub get_or_create_data_key : List KeystoreAdapter → List ℕ → World → Outcome (List ℕ)
get_or_create_data_key adapters fresh w = data_key adapters fresh w.cached_key w

unfoldable pub reset_data_key_cache : World → World
reset_data_key_cache w = record w { cached_key = none }

-- `isSecretEnvelope`, with the envelope
abbrev pub envelope_of : Option Text → Option Text → Option SecretEnvelope
envelope_of (some nonce) (some ct) = some (record { nonce = nonce; ct = ct })
envelope_of _ _ = none

unfoldable pub secret_envelope : Option Json → Option SecretEnvelope
secret_envelope (some (obj fs)) =
    if number_is (lookup (codes "v") fs) envelope_version
      && text_is (lookup (codes "alg") fs) algorithm
    then envelope_of (as_text (lookup (codes "nonce") fs)) (as_text (lookup (codes "ct") fs))
    else none
secret_envelope _ = none

abbrev pub envelope_json : SecretEnvelope → Json
envelope_json e = obj (
    field (codes "v") (num (pos envelope_version)) (
      field (codes "alg") (str algorithm)
        (field (codes "nonce") (str e.nonce) (field (codes "ct") (str e.ct) end))))

-- `Boolean(process.env.CONSENSUS_NODE_SECRET_KEY)`
abbrev pub is_set : Option Text → Bool
is_set none = false
is_set (some raw) = if raw == [] then false else true

module _ (base64 : Base64) where
  abbrev pub env_key_of : Option Text → Result SecretError (Option (List ℕ))
  env_key_of none = ok none
  env_key_of (some raw) =
      if raw == [] then ok none else checked_key env_key_size (base64.decode raw)

  abbrev pub env_adapter : KeystoreAdapter
  env_adapter = record {
    name = codes "env";
    available = λ w. is_set w.env_key;
    get = λ w. env_key_of w.env_key;
    set = λ key w. (ok tt, w);
  }

module _ (base64 : Base64) (to_text : List ℕ → Text) (key_path : Text) where
  -- Only a file that is absent is no key.
  abbrev pub file_key : Option FileState → Result SecretError (Option (List ℕ))
  file_key none = ok none
  file_key (some unreadable) = err key_unreadable
  file_key (some (content bytes)) = checked_key key_malformed (base64.decode (trim (to_text bytes)))

  abbrev pub keyfile_adapter : KeystoreAdapter
  keyfile_adapter = record {
    name = codes "keyfile";
    available = λ w. w.has_key_files;
    get = λ w. file_key (Map.get key_path w.files);
    set = λ key w. write_file key_path (utf8 (base64.encode key)) w;
  }

  abbrev pub adapters : List KeystoreAdapter
  adapters = env_adapter base64 ∷ keyfile_adapter ∷ []

  module _ (aead : Aead) (json : JsonCodec) where
    abbrev pub sealed : Text → Text → List ℕ → Outcome (List ℕ) → Outcome SecretEnvelope
    sealed slot plaintext nonce (err e, w) = (err e, w)
    sealed slot plaintext nonce (ok key, w) = (
      ok (record {
        nonce = base64.encode nonce;
        ct = base64.encode (aead.encrypt key nonce (utf8 slot) (utf8 plaintext));
      }),
      w,
    )

    -- sealSecret, with the key that is minted if there is none, and the nonce
    unfoldable pub seal_secret : Text → Text → List ℕ → List ℕ → World → Outcome SecretEnvelope
    seal_secret slot plaintext fresh nonce w =
        sealed slot plaintext nonce (get_or_create_data_key adapters fresh w)

    abbrev pub decrypted : Option (List ℕ) → Result SecretError Text
    decrypted none = err open_failed
    decrypted (some plaintext) = ok (to_text plaintext)

    abbrev pub opened : Text → SecretEnvelope → Outcome (List ℕ) → Outcome Text
    opened slot e (err e', w) = (err e', w)
    opened slot e (ok key, w) =
        (decrypted (aead.decrypt key (base64.decode e.nonce) (utf8 slot) (base64.decode e.ct)), w)

    unfoldable pub open_secret : Text → SecretEnvelope → List ℕ → World → Outcome Text
    open_secret slot e fresh w = opened slot e (get_or_create_data_key adapters fresh w)

    abbrev pub stored : Text → Outcome SecretEnvelope → Outcome (Unit {0})
    stored file (err e, w) = (err e, w)
    stored file (ok e, w) = write_file file (json.stringify (envelope_json e)) w

    unfoldable pub write_secret_file :
        Text → Text → Text → List ℕ → List ℕ → World → Outcome (Unit {0})
    write_secret_file slot file plaintext fresh nonce w =
        stored file (seal_secret slot plaintext fresh nonce w)

    abbrev pub read : Outcome Text → Outcome (Option Text)
    read (ok s, w) = (ok (some s), w)
    read (err e, w) = (err e, w)

    abbrev pub migrated : Text → Outcome (Unit {0}) → Outcome (Option Text)
    migrated raw (ok done, w) = (ok (some raw), w)
    migrated raw (err e, w) = (err e, w)

    -- A file that holds no envelope is sealed in place.
    unfoldable pub read_content :
        Text
        → Text
        → List ℕ
        → Option SecretEnvelope
        → List ℕ
        → List ℕ
        → World
        → Outcome (Option Text)
    read_content slot file bytes (some e) fresh nonce w = read (open_secret slot e fresh w)
    read_content slot file bytes none fresh nonce w =
        migrated (to_text bytes) (write_secret_file slot file (to_text bytes) fresh nonce w)

    abbrev pub read_state :
        Text → Text → Option FileState → List ℕ → List ℕ → World → Outcome (Option Text)
    read_state slot file none fresh nonce w = (ok none, w)
    read_state slot file (some unreadable) fresh nonce w = (err secret_unreadable, w)
    read_state slot file (some (content bytes)) fresh nonce w =
        read_content slot file bytes (secret_envelope (json.parse bytes)) fresh nonce w

    unfoldable pub read_secret_file : Text → Text → List ℕ → List ℕ → World → Outcome (Option Text)
    read_secret_file slot file fresh nonce w =
        read_state slot file (Map.get file w.files) fresh nonce w
