-- ===== src/Node/SecretStore/Kept.antt =====
-- A data key that src/node/secret-store.ts finds in its file is never replaced.
use consensus_node.Base.{
  ℕ, Text, text_eq, nat_eq, Bool, true, false, List, Option, none, some, ◌==◌, length,
  if◌then◌else◌, Result, ok, err, ◌≡◌, refl, ap, ◌∙◌,
}
use consensus_node.Base.Case.{trim}
use consensus_node.Base.Map
use consensus_node.Crypto.Primitives.{Base64}
use consensus_node.Node.SecretStore.{
  SecretError, not_retained, FileState, World, Outcome, dek_bytes, select_adapter, cache, retained,
  data_key_from, data_key_in, data_key, get_or_create_data_key, is_set, env_adapter, file_key,
  keyfile_adapter, adapters, unreadable, content,
}
use consensus_node.Node.SecretStore.Key.{chosen}

retained-files :
    (fresh : List ℕ) (r : Result SecretError (Option (List ℕ))) (w : World)
    → (retained fresh r w).1.files ≡ w.files
retained-files fresh (ok (some stored)) w = by_case (stored == fresh)
  where
    by_case :
        (b : Bool)
        → let o : Outcome (List ℕ) =
            if b then (ok fresh, cache fresh w) else (err not_retained, w) in
          o.1.files ≡ w.files
    by_case true = refl
    by_case false = refl
retained-files fresh (ok none) w = refl
retained-files fresh (err e) w = refl

module _ (base64 : Base64) (to_text : List ℕ → Text) (key_path : Text) where
  env_key-files :
      (fresh : List ℕ) (r : Result SecretError (Option (List ℕ))) (w : World)
      → (data_key_from (env_adapter base64) fresh r w).1.files ≡ w.files
  unfolding data_key_from
  env_key-files fresh (ok (some existing)) w = refl
  env_key-files fresh (ok none) w = retained-files fresh _ w
  env_key-files fresh (err e) w = refl

  -- A key file that is there gives a key or an error, never "no key yet".
  file_key-files :
      (fresh : List ℕ) (f : FileState) (w : World)
      → (data_key_from
          (keyfile_adapter base64 to_text key_path)
          fresh
          (file_key base64 to_text key_path (some f))
          w).1.files
        ≡ w.files
  unfolding data_key_from
  file_key-files fresh unreadable w = refl
  file_key-files fresh (content bytes) w =
      by_case (length (base64.decode (trim (to_text bytes))) == dek_bytes)
    where
      by_case :
          (b : Bool)
          → (data_key_from
              (keyfile_adapter base64 to_text key_path)
              fresh
              (if b
                then ok (some (base64.decode (trim (to_text bytes))))
                else err SecretError.key_malformed)
              w).1.files
            ≡ w.files
      by_case true = refl
      by_case false = refl

  chosen_key-files :
      (env files : Bool) (fresh : List ℕ) (f : FileState) (w : World)
      → Map.get key_path w.files ≡ some f
      → (data_key_in (chosen base64 to_text key_path env files) fresh w).1.files ≡ w.files
  chosen_key-files true files fresh f w at = env_key-files fresh _ w
  chosen_key-files false true fresh f w at =
      ap
        (λ s.
          (data_key_from (keyfile_adapter base64 to_text key_path) fresh
            (file_key base64 to_text key_path s) w).1.files)
        at
      ∙ file_key-files fresh f w
  chosen_key-files false false fresh f w at = refl

  data_key-files :
      (cached : Option (List ℕ)) (fresh : List ℕ) (f : FileState) (w : World)
      → Map.get key_path w.files ≡ some f
      → (data_key (adapters base64 to_text key_path) fresh cached w).1.files ≡ w.files
  unfolding select_adapter
  data_key-files (some key) fresh f w at = refl
  data_key-files none fresh f w at =
      chosen_key-files (is_set w.env_key) w.has_key_files fresh f w at

  -- A key file that is there, be it readable or not, well formed or not, is left as it is.
  pub get_or_create_data_key-files :
      (fresh : List ℕ) (f : FileState) (w : World)
      → Map.get key_path w.files ≡ some f
      → (get_or_create_data_key (adapters base64 to_text key_path) fresh w).1.files ≡ w.files
  unfolding get_or_create_data_key
  get_or_create_data_key-files fresh f w at = data_key-files w.cached_key fresh f w at
