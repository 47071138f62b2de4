-- ===== src/Node/SecretStore/Key.antt =====
-- The data key of src/node/secret-store.ts: it outlives the process.
use consensus_node.Base.{
  ℕ, Text, text_eq, nat_eq, utf8, Bool, true, false, List, Option, none, some, ◌==◌, ==_sound,
  includes, if◌then◌else◌, Result, ok, err, ◌≡◌, refl, sym, ap, ap₂, ◌∙◌, subst,
}
use consensus_node.Base.Map
use consensus_node.Crypto.Primitives.{Base64}
use consensus_node.Node.SecretStore.{
  SecretError, not_retained, World, Outcome, KeystoreAdapter, write_file, select_adapter, cache,
  retained, minted, data_key_from, data_key_in, data_key, get_or_create_data_key,
  reset_data_key_cache, env_key_of, is_set, env_adapter, file_key, keyfile_adapter, adapters,
  content,
}

-- What the choice of the adapter and its answer depend on is the same.
pub record Agrees (key_path : Text) (v w : World) : Type 0 where
  pub same_env : v.env_key ≡ w.env_key
  pub same_platform : v.has_key_files ≡ w.has_key_files
  pub same_file : Map.get key_path v.files ≡ Map.get key_path w.files

-- An adapter reads its key from there, and setting a key changes nothing else.
pub record IsSteady (key_path : Text) (adapter : KeystoreAdapter) : Type 0 where
  get_agrees : (v w : World) → Agrees key_path v w → adapter.get v ≡ adapter.get w
  set_env : (k : List ℕ) (w : World) → (adapter.set k w).1.env_key ≡ w.env_key
  set_platform : (k : List ℕ) (w : World) → (adapter.set k w).1.has_key_files ≡ w.has_key_files

cached-Agrees : (key_path : Text) (k : List ℕ) (w : World) → Agrees key_path (cache k w) w
cached-Agrees key_path k w = record { same_env = refl; same_platform = refl; same_file = refl }

reset-Agrees : (key_path : Text) (w : World) → Agrees key_path (reset_data_key_cache w) w
unfolding reset_data_key_cache
reset-Agrees key_path w = record { same_env = refl; same_platform = refl; same_file = refl }

-- The key is in the adapter, and in the cache.
pub record IsHeld (adapter : KeystoreAdapter) (key : List ℕ) (w w' : World) : Type 0 where
  pub there : adapter.get w' ≡ ok (some key)
  pub same_env : w'.env_key ≡ w.env_key
  pub same_platform : w'.has_key_files ≡ w.has_key_files
  pub cached : w'.cached_key ≡ some key

-- If the key was obtained, it is held.
abbrev pub Holds : KeystoreAdapter → World → Outcome (List ℕ) → Type 0
Holds adapter w (ok key, w') = IsHeld adapter key w w'
Holds adapter w (err e, w') = Unit

module _ (key_path : Text) (adapter : KeystoreAdapter) (steady : IsSteady key_path adapter) where
  read_back-Holds :
      (fresh stored : List ℕ) (w v : World) (b : Bool)
      → v.env_key ≡ w.env_key
      → v.has_key_files ≡ w.has_key_files
      → adapter.get v ≡ ok (some stored)
      → (stored == fresh) ≡ b
      → Holds adapter w (if b then (ok fresh, cache fresh v) else (err not_retained, v))
  read_back-Holds fresh stored w v true env platform got same = record {
    there =
        steady.get_agrees _ v (cached-Agrees key_path fresh v)
        ∙ got
        ∙ ap (λ k. ok (some k)) (==_sound stored fresh same);
    same_env = env;
    same_platform = platform;
    cached = refl;
  }
  read_back-Holds fresh stored w v false env platform got other = tt

  retained-Holds :
      (fresh : List ℕ) (w v : World) (r : Result SecretError (Option (List ℕ)))
      → v.env_key ≡ w.env_key
      → v.has_key_files ≡ w.has_key_files
      → adapter.get v ≡ r
      → Holds adapter w (retained fresh r v)
  retained-Holds fresh w v (ok (some stored)) env platform got =
      read_back-Holds fresh stored w v (stored == fresh) env platform got refl
  retained-Holds fresh w v (ok none) env platform got = tt
  retained-Holds fresh w v (err e) env platform got = tt

  minted-Holds :
      (fresh : List ℕ) (w : World) (o : Outcome (Unit {0}))
      → o.1.env_key ≡ w.env_key
      → o.1.has_key_files ≡ w.has_key_files
      → Holds adapter w (minted adapter fresh o)
  minted-Holds fresh w (ok done, v) env platform =
      retained-Holds fresh w v (adapter.get v) env platform refl
  minted-Holds fresh w (err e, v) env platform = tt

  data_key_from-Holds :
      (fresh : List ℕ) (w : World) (r : Result SecretError (Option (List ℕ)))
      → adapter.get w ≡ r
      → Holds adapter w (data_key_from adapter fresh r w)
  unfolding data_key_from
  data_key_from-Holds fresh w (ok (some existing)) got = record {
    there = steady.get_agrees _ w (cached-Agrees key_path existing w) ∙ got;
    same_env = refl;
    same_platform = refl;
    cached = refl;
  }
  data_key_from-Holds fresh w (ok none) got =
      minted-Holds fresh w (adapter.set fresh w) (steady.set_env fresh w)
        (steady.set_platform fresh w)
  data_key_from-Holds fresh w (err e) got = tt

pub write_file-same :
    (path : Text) (bytes : List ℕ) (w : World)
    → ((write_file path bytes w).1.env_key ≡ w.env_key)
      × ((write_file path bytes w).1.has_key_files ≡ w.has_key_files)
      × ((write_file path bytes w).1.cached_key ≡ w.cached_key)
unfolding write_file
write_file-same path bytes w = by_case (includes path w.locked)
  where
    by_case :
        (b : Bool)
        → let o : Outcome (Unit {0}) =
            if b
            then (err SecretError.write_failed, w)
            else (ok tt, record w { files = Map.set path (content bytes) w.files }) in
          (o.1.env_key ≡ w.env_key)
          × (o.1.has_key_files ≡ w.has_key_files)
          × (o.1.cached_key ≡ w.cached_key)
    by_case true = (refl, refl, refl)
    by_case false = (refl, refl, refl)

module _ (base64 : Base64) (to_text : List ℕ → Text) (key_path : Text) where
  env_adapter-IsSteady : IsSteady key_path (env_adapter base64)
  env_adapter-IsSteady = record {
    get_agrees = λ v w same. ap (env_key_of base64) same.same_env;
    set_env = λ k w. refl;
    set_platform = λ k w. refl;
  }

  keyfile_adapter-IsSteady : IsSteady key_path (keyfile_adapter base64 to_text key_path)
  keyfile_adapter-IsSteady = record {
    get_agrees = λ v w same. ap (file_key base64 to_text key_path) same.same_file;
    set_env = λ k w. (write_file-same key_path (utf8 (base64.encode k)) w).0;
    set_platform = λ k w. (write_file-same key_path (utf8 (base64.encode k)) w).1;
  }

  -- The adapter that the environment and the platform choose.
  abbrev pub chosen : Bool → Bool → Option KeystoreAdapter
  chosen env files =
      if env
      then some (env_adapter base64)
      else if files
      then some (keyfile_adapter base64 to_text key_path)
      else none

  -- A process that finds all this as it was chooses the same adapter, and finds the key in it.
  abbrev Survives : Bool → Bool → Outcome (List ℕ) → Type 0
  Survives env files (err e, w') = Unit
  Survives env files (ok key, w') =
      (w'.cached_key ≡ some key)
      × (is_set w'.env_key ≡ env)
      × (w'.has_key_files ≡ files)
      × ((fresh : List ℕ) (v : World)
          → Agrees key_path v w'
          → v.cached_key ≡ some key
          → data_key_in (chosen env files) fresh (reset_data_key_cache v) ≡ (ok key, v))

  held-again :
      (adapter : KeystoreAdapter) (steady : IsSteady key_path adapter) (key fresh : List ℕ)
      (w w' v : World)
      → IsHeld adapter key w w'
      → Agrees key_path v w'
      → v.cached_key ≡ some key
      → data_key_in (some adapter) fresh (reset_data_key_cache v) ≡ (ok key, v)
  unfolding data_key_from reset_data_key_cache
  held-again adapter steady key fresh w w' v held same cached =
      ap (λ r. data_key_from adapter fresh r (reset_data_key_cache v))
        (steady.get_agrees _ v (reset-Agrees key_path v)
          ∙ (steady.get_agrees v w' same ∙ held.there))
      ∙ ap (λ c. (ok key, record v { cached_key = c })) (sym cached)

  Holds-Survives :
      (adapter : KeystoreAdapter) (steady : IsSteady key_path adapter) (env files : Bool)
      (w : World) (o : Outcome (List ℕ))
      → is_set w.env_key ≡ env
      → w.has_key_files ≡ files
      → chosen env files ≡ some adapter
      → Holds adapter w o
      → Survives env files o
  Holds-Survives adapter steady env files w (err e, w') at_env at_files chose held = tt
  Holds-Survives adapter steady env files w (ok key, w') at_env at_files chose held = (
    held.cached,
    ap is_set held.same_env ∙ at_env,
    held.same_platform ∙ at_files,
    λ fresh v same cached.
        ap (λ c. data_key_in c fresh (reset_data_key_cache v)) chose
        ∙ held-again adapter steady key fresh w w' v held same cached,
  )

  data_key_in-Survives :
      (env files : Bool) (fresh : List ℕ) (w : World)
      → is_set w.env_key ≡ env
      → w.has_key_files ≡ files
      → Survives env files (data_key_in (chosen env files) fresh w)
  data_key_in-Survives true files fresh w at_env at_files =
      Holds-Survives (env_adapter base64) env_adapter-IsSteady true files w _ at_env at_files refl
        (data_key_from-Holds key_path (env_adapter base64) env_adapter-IsSteady fresh w _ refl)
  data_key_in-Survives false true fresh w at_env at_files =
      let a = keyfile_adapter base64 to_text key_path in
      Holds-Survives a keyfile_adapter-IsSteady false true w _ at_env at_files refl
        (data_key_from-Holds key_path a keyfile_adapter-IsSteady fresh w _ refl)
  data_key_in-Survives false false fresh w at_env at_files = tt

  chosen-select_adapter :
      (w : World)
      → select_adapter (adapters base64 to_text key_path) w
        ≡ chosen (is_set w.env_key) w.has_key_files
  unfolding select_adapter
  chosen-select_adapter w = refl

  pub data_key_again :
      (fresh key : List ℕ) (w w' : World)
      → w.cached_key ≡ none
      → get_or_create_data_key (adapters base64 to_text key_path) fresh w ≡ (ok key, w')
      → (w'.cached_key ≡ some key)
        × ((fresh' : List ℕ) (v : World)
            → Agrees key_path v w'
            → v.cached_key ≡ some key
            → get_or_create_data_key
                (adapters base64 to_text key_path)
                fresh'
                (reset_data_key_cache v)
              ≡ (ok key, v))
  unfolding get_or_create_data_key select_adapter reset_data_key_cache
  data_key_again fresh key w w' empty h =
      let all = adapters base64 to_text key_path in
      let obtained : data_key_in (chosen (is_set w.env_key) w.has_key_files) fresh w
          ≡ (ok key, w') =
        ap (λ a. data_key_in a fresh w) (sym (chosen-select_adapter w))
        ∙ (ap (λ c. data_key all fresh c w) (sym empty) ∙ h) in
      let (cached, env, platform, again) =
        subst (Survives (is_set w.env_key) w.has_key_files) obtained
          (data_key_in-Survives (is_set w.env_key) w.has_key_files fresh w refl refl) in
      (
        cached,
        λ fresh' v same at.
            ap₂ (λ e f. data_key_in (chosen e f) fresh' (reset_data_key_cache v))
              (ap is_set same.same_env ∙ env) (same.same_platform ∙ platform)
            ∙ again fresh' v same at,
      )

  -- A data key that a process has obtained is the one that the next process obtains, whatever random
  -- bytes it would have used for a new one, and that leaves the disk as it is.
  pub get_or_create_data_key-reset :
      (fresh key : List ℕ) (w w' : World)
      → w.cached_key ≡ none
      → get_or_create_data_key (adapters base64 to_text key_path) fresh w ≡ (ok key, w')
      → (fresh' : List ℕ)
      → get_or_create_data_key (adapters base64 to_text key_path) fresh' (reset_data_key_cache w')
        ≡ (ok key, w')
  get_or_create_data_key-reset fresh key w w' empty h fresh' =
      let (cached, again) = data_key_again fresh key w w' empty h in
      again fresh' w' (record { same_env = refl; same_platform = refl; same_file = refl }) cached
