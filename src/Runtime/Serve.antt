-- ===== src/Runtime/Serve.antt =====
-- src/runtime/proxy-serve.ts: the headers that are forwarded, and the cache of profile results. The
-- clock is in milliseconds; the cache is a Map, which goes in and comes out.
pub mod Forwarding
pub mod Cache
use consensus_node.Base.{
  ℕ, ◌+◌, ◌*◌, Text, codes, text_eq, utf8, Bool, true, false, not, ◌||◌, ◌&&◌, List, [], ◌∷◌, ◌++◌,
  map, keep, Option, none, some, ◌==◌, nat_eq, leb, ltb, length, includes, if◌then◌else◌,
}
use consensus_node.Base.Map
use consensus_node.Base.Case.{to_lower_case, trim, text_lt}
use consensus_node.Base.Splitting.{split}
use consensus_node.Base.Sorting.{sort}
use consensus_node.Base.Json.{Json, str, arr, Items, nil, cons, JsonCodec}
use consensus_node.Runtime.Dedupe.{Headers, sha256_hex, deep_sort}

pub record ProxyResult : Type 0 where
  pub status : ℕ
  pub status_text : Text
  pub headers : Headers
  pub body : List ℕ
  pub cached : Bool
  pub profile_hash : Option Text

abbrev pub max_profile_cache_entries : ℕ
max_profile_cache_entries = 1000

pub record CacheEntry : Type 0 where
  pub result : ProxyResult
  pub expires_at : ℕ

abbrev pub ProfileCache : Type 0
ProfileCache = List (Text × CacheEntry)

abbrev found_entry : Text → ℕ → ProfileCache → Option CacheEntry → Option ProxyResult × ProfileCache
found_entry key now cache none = (none, cache)
found_entry key now cache (some entry) =
    if leb entry.expires_at now
    then (none, Map.delete key cache)
    else (some (record entry.result { cached = true }), cache)

unfoldable pub cached_profile_result : Text → ℕ → ProfileCache → Option ProxyResult × ProfileCache
cached_profile_result key now cache = found_entry key now cache (Map.get key cache)

-- `if (oldest)`: an empty key is left.
abbrev evict_oldest : ProfileCache → ProfileCache
evict_oldest [] = []
evict_oldest ((oldest, e) ∷ cache) =
    if oldest == [] then (oldest, e) ∷ cache else Map.delete oldest ((oldest, e) ∷ cache)

unfoldable pub store_profile_result : Text → ProxyResult → ℕ → ℕ → ProfileCache → ProfileCache
store_profile_result key result ttl_seconds now cache =
    let room = if leb max_profile_cache_entries (length cache) then evict_oldest cache else cache in
    Map.set key
      (record { result = record result { cached = false }; expires_at = now + ttl_seconds * 1000 })
      room

abbrev pub hop_by_hop : List Text
hop_by_hop =
    codes "host"
    ∷ codes "connection"
    ∷ codes "keep-alive"
    ∷ codes "proxy-connection"
    ∷ codes "transfer-encoding"
    ∷ codes "te"
    ∷ codes "trailer"
    ∷ codes "upgrade"
    ∷ []

-- The tokens of a Connection header, in lower case.
abbrev pub tokens : Text → List Text
tokens value = keep (λ t. not (t == [])) (map (λ t. to_lower_case (trim t)) (split b',' value))

unfoldable pub deny_set : Headers → List Text
deny_set [] = hop_by_hop
deny_set ((key, value) ∷ hs) =
    let rest = deny_set hs in
    if to_lower_case key == codes "connection" then tokens value ++ rest else rest

abbrev pub consensus_control_headers : List Text
consensus_control_headers =
    codes "host"
    ∷ codes "content-length"
    ∷ codes "transfer-encoding"
    ∷ codes "connection"
    ∷ codes "x-idempotency-key"
    ∷ codes "idempotency-key"
    ∷ codes "x-payment"
    ∷ codes "x-verbose"
    ∷ codes "x-api-key"
    ∷ codes "x-cache-ttl"
    ∷ codes "x-direct"
    ∷ codes "x-node-region"
    ∷ codes "x-node-domain"
    ∷ codes "x-node-exclude"
    ∷ codes "x-forwarded-for"
    ∷ codes "x-real-ip"
    ∷ codes "forwarded"
    ∷ []

abbrev pub cacheable_methods : List Text
cacheable_methods = codes "GET" ∷ codes "HEAD" ∷ []

-- The entries that are kept, with their names in lower case, in the order of the headers.
unfoldable pub forwarded : List Text → Headers → Headers
forwarded deny [] = []
forwarded deny ((key, value) ∷ hs) =
    let rest = forwarded deny hs in
    let lower = to_lower_case key in
    if includes lower deny || includes lower consensus_control_headers
    then rest
    else (lower, value) ∷ rest

unfoldable pub forwarded_header_entries : Headers → Headers
forwarded_header_entries headers =
    sort (λ a b. text_lt a.0 b.0) (forwarded (deny_set headers) headers)

abbrev pub entries_json : Headers → Items
entries_json [] = nil
entries_json ((k, v) ∷ hs) = cons (arr (cons (str k) (cons (str v) nil))) (entries_json hs)

module _ (sha256 : List ℕ → List ℕ) (json : JsonCodec) where
  -- `${dedupeKey}\n${stableStringify(forwarded)}`
  unfoldable pub profile_cache_key : Text → Headers → Text
  profile_cache_key dedupe_key entries =
      sha256_hex sha256
        (utf8 dedupe_key ++ (10 ∷ json.stringify (deep_sort (arr (entries_json entries)))))
