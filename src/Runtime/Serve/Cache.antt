-- ===== src/Runtime/Serve/Cache.antt =====
-- The cache of profile results of src/runtime/proxy-serve.ts.
use consensus_node.Base.{
  ℕ, ◌+◌, ◌*◌, ◌≤◌, ◌<◌, Text, text_eq, ==_refl, Bool, true, false, [], ◌∷◌, Option, none, some,
  ◌==◌, leb, length, if◌then◌else◌, ◌≡◌, refl, ap, ◌∙◌, arith, All,
}
use consensus_node.Base.Map
use consensus_node.Base.Map.{get-set_same, length-set_le, length-delete}
use consensus_node.Runtime.Serve.{
  ProxyResult, CacheEntry, ProfileCache, found_entry, cached_profile_result, evict_oldest,
  store_profile_result,
}

served :
    (b : Bool) (x y : ProfileCache) (r : ProxyResult)
    → (if◌then◌else◌ {A = Option ProxyResult × ProfileCache} b (none, x) (some r, y)).0
      ≡ (if b then none else some r)
served true x y r = refl
served false x y r = refl

-- A result that was stored is served, marked as cached, until its time is over, and it is gone after.
pub cached-store_profile_result :
    (key : Text) (result : ProxyResult) (ttl now later : ℕ) (cache : ProfileCache)
    → (cached_profile_result key later (store_profile_result key result ttl now cache)).0
      ≡ (if leb (now + ttl * 1000) later then none else some (record result { cached = true }))
unfolding cached_profile_result store_profile_result
cached-store_profile_result key result ttl now later cache =
    ap (λ o. (found_entry key later (store_profile_result key result ttl now cache) o).0)
      (get-set_same key
        (record { result = record result { cached = false }; expires_at = now + ttl * 1000 })
        (if leb 1000 (length cache) then evict_oldest cache else cache))
    ∙ served (leb (now + ttl * 1000) later) _ _ (record result { cached = true })

length-evict_oldest :
    (oldest : Text) (e : CacheEntry) (cache : ProfileCache)
    → (oldest == []) ≡ false
    → length (evict_oldest ((oldest, e) ∷ cache)) ≤ length cache
unfolding Map.delete
length-evict_oldest oldest e cache h = ground (arith, h, length-delete oldest cache, ==_refl oldest)

-- The keys are digests, so none is empty.
abbrev pub KeysNonEmpty : ProfileCache → Type 0
KeysNonEmpty = All (λ (e : Text × CacheEntry). (e.0 == []) ≡ false)

room :
    (cache : ProfileCache)
    → KeysNonEmpty cache
    → length cache ≤ 1000
    → length (if leb 1000 (length cache) then evict_oldest cache else cache) < 1000
room [] k h = omega arith
room ((oldest, e) ∷ cache) k h = ground (arith, length-evict_oldest oldest e cache k.0)

-- Storing never makes the cache larger than its thousand entries, as long as no key is empty.
pub length-store_profile_result :
    (key : Text) (result : ProxyResult) (ttl now : ℕ) (cache : ProfileCache)
    → KeysNonEmpty cache
    → length cache ≤ 1000
    → length (store_profile_result key result ttl now cache) ≤ 1000
unfolding store_profile_result
length-store_profile_result key result ttl now cache k h = omega (
  arith,
  room cache k h,
  length-set_le key
      (record { result = record result { cached = false }; expires_at = now + ttl * 1000 })
      (if leb 1000 (length cache) then evict_oldest cache else cache),
)
