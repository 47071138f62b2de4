-- ===== src/Runtime/Profile/Bounds.antt =====
-- What a normalized profile of src/runtime/profile-v1.ts holds.
use consensus_node.Base.{
  Text, codes, text_beq, text_eq, Bool, true, false, ◌&&◌, List, [], ◌∷◌, map, Option, none, some,
  ◌==◌, includes, keep, ok, >>=-eq-ok, ok-injective, nat_eq, guard, ◌≡◌, refl, ap, subst, arith,
  length, not,
}
use consensus_node.Base.Int.{ℤ, pos, ◌≤ℤ◌}
use consensus_node.Base.Case.{to_upper_case}
use consensus_node.Base.Json.{Json, lookup}
use consensus_node.Runtime.Url.{Url, UrlApi}
use consensus_node.Runtime.Profile.{
  ProxyExecutionProfileV1, method_order, all_in, elements, methods_missing, unsupported_method,
  string_of, normalize_methods, normalize_ttl, normalize_base, normalize_paths, optional_boolean,
  optional_preference, base_text, object_fields, keys_supported, has_protocol, has_version,
  unsupported_field, unsupported_protocol, normalize_proxy_profile,
}

keep-all_in :
    (test : Text → Bool) (xs known : List Text)
    → all_in xs known ≡ true
    → all_in (keep test xs) known ≡ true
unfolding keep
keep-all_in test [] known h = refl
keep-all_in test (x ∷ xs) known h = ground (arith, keep-all_in test xs known)

order_known : all_in method_order method_order ≡ true
unfolding text_beq
order_known = refl

methods_known :
    (value : Option Json) (ms : List Text)
    → normalize_methods value ≡ ok ms
    → all_in ms method_order ≡ true
unfolding normalize_methods
methods_known value ms h =
    let (given, _, h1) = >>=-eq-ok (elements value methods_missing) _ h in
    let (_, _, h2) = >>=-eq-ok (guard (not (length given == 0)) methods_missing) _ h1 in
    let (_, _, h3) =
      >>=-eq-ok
        (guard (all_in (map (λ m. to_upper_case (string_of m)) given) method_order)
          unsupported_method)
        _ h2 in
    subst (λ xs. all_in xs method_order ≡ true) (ok-injective h3)
      (keep-all_in (λ m. includes m (map (λ j. to_upper_case (string_of j)) given)) method_order
        method_order order_known)

ttl_bounds :
    (value : Option Json) (ttl : ℤ)
    → normalize_ttl value ≡ ok ttl
    → (pos 1 ≤ℤ ttl) × (ttl ≤ℤ pos 3600)
unfolding normalize_ttl
ttl_bounds none ttl h = ground arith
ttl_bounds (some v) ttl h = ground arith

module _ (urls : UrlApi) (parse_local : Text → Option Url) where
  -- A profile that is accepted names only the seven known methods, in upper case, and a cache time
  -- from one second to an hour, whatever the input wrote.
  pub normalize_proxy_profile_bounds :
      (input : Json) (p : ProxyExecutionProfileV1)
      → normalize_proxy_profile urls parse_local input ≡ ok p
      → (all_in p.allowed_methods method_order ≡ true)
        × (pos 1 ≤ℤ p.cache_ttl)
        × (p.cache_ttl ≤ℤ pos 3600)
  unfolding normalize_proxy_profile
  normalize_proxy_profile_bounds input p h =
      let (value, _, h1) = >>=-eq-ok (object_fields input) _ h in
      let (_, _, h2) = >>=-eq-ok (guard (keys_supported value) unsupported_field) _ h1 in
      let (_, _, h3) =
        >>=-eq-ok (guard (has_protocol value && has_version value) unsupported_protocol) _ h2 in
      let (base, _, h4) = >>=-eq-ok (normalize_base urls parse_local (base_text value)) _ h3 in
      let (methods, hm, h5) =
        >>=-eq-ok (normalize_methods (lookup (codes "allowed_methods") value)) _ h4 in
      let (paths, _, h6) =
        >>=-eq-ok (normalize_paths urls parse_local (lookup (codes "allowed_paths") value)) _ h5 in
      let (ttl, ht, h7) = >>=-eq-ok (normalize_ttl (lookup (codes "cache_ttl") value)) _ h6 in
      let (verbose, _, h8) =
        >>=-eq-ok (optional_boolean (lookup (codes "verbose") value) false) _ h7 in
      let (region, _, h9) =
        >>=-eq-ok (optional_preference (lookup (codes "node_region") value)) _ h8 in
      let (domain, _, h10) =
        >>=-eq-ok (optional_preference (lookup (codes "node_domain") value)) _ h9 in
      let (exclude, _, h11) =
        >>=-eq-ok (optional_preference (lookup (codes "node_exclude") value)) _ h10 in
      let (direct, _, h12) =
        >>=-eq-ok (optional_boolean (lookup (codes "direct") value) true) _ h11 in
      let same_methods : methods ≡ p.allowed_methods =
        ap (λ (q : ProxyExecutionProfileV1). q.allowed_methods) (ok-injective h12) in
      let same_ttl : ttl ≡ p.cache_ttl =
        ap (λ (q : ProxyExecutionProfileV1). q.cache_ttl) (ok-injective h12) in
      let (low, high) = ttl_bounds (lookup (codes "cache_ttl") value) ttl ht in
      (
        subst (λ ms. all_in ms method_order ≡ true) same_methods
            (methods_known (lookup (codes "allowed_methods") value) methods hm),
        subst (λ n. pos 1 ≤ℤ n) same_ttl low,
        subst (λ n. n ≤ℤ pos 3600) same_ttl high,
      )
