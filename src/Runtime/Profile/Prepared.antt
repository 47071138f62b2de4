-- ===== src/Runtime/Profile/Prepared.antt =====
-- prepareProxyProfileRequestV1 of src/runtime/profile-v1.ts: a profile that is enforced, hashed, and
-- turned into headers.
use consensus_node.Base.{
  ℕ, Text, codes, text_eq, text_eq_iff, hex, Bool, true, not, List, [], ◌∷◌, ◌++◌, Option, none,
  some, if◌then◌else◌, includes, keep, Result, ok, ◌>>=◌, >>=-eq-ok, ◌≡◌, refl, ap, ◌∙◌, arith,
}
use consensus_node.Base.Map
use consensus_node.Base.Case.{to_lower_case}
use consensus_node.Base.Json.{
  Json, bool, num, str, arr, obj, Items, nil, cons, Fields, end, field, JsonCodec,
}
use consensus_node.Runtime.Url.{Url, UrlApi}
use consensus_node.Runtime.Dedupe.{Headers, deep_sort}
use consensus_node.Runtime.Profile.{
  ProxyExecutionProfileV1, ProfileError, proxy_profile_protocol, proxy_profile_version,
  profile_control_headers, plain_string, assert_proxy_profile_request,
}

pub record PreparedProxyProfileV1 : Type 0 where
  pub profile : ProxyExecutionProfileV1
  pub profile_hash : Text
  pub headers : Headers

abbrev opt_header : Text → Option Text → Headers
opt_header name none = []
opt_header name (some v) = (name, v) ∷ []

-- controlHeadersForNormalizedProfile; a normalized profile always has a cache_ttl
unfoldable pub control_headers : ProxyExecutionProfileV1 → Headers
control_headers p =
    ((codes "x-cache-ttl", plain_string (num p.cache_ttl)) ∷ [])
    ++ ((if p.verbose then (codes "x-verbose", codes "true") ∷ [] else [])
        ++ (opt_header (codes "x-node-region") p.node_region
            ++ (opt_header (codes "x-node-domain") p.node_domain
                ++ (opt_header (codes "x-node-exclude") p.node_exclude
                    ++ (if p.direct then (codes "x-direct", codes "true") ∷ [] else [])))))

-- { ...a, ...b }
unfoldable pub spread : Headers → Headers → Headers
spread a [] = a
spread a ((k, v) ∷ b) = spread (Map.set k v a) b

abbrev pub is_uncontrolled : Text × Text → Bool
is_uncontrolled h = not (includes (to_lower_case h.0) profile_control_headers)

abbrev text_items : List Text → Items
text_items [] = nil
text_items (s ∷ ss) = cons (str s) (text_items ss)

abbrev opt_field : Text → Option Text → Fields → Fields
opt_field k none fs = fs
opt_field k (some v) fs = field k (str v) fs

unfoldable pub profile_json : ProxyExecutionProfileV1 → Json
profile_json p = obj (
    field (codes "protocol") (str proxy_profile_protocol) (
      field (codes "version") (num proxy_profile_version) (
        field (codes "base_url") (str p.base_url) (
          field (codes "allowed_methods") (arr (text_items p.allowed_methods)) (
            field (codes "allowed_paths") (arr (text_items p.allowed_paths)) (
              field (codes "cache_ttl") (num p.cache_ttl) (
                field (codes "verbose") (bool p.verbose) (
                  opt_field (codes "node_region") p.node_region (
                    opt_field (codes "node_domain") p.node_domain (
                      opt_field (codes "node_exclude") p.node_exclude
                        (field (codes "direct") (bool p.direct) end)))))))))))

module _ (sha256 : List ℕ → List ℕ) (json : JsonCodec) where
  unfoldable pub hash_normalized_profile : ProxyExecutionProfileV1 → Text
  hash_normalized_profile p = hex (sha256 (json.stringify (deep_sort (profile_json p))))

  module _ (urls : UrlApi) (parse_local : Text → Option Url) where
    unfoldable pub prepare_proxy_profile_request :
        Json → Text → Text → Headers → Result ProfileError PreparedProxyProfileV1
    prepare_proxy_profile_request input target_url method headers = do
      profile ← assert_proxy_profile_request urls parse_local input target_url method
      ok (record {
        profile = profile;
        profile_hash = hash_normalized_profile profile;
        headers = spread (keep is_uncontrolled headers) (control_headers profile);
      })

get-keep :
    (k : Text) (hs : Headers)
    → includes (to_lower_case k) profile_control_headers ≡ true
    → Map.get k (keep is_uncontrolled hs) ≡ none
unfolding keep Map.get
get-keep k [] h = refl
get-keep k ((j, v) ∷ hs) h = ground (arith, text_eq_iff j k, get-keep k hs h)

empty : (k : Text) → none ≡ Map.get {V = Text} k []
unfolding Map.get
empty k = refl

get-spread :
    (k : Text) (a b c : Headers)
    → Map.get k a ≡ Map.get k b
    → Map.get k (spread a c) ≡ Map.get k (spread b c)
unfolding spread
get-spread k a b [] h = h
get-spread k a b ((j, v) ∷ c) h =
    get-spread k (Map.set j v a) (Map.set j v b) c
      (ground (arith, h, Map.get-set j k v a, Map.get-set j k v b))

module _ (sha256 : List ℕ → List ℕ) (json : JsonCodec) (urls : UrlApi)
    (parse_local : Text → Option Url) where
  -- A request cannot set a control header: whatever headers it carries, in any case, the control
  -- headers of a prepared request are those of the enforced profile and no others.
  pub prepare_proxy_profile_request_controls :
      (input : Json) (target_url method : Text) (headers : Headers) (p : PreparedProxyProfileV1)
      (name : Text)
      → prepare_proxy_profile_request sha256 json urls parse_local input target_url method headers
        ≡ ok p
      → includes (to_lower_case name) profile_control_headers ≡ true
      → (Map.get name p.headers ≡ Map.get name (spread [] (control_headers p.profile)))
        × (assert_proxy_profile_request urls parse_local input target_url method ≡ ok p.profile)
  unfolding prepare_proxy_profile_request
  prepare_proxy_profile_request_controls input target_url method headers p name h control =
      let (profile, enforced, e) =
        >>=-eq-ok (assert_proxy_profile_request urls parse_local input target_url method) _ h in
      let same : profile ≡ p.profile = cc e in
      let written : p.headers ≡ spread (keep is_uncontrolled headers) (control_headers profile) =
        cc e in
      (
        ap (Map.get name) written
            ∙ (get-spread name (keep is_uncontrolled headers) [] (control_headers profile)
                  (get-keep name headers control ∙ empty name)
                ∙ ap (λ q. Map.get name (spread [] (control_headers q))) same),
        enforced ∙ ap ok same,
      )
