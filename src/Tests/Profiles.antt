-- ===== src/Tests/Profiles.antt =====
-- src/runtime/profile-v1.ts and src/runtime/proxy-serve.ts on a concrete profile, request and cache.
use consensus_node.Base.{
  ℕ, ◌≡◌, refl, true, false, List, [], ◌∷◌, Option, none, some, Result, ok, Text, codes, text_eq,
  text_beq, keep, ap, ◌∙◌, ◌>>=◌, All, includes,
}
use consensus_node.Base.Int.{pos}
use consensus_node.Base.Map
use consensus_node.Base.Case.{to_lower_case, to_upper_case}
use consensus_node.Base.Sorting.{insert, sort}
use consensus_node.Base.Splitting.{starts_with}
use consensus_node.Base.Json.{Json, num, str, arr, obj, nil, cons, end, field, lookup}
use consensus_node.Runtime.Url.{Url}
use consensus_node.Runtime.Dedupe.{Headers}
use consensus_node.Runtime.Profile.{
  ProxyExecutionProfileV1, ProfileError, profile_control_headers, items, normalize_methods,
  normalize_ttl, normalize_base, normalize_path, normalize_each, normalize_paths, distinct,
  optional_boolean, optional_preference, normalize_proxy_profile, relative_path, check_target,
  assert_proxy_profile_request,
}
use consensus_node.Runtime.Profile.Enforced.{Allowed, assert_proxy_profile_request-Allowed}
use consensus_node.Runtime.Profile.Prepared.{
  PreparedProxyProfileV1, control_headers, spread, is_uncontrolled, hash_normalized_profile,
  prepare_proxy_profile_request, prepare_proxy_profile_request_controls,
}
use consensus_node.Runtime.Serve.{ProxyResult, forwarded_header_entries}
use consensus_node.Runtime.Serve.Forwarding.{IsForwardable, forwarded_header_entries_pass}
use consensus_node.Tests.Requests.{urls}
use consensus_node.Tests.StackJson.{json_codec}

abbrev parse_local : Text → Option Url
parse_local s = some (record {
  protocol = codes "http:";
  username = [];
  password = [];
  hostname = codes "profile.local";
  port = [];
  pathname = s;
  search = [];
  hash = [];
})

abbrev input : Json
input = obj (
    field (codes "protocol") (str (codes "consensus.proxy-profile")) (
      field (codes "version") (num (pos 1)) (
        field (codes "base_url") (str (codes "api.test")) (
          field (codes "allowed_methods") (arr (cons (str (codes "get")) nil))
            (field (codes "allowed_paths") (arr (cons (str (codes "/")) nil)) end)))))

abbrev profile : ProxyExecutionProfileV1
profile = record {
  base_url = codes "api.test";
  allowed_methods = codes "GET" ∷ [];
  allowed_paths = codes "/" ∷ [];
  cache_ttl = pos 300;
  verbose = false;
  node_region = none;
  node_domain = none;
  node_exclude = none;
  direct = true;
}

normalized : normalize_proxy_profile urls parse_local input ≡ ok profile
unfolding normalize_proxy_profile normalize_base normalize_methods normalize_paths normalize_each
    normalize_path normalize_ttl optional_boolean optional_preference items distinct sort lookup
    text_beq to_upper_case starts_with keep insert
normalized = refl

checked : check_target urls parse_local profile (codes "api.test") (codes "get") ≡ ok profile
unfolding check_target relative_path text_beq to_upper_case starts_with
checked = refl

enforced :
    assert_proxy_profile_request urls parse_local input (codes "api.test") (codes "get")
    ≡ ok profile
unfolding assert_proxy_profile_request
enforced =
    ap
      (λ (r : Result ProfileError ProxyExecutionProfileV1).
        r >>= λ p. check_target urls parse_local p (codes "api.test") (codes "get"))
      normalized
    ∙ checked

assert_proxy_profile_request-Allowed_example :
    (normalize_proxy_profile urls parse_local input ≡ ok profile)
    × Allowed urls parse_local profile (codes "api.test") (codes "get")
assert_proxy_profile_request-Allowed_example =
    assert_proxy_profile_request-Allowed urls parse_local input (codes "api.test") (codes "get")
      profile enforced

abbrev headers : Headers
headers =
    (codes "X-Direct", codes "false")
    ∷ (codes "Accept", codes "*/*")
    ∷ (codes "Connection", codes "close, Te")
    ∷ []

abbrev digest : List ℕ → List ℕ
digest b = []

abbrev prepared : PreparedProxyProfileV1
prepared = record {
  profile = profile;
  profile_hash = hash_normalized_profile digest json_codec profile;
  headers = spread (keep is_uncontrolled headers) (control_headers profile);
}

prepared_ok :
    prepare_proxy_profile_request digest json_codec urls parse_local input
      (codes "api.test")
      (codes "get")
      headers
    ≡ ok prepared
unfolding prepare_proxy_profile_request
prepared_ok =
    ap
      (λ (r : Result ProfileError ProxyExecutionProfileV1). r >>= λ p. ok (record {
        profile = p;
        profile_hash = hash_normalized_profile digest json_codec p;
        headers = spread (keep is_uncontrolled headers) (control_headers p);
      }))
      enforced

is_control : includes (to_lower_case (codes "x-direct")) profile_control_headers ≡ true
unfolding text_beq to_lower_case
is_control = refl

prepare_proxy_profile_request_controls_example :
    (Map.get (codes "x-direct") prepared.headers
      ≡ Map.get (codes "x-direct") (spread [] (control_headers profile)))
    × (assert_proxy_profile_request urls parse_local input (codes "api.test") (codes "get")
        ≡ ok profile)
prepare_proxy_profile_request_controls_example =
    prepare_proxy_profile_request_controls digest json_codec urls parse_local input
      (codes "api.test") (codes "get") headers prepared (codes "x-direct") prepared_ok is_control

forwarded_header_entries_pass_example :
    All (IsForwardable headers) (forwarded_header_entries headers)
forwarded_header_entries_pass_example = forwarded_header_entries_pass headers

abbrev result : ProxyResult
result = record {
  status = 200;
  status_text = codes "OK";
  headers = [];
  body = 1 ∷ [];
  cached = false;
  profile_hash = none;
}
