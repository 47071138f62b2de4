-- ===== src/Runtime/Profile.antt =====
-- src/runtime/profile-v1.ts: execution profiles. `new URL(value, 'http://profile.local')` is one more
-- parameter beside the URL record, and SHA-256 and JSON are those of the dedupe key.
pub mod Bounds
pub mod Enforced
pub mod Within
pub mod Prepared
use consensus_node.Base.{
  ℕ, ◌-◌, Text, codes, text_eq, hex, Bool, true, false, not, ◌&&◌, ◌||◌, List, [], ◌∷◌, ◌++◌, map,
  Option, none, some, if◌then◌else◌, ◌==◌, nat_eq, ltb, leb, length, drop, includes, keep, ◌+◌,
  Result, ok, err, ◌>>=◌, ◌>>◌, guard, or_throw, or_else,
}
use mathlib.Core.Option
use mathlib.Core.List.{reverse}
use consensus_node.Base.Int.{ℤ, pos, negsuc, leb_ℤ}
use consensus_node.Base.Case.{to_lower_case, to_upper_case, trim, text_lt}
use consensus_node.Base.Decimal.{decimal, number_of}
use consensus_node.Base.Splitting.{split, starts_with}
use consensus_node.Base.Sorting.{sort}
use consensus_node.Base.Json.{
  Json, null, bool, num, str, arr, obj, Items, nil, cons, Fields, end, field, JsonCodec, lookup,
}
use consensus_node.Runtime.Url.{Url, UrlApi, host}
use consensus_node.Runtime.Dedupe.{Headers, deep_sort}

abbrev pub proxy_profile_protocol : Text
proxy_profile_protocol = codes "consensus.proxy-profile"

abbrev pub proxy_profile_version : ℤ
proxy_profile_version = pos 1

pub record ProxyExecutionProfileV1 : Type 0 where
  pub base_url : Text
  pub allowed_methods : List Text
  pub allowed_paths : List Text
  pub cache_ttl : ℤ
  pub verbose : Bool
  pub node_region : Option Text
  pub node_domain : Option Text
  pub node_exclude : Option Text
  pub direct : Bool

pub data ProfileError : Type 0 where
  not_an_object unsupported_field unsupported_protocol base_url_invalid base_url_not_plain :
      ProfileError
  methods_missing unsupported_method paths_missing path_not_relative path_not_plain : ProfileError
  cache_ttl_invalid not_a_boolean not_a_string preference_length : ProfileError
  target_invalid target_not_http target_not_plain outside_origin outside_base_path : ProfileError
  path_not_allowed method_not_allowed : ProfileError

abbrev pub profile_keys : List Text
profile_keys =
    codes "protocol"
    ∷ codes "version"
    ∷ codes "base_url"
    ∷ codes "allowed_methods"
    ∷ codes "allowed_paths"
    ∷ codes "cache_ttl"
    ∷ codes "verbose"
    ∷ codes "node_region"
    ∷ codes "node_domain"
    ∷ codes "node_exclude"
    ∷ codes "direct"
    ∷ []

abbrev pub method_order : List Text
method_order =
    codes "GET"
    ∷ codes "HEAD"
    ∷ codes "POST"
    ∷ codes "PUT"
    ∷ codes "PATCH"
    ∷ codes "DELETE"
    ∷ codes "OPTIONS"
    ∷ []

abbrev pub max_paths : ℕ
max_paths = 64

abbrev pub max_cache_ttl_seconds : ℤ
max_cache_ttl_seconds = pos 3600

abbrev pub max_preference_length : ℕ
max_preference_length = 256

abbrev pub profile_control_headers : List Text
profile_control_headers =
    codes "x-cache-ttl"
    ∷ codes "x-verbose"
    ∷ codes "x-node-region"
    ∷ codes "x-node-domain"
    ∷ codes "x-node-exclude"
    ∷ codes "x-direct"
    ∷ []

unfoldable pub items : Items → List Json
items nil = []
items (cons x xs) = x ∷ items xs

unfoldable pub join : Text → List Text → Text
join sep [] = []
join sep (s ∷ []) = s
join sep (s ∷ t ∷ ts) = s ++ (sep ++ join sep (t ∷ ts))

-- String(value) of what is no array of arrays: the elements of an array are joined by commas.
abbrev pub plain_string : Json → Text
plain_string null = codes "null"
plain_string (bool true) = codes "true"
plain_string (bool false) = codes "false"
plain_string (num (pos n)) = decimal n
plain_string (num (negsuc n)) = b'-' ∷ decimal (1 + n)
plain_string (str s) = s
plain_string (arr xs) = []
plain_string (obj fs) = codes "[object Object]"

abbrev pub element_string : Json → Text
element_string null = []
element_string v = plain_string v

abbrev pub string_of : Json → Text
string_of (arr xs) = join (codes ",") (map element_string (items xs))
string_of v = plain_string v

-- Number(value); `none` is what is no integer. Of strings it reads decimal digits; a sign, a fraction,
-- an exponent or a radix prefix, which Number takes too, is outside of the model and refused.
abbrev pub integer_of : Json → Option ℤ
integer_of null = some (pos 0)
integer_of (bool b) = some (if b then pos 1 else pos 0)
integer_of (num n) = some n
integer_of (str s) = Option.map pos (number_of (trim s))
integer_of (arr xs) = Option.map pos (number_of (trim (string_of (arr xs))))
integer_of (obj fs) = none

abbrev pub keys_supported : Fields → Bool
keys_supported end = true
keys_supported (field k v fs) = includes k profile_keys && keys_supported fs

-- .replace(/\/+$/, '')
abbrev drop_slashes : Text → Text
drop_slashes [] = []
drop_slashes (c ∷ s) = let rest = drop_slashes s in if c == b'/' then rest else c ∷ s

abbrev pub strip_slashes : Text → Text
strip_slashes s = reverse (drop_slashes (reverse s))

abbrev pub is_http : Text → Bool
is_http protocol = protocol == codes "http:" || protocol == codes "https:"

abbrev pub origin : Url → Text
origin u = u.protocol ++ (codes "//" ++ host u)

abbrev pub is_empty : Text → Bool
is_empty s = s == []

unfoldable pub optional_boolean : Option Json → Bool → Result ProfileError Bool
optional_boolean none fallback = ok fallback
optional_boolean (some (bool b)) fallback = ok b
optional_boolean (some _) fallback = err not_a_boolean

abbrev non_empties : List Text → List Text
non_empties ss = keep (λ s. not (is_empty s)) ss

unfoldable pub optional_preference : Option Json → Result ProfileError (Option Text)
optional_preference none = ok none
optional_preference (some (str s)) =
    let normalized = join (codes ",") (non_empties (map trim (split b',' s))) in
    if is_empty normalized || ltb max_preference_length (length normalized)
    then err preference_length
    else ok (some normalized)
optional_preference (some _) = err not_a_string

abbrev pub elements : Option Json → ProfileError → Result ProfileError (List Json)
elements (some (arr xs)) e = ok (items xs)
elements _ e = err e

abbrev pub all_in : List Text → List Text → Bool
all_in [] known = true
all_in (s ∷ ss) known = includes s known && all_in ss known

unfoldable pub normalize_methods : Option Json → Result ProfileError (List Text)
normalize_methods value = do
  given ← elements value methods_missing
  guard (not (length given == 0)) methods_missing
  let method_set = map (λ m. to_upper_case (string_of m)) given
  guard (all_in method_set method_order) unsupported_method
  ok (keep (λ m. includes m method_set) method_order)

-- new Set(paths): the first of equal ones
unfoldable pub distinct : List Text → List Text
distinct [] = []
distinct (s ∷ ss) = s ∷ keep (λ t. not (t == s)) (distinct ss)

unfoldable pub normalize_ttl : Option Json → Result ProfileError ℤ
normalize_ttl none = ok (pos 300)
normalize_ttl (some v) = do
  ttl ← or_throw (integer_of v) cache_ttl_invalid
  guard (leb_ℤ (pos 1) ttl && leb_ℤ ttl max_cache_ttl_seconds) cache_ttl_invalid
  ok ttl

abbrev pub has_protocol : Fields → Bool
has_protocol fs = elim (lookup (codes "protocol") fs) [
  | some (str s) ↦ s == proxy_profile_protocol
  | _ ↦ false
]

abbrev pub has_version : Fields → Bool
has_version fs = elim (lookup (codes "version") fs) [
  | some (num n) ↦ leb_ℤ n proxy_profile_version && leb_ℤ proxy_profile_version n
  | _ ↦ false
]

abbrev pub base_text : Fields → Text
base_text fs = elim (lookup (codes "base_url") fs) [
  | none ↦ []
  | some null ↦ []
  | some v ↦ string_of v
]

abbrev pub object_fields : Json → Result ProfileError Fields
object_fields (obj fs) = ok fs
object_fields _ = err not_an_object

module _ (urls : UrlApi) (parse_local : Text → Option Url) where
  unfoldable pub normalize_path : Json → Result ProfileError Text
  normalize_path (str s) = do
    guard (starts_with (codes "/") s && not (starts_with (codes "//") s) && not (includes 0x5c s))
        path_not_relative
    parsed ← or_throw (parse_local s) path_not_relative
    guard
        (origin parsed == codes "http://profile.local"
          && is_empty parsed.search
          && is_empty parsed.hash)
        path_not_plain
    ok parsed.pathname
  normalize_path _ = err path_not_relative

  unfoldable pub normalize_each : List Json → Result ProfileError (List Text)
  normalize_each [] = ok []
  normalize_each (p ∷ ps) = do path ← normalize_path p; paths ← normalize_each ps; ok (path ∷ paths)

  unfoldable pub normalize_paths : Option Json → Result ProfileError (List Text)
  normalize_paths value = do
    given ← elements value paths_missing
    guard (not (length given == 0) && leb (length given) max_paths) paths_missing
    paths ← normalize_each given
    ok (sort text_lt (distinct paths))

  -- An empty pathname of an http(s) URL is written as a slash.
  unfoldable pub normalize_base : Text → Result ProfileError Text
  normalize_base text = do
    base ← or_throw (urls.parse text) base_url_invalid
    guard
        (is_http base.protocol
          && is_empty base.username
          && is_empty base.password
          && is_empty base.search
          && is_empty base.hash)
        base_url_not_plain
    let stripped = strip_slashes base.pathname
    ok (
        urls.to_string
          (record base { pathname = if is_empty stripped then codes "/" else stripped }))

  unfoldable pub normalize_proxy_profile : Json → Result ProfileError ProxyExecutionProfileV1
  normalize_proxy_profile input = do
    value ← object_fields input
    guard (keys_supported value) unsupported_field
    guard (has_protocol value && has_version value) unsupported_protocol
    base_url ← normalize_base (base_text value)
    allowed_methods ← normalize_methods (lookup (codes "allowed_methods") value)
    allowed_paths ← normalize_paths (lookup (codes "allowed_paths") value)
    cache_ttl ← normalize_ttl (lookup (codes "cache_ttl") value)
    verbose ← optional_boolean (lookup (codes "verbose") value) false
    node_region ← optional_preference (lookup (codes "node_region") value)
    node_domain ← optional_preference (lookup (codes "node_domain") value)
    node_exclude ← optional_preference (lookup (codes "node_exclude") value)
    direct ← optional_boolean (lookup (codes "direct") value) true
    ok (record {
      base_url = base_url;
      allowed_methods = allowed_methods;
      allowed_paths = allowed_paths;
      cache_ttl = cache_ttl;
      verbose = verbose;
      node_region = node_region;
      node_domain = node_domain;
      node_exclude = node_exclude;
      direct = direct;
    })

  -- base.pathname === '/' ? '' : base.pathname.replace(/\/$/, '')
  abbrev pub base_path : Url → Text
  base_path base = if base.pathname == codes "/" then [] else elim (reverse base.pathname) [
    | [] ↦ []
    | c ∷ s ↦ if c == b'/' then reverse s else base.pathname
  ]

  abbrev pub within : Text → Text → Bool
  within path prefix = path == prefix || starts_with (prefix ++ codes "/") path

  abbrev pub some_prefix : Text → List Text → Bool
  some_prefix path [] = false
  some_prefix path (p ∷ ps) = (p == codes "/" || within path p) || some_prefix path ps

  unfoldable pub relative_path : Url → Url → Text
  relative_path base target =
      let rest = drop (length (base_path base)) target.pathname in
      if is_empty rest then codes "/" else rest

  -- The checks of `assertProxyProfileRequestV1` behind the normalization.
  unfoldable pub check_target :
      ProxyExecutionProfileV1 → Text → Text → Result ProfileError ProxyExecutionProfileV1
  check_target profile target_url method = do
    target ← or_throw (urls.parse target_url) target_invalid
    base ← or_throw (urls.parse profile.base_url) base_url_invalid
    guard (is_http target.protocol) target_not_http
    guard (is_empty target.username && is_empty target.password && is_empty target.hash)
        target_not_plain
    guard (origin target == origin base) outside_origin
    guard (is_empty (base_path base) || within target.pathname (base_path base)) outside_base_path
    guard (some_prefix (relative_path base target) profile.allowed_paths) path_not_allowed
    guard (includes (to_upper_case method) profile.allowed_methods) method_not_allowed
    ok profile

  unfoldable pub assert_proxy_profile_request :
      Json → Text → Text → Result ProfileError ProxyExecutionProfileV1
  assert_proxy_profile_request input target_url method = do
    profile ← normalize_proxy_profile input
    check_target profile target_url method
