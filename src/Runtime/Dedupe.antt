-- ===== src/Runtime/Dedupe.antt =====
-- src/runtime/dedupe.ts: the key of a request. SHA-256, the URL parser and JSON are parameters.
pub mod SemanticHeaders
use consensus_node.Base.{
  ℕ, Text, codes, utf8, hex, text_eq, Bool, true, false, ◌&&◌, ◌||◌, List, [], ◌∷◌, ◌++◌, Option,
  none, some, ltb, if◌then◌else◌, ◌==◌, includes, Result, ok, err, ◌>>=◌, or_throw,
}
use consensus_node.Base.Int.{pos}
use consensus_node.Base.Map
use consensus_node.Base.Keys.{key_lt}
use consensus_node.Base.Case.{to_lower_case, to_upper_case, trim, text_lt, is_space}
use consensus_node.Base.Sorting.{sort}
use consensus_node.Base.Json.{
  Json, null, bool, num, str, arr, obj, Items, nil, cons, Fields, end, field, JsonCodec,
}
use consensus_node.Runtime.Url.{Url, UrlApi}

-- string | Buffer | object | array | null | undefined
pub data RequestBody : Type 0 where
  no_body : RequestBody
  buffer : List ℕ → RequestBody
  text : Text → RequestBody
  value : Json → RequestBody

abbrev pub Headers : Type 0
Headers = List (Text × Text)

pub record DedupeParams : Type 0 where
  pub target_url : Text
  pub method : Text
  pub headers : Headers
  pub body : RequestBody
  pub profile_hash : Option Text

-- new URL(raw) throws a TypeError
pub data DedupeError : Type 0 where
  invalid_url : DedupeError

abbrev pub accept : Text
accept = codes "accept"

abbrev pub content_type : Text
content_type = codes "content-type"

abbrev pub authorization : Text
authorization = codes "authorization"

abbrev pub cookie : Text
cookie = codes "cookie"

-- ALLOW_HEADERS, HASH_HEADERS
abbrev pub allow_headers : List Text
allow_headers = accept ∷ content_type ∷ []

abbrev pub hash_headers : List Text
hash_headers = authorization ∷ cookie ∷ []

-- .replace(/\s+/g, ' '): `after` is whether the character before was a space
pub collapse : Bool → Text → Text
collapse after [] = []
collapse after (c ∷ s) =
    (if is_space c then (if after then [] else b' ' ∷ []) else c ∷ []) ++ collapse (is_space c) s

-- a[0] < b[0], or the same key and a[1] < b[1]
abbrev pub param_lt : Text × Text → Text × Text → Bool
param_lt a b = text_lt a.0 b.0 || (a.0 == b.0 && text_lt a.1 b.1)

insert_field : Text → Json → Fields → Fields
insert_field k v end = field k v end
insert_field k v (field j w fs) =
    let rest = insert_field k v fs in
    if key_lt j k then field j w rest else field k v (field j w fs)

unfoldable mutual
  unfolding insert_field

  pub deep_sort : Json → Json
  deep_sort null = null
  deep_sort (bool b) = bool b
  deep_sort (num n) = num n
  deep_sort (str s) = str s
  deep_sort (arr xs) = arr (deep_sort_items xs)
  deep_sort (obj fs) = obj (deep_sort_fields fs)

  pub deep_sort_items : Items → Items
  deep_sort_items nil = nil
  deep_sort_items (cons x xs) = cons (deep_sort x) (deep_sort_items xs)

  pub deep_sort_fields : Fields → Fields
  deep_sort_fields end = end
  deep_sort_fields (field k v fs) = insert_field k (deep_sort v) (deep_sort_fields fs)

module _ (sha256 : List ℕ → List ℕ) where
  abbrev pub sha256_hex : List ℕ → Text
  sha256_hex input = hex (sha256 input)

  -- What one header puts into `result`.
  pub add_header : Text × Text → Headers → Headers
  unfolding collapse
  add_header (k, v) result =
      let lower = to_lower_case k in
      if includes lower allow_headers
      then Map.set lower (collapse false (trim v)) result
      else if includes lower hash_headers
      then Map.set lower (sha256_hex (utf8 v)) result
      else result

  pub collect : Headers → Headers → Headers
  collect [] result = result
  collect (h ∷ hs) result = collect hs (add_header h result)

  -- if (result[name]) ordered[name] = result[name]
  abbrev pub pick : Text → Headers → Headers
  pick name result = elim (Map.get name result) [
    | none ↦ []
    | some v ↦ if v == [] then [] else (name, v) ∷ []
  ]

  unfoldable pub canonicalize_semantic_headers : Headers → Headers
  unfolding add_header collect
  canonicalize_semantic_headers headers =
      let result = collect headers [] in
      pick accept result
      ++ (pick authorization result ++ (pick content_type result ++ pick cookie result))

  module _ (json : JsonCodec) where
    abbrev pub stable_stringify : Json → List ℕ
    stable_stringify v = json.stringify (deep_sort v)

    unfoldable pub compute_body_hash : RequestBody → Text
    compute_body_hash no_body = codes "no-body"
    compute_body_hash (buffer b) = sha256_hex b
    compute_body_hash (text s) = sha256_hex (utf8 s)
    compute_body_hash (value v) = sha256_hex (stable_stringify v)

    module _ (urls : UrlApi) where
      unfoldable pub canonicalize_url : Text → Result DedupeError Text
      canonicalize_url raw = do
        u ← or_throw (urls.parse raw) invalid_url
        let protocol = to_lower_case u.protocol
        let is_default =
            (protocol == codes "https:" && u.port == codes "443")
            || (protocol == codes "http:" && u.port == codes "80")
        let params = sort param_lt (urls.search_params u.search)
        ok (
            urls.to_string (record u {
              hash = [];
              protocol = protocol;
              hostname = to_lower_case u.hostname;
              port = if is_default then [] else u.port;
              search = urls.search_of params;
            }))

      headers_json : Headers → Fields
      headers_json [] = end
      headers_json ((k, v) ∷ hs) = field k (str v) (headers_json hs)

      -- profile_hash || undefined: an undefined member is not written
      profile_json : Option Text → Fields
      profile_json none = end
      profile_json (some h) = if h == [] then end else field (codes "profile_hash") (str h) end

      unfoldable pub canonical_request : Text → DedupeParams → Json
      unfolding headers_json profile_json
      canonical_request url p = obj (
          field (codes "v") (num (pos 1)) (
            field (codes "scope") (str (codes "global")) (
              field (codes "method") (str (to_upper_case p.method)) (
                field (codes "url") (str url) (
                  field (codes "headers")
                    (obj (headers_json (canonicalize_semantic_headers p.headers)))
                    (field (codes "body_hash") (str (compute_body_hash p.body))
                      (profile_json p.profile_hash)))))))

      unfoldable pub generate_dedupe_key : DedupeParams → Result DedupeError Text
      generate_dedupe_key p = do
        url ← canonicalize_url p.target_url
        ok (sha256_hex (stable_stringify (canonical_request url p)))
