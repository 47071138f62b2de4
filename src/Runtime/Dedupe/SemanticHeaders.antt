-- ===== src/Runtime/Dedupe/SemanticHeaders.antt =====
-- What src/runtime/dedupe.ts keeps of a request's headers.
use consensus_node.Base.{
  ℕ, Text, text_eq, text_eq_iff, utf8, true, false, List, [], ◌∷◌, ◌++◌, Option, none, some,
  if◌then◌else◌, ◌==◌, includes, ◌≡◌, refl, ap₂, text_beq, ◌∙◌, arith,
}
use consensus_node.Base.Map.{get, get-set}
use consensus_node.Base.Case.{to_lower_case, trim}
use consensus_node.Runtime.Dedupe.{
  Headers, accept, content_type, authorization, cookie, allow_headers, hash_headers, collapse,
  sha256_hex, add_header, collect, pick, canonicalize_semantic_headers,
}

-- The value of the last header with this name, whatever its case.
pub last_value : Text → Headers → Option Text
last_value name [] = none
last_value name ((k, v) ∷ hs) = elim (last_value name hs) [
  | some w ↦ some w
  | none ↦ if to_lower_case k == name then some v else none
]

-- A header as it is written: left out when it is missing or its value is empty.
abbrev pub write : Text → Option Text → Headers
write name none = []
write name (some v) = if v == [] then [] else (name, v) ∷ []

module _ (sha256 : List ℕ → List ℕ) where
  abbrev pub normalized : Option Text → Option Text
  normalized none = none
  normalized (some v) = some (collapse false (trim v))

  abbrev pub hashed : Option Text → Option Text
  hashed none = none
  hashed (some v) = some (sha256_hex sha256 (utf8 v))

  abbrev over : Option Text → Option Text → Option Text
  over (some v) o = some v
  over none o = o

  get-add_allowed :
      (name k v : Text) (result : Headers)
      → includes name allow_headers ≡ true
      → get name (add_header sha256 (k, v) result)
        ≡ (if to_lower_case k == name then some (collapse false (trim v)) else get name result)
  unfolding add_header
  get-add_allowed name k v result h = ground (
    arith,
    text_eq_iff (to_lower_case k) name,
    get-set (to_lower_case k) name (collapse false (trim v)) result,
    get-set (to_lower_case k) name (sha256_hex sha256 (utf8 v)) result,
  )

  get-add_hashed :
      (name k v : Text) (result : Headers)
      → includes name allow_headers ≡ false
      → includes name hash_headers ≡ true
      → get name (add_header sha256 (k, v) result)
        ≡ (if to_lower_case k == name then some (sha256_hex sha256 (utf8 v)) else get name result)
  unfolding add_header
  get-add_hashed name k v result n h = ground (
    arith,
    text_eq_iff (to_lower_case k) name,
    get-set (to_lower_case k) name (collapse false (trim v)) result,
    get-set (to_lower_case k) name (sha256_hex sha256 (utf8 v)) result,
  )

  get-collect_allowed :
      (name : Text) (hs result : Headers)
      → includes name allow_headers ≡ true
      → get name (collect sha256 hs result)
        ≡ over (normalized (last_value name hs)) (get name result)
  unfolding collect last_value
  get-collect_allowed name [] result h = refl
  get-collect_allowed name ((k, v) ∷ hs) result h = ground (
    arith,
    get-collect_allowed name hs (add_header sha256 (k, v) result) h,
    get-add_allowed name k v result h,
  )

  get-collect-hashed :
      (name : Text) (hs result : Headers)
      → includes name allow_headers ≡ false
      → includes name hash_headers ≡ true
      → get name (collect sha256 hs result) ≡ over (hashed (last_value name hs)) (get name result)
  unfolding collect last_value
  get-collect-hashed name [] result n h = refl
  get-collect-hashed name ((k, v) ∷ hs) result n h = ground (
    arith,
    get-collect-hashed name hs (add_header sha256 (k, v) result) n h,
    get-add_hashed name k v result n h,
  )

  over-none : (o : Option Text) → over o none ≡ o
  over-none none = refl
  over-none (some v) = refl

  pick-write :
      (name : Text) (result : Headers) (o : Option Text)
      → get name result ≡ o
      → pick sha256 name result ≡ write name o
  pick-write name result none e = rw (e, pick) refl
  pick-write name result (some v) e = rw (e, pick) refl

  pick_allowed :
      (name : Text) (headers : Headers)
      → includes name allow_headers ≡ true
      → pick sha256 name (collect sha256 headers [])
        ≡ write name (normalized (last_value name headers))
  unfolding get
  pick_allowed name headers h =
      pick-write name _ _
        (get-collect_allowed name headers [] h ∙ over-none (normalized (last_value name headers)))

  pick-hashed :
      (name : Text) (headers : Headers)
      → includes name allow_headers ≡ false
      → includes name hash_headers ≡ true
      → pick sha256 name (collect sha256 headers []) ≡ write name (hashed (last_value name headers))
  unfolding get
  pick-hashed name headers n h =
      pick-write name _ _
        (get-collect-hashed name headers [] n h ∙ over-none (hashed (last_value name headers)))

  is_allowed :
      (includes accept allow_headers ≡ true)
      × (includes content_type allow_headers ≡ true)
      × (includes authorization allow_headers ≡ false)
      × (includes cookie allow_headers ≡ false)
  unfolding text_beq
  is_allowed = (refl, refl, refl, refl)

  is_hashed : (includes authorization hash_headers ≡ true) × (includes cookie hash_headers ≡ true)
  unfolding text_beq
  is_hashed = (refl, refl)

  -- The canonical headers are exactly four names in a fixed order, each with the value of the last
  -- header of that name in any case: accept and content-type trimmed and with single spaces,
  -- authorization and cookie only as their SHA-256. An empty or missing one is left out, and no other
  -- header counts.
  pub canonicalize_semantic_headers_keeps :
      (headers : Headers)
      → canonicalize_semantic_headers sha256 headers
        ≡ write accept (normalized (last_value accept headers))
          ++ (write authorization (hashed (last_value authorization headers))
              ++ (write content_type (normalized (last_value content_type headers))
                  ++ write cookie (hashed (last_value cookie headers))))
  unfolding canonicalize_semantic_headers
  canonicalize_semantic_headers_keeps headers =
      let (a, c, na, nc) = is_allowed in
      ap₂ ◌++◌ (pick_allowed accept headers a) (
        ap₂ ◌++◌ (pick-hashed authorization headers na is_hashed.0) (
          ap₂ ◌++◌ (pick_allowed content_type headers c)
            (pick-hashed cookie headers nc is_hashed.1)))
