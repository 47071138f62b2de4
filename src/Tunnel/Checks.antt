-- ===== src/Tunnel/Checks.antt =====
-- What the handshakes of src/tunnel test of a value that came in, and the objects that they sign.
pub mod Encoded
use consensus_node.Base.{
  ℕ, Text, text_eq, codes, not, true, false, List, [], Option, none, some, ◌==◌, nat_eq, length,
  Result, ok, err, ◌>>=◌, ◌>>◌, guard, or_throw, Bool, if◌then◌else◌, ◌≡◌, ◌≢◌, refl, ap, sym, ◌∙◌,
  ==_ne, text_eq_iff, arith,
}
use consensus_node.Base.Int.{ℤ, pos}
use consensus_node.Base.Json.{
  Json, num, str, arr, obj, Fields, end, field, JsonCodec, as_text, lookup,
}
use consensus_node.Tunnel.Canonical.{sort_value}

-- `value === text`
abbrev pub text_is : Option Json → Text → Bool
text_is (some (str s)) t = s == t
text_is _ t = false

-- `value === n`, for a version
abbrev pub number_is : Option Json → ℕ → Bool
number_is (some (num (pos m))) n = m == n
number_is _ n = false

-- `(a ?? null) === (b ?? null)` of texts that may be missing
abbrev pub same_text : Option Json → Option Json → Bool
same_text none none = true
same_text (some (str s)) (some (str t)) = s == t
same_text _ _ = false

-- `typeof value === "string" && value.length > 0`
abbrev pub non_empty : Option Json → Bool
non_empty (some (str s)) = not (s == [])
non_empty _ = false

-- `value && typeof value === "object"`
abbrev pub is_object : Option Json → Bool
is_object (some (obj fs)) = true
is_object (some (arr xs)) = true
is_object _ = false

-- An array is an object without the fields that are asked for.
abbrev pub object_fields {ℓ} : {E : Type ℓ} → E → Json → Result E Fields
object_fields e (obj fs) = ok fs
object_fields e (arr xs) = ok end
object_fields e _ = err e

-- Non-empty base64 that decodes to at least one byte.
abbrev pub bytes_of {ℓ} : {E : Type ℓ} → (Text → List ℕ) → E → E → Option Json → Result E (List ℕ)
bytes_of decode missing nothing value = do
  text ← or_throw (as_text value) missing
  guard (not (text == [])) missing
  guard (not (length (decode text) == 0)) nothing
  ok (decode text)

-- withoutSignature
unfoldable pub remove_field : Text → Fields → Fields
remove_field k end = end
remove_field k (field j v fs) = if j == k then remove_field k fs else field j v (remove_field k fs)

-- `{ ...object, key: value }` with a new key
unfoldable pub append_field : Fields → Text → Json → Fields
append_field end k v = field k v end
append_field (field j w fs) k v = field j w (append_field fs k v)

removed :
    (q k j : Text) (v : Json) (rest fs : Fields) (b : Bool)
    → (j == k) ≡ b
    → q ≢ k
    → lookup q rest ≡ lookup q fs
    → lookup q (if b then rest else field j v rest) ≡ lookup q (field j v fs)
unfolding lookup
removed q k j v rest fs true gone other h =
    rw (==_ne j q (λ same. other (sym same ∙ (text_eq_iff j k).0 gone))) h
removed q k j v rest fs false kept other h = ap (λ o. if j == q then some v else o) h

removed_same :
    (k j : Text) (v : Json) (rest : Fields) (b : Bool)
    → (j == k) ≡ b
    → lookup k rest ≡ none
    → lookup k (if b then rest else field j v rest) ≡ none
unfolding lookup
removed_same k j v rest true gone h = h
removed_same k j v rest false kept h = rw kept h

pub lookup-remove_field :
    (q k : Text) (fs : Fields) → q ≢ k → lookup q (remove_field k fs) ≡ lookup q fs
unfolding lookup remove_field
lookup-remove_field q k end other = refl
lookup-remove_field q k (field j v fs) other =
    removed q k j v (remove_field k fs) fs (j == k) refl other (lookup-remove_field q k fs other)

pub lookup-remove_field_same : (k : Text) (fs : Fields) → lookup k (remove_field k fs) ≡ none
unfolding lookup remove_field
lookup-remove_field_same k end = refl
lookup-remove_field_same k (field j v fs) =
    removed_same k j v (remove_field k fs) (j == k) refl (lookup-remove_field_same k fs)

abbrev pub signature_key : Text
signature_key = codes "signature"

module _ (json : JsonCodec) where
  -- As bytes: `canonicalJson` of src/crypto/canonical-json.ts is hashed and signed as UTF-8.
  abbrev pub canonical_json : Json → List ℕ
  canonical_json v = json.stringify (sort_value v)

  unfoldable pub signing_payload : Fields → List ℕ
  signing_payload fs = canonical_json (obj (remove_field signature_key fs))
