-- ===== src/Tickets/Paseto.antt =====
-- src/tickets/paseto.ts: PASETO v4.public tokens.
pub mod Encoding
pub mod Token
use Prim.Native.Nat.{bit_and}
use consensus_node.Base.{
  ℕ, zero, suc, ◌-◌, ◌/◌, ◌%◌, List, [], ◌∷◌, ◌++◌, Bool, not, ◌||◌, ltb, ◌==◌, nat_eq,
  if◌then◌else◌, length, get_or, set, Text, codes, utf8, Result, ok, err, ◌>>=◌, ◌>>◌, guard,
}
use consensus_node.Base.Bytes.{little}
use consensus_node.Base.Slices.{subarray}
use consensus_node.Base.Splitting.{split, starts_with}
use consensus_node.Crypto.Primitives.{Signatures, Base64Url}

abbrev pub header : Text
header = codes "v4.public."

abbrev pub sig_len : ℕ
sig_len = 64

abbrev pub dot : ℕ
dot = b'.'

-- The loop writes `value % 256` and goes on with `Math.floor(value / 256)`, eight times; then
-- `buf[7] &= 0x7f`.
unfoldable pub le64 : ℕ → List ℕ
le64 n = let buf = little 8 n in set buf 7 (bit_and (get_or buf 7 0) 0x7f)

unfoldable pub pae_pieces : List (List ℕ) → List ℕ
pae_pieces [] = []
pae_pieces (piece ∷ pieces) = le64 (length piece) ++ (piece ++ pae_pieces pieces)

unfoldable pub pae : List (List ℕ) → List ℕ
pae pieces = le64 (length pieces) ++ pae_pieces pieces

pub record VerifiedToken : Type 0 where
  pub message : List ℕ
  pub footer : List ℕ

pub data PasetoError : Type 0 where
  unsupported_header malformed_token token_too_short bad_signature : PasetoError

abbrev pub signed_pieces : List ℕ → List ℕ → List ℕ → List (List ℕ)
signed_pieces message footer implicit = utf8 header ∷ message ∷ footer ∷ implicit ∷ []

module _ (signatures : Signatures) (base64url : Base64Url) where
  unfoldable pub sign_v4_public : List ℕ → ℕ → List ℕ → List ℕ → Text
  sign_v4_public message secret_key footer implicit =
      let sig = signatures.sign secret_key (pae (signed_pieces message footer implicit)) in
      let token = header ++ base64url.encode (message ++ sig) in
      if length footer == 0 then token else token ++ (dot ∷ base64url.encode footer)

  unfoldable pub verify_v4_public : Text → ℕ → List ℕ → Result PasetoError VerifiedToken
  verify_v4_public token public_key implicit = do
    guard (starts_with header token) unsupported_header
    let parts = split dot token
    guard (length parts == 3 || length parts == 4) malformed_token
    let body = base64url.decode (get_or parts 2 [])
    guard (not (ltb (length body) sig_len)) token_too_short
    let message = subarray body 0 (length body - sig_len)
    let sig = subarray body (length body - sig_len) (length body)
    let footer = if length parts == 4 then base64url.decode (get_or parts 3 []) else []
    guard (signatures.verify public_key (pae (signed_pieces message footer implicit)) sig)
        bad_signature
    ok (record { message = message; footer = footer })
