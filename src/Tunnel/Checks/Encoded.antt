-- ===== src/Tunnel/Checks/Encoded.antt =====
-- Bytes that were written as base64 pass the check of a field.
use consensus_node.Base.{
  ℕ, false, List, [], ◌∷◌, some, ◌==◌, nat_eq, text_eq, length, ok, ◌≡◌, ◌≢◌, refl, sym, ap, ◌∙◌,
  arith, ==_ne,
}
use consensus_node.Base.Json.{str}
use consensus_node.Crypto.Primitives.{Base64}
use consensus_node.Tunnel.Checks.{bytes_of}

module _ (base64 : Base64) where
  pub encode_not_empty : (b : List ℕ) → b ≢ [] → base64.encode b ≢ []
  encode_not_empty b h e =
      h (sym (base64.decode-encode b) ∙ (ap base64.decode e ∙ base64.decode_empty))

  length_not_zero : (b : List ℕ) → b ≢ [] → (length b == 0) ≡ false
  length_not_zero [] h = absurd (h refl)
  length_not_zero (x ∷ b) h = ground arith

  pub bytes_of-encode {ℓ} :
      {E : Type ℓ} (missing nothing : E) (b : List ℕ)
      → b ≢ []
      → bytes_of base64.decode missing nothing (some (str (base64.encode b))) ≡ ok b
  bytes_of-encode missing nothing b h =
      rw
        (
          ==_ne (base64.encode b) [] (encode_not_empty b h),
          base64.decode-encode b,
          length_not_zero b h,
        )
        refl
