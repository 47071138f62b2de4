-- ===== src/Tickets/Paseto/Token.antt =====
-- Signing and verifying tokens of src/tickets/paseto.ts.
use consensus_node.Base.{
  ℕ, ◌+◌, ◌-◌, ◌≤◌, ◌≡◌, refl, ap, ap₂, sym, ◌∙◌, true, List, [], ◌∷◌, ◌++◌, length, length-append,
  arith, Text, codes, ok, nat_eq, Bool-cases, ◌==◌, get_or, inl, inr, nat_beq_iff, tests,
  if◌then◌else◌, ◌||◌,
}
use consensus_node.Base.Slices.{
  subarray, subarray_ends, length-subarray, subarray_here, subarray_suffix,
}
use consensus_node.Base.Splitting.{
  split, starts_with, split_plain, split_append, starts_with_append,
}
use consensus_node.Crypto.Primitives.{Signatures, Base64Url}
use consensus_node.Tickets.Paseto.{
  VerifiedToken, header, dot, pae, signed_pieces, sign_v4_public, verify_v4_public,
}

empty_of : (xs : List ℕ) → (length xs == 0) ≡ true → xs ≡ []
empty_of [] h = refl
empty_of (x ∷ xs) h = absurd (omega (tests, (nat_beq_iff _ _).0 h))

module _ (signatures : Signatures) (base64url : Base64Url) where
  split_unfooted :
      (body : List ℕ)
      → split dot (header ++ base64url.encode body)
        ≡ codes "v4" ∷ codes "public" ∷ base64url.encode body ∷ []
  split_unfooted body =
      split_append dot (codes "v4") (codes "public." ++ base64url.encode body) refl
      ∙ ap (λ r. codes "v4" ∷ r)
          (split_append dot (codes "public") (base64url.encode body) refl
            ∙ ap (λ r. codes "public" ∷ r) (split_plain dot _ (base64url.encode_no_dot body)))

  split_footed :
      (body footer : List ℕ)
      → split dot ((header ++ base64url.encode body) ++ (dot ∷ base64url.encode footer))
        ≡ codes "v4" ∷ codes "public" ∷ base64url.encode body ∷ base64url.encode footer ∷ []
  split_footed body footer =
      split_append dot (codes "v4")
        ((codes "public." ++ base64url.encode body) ++ (dot ∷ base64url.encode footer)) refl
      ∙ ap (λ r. codes "v4" ∷ r)
          (split_append dot (codes "public")
              (base64url.encode body ++ (dot ∷ base64url.encode footer)) refl
            ∙ ap (λ r. codes "public" ∷ r)
                (split_append dot _ (base64url.encode footer) (base64url.encode_no_dot body)
                  ∙ ap (λ r. base64url.encode body ∷ r)
                      (split_plain dot _ (base64url.encode_no_dot footer))))

  -- The footer that a split token carries.
  abbrev footer_of : List Text → List ℕ
  footer_of parts = if length parts == 4 then base64url.decode (get_or parts 3 []) else []

  module _ (message sig : List ℕ) (size : length sig ≡ 64) where
    length-body : length (message ++ sig) ≡ length message + 64
    length-body = length-append message sig ∙ ap (λ n. length message + n) size

    message_part : subarray (message ++ sig) 0 (length (message ++ sig) - 64) ≡ message
    message_part =
        ap (subarray (message ++ sig) 0) (omega (arith, length-body))
        ∙ subarray_here (length message) message sig refl

    sig_part :
        subarray (message ++ sig) (length (message ++ sig) - 64) (length (message ++ sig)) ≡ sig
    sig_part =
        ap₂ (subarray (message ++ sig)) (omega (arith, length-body)) length-body
        ∙ subarray_suffix 64 message sig size

  -- What a token has to hold to be verified.
  record Carries (token : Text) (public_key : ℕ) (message sig footer implicit : List ℕ)
      : Type 0 where
    begins : starts_with header token ≡ true
    parts : (length (split dot token) == 3 || length (split dot token) == 4) ≡ true
    body : base64url.decode (get_or (split dot token) 2 []) ≡ message ++ sig
    foot : footer_of (split dot token) ≡ footer
    size : length sig ≡ 64
    signed : signatures.verify public_key (pae (signed_pieces message footer implicit)) sig ≡ true

  verify_v4_public_intro :
      (token : Text) (public_key : ℕ) (message sig footer implicit : List ℕ)
      → Carries token public_key message sig footer implicit
      → verify_v4_public signatures base64url token public_key implicit
        ≡ ok (record { message = message; footer = footer })
  unfolding verify_v4_public
  verify_v4_public_intro token pk message sig footer implicit c = ground (
    arith,
    c.body,
    c.foot,
    message_part message sig c.size,
    sig_part message sig c.size,
    length-body message sig c.size,
  )

  module _ (message : List ℕ) (secret_key : ℕ) (footer implicit : List ℕ) where
    abbrev sig_of : List ℕ
    sig_of = signatures.sign secret_key (pae (signed_pieces message footer implicit))

    abbrev unfooted : Text
    unfooted = header ++ base64url.encode (message ++ sig_of)

    Carries-unfooted :
        footer ≡ []
        → Carries unfooted (signatures.public_of secret_key) message sig_of footer implicit
    Carries-unfooted e = record {
      begins = starts_with_append header (base64url.encode (message ++ sig_of));
      parts = rw (split_unfooted (message ++ sig_of)) refl;
      body = rw (split_unfooted (message ++ sig_of)) (base64url.decode-encode (message ++ sig_of));
      foot = rw (split_unfooted (message ++ sig_of)) (sym e);
      size = signatures.length-sign secret_key _;
      signed = signatures.verify-sign secret_key _;
    }

    Carries-footed :
        Carries
          (unfooted ++ (dot ∷ base64url.encode footer))
          (signatures.public_of secret_key)
          message
          sig_of
          footer
          implicit
    Carries-footed = record {
      begins =
          starts_with_append header
            (base64url.encode (message ++ sig_of) ++ (dot ∷ base64url.encode footer));
      parts = rw (split_footed (message ++ sig_of) footer) refl;
      body =
          rw (split_footed (message ++ sig_of) footer)
            (base64url.decode-encode (message ++ sig_of));
      foot = rw (split_footed (message ++ sig_of) footer) (base64url.decode-encode footer);
      size = signatures.length-sign secret_key _;
      signed = signatures.verify-sign secret_key _;
    }

    -- A token that was signed verifies under the signer's public key and the same implicit assertion,
    -- and gives back the message and the footer.
    pub verify-sign_v4_public :
        verify_v4_public signatures base64url
          (sign_v4_public signatures base64url message secret_key footer implicit)
          (signatures.public_of secret_key)
          implicit
        ≡ ok (record { message = message; footer = footer })
    unfolding sign_v4_public
    verify-sign_v4_public = elim (Bool-cases (length footer == 0)) [
      | inl e ↦ rw e (verify_v4_public_intro _ _ _ _ _ _ (Carries-unfooted (empty_of footer e)))
      | inr e ↦ rw e (verify_v4_public_intro _ _ _ _ _ _ Carries-footed)
    ]

  -- A token that verifies was signed: the public key accepts a 64-byte signature over the encoding of
  -- the header, the returned message and footer, and the implicit assertion that the verifier gave.
  pub verify_v4_public_signed :
      (token : Text) (public_key : ℕ) (implicit : List ℕ) (t : VerifiedToken)
      → verify_v4_public signatures base64url token public_key implicit ≡ ok t
      → (sig : List ℕ) × (length sig ≡ 64)
        × (signatures.verify public_key (pae (signed_pieces t.message t.footer implicit)) sig
            ≡ true)
        × (starts_with header token ≡ true)
        × (base64url.decode (get_or (split dot token) 2 []) ≡ t.message ++ sig)
  unfolding verify_v4_public
  verify_v4_public_signed token pk implicit t h =
      let b = base64url.decode (get_or (split dot token) 2 []) in
      let long : 64 ≤ length b = ground arith in
      let message : subarray b 0 (length b - 64) ≡ t.message = ground arith in
      (
        subarray b (length b - 64) (length b),
        ground (arith, length-subarray b (length b - 64) (length b)),
        ground arith,
        ground arith,
        subarray_ends 64 b long ∙ ap (λ m. m ++ subarray b (length b - 64) (length b)) message,
      )
