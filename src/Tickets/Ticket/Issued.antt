-- ===== src/Tickets/Ticket/Issued.antt =====
-- A ticket that src/tickets/ticket.ts issues is one that it accepts.
use consensus_node.Base.{
  ℕ, Text, codes, utf8, text_eq, false, List, [], ◌∷◌, none, some, ◌==◌, if◌then◌else◌, nat_eq,
  length, ok, ◌≡◌, refl, text_beq, ◌≢◌, ==_refl, ==_ne, sym, ◌∙◌, arith, or_else, ap,
}
use consensus_node.Base.Int.{ℤ, ◌+ℤ◌, ◌≤ℤ◌}
use consensus_node.Base.Json.{JsonCodec, IsSafe, Json, IsPlain, str, lookup}
use consensus_node.Crypto.Primitives.{Signatures, Base64Url}
use consensus_node.Tickets.Paseto.{VerifiedToken, verify_v4_public}
use consensus_node.Tickets.Paseto.Token.{verify-sign_v4_public}
use consensus_node.Tickets.Ticket.{
  IssueTicketInput, VerifyTicketOptions, TicketClaims, claims_json, issued_claims, check_claims,
  kid_of, kid_json, issue_ticket, verify_ticket, default_clock_tolerance_sec, ticket_scope_proxy,
}

-- What the verifier's options demand of a ticket's claims.
pub record Acceptable (clock : ℤ) (opts : VerifyTicketOptions) (c : TicketClaims) : Type 0 where
  pub audience : c.aud ≡ opts.expected_node_id
  pub scoped : c.scope ≡ or_else opts.expected_scope ticket_scope_proxy
  pub unexpired :
      or_else opts.now clock
      ≤ℤ (c.exp +ℤ or_else opts.clock_tolerance_sec default_clock_tolerance_sec)
  pub not_early :
      c.iat
      ≤ℤ (or_else opts.now clock +ℤ or_else opts.clock_tolerance_sec default_clock_tolerance_sec)
  pub named : c.jti ≢ []
  pub bound : c.sub ≢ []

abbrev pub IsIssuer : TicketClaims → Type 0
IsIssuer c = c.iss ≡ codes "consensus-orchestrator"

check_claims-claims_json :
    (clock : ℤ) (opts : VerifyTicketOptions) (c : TicketClaims)
    → IsIssuer c
    → Acceptable clock opts c
    → check_claims clock opts (claims_json c) ≡ ok c
unfolding check_claims claims_json lookup text_beq
check_claims-claims_json clock opts c issuer a =
    ground (arith, ==_refl c.aud, ==_refl c.scope, ==_ne c.jti [] a.named, ==_ne c.sub [] a.bound)

claims-IsPlain :
    (clock : ℤ) (input : IssueTicketInput)
    → IsSafe (issued_claims clock input).iat
    → IsSafe (issued_claims clock input).exp
    → IsPlain (claims_json (issued_claims clock input))
unfolding claims_json lookup text_beq
claims-IsPlain clock input i e =
    (refl, tt, (refl, tt, (refl, tt, (refl, tt, (refl, i, (refl, e, (refl, tt, tt)))))))

IsIssuer-issued : (clock : ℤ) (input : IssueTicketInput) → IsIssuer (issued_claims clock input)
unfolding issued_claims
IsIssuer-issued clock input = refl

audience-issued :
    (clock : ℤ) (input : IssueTicketInput) (opts : VerifyTicketOptions)
    → (issued_claims clock input).aud ≡ opts.expected_node_id
    → input.node_id ≡ opts.expected_node_id
unfolding issued_claims
audience-issued clock input opts e = e

kid-IsPlain : (kid : Text) → IsPlain (kid_json kid)
unfolding lookup
kid-IsPlain kid = (refl, tt, tt)

module _ (signatures : Signatures) (base64url : Base64Url) (json : JsonCodec) where
  kid_read : (kid : Text) → kid_of (json.parse (json.stringify (kid_json kid))) ≡ some (str kid)
  unfolding kid_of lookup text_beq
  kid_read kid = rw (json.parse-stringify (kid_json kid) (kid-IsPlain kid)) refl

  written_not_empty : {v : Json} (bytes : List ℕ) → json.parse bytes ≡ some v → length bytes ≡ 0 → ⊥
  written_not_empty [] h e = cc json.parse_empty
  written_not_empty (b ∷ bs) h e = omega arith

  -- A footer that is empty is no JSON text.
  kid_not_empty : (kid : Text) → (length (json.stringify (kid_json kid)) == 0) ≡ false
  kid_not_empty kid = ==_ne _ 0 (λ e. absurd (
      written_not_empty (json.stringify (kid_json kid))
        (json.parse-stringify (kid_json kid) (kid-IsPlain kid)) e))

  pub verify_ticket_intro :
      (clock : ℤ) (token : Text) (public_key : ℕ) (opts : VerifyTicketOptions) (t : VerifiedToken)
      (parsed : Json) (claims : TicketClaims)
      → verify_v4_public signatures base64url token public_key (utf8 opts.expected_node_id) ≡ ok t
      → json.parse t.message ≡ some parsed
      → check_claims clock opts parsed ≡ ok claims
      → verify_ticket signatures base64url json clock token public_key opts
        ≡ ok (record {
          claims = claims;
          kid = if length t.footer == 0 then none else kid_of (json.parse t.footer);
        })
  unfolding verify_ticket
  verify_ticket_intro clock token pk opts t parsed claims v p c = rw (v, p, c) refl

  -- A ticket verifies at the node it was issued for, under the issuer's public key, at any time from
  -- its issue less the tolerance to its expiry with the tolerance, for the scope it was issued with:
  -- the claims and the key id come back. The id and the bound key are not empty, the times are safe
  -- integers.
  pub verify-issue_ticket :
      (clock : ℤ) (input : IssueTicketInput) (secret_key : ℕ) (kid : Text) (later : ℤ)
      (opts : VerifyTicketOptions)
      → IsSafe (issued_claims clock input).iat
      → IsSafe (issued_claims clock input).exp
      → Acceptable later opts (issued_claims clock input)
      → verify_ticket signatures base64url json later
          (issue_ticket signatures base64url json clock input secret_key kid)
          (signatures.public_of secret_key)
          opts
        ≡ ok (record { claims = issued_claims clock input; kid = some (str kid) })
  unfolding issue_ticket
  verify-issue_ticket clock input sk kid later opts safe_iat safe_exp a =
      verify_ticket_intro later _ _ opts _ (claims_json (issued_claims clock input))
        (issued_claims clock input)
        (ap
            (λ (n : Text).
              verify_v4_public signatures base64url
                (issue_ticket signatures base64url json clock input sk kid)
                (signatures.public_of sk) (utf8 n))
            (sym (audience-issued clock input opts a.audience))
          ∙ verify-sign_v4_public signatures base64url
              (json.stringify (claims_json (issued_claims clock input))) sk
              (json.stringify (kid_json kid)) (utf8 input.node_id))
        (json.parse-stringify _ (claims-IsPlain clock input safe_iat safe_exp))
        (check_claims-claims_json later opts (issued_claims clock input)
          (IsIssuer-issued clock input) a)
      ∙ ap (λ k. ok (record { claims = issued_claims clock input; kid = k }))
          (rw (kid_not_empty kid) (kid_read kid))
