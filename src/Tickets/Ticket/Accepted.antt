-- ===== src/Tickets/Ticket/Accepted.antt =====
-- What a ticket that src/tickets/ticket.ts accepts has passed.
use consensus_node.Base.{
  ℕ, Text, codes, utf8, text_eq, text_eq_iff, text_beq, Option, some, ok, ◌≡◌, refl, arith, or_else,
  subst, or_throw, map_err, map_err-eq-ok, or_throw-eq-ok, ==_ne, ==_refl, ◌↔◌, >>=-eq-ok, ap, sym,
  ◌∙◌, ◌≢◌, true, [], none, ◌∷◌,
}
use consensus_node.Base.Int.{ℤ, ≤ℤ_shift, ◌+ℤ◌, ◌≤ℤ◌}
use consensus_node.Base.Json.{
  Json, Fields, obj, num, str, lookup, JsonCodec, null, bool, arr, as_number,
}
use consensus_node.Crypto.Primitives.{Signatures, Base64Url}
use consensus_node.Tickets.Paseto.{VerifiedToken, verify_v4_public}
use consensus_node.Tickets.Ticket.Issued.{verify_ticket_intro, Acceptable, IsIssuer}
use consensus_node.Tickets.Ticket.{
  TicketError, is_text, non_empty, missing_jti, missing_subject, ticket_issuer, ticket_scope_proxy,
  VerifiedTicket, VerifyTicketOptions, TicketClaims, check_claims, verify_ticket,
  default_clock_tolerance_sec, malformed_claims, paseto_error,
}

-- The claims are what the signed JSON object says.
pub record Says (parsed : Json) (c : TicketClaims) : Type 0 where
  pub fields : Fields
  pub is_object : parsed ≡ obj fields
  pub says_iss : lookup (codes "iss") fields ≡ some (str c.iss)
  pub says_aud : lookup (codes "aud") fields ≡ some (str c.aud)
  pub says_sub : lookup (codes "sub") fields ≡ some (str c.sub)
  pub says_scope : lookup (codes "scope") fields ≡ some (str c.scope)
  pub says_iat : lookup (codes "iat") fields ≡ some (num c.iat)
  pub says_exp : lookup (codes "exp") fields ≡ some (num c.exp)
  pub says_jti : lookup (codes "jti") fields ≡ some (str c.jti)

is_text-eq : (o : Option Json) (s : Text) → is_text o s ≡ true → o ≡ some (str s)
is_text-eq none s h = cc
is_text-eq (some null) s h = cc
is_text-eq (some (bool b)) s h = cc
is_text-eq (some (num n)) s h = cc
is_text-eq (some (str t)) s h = cc ((text_eq_iff t s).0 h)
is_text-eq (some (arr xs)) s h = cc
is_text-eq (some (obj fs)) s h = cc

as_number-eq : (o : Option Json) (n : ℤ) → as_number o ≡ some n → o ≡ some (num n)
as_number-eq none n h = cc
as_number-eq (some null) n h = cc
as_number-eq (some (bool b)) n h = cc
as_number-eq (some (num m)) n h = cc
as_number-eq (some (str t)) n h = cc
as_number-eq (some (arr xs)) n h = cc
as_number-eq (some (obj fs)) n h = cc

non_empty-eq :
    (e : TicketError) (o : Option Json) (s : Text)
    → non_empty e o ≡ ok s
    → (o ≡ some (str s)) × (s ≢ [])
unfolding text_beq
non_empty-eq e none s h = cc
non_empty-eq e (some null) s h = cc
non_empty-eq e (some (bool b)) s h = cc
non_empty-eq e (some (num n)) s h = cc
non_empty-eq e (some (str [])) s h = cc
non_empty-eq e (some (str (c ∷ t))) s h = (cc, λ n. cc)
non_empty-eq e (some (arr xs)) s h = cc
non_empty-eq e (some (obj fs)) s h = cc

module _ (clock : ℤ) (opts : VerifyTicketOptions) (claims : TicketClaims) where
  check_claims-Says :
      (parsed : Json) → check_claims clock opts parsed ≡ ok claims → Says parsed claims
  unfolding check_claims
  check_claims-Says null h = cc
  check_claims-Says (bool b) h = cc
  check_claims-Says (num n) h = cc
  check_claims-Says (str s) h = cc
  check_claims-Says (arr xs) h = cc
  check_claims-Says (obj fs) h = record {
    fields = fs;
    is_object = refl;
    says_iss = ground (arith, is_text-eq (lookup (codes "iss") fs) ticket_issuer);
    says_aud = ground (arith, is_text-eq (lookup (codes "aud") fs) opts.expected_node_id);
    says_sub = ground (arith, non_empty-eq missing_subject (lookup (codes "sub") fs) claims.sub);
    says_scope = ground (
      arith,
      is_text-eq (lookup (codes "scope") fs) (or_else opts.expected_scope ticket_scope_proxy),
    );
    says_iat = ground (arith, as_number-eq (lookup (codes "iat") fs) claims.iat);
    says_exp = ground (arith, as_number-eq (lookup (codes "exp") fs) claims.exp);
    says_jti = ground (arith, non_empty-eq missing_jti (lookup (codes "jti") fs) claims.jti);
  }

  check_claims-Acceptable :
      (parsed : Json)
      → check_claims clock opts parsed ≡ ok claims
      → Acceptable clock opts claims × IsIssuer claims
  unfolding check_claims
  check_claims-Acceptable null h = cc
  check_claims-Acceptable (bool b) h = cc
  check_claims-Acceptable (num n) h = cc
  check_claims-Acceptable (str s) h = cc
  check_claims-Acceptable (arr xs) h = cc
  check_claims-Acceptable (obj fs) h = (
    record {
      audience = ground arith;
      scoped = ground arith;
      unexpired = ground arith;
      not_early = ground arith;
      named = (non_empty-eq missing_jti (lookup (codes "jti") fs) claims.jti (ground arith)).1;
      bound = (non_empty-eq missing_subject (lookup (codes "sub") fs) claims.sub (ground arith)).1;
    },
    ground arith,
  )

-- What an object says is accepted where it is acceptable.
check_claims_intro :
    (clock : ℤ) (opts : VerifyTicketOptions) (parsed : Json) (c : TicketClaims)
    → Says parsed c
    → IsIssuer c
    → Acceptable clock opts c
    → check_claims clock opts parsed ≡ ok c
unfolding check_claims text_beq
check_claims_intro clock opts parsed c says issuer a =
    rw
      (
        says.is_object, says.says_iss, says.says_aud, says.says_scope, says.says_exp, says.says_iat,
        says.says_jti, says.says_sub,
      )
      (ground
        (arith, ==_refl c.aud, ==_refl c.scope, ==_ne c.jti [] a.named, ==_ne c.sub [] a.bound))

module _ (later : ℤ) (opts : VerifyTicketOptions) (c : TicketClaims) (live : opts.now ≡ none) where
  Acceptable_unexpired :
      Acceptable later opts c
      → later ≤ℤ (c.exp +ℤ or_else opts.clock_tolerance_sec default_clock_tolerance_sec)
  Acceptable_unexpired a =
      subst
        (λ (n : Option ℤ).
          or_else n later
          ≤ℤ (c.exp +ℤ or_else opts.clock_tolerance_sec default_clock_tolerance_sec))
        live a.unexpired

  Acceptable-later :
      (clock : ℤ)
      → Acceptable clock opts c
      → clock ≤ℤ later
      → later ≤ℤ (c.exp +ℤ or_else opts.clock_tolerance_sec default_clock_tolerance_sec)
      → Acceptable later opts c
  Acceptable-later clock a le le' = record {
    audience = a.audience;
    scoped = a.scoped;
    unexpired = rw live le';
    not_early = rw live (
        ≤ℤ_shift c.iat clock later _
          (subst
            (λ (n : Option ℤ).
              c.iat
              ≤ℤ (or_else n clock +ℤ or_else opts.clock_tolerance_sec default_clock_tolerance_sec))
            live a.not_early)
          le);
    named = a.named;
    bound = a.bound;
  }

module _ (signatures : Signatures) (base64url : Base64Url) (json : JsonCodec) where
  -- A ticket that verifies carries claims that the issuer's key has signed for this node: the message
  -- of a token that passes the signature check with the node's id as implicit assertion is an object
  -- which says exactly these claims, and they have the issuer's name, the node as audience, the scope
  -- asked for, times that fit the clock within the tolerance, an id and a bound key.
  pub verify_ticket_checks :
      (clock : ℤ) (token : Text) (public_key : ℕ) (opts : VerifyTicketOptions) (v : VerifiedTicket)
      → verify_ticket signatures base64url json clock token public_key opts ≡ ok v
      → (t : VerifiedToken) × (parsed : Json) × (verify_v4_public signatures base64url token
            public_key
            (utf8 opts.expected_node_id)
          ≡ ok t)
        × (json.parse t.message ≡ some parsed)
        × Says parsed v.claims
        × Acceptable clock opts v.claims
        × IsIssuer v.claims
  unfolding verify_ticket
  verify_ticket_checks clock token pk opts v h =
      let (t, signed, h1) =
        >>=-eq-ok
          (map_err paseto_error
            (verify_v4_public signatures base64url token pk (utf8 opts.expected_node_id)))
          _ h in
      let (parsed, read, h2) = >>=-eq-ok (or_throw (json.parse t.message) malformed_claims) _ h1 in
      let (claims, checked, h3) = >>=-eq-ok (check_claims clock opts parsed) _ h2 in
      let same : claims ≡ v.claims = cc h3 in
      let checked' : check_claims clock opts parsed ≡ ok v.claims = checked ∙ ap ok same in
      let (a, issuer) = check_claims-Acceptable clock opts v.claims parsed checked' in
      (
        t,
        parsed,
        map_err-eq-ok _ _ signed,
        or_throw-eq-ok _ _ read,
        check_claims-Says clock opts v.claims parsed checked',
        a,
        issuer,
      )

  -- A ticket that verifies at one time verifies with the same claims at any later time up to its
  -- expiry and the tolerance, and not after that.
  pub verify_ticket_until :
      (clock later : ℤ) (token : Text) (public_key : ℕ) (opts : VerifyTicketOptions)
      (v : VerifiedTicket)
      → opts.now ≡ none
      → verify_ticket signatures base64url json clock token public_key opts ≡ ok v
      → clock ≤ℤ later
      → (later ≤ℤ (v.claims.exp +ℤ or_else opts.clock_tolerance_sec default_clock_tolerance_sec))
        ↔ (verify_ticket signatures base64url json later token public_key opts ≡ ok v)
  verify_ticket_until clock later token pk opts v live h le =
      let (t, parsed, signed, read, says, a, issuer) =
        verify_ticket_checks clock token pk opts v h in
      let first =
        verify_ticket_intro signatures base64url json clock token pk opts t parsed v.claims signed
          read (check_claims_intro clock opts parsed v.claims says issuer a) in
      (
        λ le'.
            verify_ticket_intro signatures base64url json later token pk opts t parsed v.claims
              signed read
              (check_claims_intro later opts parsed v.claims says issuer
                (Acceptable-later later opts v.claims live clock a le le'))
            ∙ (sym first ∙ h),
        λ h'.
            let (_, _, _, _, _, a', _) = verify_ticket_checks later token pk opts v h' in
            Acceptable_unexpired later opts v.claims live a',
      )
