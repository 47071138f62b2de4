-- ===== src/Tickets/Ticket.antt =====
-- src/tickets/ticket.ts: the claims of a routing ticket. The clock is an argument in unix seconds,
-- and the claims are integers and texts as JSON carries them.
pub mod Issued
pub mod Accepted
use consensus_node.Base.{
  ℕ, Text, codes, utf8, text_eq, Bool, true, false, not, List, [], Option, none, some,
  if◌then◌else◌, ◌==◌, nat_eq, length, Result, ok, err, ◌>>=◌, ◌>>◌, guard, map_err, or_throw,
  or_else,
}
use consensus_node.Base.Int.{ℤ, pos, leb_ℤ, ◌+ℤ◌}
use consensus_node.Base.Json.{
  Json, null, bool, num, str, arr, obj, Fields, end, field, JsonCodec, property, as_text, as_number,
  lookup,
}
use consensus_node.Crypto.Primitives.{Signatures, Base64Url}
use consensus_node.Tickets.Paseto.{PasetoError, VerifiedToken, sign_v4_public, verify_v4_public}

abbrev pub ticket_issuer : Text
ticket_issuer = codes "consensus-orchestrator"

abbrev pub ticket_scope_proxy : Text
ticket_scope_proxy = codes "proxy"

abbrev pub default_ttl_sec : ℤ
default_ttl_sec = pos 60

abbrev pub default_clock_tolerance_sec : ℤ
default_clock_tolerance_sec = pos 5

pub record TicketClaims : Type 0 where
  pub iss : Text
  pub aud : Text
  pub sub : Text
  pub scope : Text
  pub iat : ℤ
  pub exp : ℤ
  pub jti : Text

pub record IssueTicketInput : Type 0 where
  pub node_id : Text
  pub dedupe_key : Text
  pub jti : Text
  pub ttl_sec : Option ℤ
  pub scope : Option Text
  pub now : Option ℤ

pub record VerifyTicketOptions : Type 0 where
  pub expected_node_id : Text
  pub expected_scope : Option Text
  pub now : Option ℤ
  pub clock_tolerance_sec : Option ℤ

pub record VerifiedTicket : Type 0 where
  pub claims : TicketClaims
  pub kid : Option Json

pub data TicketError : Type 0 where
  paseto_error : PasetoError → TicketError
  malformed_claims type_error : TicketError
  bad_issuer audience_mismatch scope_mismatch expired issued_in_the_future missing_jti
        missing_subject :
      TicketError
  replayed_jti : TicketError

unfoldable pub claims_json : TicketClaims → Json
claims_json c = obj (
    field (codes "iss") (str c.iss) (
      field (codes "aud") (str c.aud) (
        field (codes "sub") (str c.sub) (
          field (codes "scope") (str c.scope) (
            field (codes "iat") (num c.iat)
              (field (codes "exp") (num c.exp) (field (codes "jti") (str c.jti) end)))))))

abbrev pub kid_json : Text → Json
kid_json kid = obj (field (codes "kid") (str kid) end)

-- `claims.key !== expected`, the other way round
abbrev pub is_text : Option Json → Text → Bool
is_text o expected = elim (as_text o) [ none ↦ false | some s ↦ s == expected ]

-- `typeof value !== "string" || !value`
abbrev pub non_empty : TicketError → Option Json → Result TicketError Text
non_empty e o = elim (as_text o) [ none ↦ err e | some s ↦ if s == [] then err e else ok s ]

unfoldable pub issued_claims : ℤ → IssueTicketInput → TicketClaims
issued_claims clock input =
    let now = or_else input.now clock in
    record {
      iss = ticket_issuer;
      aud = input.node_id;
      sub = input.dedupe_key;
      scope = or_else input.scope ticket_scope_proxy;
      iat = now;
      exp = now +ℤ or_else input.ttl_sec default_ttl_sec;
      jti = input.jti;
    }

-- The checks of `verifyTicket` on the parsed claims, in the order of the code.
unfoldable pub check_claims : ℤ → VerifyTicketOptions → Json → Result TicketError TicketClaims
check_claims clock opts c = do
  let now = or_else opts.now clock
  let skew = or_else opts.clock_tolerance_sec default_clock_tolerance_sec
  let scope = or_else opts.expected_scope ticket_scope_proxy
  iss ← property type_error (codes "iss") c
  guard (is_text iss ticket_issuer) bad_issuer
  aud ← property type_error (codes "aud") c
  guard (is_text aud opts.expected_node_id) audience_mismatch
  found_scope ← property type_error (codes "scope") c
  guard (is_text found_scope scope) scope_mismatch
  exp_value ← property type_error (codes "exp") c
  exp ← or_throw (as_number exp_value) expired
  guard (leb_ℤ now (exp +ℤ skew)) expired
  iat_value ← property type_error (codes "iat") c
  iat ← or_throw (as_number iat_value) issued_in_the_future
  guard (leb_ℤ iat (now +ℤ skew)) issued_in_the_future
  jti_value ← property type_error (codes "jti") c
  jti ← non_empty missing_jti jti_value
  sub_value ← property type_error (codes "sub") c
  sub ← non_empty missing_subject sub_value
  ok (record {
    iss = ticket_issuer;
    aud = opts.expected_node_id;
    sub = sub;
    scope = scope;
    iat = iat;
    exp = exp;
    jti = jti;
  })

-- `JSON.parse(footer).kid ?? null`, and null when that throws
unfoldable pub kid_of : Option Json → Option Json
kid_of none = none
kid_of (some (obj fs)) = elim (lookup (codes "kid") fs) [
  | none ↦ none
  | some null ↦ none
  | some v ↦ some v
]
kid_of (some _) = none

module _ (signatures : Signatures) (base64url : Base64Url) (json : JsonCodec) where
  unfoldable pub issue_ticket : ℤ → IssueTicketInput → ℕ → Text → Text
  issue_ticket clock input secret_key kid =
      sign_v4_public signatures base64url (json.stringify (claims_json (issued_claims clock input)))
        secret_key (json.stringify (kid_json kid)) (utf8 input.node_id)

  unfoldable pub verify_ticket :
      ℤ → Text → ℕ → VerifyTicketOptions → Result TicketError VerifiedTicket
  verify_ticket clock token public_key opts = do
    t ←
        map_err paseto_error
          (verify_v4_public signatures base64url token public_key (utf8 opts.expected_node_id))
    parsed ← or_throw (json.parse t.message) malformed_claims
    claims ← check_claims clock opts parsed
    ok (record {
      claims = claims;
      kid = if length t.footer == 0 then none else kid_of (json.parse t.footer);
    })
