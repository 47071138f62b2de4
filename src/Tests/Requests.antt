-- ===== src/Tests/Requests.antt =====
-- src/tickets/request-ticket.ts on a concrete request, ticket and cache.
use consensus_node.Base.{
  ℕ, ◌≤◌, ◌≡◌, ◌≢◌, refl, true, List, [], ◌∷◌, none, some, ok, err, codes, arith, text_beq, hex,
}
use consensus_node.Base.Int.{pos, ◌<ℤ◌, ◌≤ℤ◌, ◌+ℤ◌, ◌-ℤ◌}
use consensus_node.Base.Map
use consensus_node.Base.Json.{str}
use consensus_node.Runtime.Url.{UrlApi}
use consensus_node.Runtime.Dedupe.{DedupeParams, no_body, generate_dedupe_key, canonicalize_url}
use consensus_node.Base.Splitting.{starts_with}
use consensus_node.Tickets.Paseto.{verify_v4_public, unsupported_header}
use consensus_node.Tickets.Replay.{JtiReplayCache, new_cache, consume, sweep, evict, drop_expired}
use consensus_node.Tickets.Replay.SingleUse.{Use, consume_all, Before}
use consensus_node.Tickets.Ticket.{
  IssueTicketInput, TicketClaims, issued_claims, issue_ticket, verify_ticket, paseto_error,
}
use consensus_node.Tickets.Ticket.Issued.{Acceptable, verify-issue_ticket}
use consensus_node.Tickets.Request.{
  VerifyRequestTicketOptions, VerifiedRequestTicket, ticket_options, ticket_error, spend,
  check_request, verify_request_ticket,
}
use consensus_node.Tickets.Request.Binding.{
  verify_request_ticket_granted, verify_request_ticket_refused, verify_request_ticket_binds,
  verify_request_ticket_keeps,
}
use consensus_node.Tickets.Request.Spending.{
  verify_request_ticket_once, verify_request_ticket_twice,
}
use consensus_node.Tests.Instances.{signatures, base64url}
use consensus_node.Tests.StackJson.{json_codec}

abbrev pub digest : List ℕ → List ℕ
digest b = 7 ∷ 8 ∷ []

abbrev pub urls : UrlApi
urls = record {
  parse = λ s. some (record {
    protocol = codes "https:";
    username = [];
    password = [];
    hostname = s;
    port = [];
    pathname = codes "/";
    search = [];
    hash = [];
  });
  to_string = λ u. u.hostname;
  search_params = λ s. [];
  search_of = λ ps. [];
}

abbrev pub request : DedupeParams
request = record {
  target_url = codes "api.test";
  method = codes "GET";
  headers = [];
  body = no_body;
  profile_hash = none;
}

key_of_request : generate_dedupe_key digest json_codec urls request ≡ ok (codes "0708")
unfolding generate_dedupe_key canonicalize_url hex
key_of_request = refl

abbrev input : IssueTicketInput
input = record {
  node_id = codes "node-1";
  dedupe_key = codes "0708";
  jti = codes "t1";
  ttl_sec = none;
  scope = none;
  now = none;
}

abbrev pub options : VerifyRequestTicketOptions
options = record {
  token = issue_ticket signatures base64url json_codec (pos 1000) input 7 (codes "k1");
  node_id = codes "node-1";
  public_key = 7;
  request = request;
  expected_scope = none;
  now = none;
  clock_tolerance_sec = none;
}

abbrev claims : TicketClaims
claims = issued_claims (pos 1000) input

acceptable : (n : ℕ) → 995 ≤ n → n ≤ 1065 → Acceptable (pos n) (ticket_options options) claims
unfolding issued_claims ◌+ℤ◌
acceptable n lo hi = record {
  audience = refl;
  scoped = refl;
  unexpired = omega arith;
  not_early = ground arith;
  named = λ e. cc;
  bound = λ e. cc;
}

abbrev pub granted : VerifiedRequestTicket
granted = record { claims = claims; kid = some (str (codes "k1")); dedupe_key = codes "0708" }

sub_claims : claims.sub ≡ codes "0708"
unfolding issued_claims
sub_claims = refl

check_at :
    (n : ℕ)
    → 995 ≤ n
    → n ≤ 1065
    → check_request signatures base64url json_codec digest urls (pos n) options ≡ ok granted
unfolding check_request issued_claims ◌+ℤ◌ text_beq
check_at n lo hi =
    rw
      (
        verify-issue_ticket signatures base64url json_codec (pos 1000) input 7 (codes "k1") (pos n)
            (ticket_options options) (omega arith, omega arith) (omega arith, omega arith)
            (acceptable n lo hi),
        key_of_request,
      )
      refl

abbrev pub spent_cache : JtiReplayCache
spent_cache = record { seen = (codes "t1", pos 1060) ∷ []; last_sweep = pos 1001; max_entries = 3 }

spend_claims : spend claims (pos 1001) (some (new_cache 3)) ≡ (true, some spent_cache)
unfolding spend issued_claims ◌+ℤ◌ consume Map.has sweep ◌-ℤ◌ Map.set evict drop_expired
spend_claims = refl

pub granted_once :
    verify_request_ticket signatures base64url json_codec digest urls
      (pos 1001)
      options
      (some (new_cache 3))
    ≡ (ok granted, some spent_cache)
granted_once =
    verify_request_ticket_granted signatures base64url json_codec digest urls (pos 1001) options
      (some (new_cache 3)) (some spent_cache) granted (check_at 1001 (omega arith) (omega arith))
      spend_claims

verify_request_ticket_binds_example :
    (verify_ticket signatures base64url json_codec
        (pos 1001)
        options.token
        7
        (ticket_options options)
      ≡ ok (record { claims = claims; kid = some (str (codes "k1")) }))
    × (generate_dedupe_key digest json_codec urls request ≡ ok claims.sub)
    × (codes "0708" ≡ claims.sub)
verify_request_ticket_binds_example =
    verify_request_ticket_binds signatures base64url json_codec digest urls (pos 1001) options
      (some (new_cache 3)) (some spent_cache) granted granted_once

-- The same request with a text that is no token.
abbrev other_options : VerifyRequestTicketOptions
other_options = record options { token = codes "v3.local." }

check_refused :
    check_request signatures base64url json_codec digest urls (pos 1001) other_options
    ≡ err (ticket_error (paseto_error unsupported_header))
unfolding check_request verify_ticket verify_v4_public starts_with
check_refused = refl

refused_token :
    verify_request_ticket signatures base64url json_codec digest urls
      (pos 1001)
      other_options
      (some spent_cache)
    ≡ (err (ticket_error (paseto_error unsupported_header)), some spent_cache)
refused_token =
    verify_request_ticket_refused signatures base64url json_codec digest urls (pos 1001)
      other_options (some spent_cache) _ check_refused

verify_request_ticket_keeps_example : some spent_cache ≡ some spent_cache
verify_request_ticket_keeps_example =
    verify_request_ticket_keeps signatures base64url json_codec digest urls (pos 1001) other_options
      (some spent_cache) (some spent_cache) (ticket_error (paseto_error unsupported_header))
      refused_token (λ e. cc)

abbrev other : Use
other = record { jti = codes "t2"; exp = pos 1061; now = pos 1002 }

Before-expiry : Before claims.exp (other ∷ [])
unfolding issued_claims ◌+ℤ◌
Before-expiry = (omega arith, tt)

soon : pos 1003 <ℤ claims.exp
unfolding issued_claims ◌+ℤ◌
soon = omega arith

due : (pos 1001 +ℤ pos 30) ≤ℤ pos 1062
unfolding ◌+ℤ◌
due = omega arith

expired : claims.exp ≤ℤ pos 1062
unfolding issued_claims ◌+ℤ◌
expired = omega arith

tolerated : pos 1062 ≤ℤ (claims.exp +ℤ pos 5)
unfolding issued_claims ◌+ℤ◌
tolerated = omega arith

verify_request_ticket_once_example :
    verify_request_ticket signatures base64url json_codec digest urls
      (pos 1003)
      options
      (some (consume_all (other ∷ []) spent_cache))
    ≢ (ok granted, none)
verify_request_ticket_once_example =
    verify_request_ticket_once signatures base64url json_codec digest urls (pos 1001) options
      (new_cache 3) spent_cache granted (other ∷ []) (pos 1003) options none granted granted_once
      (omega arith) Before-expiry soon refl

verify_request_ticket_twice_example :
    (verify_request_ticket signatures base64url json_codec digest urls
      (pos 1062)
      options
      (some spent_cache)).0
    ≡ ok granted
verify_request_ticket_twice_example =
    verify_request_ticket_twice signatures base64url json_codec digest urls (pos 1001) (pos 1062)
      options (new_cache 3) spent_cache granted refl granted_once (omega arith) due expired
      tolerated
