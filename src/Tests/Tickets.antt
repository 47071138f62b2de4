-- ===== src/Tests/Tickets.antt =====
-- src/tickets on concrete tokens, requests and caches.
use consensus_node.Base.{
  ℕ, ◌≡◌, refl, true, List, [], ◌∷◌, none, some, ok, Text, codes, arith, text_eq, utf8,
}
use consensus_node.Base.Int.{pos, ◌+ℤ◌, ◌-ℤ◌}
use consensus_node.Base.Map
use consensus_node.Base.Json.{Json, str}
use consensus_node.Tickets.Paseto.{VerifiedToken, verify_v4_public}
use consensus_node.Tickets.Paseto.Encoding.{AreShort}
use consensus_node.Tickets.Replay.{sweep, evict, JtiReplayCache, new_cache, consume}
use consensus_node.Tickets.Replay.SingleUse.{Use}
use consensus_node.Tickets.Ticket.{
  IssueTicketInput, VerifyTicketOptions, VerifiedTicket, TicketClaims, issued_claims, issue_ticket,
  verify_ticket,
}
use consensus_node.Tickets.Ticket.Issued.{Acceptable, IsIssuer, verify-issue_ticket}
use consensus_node.Tickets.Ticket.Accepted.{Says, verify_ticket_checks}
use consensus_node.Tests.Instances.{signatures, base64url}
use consensus_node.Tests.StackJson.{json_codec}

abbrev input : IssueTicketInput
input = record {
  node_id = codes "node-1";
  dedupe_key = codes "abcd";
  jti = codes "t1";
  ttl_sec = none;
  scope = none;
  now = none;
}

abbrev options : VerifyTicketOptions
options = record {
  expected_node_id = codes "node-1";
  expected_scope = none;
  now = none;
  clock_tolerance_sec = none;
}

abbrev token : Text
token = issue_ticket signatures base64url json_codec (pos 1000) input 7 (codes "k1")

abbrev claims : TicketClaims
claims = issued_claims (pos 1000) input

acceptable : Acceptable (pos 1065) options claims
unfolding issued_claims ◌+ℤ◌
acceptable = record {
  audience = refl;
  scoped = refl;
  unexpired = omega arith;
  not_early = omega arith;
  named = λ e. cc;
  bound = λ e. cc;
}

Acceptable-soon : Acceptable (pos 1001) options claims
unfolding issued_claims ◌+ℤ◌
Acceptable-soon = record {
  audience = refl;
  scoped = refl;
  unexpired = omega arith;
  not_early = omega arith;
  named = λ e. cc;
  bound = λ e. cc;
}

safe_times : (claims.iat ≡ pos 1000) × (claims.exp ≡ pos 1060)
unfolding issued_claims ◌+ℤ◌
safe_times = (refl, refl)

verify-issue_ticket_example :
    verify_ticket signatures base64url json_codec (pos 1065) token 7 options
    ≡ ok (record { claims = claims; kid = some (str (codes "k1")) })
unfolding issued_claims ◌+ℤ◌
verify-issue_ticket_example =
    verify-issue_ticket signatures base64url json_codec (pos 1000) input 7 (codes "k1") (pos 1065)
      options (omega arith, omega arith) (omega arith, omega arith) acceptable

abbrev verified : VerifiedTicket
verified = record { claims = claims; kid = some (str (codes "k1")) }

verified_soon :
    verify_ticket signatures base64url json_codec (pos 1001) token 7 options ≡ ok verified
unfolding issued_claims ◌+ℤ◌
verified_soon =
    verify-issue_ticket signatures base64url json_codec (pos 1000) input 7 (codes "k1") (pos 1001)
      options (omega arith, omega arith) (omega arith, omega arith) Acceptable-soon

verify_ticket_checks_example :
    (t : VerifiedToken) × (parsed : Json) × (verify_v4_public signatures base64url token 7
        (utf8 options.expected_node_id)
      ≡ ok t)
    × (json_codec.parse t.message ≡ some parsed)
    × Says parsed claims
    × Acceptable (pos 1001) options claims
    × IsIssuer claims
verify_ticket_checks_example =
    verify_ticket_checks signatures base64url json_codec (pos 1001) token 7 options verified
      verified_soon

abbrev signed_token : VerifiedToken
signed_token = record { message = 1 ∷ 2 ∷ []; footer = 3 ∷ [] }

abbrev pieces : List (List ℕ)
pieces = (1 ∷ 2 ∷ []) ∷ [] ∷ (3 ∷ []) ∷ []

pieces_short : AreShort pieces
pieces_short = (omega arith, (omega arith, (omega arith, tt)))

abbrev spent_cache : JtiReplayCache
spent_cache = record (new_cache 2) { seen = (codes "a", pos 60) ∷ [] }

consume_a : consume (codes "a") (pos 60) (pos 0) (new_cache 2) ≡ (true, spent_cache)
unfolding consume Map.has sweep ◌-ℤ◌ Map.set evict
consume_a = refl

abbrev other : Use
other = record { jti = codes "b"; exp = pos 61; now = pos 1 }
