-- ===== src/Tickets/Request.antt =====
-- src/tickets/request-ticket.ts and src/tickets/verifier.ts: a ticket is checked, bound to the
-- request, and spent. The replay cache is shared: the state goes in and comes out.
pub mod Binding
pub mod Spending
use consensus_node.Base.{
  ℕ, Text, text_eq, utf8, Bool, true, false, Option, none, some, ◌==◌, Result, ok, err, ◌>>=◌, ◌>>◌,
  guard, map_err, or_else, if◌then◌else◌, List,
}
use consensus_node.Base.Int.{ℤ}
use consensus_node.Base.Json.{Json, JsonCodec}
use consensus_node.Crypto.Primitives.{Signatures, Base64Url}
use consensus_node.Runtime.Url.{UrlApi}
use consensus_node.Runtime.Dedupe.{DedupeParams, DedupeError, generate_dedupe_key}
use consensus_node.Tickets.Replay.{JtiReplayCache, consume}
use consensus_node.Tickets.Ticket.{
  TicketClaims, TicketError, VerifiedTicket, VerifyTicketOptions, verify_ticket, replayed_jti,
}

pub record VerifyRequestTicketOptions : Type 0 where
  pub token : Text
  pub node_id : Text
  pub public_key : ℕ
  pub request : DedupeParams
  pub expected_scope : Option Text
  pub now : Option ℤ
  pub clock_tolerance_sec : Option ℤ

pub record VerifiedRequestTicket : Type 0 where
  pub claims : TicketClaims
  pub kid : Option Json
  pub dedupe_key : Text

pub data RequestError : Type 0 where
  ticket_error : TicketError → RequestError
  dedupe_error : DedupeError → RequestError
  request_mismatch : RequestError

-- `if (replay) if (!replay.consume(jti, exp, now)) throw …`
unfoldable pub spend : TicketClaims → ℤ → Option JtiReplayCache → Bool × Option JtiReplayCache
spend claims now none = (true, none)
spend claims now (some cache) =
    let (fresh, after) = consume claims.jti claims.exp now cache in (fresh, some after)

-- The id is spent only when everything else has passed.
unfoldable pub commit {ℓ} :
    {E : Type ℓ} {A : Type 0}
    → (A → TicketClaims)
    → E
    → ℤ
    → Option JtiReplayCache
    → Result E A
    → Result E A × Option JtiReplayCache
commit claims_of replayed now replay (err e) = (err e, replay)
commit claims_of replayed now replay (ok v) =
    let (fresh, after) = spend (claims_of v) now replay in
    (if fresh then ok v else err replayed, after)

abbrev pub ticket_options : VerifyRequestTicketOptions → VerifyTicketOptions
ticket_options opts = record {
  expected_node_id = opts.node_id;
  expected_scope = opts.expected_scope;
  now = opts.now;
  clock_tolerance_sec = opts.clock_tolerance_sec;
}

module _ (signatures : Signatures) (base64url : Base64Url) (json : JsonCodec) where
  -- verifier.ts
  unfoldable pub verify_routing_ticket :
      ℤ
      → Text
      → ℕ
      → VerifyTicketOptions
      → Option JtiReplayCache
      → Result TicketError VerifiedTicket × Option JtiReplayCache
  verify_routing_ticket clock token public_key opts replay =
      commit (λ (v : VerifiedTicket). v.claims) replayed_jti (or_else opts.now clock) replay
        (verify_ticket signatures base64url json clock token public_key opts)

  module _ (sha256 : List ℕ → List ℕ) (urls : UrlApi) where
    -- Everything of `verifyRequestTicket` before the id is spent.
    unfoldable pub check_request :
        ℤ → VerifyRequestTicketOptions → Result RequestError VerifiedRequestTicket
    check_request clock opts = do
      v ← map_err ticket_error (
          verify_ticket signatures base64url json clock opts.token opts.public_key
            (ticket_options opts))
      dedupe_key ← map_err dedupe_error (generate_dedupe_key sha256 json urls opts.request)
      guard (dedupe_key == v.claims.sub) request_mismatch
      ok (record { claims = v.claims; kid = v.kid; dedupe_key = dedupe_key })

    unfoldable pub verify_request_ticket :
        ℤ
        → VerifyRequestTicketOptions
        → Option JtiReplayCache
        → Result RequestError VerifiedRequestTicket × Option JtiReplayCache
    verify_request_ticket clock opts replay =
        commit (λ (v : VerifiedRequestTicket). v.claims) (ticket_error replayed_jti)
          (or_else opts.now clock) replay (check_request clock opts)
