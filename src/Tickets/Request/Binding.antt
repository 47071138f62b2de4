-- ===== src/Tickets/Request/Binding.antt =====
-- What src/tickets/request-ticket.ts demands of a request, and when it touches the replay cache.
use consensus_node.Base.{
  ℕ, text_eq, Bool, true, false, Option, ◌==◌, ==_sound, Result, ok, err, map_err, map_err-eq-ok,
  guard-eq-ok, >>=-eq-ok, or_else, List, ◌≡◌, ap, ap₂, subst, guard, ◌∙◌, ◌≢◌, if◌then◌else◌,
}
use consensus_node.Base.Int.{ℤ}
use consensus_node.Base.Json.{Json, JsonCodec}
use consensus_node.Crypto.Primitives.{Signatures, Base64Url}
use consensus_node.Runtime.Url.{UrlApi}
use consensus_node.Runtime.Dedupe.{generate_dedupe_key}
use consensus_node.Tickets.Replay.{JtiReplayCache}
use consensus_node.Tickets.Ticket.{TicketClaims, verify_ticket, replayed_jti}
use consensus_node.Tickets.Request.{
  VerifyRequestTicketOptions, VerifiedRequestTicket, RequestError, ticket_error, dedupe_error,
  request_mismatch, ticket_options, spend, commit, check_request, verify_request_ticket,
}

module _ {ℓ} {E : Type ℓ} {A : Type 0} (replayed : E) where
  abbrev answer : A → Bool × Option JtiReplayCache → Result E A × Option JtiReplayCache
  answer w p = (if p.0 then ok w else err replayed, p.1)

  settled_ok :
      (p : Bool × Option JtiReplayCache) (w v : A) (after : Option JtiReplayCache)
      → answer w p ≡ (ok v, after)
      → (w ≡ v) × (p ≡ (true, after))
  settled_ok (true, c) w v after h = (cc, ap (λ (s : Option JtiReplayCache). (true, s)) cc)
  settled_ok (false, c) w v after h = cc

  settled_err :
      (p : Bool × Option JtiReplayCache) (w : A) (e : E) (after : Option JtiReplayCache)
      → answer w p ≡ (err e, after)
      → e ≡ replayed
  settled_err (true, c) w e after h = cc
  settled_err (false, c) w e after h = cc

  -- What a committed result says of the result and of the cache.
  module _ (claims_of : A → TicketClaims) (now : ℤ) where
    pub commit-eq-ok :
        (replay after : Option JtiReplayCache) (r : Result E A) (v : A)
        → commit claims_of replayed now replay r ≡ (ok v, after)
        → (r ≡ ok v) × (spend (claims_of v) now replay ≡ (true, after))
    unfolding commit
    commit-eq-ok replay after (err e) v h = cc
    commit-eq-ok replay after (ok w) v h =
        let (same, fresh) = settled_ok (spend (claims_of w) now replay) w v after h in
        (ap ok same, subst (λ (u : A). spend (claims_of u) now replay ≡ (true, after)) same fresh)

    pub commit-eq-err :
        (replay after : Option JtiReplayCache) (r : Result E A) (e : E)
        → commit claims_of replayed now replay r ≡ (err e, after)
        → e ≢ replayed
        → after ≡ replay
    unfolding commit
    commit-eq-err replay after (err d) e h other = cc
    commit-eq-err replay after (ok w) e h other =
        absurd (other (settled_err (spend (claims_of w) now replay) w e after h))

module _ (signatures : Signatures) (base64url : Base64Url) (json : JsonCodec)
    (sha256 : List ℕ → List ℕ) (urls : UrlApi) where
  -- A call whose checks pass and whose id is fresh, and one whose checks fail.
  pub verify_request_ticket_granted :
      (clock : ℤ) (opts : VerifyRequestTicketOptions) (replay after : Option JtiReplayCache)
      (v : VerifiedRequestTicket)
      → check_request signatures base64url json sha256 urls clock opts ≡ ok v
      → spend v.claims (or_else opts.now clock) replay ≡ (true, after)
      → verify_request_ticket signatures base64url json sha256 urls clock opts replay
        ≡ (ok v, after)
  unfolding verify_request_ticket commit
  verify_request_ticket_granted clock opts replay after v checked spent =
      ap
        (commit (λ (w : VerifiedRequestTicket). w.claims) (ticket_error replayed_jti)
          (or_else opts.now clock) replay)
        checked
      ∙ ap (answer (ticket_error replayed_jti) v) spent

  pub verify_request_ticket_refused :
      (clock : ℤ) (opts : VerifyRequestTicketOptions) (replay : Option JtiReplayCache)
      (e : RequestError)
      → check_request signatures base64url json sha256 urls clock opts ≡ err e
      → verify_request_ticket signatures base64url json sha256 urls clock opts replay
        ≡ (err e, replay)
  unfolding verify_request_ticket commit
  verify_request_ticket_refused clock opts replay e refused =
      ap
        (commit (λ (w : VerifiedRequestTicket). w.claims) (ticket_error replayed_jti)
          (or_else opts.now clock) replay)
        refused

  pub check_request_binds :
      (clock : ℤ) (opts : VerifyRequestTicketOptions) (v : VerifiedRequestTicket)
      → check_request signatures base64url json sha256 urls clock opts ≡ ok v
      → (verify_ticket signatures base64url json clock opts.token opts.public_key
            (ticket_options opts)
          ≡ ok (record { claims = v.claims; kid = v.kid }))
        × (generate_dedupe_key sha256 json urls opts.request ≡ ok v.claims.sub)
        × (v.dedupe_key ≡ v.claims.sub)
  unfolding check_request
  check_request_binds clock opts v h =
      let (t, verified, h1) =
        >>=-eq-ok
          (map_err ticket_error (
            verify_ticket signatures base64url json clock opts.token opts.public_key
              (ticket_options opts)))
          _ h in
      let (key, computed, h2) =
        >>=-eq-ok (map_err dedupe_error (generate_dedupe_key sha256 json urls opts.request)) _ h1 in
      let (_, bound, h3) = >>=-eq-ok (guard (key == t.claims.sub) request_mismatch) _ h2 in
      let same : key ≡ t.claims.sub = ==_sound key t.claims.sub (guard-eq-ok _ _ bound) in
      let claims : t.claims ≡ v.claims = cc h3 in
      let kid : t.kid ≡ v.kid = cc h3 in
      let field : v.dedupe_key ≡ key = cc h3 in
      let sub : key ≡ v.claims.sub = same ∙ ap (λ (c : TicketClaims). c.sub) claims in
      (
        map_err-eq-ok _ _ verified
            ∙ ap₂ (λ (c : TicketClaims) (k : Option Json). ok (record { claims = c; kid = k }))
                claims kid,
        map_err-eq-ok _ _ computed ∙ ap ok sub,
        field ∙ sub,
      )

  -- A request is let through only with a ticket that verifies at this node, and whose bound key is the
  -- dedupe key of this very request.
  pub verify_request_ticket_binds :
      (clock : ℤ) (opts : VerifyRequestTicketOptions) (replay after : Option JtiReplayCache)
      (v : VerifiedRequestTicket)
      → verify_request_ticket signatures base64url json sha256 urls clock opts replay
        ≡ (ok v, after)
      → (verify_ticket signatures base64url json clock opts.token opts.public_key
            (ticket_options opts)
          ≡ ok (record { claims = v.claims; kid = v.kid }))
        × (generate_dedupe_key sha256 json urls opts.request ≡ ok v.claims.sub)
        × (v.dedupe_key ≡ v.claims.sub)
  unfolding verify_request_ticket
  verify_request_ticket_binds clock opts replay after v h =
      let (checked, _) =
        commit-eq-ok (ticket_error replayed_jti) (λ (w : VerifiedRequestTicket). w.claims) _ replay
          after (check_request signatures base64url json sha256 urls clock opts) v h in
      check_request_binds clock opts v checked

  -- A request that is refused for any reason but a spent id leaves the replay cache as it was, so it
  -- burns no ticket.
  pub verify_request_ticket_keeps :
      (clock : ℤ) (opts : VerifyRequestTicketOptions) (replay after : Option JtiReplayCache)
      (e : RequestError)
      → verify_request_ticket signatures base64url json sha256 urls clock opts replay
        ≡ (err e, after)
      → e ≢ ticket_error replayed_jti
      → after ≡ replay
  unfolding verify_request_ticket
  verify_request_ticket_keeps clock opts replay after e h other =
      commit-eq-err (ticket_error replayed_jti) (λ (w : VerifiedRequestTicket). w.claims) _ replay
        after (check_request signatures base64url json sha256 urls clock opts) e h other
