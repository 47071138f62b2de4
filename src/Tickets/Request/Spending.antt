-- ===== src/Tickets/Request/Spending.antt =====
-- How often a ticket passes src/tickets/request-ticket.ts.
use consensus_node.Base.{
  ℕ, Text, text_eq, text_eq_iff, Bool, true, false, Option, none, some, ==_refl, Result, ok, err,
  or_else, List, [], ◌∷◌, length, ◌≡◌, refl, ap, sym, ◌∙◌, subst, arith, ◌<◌, ◌≤◌, ◌+◌, ◌≢◌,
  if◌then◌else◌,
}
use consensus_node.Base.Int.{ℤ, pos, ◌≤ℤ◌, ◌<ℤ◌, ◌+ℤ◌, -ℤ_parts, +ℤ_parts, pos_part, neg_part}
use consensus_node.Base.Json.{JsonCodec}
use consensus_node.Base.Map.{has, set}
use consensus_node.Crypto.Primitives.{Signatures, Base64Url}
use consensus_node.Runtime.Url.{UrlApi}
use consensus_node.Tickets.Replay.{JtiReplayCache, consume, sweep, evict, drop_expired}
use consensus_node.Tickets.Replay.SingleUse.{Use, consume_all, Before, consume_once, has-evict}
use consensus_node.Tickets.Ticket.{TicketClaims, default_clock_tolerance_sec, replayed_jti}
use consensus_node.Tickets.Ticket.Accepted.{verify_ticket_until}
use consensus_node.Tickets.Request.Binding.{check_request_binds, commit-eq-ok}
use consensus_node.Tickets.Request.{
  VerifyRequestTicketOptions, VerifiedRequestTicket, RequestError, spend, commit, ticket_options,
  ticket_error, check_request, verify_request_ticket,
}

true≢false : true ≡ false → ⊥
true≢false h = cc

some_injective : (a b : JtiReplayCache) → some a ≡ some b → a ≡ b
some_injective a b h = cc

spend-eq :
    (claims : TicketClaims) (now : ℤ) (c c' : JtiReplayCache)
    → spend claims now (some c) ≡ (true, some c')
    → consume claims.jti claims.exp now c ≡ (true, c')
unfolding spend
spend-eq claims now c c' h = cc (
  ap (λ (p : Bool × Option JtiReplayCache). p.0) h,
  some_injective _ _ (ap (λ (p : Bool × Option JtiReplayCache). p.1) h),
)

spend_again :
    (claims : TicketClaims) (now : ℤ) (c : JtiReplayCache)
    → (consume claims.jti claims.exp now c).0 ≡ true
    → (spend claims now (some c)).0 ≡ true
unfolding spend
spend_again claims now c h = h

spend-fresh :
    (claims : TicketClaims) (now : ℤ) (c : JtiReplayCache) (after : Option JtiReplayCache)
    → spend claims now (some c) ≡ (true, after)
    → (consume claims.jti claims.exp now c).0 ≡ true
unfolding spend
spend-fresh claims now c after h = ap (λ (p : Bool × Option JtiReplayCache). p.0) h

-- The sweep drops an entry that has expired.
has-expired :
    (jti : Text) (exp now : ℤ) (seen : List (Text × ℤ))
    → has jti seen ≡ false
    → exp ≤ℤ now
    → has jti (drop_expired now (set jti exp seen)) ≡ false
unfolding has set drop_expired
has-expired jti exp now [] new le = ground (arith, text_eq_iff jti jti)
has-expired jti exp now ((j, e) ∷ seen) new le = ground (arith, has-expired jti exp now seen)

last_sweep-consume :
    (jti : Text) (exp now : ℤ) (c : JtiReplayCache)
    → c.last_sweep ≤ℤ now
    → (consume jti exp now c).1.last_sweep ≤ℤ now
unfolding consume sweep
last_sweep-consume jti exp now c le = ground arith

seen-sweep_due :
    (now : ℤ) (c : JtiReplayCache)
    → pos_part c.last_sweep + neg_part now + 30 ≤ pos_part now + neg_part c.last_sweep
    → (sweep now c).seen ≡ drop_expired now c.seen
unfolding sweep
seen-sweep_due now c due = ground (arith, -ℤ_parts now c.last_sweep)

consume-new :
    (jti : Text) (exp now : ℤ) (c c' : JtiReplayCache)
    → consume jti exp now c ≡ (true, c')
    → (has jti (sweep now c).seen ≡ false)
      × (c'.seen ≡ set jti exp (evict (sweep now c).max_entries (sweep now c).seen))
unfolding consume
consume-new jti exp now c c' h = ground arith

consume_unseen :
    (jti : Text) (exp now : ℤ) (c : JtiReplayCache)
    → has jti (sweep now c).seen ≡ false
    → (consume jti exp now c).0 ≡ true
unfolding consume
consume_unseen jti exp now c new = ground arith

consume_expired :
    (jti : Text) (exp now later : ℤ) (c c' : JtiReplayCache)
    → consume jti exp now c ≡ (true, c')
    → c.last_sweep ≤ℤ now
    → (now +ℤ pos 30) ≤ℤ later
    → exp ≤ℤ later
    → (consume jti exp later c').0 ≡ true
consume_expired jti exp now later c c' h swept due le =
    let (new, seen) = consume-new jti exp now c c' h in
    let last : c'.last_sweep ≤ℤ now =
      subst (λ (r : Bool × JtiReplayCache). r.1.last_sweep ≤ℤ now) h
        (last_sweep-consume jti exp now c swept) in
    let gone : has jti (drop_expired later c'.seen) ≡ false =
      rw seen (has-expired jti exp later _ (has-evict jti exp _ jti _ new) le) in
    consume_unseen jti exp later c'
      (ap (has jti) (seen-sweep_due later c' (omega (arith, +ℤ_parts now (pos 30)))) ∙ gone)

module _ (signatures : Signatures) (base64url : Base64Url) (json : JsonCodec)
    (sha256 : List ℕ → List ℕ) (urls : UrlApi) where
  passed :
      (clock : ℤ) (opts : VerifyRequestTicketOptions) (replay after : Option JtiReplayCache)
      (v : VerifiedRequestTicket)
      → verify_request_ticket signatures base64url json sha256 urls clock opts replay
        ≡ (ok v, after)
      → (check_request signatures base64url json sha256 urls clock opts ≡ ok v)
        × (spend v.claims (or_else opts.now clock) replay ≡ (true, after))
  unfolding verify_request_ticket
  passed clock opts replay after v h =
      commit-eq-ok (ticket_error replayed_jti) (λ (w : VerifiedRequestTicket). w.claims) _ replay
        after (check_request signatures base64url json sha256 urls clock opts) v h

  -- A ticket id passes once: after it has passed, no request with a ticket of the same id passes
  -- before that ticket expires, whatever other ids were used in between, as long as those uses were
  -- fewer than the bound of the cache and came before that expiry too.
  pub verify_request_ticket_once :
      (clock : ℤ) (opts : VerifyRequestTicketOptions) (c c' : JtiReplayCache)
      (v : VerifiedRequestTicket) (others : List Use) (later : ℤ)
      (opts' : VerifyRequestTicketOptions) (after : Option JtiReplayCache)
      (w : VerifiedRequestTicket)
      → verify_request_ticket signatures base64url json sha256 urls clock opts (some c)
        ≡ (ok v, some c')
      → length others < c.max_entries
      → Before v.claims.exp others
      → or_else opts'.now later <ℤ v.claims.exp
      → w.claims.jti ≡ v.claims.jti
      → verify_request_ticket signatures base64url json sha256 urls later opts'
          (some (consume_all others c'))
        ≢ (ok w, after)
  verify_request_ticket_once clock opts c c' v others later opts' after w h room before lt same
        again =
      let (_, spent) = passed clock opts (some c) (some c') v h in
      let (_, spent') = passed later opts' (some (consume_all others c')) after w again in
      let used = spend-eq v.claims _ c c' spent in
      let kept =
        consume_once v.claims.jti v.claims.exp _ c c' others w.claims.exp _ used room before lt in
      let reused = spend-fresh w.claims _ (consume_all others c') after spent' in
      true≢false (
        sym (
          subst
            (λ (j : Text).
              (consume j w.claims.exp (or_else opts'.now later) (consume_all others c')).0 ≡ true)
            same reused)
        ∙ kept)

  check_request_later :
      (clock later : ℤ) (opts : VerifyRequestTicketOptions) (v : VerifiedRequestTicket)
      → opts.now ≡ none
      → clock ≤ℤ later
      → later ≤ℤ (v.claims.exp +ℤ or_else opts.clock_tolerance_sec default_clock_tolerance_sec)
      → check_request signatures base64url json sha256 urls clock opts ≡ ok v
      → check_request signatures base64url json sha256 urls later opts ≡ ok v
  unfolding check_request
  check_request_later clock later opts v live le le' h =
      let (verified, computed, bound) =
        check_request_binds signatures base64url json sha256 urls clock opts v h in
      let again =
        (verify_ticket_until signatures base64url json clock later opts.token opts.public_key
            (ticket_options opts) (record { claims = v.claims; kid = v.kid }) live verified le).0
          le' in
      rw (again, computed, ==_refl v.claims.sub, bound) refl

  -- Between its expiry and the end of the clock tolerance a ticket that has passed can pass again: the
  -- sweep that comes first, when the last one is 30 seconds old, has dropped its id, while the claims
  -- are still accepted.
  pub verify_request_ticket_twice :
      (clock later : ℤ) (opts : VerifyRequestTicketOptions) (c c' : JtiReplayCache)
      (v : VerifiedRequestTicket)
      → opts.now ≡ none
      → verify_request_ticket signatures base64url json sha256 urls clock opts (some c)
        ≡ (ok v, some c')
      → c.last_sweep ≤ℤ clock
      → (clock +ℤ pos 30) ≤ℤ later
      → v.claims.exp ≤ℤ later
      → later ≤ℤ (v.claims.exp +ℤ or_else opts.clock_tolerance_sec default_clock_tolerance_sec)
      → (verify_request_ticket signatures base64url json sha256 urls later opts (some c')).0 ≡ ok v
  unfolding verify_request_ticket commit
  verify_request_ticket_twice clock later opts c c' v live h swept due expired tolerated =
      let (checked, spent) = passed clock opts (some c) (some c') v h in
      let checked' =
        check_request_later clock later opts v live (omega (arith, +ℤ_parts clock (pos 30)))
          tolerated checked in
      let used = spend-eq v.claims _ c c' (
        subst (λ (n : Option ℤ). spend v.claims (or_else n clock) (some c) ≡ (true, some c')) live
          spent) in
      let fresh =
        consume_expired v.claims.jti v.claims.exp clock later c c' used swept due expired in
      let spent' : (spend v.claims (or_else opts.now later) (some c')).0 ≡ true =
        rw live (spend_again v.claims later c' fresh) in
      ap
        (λ (r : Result RequestError VerifiedRequestTicket).
          (commit (λ (w : VerifiedRequestTicket). w.claims) (ticket_error replayed_jti)
            (or_else opts.now later) (some c') r).0)
        checked'
      ∙ ap (λ (b : Bool). if b then ok v else err (ticket_error replayed_jti)) spent'
