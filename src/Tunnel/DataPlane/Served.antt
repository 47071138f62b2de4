-- ===== src/Tunnel/DataPlane/Served.antt =====
-- What src/tunnel/data-plane.ts has checked of a request that it serves.
use consensus_node.Base.{
  ℕ, Text, codes, utf8, Bool, List, [], Option, none, some, Result, ok, err, ◌≡◌, refl, ap, or_else,
  ◌∙◌, if◌then◌else◌, map_err, map_err-eq-ok, >>=-eq-ok, ok-injective,
}
use mathlib.Core.Option
use consensus_node.Runtime.Dedupe.{RequestBody, DedupeParams, no_body, buffer, generate_dedupe_key}
use consensus_node.Tickets.Request.Binding.{verify_request_ticket_binds}
use consensus_node.Base.Int.{ℤ}
use consensus_node.Base.Case.{to_upper_case}
use consensus_node.Base.Json.{Json, JsonCodec}
use consensus_node.Crypto.Primitives.{Aead, Signatures, Base64Url}
use consensus_node.Runtime.Url.{Url, UrlApi}
use consensus_node.Runtime.Profile.Prepared.{PreparedProxyProfileV1, prepare_proxy_profile_request}
use consensus_node.Runtime.Serve.{ProxyResult}
use consensus_node.Tickets.Replay.{JtiReplayCache}
use consensus_node.Tickets.Request.{VerifiedRequestTicket, RequestError, verify_request_ticket}
use consensus_node.Tunnel.DataPlane.{
  ProxyRequestPayload, ProxyServeRequest, PlaneError, profile_error, proxy_response,
  DataPlaneServeDeps, dedupe_params, served_request, decode_body, body_bytes,
}
use consensus_node.Tunnel.DataPlane.Resolve.{
  prepared_of, ticket_call, response_of, when_verified, when_prepared, verify_and_serve,
  answer_payload,
}

response_of-eq-response :
    (o : Result ℕ ProxyResult) (r : ProxyResult) → response_of o ≡ proxy_response r → o ≡ ok r
response_of-eq-response (ok s) r h = cc
response_of-eq-response (err e) r h = cc

when_verified-eq-response :
    (deps : DataPlaneServeDeps) (request : ProxyServeRequest)
    (q : Result RequestError VerifiedRequestTicket × Option JtiReplayCache) (r : ProxyResult)
    (after : Option JtiReplayCache)
    → when_verified deps request q ≡ (proxy_response r, after)
    → (v : VerifiedRequestTicket) × (q ≡ (ok v, after)) × (deps.serve request ≡ ok r)
when_verified-eq-response deps request (ok v, a) r after h = (
  v,
  ap (λ (c : Option JtiReplayCache). (ok v, c)) (ap (λ u. u.1) h),
  response_of-eq-response (deps.serve request) r (ap (λ u. u.0) h),
)
when_verified-eq-response deps request (err e, a) r after h = cc

some-none : (q : PreparedProxyProfileV1) → some q ≡ none → ⊥
some-none q h = cc

some_injective :
    (a b : PreparedProxyProfileV1)
    → ◌≡◌ {A = Option PreparedProxyProfileV1} (some a) (some b)
    → a ≡ b
some_injective a b h = cc

module _ (from_base64 : Text → List ℕ) (aead : Aead) (signatures : Signatures)
    (base64url : Base64Url) (json : JsonCodec) (sha256 : List ℕ → List ℕ) (urls : UrlApi)
    (parse_local : Text → Option Url) where
  when_prepared-eq-response :
      (deps : DataPlaneServeDeps) (clock : ℤ) (p : ProxyRequestPayload) (method : Text)
      (replay after : Option JtiReplayCache) (r : ProxyResult)
      (m : Result PlaneError (Option PreparedProxyProfileV1))
      → when_prepared from_base64 aead signatures base64url json sha256 urls parse_local deps clock
          p method replay m
        ≡ (proxy_response r, after)
      → (prepared : Option PreparedProxyProfileV1) × (v : VerifiedRequestTicket) × (m ≡ ok prepared)
        × (verify_request_ticket signatures base64url json sha256 urls clock
              (ticket_call deps p.token (dedupe_params from_base64 p method prepared))
              replay
            ≡ (ok v, after))
        × (deps.serve (served_request from_base64 p method prepared) ≡ ok r)
  unfolding verify_and_serve
  when_prepared-eq-response deps clock p method replay after r (err e) h = cc
  when_prepared-eq-response deps clock p method replay after r (ok prepared) h =
      let (v, verified, served) =
        when_verified-eq-response deps (served_request from_base64 p method prepared) _ r after h in
      (prepared, v, refl, verified, served)

  -- The profile that was asked for was accepted for the request, and gives its headers and the hash that
  -- the ticket covers; without one they are the payload's own and none.
  pub data HasProfile (p : ProxyRequestPayload) (request : ProxyServeRequest)
      : Option Text → Type 0 where
    no_profile :
        p.profile ≡ none
        → request.profile ≡ none
        → request.headers ≡ or_else p.headers []
        → HasProfile p request none
    accepted :
        (profile : Json) (prepared : PreparedProxyProfileV1)
        → p.profile ≡ some profile
        → prepare_proxy_profile_request sha256 json urls parse_local profile request.target_url
            request.method
            (or_else p.headers [])
          ≡ ok prepared
        → request.profile ≡ some prepared.profile
        → request.headers ≡ prepared.headers
        → HasProfile p request (some prepared.profile_hash)

  -- What the ticket has to cover of the request that is served.
  abbrev pub covering : ProxyServeRequest → Option Text → DedupeParams
  covering request hash = record {
    target_url = request.target_url;
    method = request.method;
    headers = request.headers;
    body = elim request.body [ none ↦ no_body | some bytes ↦ buffer bytes ];
    profile_hash = hash;
  }

  body_cases :
      (b : Option (List ℕ))
      → ◌≡◌ {A = RequestBody} (elim b [ none ↦ no_body | some bytes ↦ buffer bytes ]) (body_bytes b)
  body_cases none = refl
  body_cases (some bytes) = refl

  dedupe_params-covering :
      (p : ProxyRequestPayload) (method : Text) (prepared : Option PreparedProxyProfileV1)
      → covering
          (served_request from_base64 p method prepared)
          (Option.map PreparedProxyProfileV1.profile_hash prepared)
        ≡ dedupe_params from_base64 p method prepared
  unfolding dedupe_params served_request
  dedupe_params-covering p method prepared =
      ap
        (λ (b : RequestBody). record {
          target_url = p.target_url;
          method = method;
          headers =
              or_else (Option.map PreparedProxyProfileV1.headers prepared) (or_else p.headers []);
          body = b;
          profile_hash = Option.map PreparedProxyProfileV1.profile_hash prepared;
        })
        (body_cases (decode_body from_base64 p.body p.is_base64))

  decode_body-map :
      (body : Option Text) (is_base64 : Bool)
      → decode_body from_base64 body is_base64
        ≡ Option.map (λ text. if is_base64 then from_base64 text else utf8 text) body
  unfolding decode_body
  decode_body-map none is_base64 = refl
  decode_body-map (some text) is_base64 = refl

  profile_cases :
      (p : ProxyRequestPayload) (method : Text) (prepared : Option PreparedProxyProfileV1)
      (o : Option Json)
      → p.profile ≡ o
      → prepared_of from_base64 aead signatures base64url json sha256 urls parse_local
          (record p { profile = o })
          method
        ≡ ok prepared
      → HasProfile p
          (served_request from_base64 p method prepared)
          (Option.map PreparedProxyProfileV1.profile_hash prepared)
  unfolding prepared_of served_request
  profile_cases p method none none at h = no_profile at refl refl
  profile_cases p method (some q) none at h = cc
  profile_cases p method none (some profile) at h =
      let (q, made, same) =
        >>=-eq-ok
          (map_err profile_error (
            prepare_proxy_profile_request sha256 json urls parse_local profile p.target_url method
              (or_else p.headers [])))
          (λ x. ok (some x)) h in
      absurd (some-none q (ok-injective same))
  profile_cases p method (some q) (some profile) at h =
      let (q', made, same) =
        >>=-eq-ok
          (map_err profile_error (
            prepare_proxy_profile_request sha256 json urls parse_local profile p.target_url method
              (or_else p.headers [])))
          (λ x. ok (some x)) h in
      accepted profile q at
        (map_err-eq-ok profile_error _ made ∙ ap ok (some_injective q' q (ok-injective same))) refl
        refl

  prepared-HasProfile :
      (p : ProxyRequestPayload) (method : Text) (prepared : Option PreparedProxyProfileV1)
      → prepared_of from_base64 aead signatures base64url json sha256 urls parse_local p method
        ≡ ok prepared
      → HasProfile p
          (served_request from_base64 p method prepared)
          (Option.map PreparedProxyProfileV1.profile_hash prepared)
  prepared-HasProfile p method prepared h = profile_cases p method prepared p.profile refl h

  pub record IsServed (deps : DataPlaneServeDeps) (clock : ℤ) (p : ProxyRequestPayload)
      (replay after : Option JtiReplayCache) (r : ProxyResult) : Type 0 where
    pub request : ProxyServeRequest
    pub hash : Option Text
    pub ticket : VerifiedRequestTicket
    pub same_target : request.target_url ≡ p.target_url
    pub same_method : request.method ≡ to_upper_case (or_else p.method (codes "GET"))
    pub same_body :
        request.body
        ≡ Option.map (λ text. if p.is_base64 then from_base64 text else utf8 text) p.body
    pub profile : HasProfile p request hash
    pub verified :
        verify_request_ticket signatures base64url json sha256 urls clock
          (record {
            token = p.token;
            node_id = deps.node_id;
            public_key = deps.pinned_key;
            request = covering request hash;
            expected_scope = none;
            now = none;
            clock_tolerance_sec = none;
          })
          replay
        ≡ (ok ticket, after)
    pub bound : generate_dedupe_key sha256 json urls (covering request hash) ≡ ok ticket.claims.sub
    pub served : deps.serve request ≡ ok r

  -- No request is served on its own word: when a payload is answered with a response, the response is
  -- what the serve function gave for a request with the payload's address, method, body and, but for
  -- what its profile sets, headers. That profile was accepted, and the payload's token was verified
  -- under the pinned key for this node, against the replay cache if there is one, as a ticket whose
  -- bound key is the dedupe key of exactly the method, address, headers and body that were served and
  -- of the profile's hash.
  pub answer_payload-IsServed :
      (deps : DataPlaneServeDeps) (clock : ℤ) (p : ProxyRequestPayload)
      (replay after : Option JtiReplayCache) (r : ProxyResult)
      → answer_payload from_base64 aead signatures base64url json sha256 urls parse_local deps clock
          p replay
        ≡ (proxy_response r, after)
      → IsServed deps clock p replay after r
  unfolding answer_payload dedupe_params served_request ticket_call
  answer_payload-IsServed deps clock p replay after r h =
      let method = to_upper_case (or_else p.method (codes "GET")) in
      let (prepared, v, profile, verified, served) =
        when_prepared-eq-response deps clock p method replay after r _ h in
      let request = served_request from_base64 p method prepared in
      let hash = Option.map PreparedProxyProfileV1.profile_hash prepared in
      let called =
        ap
          (λ d.
            verify_request_ticket signatures base64url json sha256 urls clock
              (ticket_call deps p.token d) replay)
          (dedupe_params-covering p method prepared)
        ∙ verified in
      let (_, bound, _) =
        verify_request_ticket_binds signatures base64url json sha256 urls clock _ replay after v
          called in
      record {
        request = request;
        hash = hash;
        ticket = v;
        same_target = refl;
        same_method = refl;
        same_body = decode_body-map p.body p.is_base64;
        profile = prepared-HasProfile p method prepared profile;
        verified = called;
        bound = bound;
        served = served;
      }
