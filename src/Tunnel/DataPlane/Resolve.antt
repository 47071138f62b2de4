-- ===== src/Tunnel/DataPlane/Resolve.antt =====
-- resolveProxyResponse of src/tunnel/data-plane.ts: a request frame is opened, its profile prepared,
-- its ticket verified, and the request served; each failure has its error code.
use consensus_node.Base.{
  ℕ, Text, codes, List, [], Option, none, some, ◌==◌, nat_eq, text_eq, Result, ok, err, ◌>>=◌, ◌>>◌,
  guard, map_err, or_else, or_throw,
}
use consensus_node.Base.Int.{ℤ, pos}
use consensus_node.Base.Case.{to_upper_case}
use consensus_node.Base.Json.{Json, obj, JsonCodec}
use consensus_node.Crypto.Primitives.{Aead, Signatures, Base64Url}
use consensus_node.Crypto.Channel.{SecureSession, seal_frame, open_frame}
use consensus_node.Runtime.Url.{Url, UrlApi}
use consensus_node.Runtime.Dedupe.{DedupeParams}
use consensus_node.Runtime.Profile.Prepared.{PreparedProxyProfileV1, prepare_proxy_profile_request}
use consensus_node.Runtime.Serve.{ProxyResult}
use consensus_node.Tickets.Replay.{JtiReplayCache}
use consensus_node.Tickets.Request.{
  VerifyRequestTicketOptions, VerifiedRequestTicket, RequestError, verify_request_ticket,
}
use consensus_node.Tunnel.FrameType
use consensus_node.Tunnel.DataPlane.{
  ProxyRequestPayload, ProxyServeRequest, PlaneError, channel_error, unexpected_frame_type,
  syntax_error, profile_error, request_error, upstream, bad_request, unauthorized, upstream_error,
  ProxyResponsePayload, proxy_response, error, DataPlaneServeDeps, check_payload, read_payload,
  dedupe_params, served_request, response_fields,
}

unfoldable pub ticket_call : DataPlaneServeDeps → Text → DedupeParams → VerifyRequestTicketOptions
ticket_call deps token request = record {
  token = token;
  node_id = deps.node_id;
  public_key = deps.pinned_key;
  request = request;
  expected_scope = none;
  now = none;
  clock_tolerance_sec = none;
}

-- The last `try`
abbrev pub response_of : Result ℕ ProxyResult → ProxyResponsePayload
response_of (ok result) = proxy_response result
response_of (err e) = error upstream_error (upstream e)

-- The request is served only when its ticket has been verified.
abbrev pub when_verified :
    DataPlaneServeDeps
    → ProxyServeRequest
    → Result RequestError VerifiedRequestTicket × Option JtiReplayCache
    → ProxyResponsePayload × Option JtiReplayCache
when_verified deps request (ok v, after) = (response_of (deps.serve request), after)
when_verified deps request (err e, after) = (error unauthorized (request_error e), after)

module _ (from_base64 : Text → List ℕ) where
  module _ (aead : Aead) (signatures : Signatures) (base64url : Base64Url) (json : JsonCodec)
      (sha256 : List ℕ → List ℕ) (urls : UrlApi) (parse_local : Text → Option Url) where
    -- The first `try`: what it throws is answered with bad_request.
    unfoldable pub open_request : SecureSession → List ℕ → Result PlaneError (Json × Text × Text)
    open_request session request_frame = do
      opened ← map_err channel_error (open_frame aead session.receive_key request_frame)
      guard (opened.frame.type == FrameType.data_frame) unexpected_frame_type
      payload ← or_throw (json.parse opened.plaintext) syntax_error
      checked ← check_payload payload
      ok (payload, checked.0, checked.1)

    unfoldable pub prepared_of :
        ProxyRequestPayload → Text → Result PlaneError (Option PreparedProxyProfileV1)
    prepared_of p method = elim p.profile [
      | none ↦ ok none
      | some profile ↦ do
        prepared ← map_err profile_error (
            prepare_proxy_profile_request sha256 json urls parse_local profile p.target_url method
              (or_else p.headers []))
        ok (some prepared)
    ]

    unfoldable pub verify_and_serve :
        DataPlaneServeDeps
        → ℤ
        → ProxyRequestPayload
        → Text
        → Option PreparedProxyProfileV1
        → Option JtiReplayCache
        → ProxyResponsePayload × Option JtiReplayCache
    verify_and_serve deps clock p method prepared replay =
        when_verified deps (served_request from_base64 p method prepared) (
          verify_request_ticket signatures base64url json sha256 urls clock
            (ticket_call deps p.token (dedupe_params from_base64 p method prepared)) replay)

    abbrev pub when_prepared :
        DataPlaneServeDeps
        → ℤ
        → ProxyRequestPayload
        → Text
        → Option JtiReplayCache
        → Result PlaneError (Option PreparedProxyProfileV1)
        → ProxyResponsePayload × Option JtiReplayCache
    when_prepared deps clock p method replay (err e) = (error bad_request e, replay)
    when_prepared deps clock p method replay (ok prepared) =
        verify_and_serve deps clock p method prepared replay

    unfoldable pub answer_payload :
        DataPlaneServeDeps
        → ℤ
        → ProxyRequestPayload
        → Option JtiReplayCache
        → ProxyResponsePayload × Option JtiReplayCache
    answer_payload deps clock p replay =
        let method = to_upper_case (or_else p.method (codes "GET")) in
        when_prepared deps clock p method replay (prepared_of p method)

    -- resolveProxyResponse
    unfoldable pub resolve_proxy_response :
        DataPlaneServeDeps
        → ℤ
        → SecureSession
        → List ℕ
        → Option JtiReplayCache
        → Result PlaneError ProxyResponsePayload × Option JtiReplayCache
    resolve_proxy_response deps clock session request_frame replay =
        elim (open_request session request_frame) [
          | err e ↦ (ok (error bad_request e), replay)
          | ok opened ↦ elim (read_payload opened.0 (opened.1, opened.2)) [
            | err e ↦ (err e, replay)
            | ok p ↦
                let (response, after) = answer_payload deps clock p replay in (ok response, after)
          ]
        ]

    -- What serveDataConnection sends for the request frame, at the random `nonce`.
    unfoldable pub answer_frame :
        (List ℕ → Text)
        → DataPlaneServeDeps
        → (PlaneError → Text)
        → ℤ
        → List ℕ
        → SecureSession
        → List ℕ
        → Option JtiReplayCache
        → Result PlaneError (List ℕ) × Option JtiReplayCache
    answer_frame to_base64 deps message clock nonce session request_frame replay =
        let (response, after) = resolve_proxy_response deps clock session request_frame replay in
        (
          response >>= λ r. map_err channel_error (
              seal_frame aead session.send_key FrameType.data_frame (pos 0)
                (json.stringify (obj (response_fields to_base64 message r))) nonce),
          after,
        )
