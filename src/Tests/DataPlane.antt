-- ===== src/Tests/DataPlane.antt =====
-- src/tunnel/data-plane.ts on a payload with the ticket of Tests/Requests.
use consensus_node.Base.{
  ℕ, ◌≡◌, ap, false, List, [], ◌∷◌, Option, none, some, Result, ok, Text, codes,
}
use consensus_node.Base.Int.{pos}
use consensus_node.Base.Case.{to_upper_case, upper_char}
use consensus_node.Runtime.Url.{Url}
use consensus_node.Runtime.Serve.{ProxyResult}
use consensus_node.Tickets.Replay.{new_cache, JtiReplayCache}
use consensus_node.Tickets.Request.{VerifiedRequestTicket, RequestError}
use consensus_node.Tunnel.DataPlane.{
  ProxyRequestPayload, DataPlaneServeDeps, proxy_response, dedupe_params, served_request,
  decode_body,
}
use consensus_node.Tunnel.DataPlane.Resolve.{
  prepared_of, ticket_call, when_verified, verify_and_serve, answer_payload,
}
use consensus_node.Tunnel.DataPlane.Served.{IsServed, answer_payload-IsServed}
use consensus_node.Tests.Instances.{aead, signatures, base64url}
use consensus_node.Tests.StackJson.{json_codec}
use consensus_node.Tests.Requests.{urls, digest, options, spent_cache, granted_once}

abbrev page : ProxyResult
page = record {
  status = 200;
  status_text = codes "OK";
  headers = [];
  body = 1 ∷ 2 ∷ [];
  cached = false;
  profile_hash = none;
}

abbrev pub deps : DataPlaneServeDeps
deps = record { node_id = codes "node-1"; pinned_key = 7; serve = λ r. ok page }

abbrev payload : ProxyRequestPayload
payload = record {
  token = options.token;
  target_url = codes "api.test";
  method = some (codes "get");
  headers = none;
  body = none;
  is_base64 = false;
  profile = none;
}

abbrev from_base64 : Text → List ℕ
from_base64 s = s

abbrev pub parse_local : Text → Option Url
parse_local s = none

served_payload :
    answer_payload from_base64 aead signatures base64url json_codec digest urls parse_local deps
      (pos 1001)
      payload
      (some (new_cache 3))
    ≡ (proxy_response page, some spent_cache)
unfolding answer_payload verify_and_serve prepared_of dedupe_params served_request ticket_call
    to_upper_case upper_char decode_body
served_payload =
    ap
      (λ (q : Result RequestError VerifiedRequestTicket × Option JtiReplayCache).
        when_verified deps (served_request from_base64 payload (codes "GET") none) q)
      granted_once

answer_payload-IsServed_example :
    IsServed from_base64 aead signatures base64url json_codec digest urls parse_local deps
      (pos 1001)
      payload
      (some (new_cache 3))
      (some spent_cache)
      page
answer_payload-IsServed_example =
    answer_payload-IsServed from_base64 aead signatures base64url json_codec digest urls parse_local
      deps (pos 1001) payload (some (new_cache 3)) (some spent_cache) page served_payload
