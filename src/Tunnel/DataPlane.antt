-- ===== src/Tunnel/DataPlane.antt =====
-- src/tunnel/data-plane.ts: one request of a client that is connected directly, on both sides of a
-- session. The serve function and what an error says are parameters; the replay cache goes in and
-- comes out.
pub mod Asked
pub mod Resolve
pub mod Served
pub mod Connection
use consensus_node.Base.{
  ℕ, Text, codes, utf8, Bool, true, false, not, List, [], ◌∷◌, Option, none, some, ◌==◌, nat_eq,
  text_eq, if◌then◌else◌, Result, ok, err, ◌>>=◌, ◌>>◌, guard, map_err, or_else, or_throw,
}
use mathlib.Core.Option
use consensus_node.Base.Int.{ℤ, pos}
use consensus_node.Base.Case.{to_upper_case}
use consensus_node.Base.Json.{
  Json, null, bool, num, str, arr, obj, Fields, end, field, JsonCodec, property, as_text, lookup,
}
use consensus_node.Crypto.Primitives.{Aead, Signatures, Base64Url}
use consensus_node.Crypto.Channel.{ChannelError, SecureSession, seal_frame, open_frame}
use consensus_node.Runtime.Url.{Url, UrlApi}
use consensus_node.Runtime.Dedupe.{RequestBody, no_body, buffer, Headers, DedupeParams}
use consensus_node.Runtime.Profile.{ProxyExecutionProfileV1, ProfileError}
use consensus_node.Runtime.Profile.Prepared.{PreparedProxyProfileV1, prepare_proxy_profile_request}
use consensus_node.Runtime.Serve.{ProxyResult}
use consensus_node.Tickets.Replay.{JtiReplayCache}
use consensus_node.Tickets.Request.{
  VerifyRequestTicketOptions, VerifiedRequestTicket, RequestError, verify_request_ticket,
}
use consensus_node.Tunnel.FrameType
use consensus_node.Tunnel.Messages.{opt, opt_text}

-- A profile is not checked yet, so it is JSON here.
pub record ProxyRequestPayload : Type 0 where
  pub token : Text
  pub target_url : Text
  pub method : Option Text
  pub headers : Option Headers
  pub body : Option Text
  pub is_base64 : Bool
  pub profile : Option Json

pub record ProxyServeRequest : Type 0 where
  pub target_url : Text
  pub method : Text
  pub headers : Headers
  pub body : Option (List ℕ)
  pub profile : Option ProxyExecutionProfileV1

pub data PlaneError : Type 0 where
  channel_error : ChannelError → PlaneError
  unexpected_frame_type syntax_error not_an_object invalid_payload ill_typed : PlaneError
  profile_error : ProfileError → PlaneError
  request_error : RequestError → PlaneError
  upstream : ℕ → PlaneError

-- The codes of an error response.
pub data RefusalCode : Type 0 where
  bad_request unauthorized upstream_error : RefusalCode

pub data ProxyResponsePayload : Type 0 where
  proxy_response : ProxyResult → ProxyResponsePayload
  error : RefusalCode → PlaneError → ProxyResponsePayload

pub record DataPlaneServeDeps : Type 0 where
  pub node_id : Text
  pub pinned_key : ℕ
  pub serve : ProxyServeRequest → Result ℕ ProxyResult

-- `Record<string, string>`
abbrev text_pairs : Fields → Option Headers
text_pairs end = some []
text_pairs (field k (str v) fs) = Option.map (λ hs. (k, v) ∷ hs) (text_pairs fs)
text_pairs (field k _ fs) = none

-- An optional field of a declared type: undefined and null are absent (`??` and `== null`).
abbrev optional_text : Option Json → Result PlaneError (Option Text)
optional_text none = ok none
optional_text (some null) = ok none
optional_text (some (str s)) = ok (some s)
optional_text (some _) = err ill_typed

abbrev optional_headers : Option Json → Result PlaneError (Option Headers)
optional_headers none = ok none
optional_headers (some null) = ok none
optional_headers (some (obj fs)) = or_throw (Option.map some (text_pairs fs)) ill_typed
optional_headers (some _) = err ill_typed

-- `payload.profile ? … : undefined`
abbrev pub truthy : Json → Bool
truthy null = false
truthy (bool b) = b
truthy (num n) = not (is_zero n)
  where
    is_zero : ℤ → Bool
    is_zero (pos n) = n == 0
    is_zero _ = false
truthy (str s) = not (s == [])
truthy _ = true

abbrev profile_of : Option Json → Option Json
profile_of none = none
profile_of (some v) = if truthy v then some v else none

-- The three fields that the code tests.
unfoldable pub check_payload : Json → Result PlaneError (Text × Text)
check_payload v = do
  type ← property not_an_object (codes "type") v
  guard (or_else (as_text type) [] == codes "proxy_request") invalid_payload
  token ← property not_an_object (codes "token") v
  target ← property not_an_object (codes "target_url") v
  token_text ← or_throw (as_text token) invalid_payload
  target_text ← or_throw (as_text target) invalid_payload
  ok (token_text, target_text)

-- The fields that the code only casts: a payload where one of them has not its declared type is
-- left out of the model, as `ill_typed`.
unfoldable pub read_payload : Json → Text × Text → Result PlaneError ProxyRequestPayload
read_payload v checked = do
  method ← property not_an_object (codes "method") v
  method_text ← optional_text method
  headers ← property not_an_object (codes "headers") v
  header_pairs ← optional_headers headers
  body ← property not_an_object (codes "body") v
  body_text ← optional_text body
  encoding ← property not_an_object (codes "body_encoding") v
  profile ← property not_an_object (codes "profile") v
  ok (record {
    token = checked.0;
    target_url = checked.1;
    method = method_text;
    headers = header_pairs;
    body = body_text;
    is_base64 = or_else (as_text encoding) [] == codes "base64";
    profile = profile_of profile;
  })

abbrev pub body_bytes : Option (List ℕ) → RequestBody
body_bytes none = no_body
body_bytes (some b) = buffer b

abbrev pub code_text : RefusalCode → Text
code_text bad_request = codes "bad_request"
code_text unauthorized = codes "unauthorized"
code_text upstream_error = codes "upstream_error"

abbrev pub header_fields : Headers → Fields
header_fields [] = end
header_fields ((k, v) ∷ hs) = field k (str v) (header_fields hs)

-- `Buffer.from(text, "base64")` and `toString("base64")`
module _ (from_base64 : Text → List ℕ) where
  unfoldable pub decode_body : Option Text → Bool → Option (List ℕ)
  decode_body none is_base64 = none
  decode_body (some body) is_base64 = some (if is_base64 then from_base64 body else utf8 body)

  -- The dedupe parameters and the method of a payload, once its profile is prepared.
  unfoldable pub dedupe_params :
      ProxyRequestPayload → Text → Option PreparedProxyProfileV1 → DedupeParams
  dedupe_params p method prepared = record {
    target_url = p.target_url;
    method = method;
    headers = or_else (Option.map PreparedProxyProfileV1.headers prepared) (or_else p.headers []);
    body = body_bytes (decode_body p.body p.is_base64);
    profile_hash = Option.map PreparedProxyProfileV1.profile_hash prepared;
  }

  unfoldable pub served_request :
      ProxyRequestPayload → Text → Option PreparedProxyProfileV1 → ProxyServeRequest
  served_request p method prepared = record {
    target_url = p.target_url;
    method = method;
    headers = or_else (Option.map PreparedProxyProfileV1.headers prepared) (or_else p.headers []);
    body = decode_body p.body p.is_base64;
    profile = Option.map PreparedProxyProfileV1.profile prepared;
  }

module _ (to_base64 : List ℕ → Text) where
  unfoldable pub response_fields : (PlaneError → Text) → ProxyResponsePayload → Fields
  response_fields message (proxy_response r) = field (codes "type") (str (codes "proxy_response")) (
      field (codes "status") (num (pos r.status)) (
        field (codes "status_text") (str r.status_text) (
          field (codes "headers") (obj (header_fields r.headers)) (
            field (codes "body") (str (to_base64 r.body)) (
              field (codes "body_encoding") (str (codes "base64")) (
                field (codes "cached") (bool r.cached)
                  (opt_text (codes "profile_hash") r.profile_hash end)))))))
  response_fields message (error code e) =
      field (codes "type") (str (codes "error")) (
        field (codes "code") (str (code_text code)) (field (codes "message") (str (message e)) end))
